-- ===== src/Reports/Tests.antt =====
-- Three runs of two tests.
use kiemchung_ibex_v.Base.{
  ℕ, ◌+◌, ◌-◌, ◌*◌, ◌/◌, ◌<◌, length, get_elem?, String, true, false, List, [], ◌∷◌, some, Result,
  ok, ◌≡◌, refl, arith, map, not, keep, Option,
}
use kiemchung_ibex_v.Base.Int.{pos}
use kiemchung_ibex_v.Metadata.{new as new_metadata}
use kiemchung_ibex_v.Reports.Html.{Rendered, output_results_html}
use kiemchung_ibex_v.Reports.Junit.{JunitReports, output_run_results_junit_xml}
use kiemchung_ibex_v.Reports.Junit.Entries.{case_of, named}
use kiemchung_ibex_v.Reports.Junit.PerSuite.{
  suite_cases, merged_cases, output_run_results_junit_xml-cases,
}
use kiemchung_ibex_v.Reports.Svg.{
  Shares, DashboardElement, dashboard_element, test_elements, create_svg_elements, calc_total_width,
  element_elements, group, to_elements,
}
use kiemchung_ibex_v.Reports.Svg.Layout.{create_svg_elements-placed}
use kiemchung_ibex_v.Reports.Totals.{complete, dashboard, test_summary_dict-totals}
use kiemchung_ibex_v.Base.Text.{has, join, split, str_ℕ}
use kiemchung_ibex_v.TestRunResult.{TestRunResult, new}
use kiemchung_ibex_v.Reports.{
  is_passing, pprint_dict, gen_test_run_result_text, create_test_summary_dict, dvsim_test_info,
  TestInfo,
}
use kiemchung_ibex_v.Reports.Collect.{describable}
use kiemchung_ibex_v.Reports.Coverage.{Floats}
use kiemchung_ibex_v.Reports.Main.{Outside, Written}
use kiemchung_ibex_v.Base.Dict.{Dict, lookup}
use kiemchung_ibex_v.Reports.PerName.{
  counts_of, runs, create_test_summary_dict-counts, dvsim_test_info-create_test_summary_dict,
}

abbrev good_run : TestRunResult
good_run = record new { passed = some true; testname = some "csr"; seed = some (pos 1) }

abbrev bad_run : TestRunResult
bad_run = record new { testname = some "csr"; seed = some (pos 2) }

abbrev other_run : TestRunResult
other_run = record new { passed = some true; testname = some "pmp"; seed = some (pos 1) }

abbrev tests : List TestRunResult
tests = good_run ∷ bad_run ∷ other_run ∷ []

abbrev relative_to : String → String → Result String
relative_to p dir = ok p

abbrev pct : ℕ → ℕ → String
pct n total = "66.67"

abbrev rate : ℕ → ℕ → ℕ × ℕ
rate n total = (n, total)

yaml_test : pprint_dict (("a", "x") ∷ ("long", "b:c\nd") ∷ []) ≡ "a:    x\nlong: |-\n  b:c\n  d\n"
unfolding pprint_dict join has split
yaml_test = refl

create_test_summary_dict-counts_example :
    ((counts_of (some "csr") (create_test_summary_dict tests)).passing
      ≡ runs true (some "csr") tests)
    × ((counts_of (some "csr") (create_test_summary_dict tests)).failing
        ≡ runs false (some "csr") tests)
create_test_summary_dict-counts_example = create_test_summary_dict-counts (some "csr") tests

dvsim_test_info-create_test_summary_dict_example :
    (infos : List (TestInfo (ℕ × ℕ))) × (dvsim_test_info rate (create_test_summary_dict tests)
      ≡ ok infos)
    × (map (λ i. i.name) infos ≡ map (λ e. e.0) (create_test_summary_dict tests))
dvsim_test_info-create_test_summary_dict_example =
    dvsim_test_info-create_test_summary_dict rate tests

tests-describable : describable relative_to tests ≡ true
unfolding gen_test_run_result_text
tests-describable = refl

-- Shares as whole numbers of hundredths
abbrev shares : Shares ℕ
shares = record {
  ratio = λ a b. 100 * a / b;
  add = λ a b. a + b;
  sub = λ a b. a - b;
  mul = λ a b. a * b;
  div = λ a b. a;
  less = λ a b. false;
  of_text = λ t. 1;
  truncate = λ a. pos a;
  one_decimal = λ a. str_ℕ a;
}

some_test : 0 < length tests
some_test = omega arith

abbrev all_metrics : Dict (Option ℕ)
all_metrics =
    ("covergroup", some 70)
    ∷ ("block", some 80)
    ∷ ("branch", some 60)
    ∷ ("statement", some 90)
    ∷ ("expression", some 50)
    ∷ ("toggle", some 40)
    ∷ ("fsm", some 30)
    ∷ ("assertion", some 20)
    ∷ []

metrics_complete : complete shares (some all_metrics) ≡ true
unfolding lookup
metrics_complete = refl

failing-describable : describable relative_to (keep (λ t. not (is_passing t)) tests) ≡ true
unfolding gen_test_run_result_text
failing-describable = refl

test_summary_dict-totals_example :
    (page : Rendered) × (output_results_html shares relative_to
        (new_metadata "/out")
        tests
        (create_test_summary_dict tests)
        (some all_metrics)
      ≡ ok page)
    × (map (λ r. r.name) page.test_rows ≡ map (λ e. e.0) (create_test_summary_dict tests))
    × (page.total_row.total_tests ≡ 3)
    × (page.total_row.passing ≡ 2)
    × (test_elements shares (create_test_summary_dict tests) ≡ ok (dashboard shares 2 3))
test_summary_dict-totals_example =
    test_summary_dict-totals shares relative_to (new_metadata "/out") (some all_metrics) tests
      some_test failing-describable metrics_complete

abbrev floats : Floats ℕ
floats = record {
  zero_f = 0;
  of_text = λ t. 1;
  add = λ a b. a + b;
  ratio = λ a b. 100 * a / b;
  percent_mean = λ a n. a / n;
}

abbrev outside : Outside (ℕ × ℕ) ℕ
outside = record {
  relative_to = relative_to;
  opens = λ path. true;
  read_report = λ path name. ok "name  Block\n";
  pct = pct;
  rate = rate;
  percent = λ a. a;
  floats = floats;
  shares = shares;
  svg_module_present = true;
}

csr_suite :
    case_of relative_to good_run ∷ case_of relative_to bad_run ∷ []
    ≡ map (case_of relative_to) (named relative_to (some "csr") tests)
csr_suite = refl

output_run_results_junit_xml-cases_example :
    (r : JunitReports) × (output_run_results_junit_xml relative_to
        (good_run ∷ [])
        (bad_run ∷ other_run ∷ [])
      ≡ ok r)
    × (map (λ suite. suite.name) r.test_suites ≡ map (λ e. e.0) (create_test_summary_dict tests))
    × (map (λ suite. suite.name) r.merged_test_suites
        ≡ map (λ e. e.0) (create_test_summary_dict tests))
    × (suite_cases relative_to (some "csr") r.test_suites
        ≡ case_of relative_to good_run ∷ case_of relative_to bad_run ∷ [])
    × (suite_cases relative_to (some "csr") r.merged_test_suites
        ≡ merged_cases relative_to (some "csr") (good_run ∷ bad_run ∷ []))
output_run_results_junit_xml-cases_example =
    output_run_results_junit_xml-cases relative_to (some "csr") (good_run ∷ [])
      (bad_run ∷ other_run ∷ []) tests-describable

abbrev boxes : List DashboardElement
boxes = dashboard_element "Total Tests" "3" 120 ∷ dashboard_element "Tests Passing" "66%" 120 ∷ []

create_svg_elements-placed_example :
    (width : ℕ) × (get_elem?
        (create_svg_elements (record { dashboard_elements = boxes; element_gap = 5 }))
        1
      ≡ some (
          group
            (some (185, 0))
            (to_elements (element_elements (dashboard_element "Tests Passing" "66%" 120)))))
    × (calc_total_width (record { dashboard_elements = boxes; element_gap = 5 }) ≡ pos width)
    × (width ≡ 365)
create_svg_elements-placed_example =
    create_svg_elements-placed 5 (dashboard_element "Total Tests" "3" 120 ∷ []) []
      (dashboard_element "Tests Passing" "66%" 120)
