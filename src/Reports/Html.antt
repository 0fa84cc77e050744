-- ===== src/Reports/Html.antt =====
-- report_lib/html.py (dv/uvm/core_ibex/scripts): what the template of the page is given, and what the
-- template, regression_report.tpl.html beside it, puts into the page. The mako library puts the parts
-- together. The date is a text.
use kiemchung_ibex_v.Base.{
  ℕ, ◌+◌, ◌==◌, String, ◌<>◌, List, [], ◌∷◌, ◌++◌, Option, none, some, not, map, keep, traverse,
  Result, ok, err, ErrorKind, ◌>>=◌, if◌then◌else◌,
}
use kiemchung_ibex_v.Base.Dict.{Dict}
use kiemchung_ibex_v.Metadata.{RegressionMetadata}
use kiemchung_ibex_v.Reports.{Summary, gen_test_run_result_text, is_passing}
use kiemchung_ibex_v.Reports.Svg.{Shares, css_red_green_gradient, pct_str, cov_value}
use kiemchung_ibex_v.TestRunResult.{FilePath, TestRunResult}
use Prim.Native.String.{slice}

-- An item of `test_summaries`
pub record TestSummary (F : Type 0) : Type 0 where
  pub name : Option String
  pub passing : ℕ
  pub total_tests : ℕ
  pub pass_rate : F

-- The arguments of `report_template.render`, but for the functions
pub record Page (F : Type 0) : Type 0 where
  pub run_datetime : String
  pub sha1 : String
  pub test_summaries : List (TestSummary F)
  pub cov_summary : Option (Dict (Option F))
  pub passing_tests_acc : ℕ
  pub total_tests_acc : ℕ
  pub pass_rate_acc : F
  pub all_tests : List TestRunResult

-- A row of the table of the tests
pub record Row : Type 0 where
  pub name : Option String
  pub passing : ℕ
  pub total_tests : ℕ
  pub style : String
  pub pct : String

-- What the page shows
pub record Rendered : Type 0 where
  pub run_datetime : String
  pub sha1 : String
  pub short_sha1 : String
  pub test_rows : List Row
  pub total_row : Row
  pub cov_cells : List (String × String)
  pub failure_details : List String

module _ {F : Type 0} (s : Shares F) where
  unfoldable pub pct_style : F → String
  pct_style pct_val = "background-color: " <> css_red_green_gradient s pct_val <> ";"

  -- Where the loop over the summary is: `test_summaries`, `total_tests_acc`, `passing_tests_acc`
  abbrev pub Totals : Type 0
  Totals = List (TestSummary F) × ℕ × ℕ

  -- The loop; the quotient raises for a test without runs.
  unfoldable pub summarise : Summary → Totals → Result Totals
  summarise [] totals = ok totals
  summarise ((test_name, counts) ∷ summary) (test_summaries, total_tests_acc, passing_tests_acc) =
      let total_tests = counts.passing + counts.failing in
      let rest = summarise summary (
        test_summaries
            ++ record {
              name = test_name;
              passing = counts.passing;
              total_tests = total_tests;
              pass_rate = s.ratio counts.passing total_tests;
            }
              ∷ [],
        total_tests_acc + total_tests,
        passing_tests_acc + counts.passing,
      ) in
      if total_tests == 0 then err ErrorKind.zero_division_error "division by zero" else rest

  -- The arguments of `report_template.render`, which `output_results_html` computes
  unfoldable pub page_of :
      RegressionMetadata → List TestRunResult → Summary → Option (Dict (Option F)) → Result (Page F)
  unfolding summarise
  page_of md all_tests test_summary_dict cov_summary_dict = do
    totals ← summarise test_summary_dict ([], 0, 0)
    if totals.1 == 0
        then err ErrorKind.zero_division_error "division by zero"
        else ok (record {
          run_datetime = md.creation_datetime;
          sha1 = md.git_commit;
          test_summaries = totals.0;
          cov_summary = cov_summary_dict;
          passing_tests_acc = totals.2;
          total_tests_acc = totals.1;
          pass_rate_acc = s.ratio totals.2 totals.1;
          all_tests = all_tests;
        })

  unfoldable pub test_row : TestSummary F → Row
  unfolding pct_style pct_str
  test_row test = record {
    name = test.name;
    passing = test.passing;
    total_tests = test.total_tests;
    style = pct_style test.pass_rate;
    pct = pct_str s test.pass_rate;
  }

  -- A cell of the table of the coverage
  unfoldable pub cov_cell : Dict (Option F) → String → Result (String × String)
  unfolding pct_style pct_str cov_value
  cov_cell cov_summary metric = do
    value ← cov_value s cov_summary metric
    ok (pct_style value, pct_str s value)

  abbrev pub cov_columns : List String
  cov_columns =
      "covergroup" ∷ "block" ∷ "branch" ∷ "statement" ∷ "expression" ∷ "toggle" ∷ "fsm"
      ∷ "assertion" ∷ []

  -- A coverage summary that is not there, or is empty, has no table.
  unfoldable pub cov_row : Option (Dict (Option F)) → Result (List (String × String))
  unfolding cov_cell
  cov_row none = ok []
  cov_row (some []) = ok []
  cov_row (some (entry ∷ cov_rest)) = traverse (cov_cell (entry ∷ cov_rest)) cov_columns

  module _ (relative_to : FilePath → FilePath → Result String) where
    -- The template
    unfoldable pub render : Page F → Result Rendered
    unfolding test_row cov_row pct_style pct_str
    render page = do
      cov ← cov_row page.cov_summary
      texts ←
          traverse (gen_test_run_result_text relative_to)
            (keep (λ t. not (is_passing t)) page.all_tests)
      ok (record {
        run_datetime = page.run_datetime;
        sha1 = page.sha1;
        short_sha1 = slice page.sha1 0 7;
        test_rows = map test_row page.test_summaries;
        total_row = record {
          name = some "Total";
          passing = page.passing_tests_acc;
          total_tests = page.total_tests_acc;
          style = pct_style page.pass_rate_acc;
          pct = pct_str s page.pass_rate_acc;
        };
        cov_cells = cov;
        failure_details = texts;
      })

    unfoldable pub output_results_html :
        RegressionMetadata
        → List TestRunResult
        → Summary
        → Option (Dict (Option F))
        → Result Rendered
    unfolding page_of render
    output_results_html md all_tests test_summary_dict cov_summary_dict = do
      page ← page_of md all_tests test_summary_dict cov_summary_dict
      render page
