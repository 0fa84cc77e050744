-- ===== src/Reports/Totals.antt =====
-- The totals that the reports show.
use kiemchung_ibex_v.Base.{
  ℕ, suc, ◌+◌, ◌<◌, ◌==◌, String, Bool, true, false, not, List, [], ◌∷◌, ◌++◌, Option, none, some,
  Result, ok, is_ok, ok_value, ◌>>=◌, traverse, all, ◌&&◌, ◌∙◌, length, keep, map, ◌≡◌, refl, ap,
  arith, if◌then◌else◌, append_assoc, append-nil,
}
use kiemchung_ibex_v.Base.Dict.{Dict, lookup}
use Prim.Native.String.{slice}
use kiemchung_ibex_v.Base.Text.{str_ℕ}
use kiemchung_ibex_v.Metadata.{RegressionMetadata}
use kiemchung_ibex_v.Reports.{
  gen_test_run_result_text, is_passing, Summary, count_run, count_runs, create_test_summary_dict,
}
use kiemchung_ibex_v.Reports.Collect.{length_kept, describable, traverse-is_ok}
use kiemchung_ibex_v.Reports.Html.{
  Page, TestSummary, Rendered, summarise, page_of, test_row, cov_cell, cov_columns, cov_row,
  pct_style, render, output_results_html,
}
use kiemchung_ibex_v.Reports.PerName.{counted, counted-count_runs}
use kiemchung_ibex_v.Reports.Svg.{
  Shares, DashboardElement, dashboard_element, sum_passing, sum_failing, test_elements, pct_str,
  css_red_green_gradient, cov_value,
}
use kiemchung_ibex_v.TestRunResult.{FilePath, TestRunResult}

-- The runs of all entries that pass, and those that fail
abbrev pub all_passing : Summary → ℕ
all_passing [] = 0
all_passing ((n, c) ∷ summary) = c.passing + all_passing summary

abbrev pub all_failing : Summary → ℕ
all_failing [] = 0
all_failing ((n, c) ∷ summary) = c.failing + all_failing summary

sums_lem :
    (summary : Summary) (acc : ℕ)
    → (sum_passing acc summary ≡ acc + all_passing summary)
      × (sum_failing acc summary ≡ acc + all_failing summary)
sums_lem [] acc = (omega arith, omega arith)
sums_lem ((n, c) ∷ summary) acc = (
  omega (arith, (sums_lem summary (acc + c.passing)).0),
  omega (arith, (sums_lem summary (acc + c.failing)).1),
)

totals-count_run :
    (name : Option String) (passed : Bool) (summary : Summary)
    → (all_passing (count_run name passed summary)
        ≡ (if passed then 1 else 0) + all_passing summary)
      × (all_failing (count_run name passed summary)
          ≡ (if passed then 0 else 1) + all_failing summary)
unfolding count_run
totals-count_run name passed [] = ground arith
totals-count_run name passed ((n, c) ∷ summary) =
    ground (arith, totals-count_run name passed summary)

totals-count_runs :
    (tests : List TestRunResult) (summary : Summary)
    → (all_passing (count_runs tests summary)
        ≡ all_passing summary + length (keep is_passing tests))
      × (all_failing (count_runs tests summary)
          ≡ all_failing summary + length (keep (λ t. not (is_passing t)) tests))
unfolding count_runs
totals-count_runs [] summary = (omega arith, omega arith)
totals-count_runs (t ∷ tests) summary = ground (
  arith,
  totals-count_runs tests (count_run t.testname (is_passing t) summary),
  totals-count_run t.testname (is_passing t) summary,
)

pub and_left : (a b : Bool) → a && b ≡ true → a ≡ true
and_left true b h = refl
and_left false b h = h

pub and_right : (a b : Bool) → a && b ≡ true → b ≡ true
and_right true b h = h
and_right false b h = cc

module _ {F : Type 0} (s : Shares F) where
  -- The two elements for the tests
  abbrev pub dashboard : ℕ → ℕ → List DashboardElement
  dashboard passing total =
      dashboard_element "Total Tests" (str_ℕ total) 120
      ∷ record (dashboard_element "Tests Passing" (pct_str s (s.ratio passing total)) 120) {
        value_colour = css_red_green_gradient s (s.ratio passing total);
      }
      ∷ []

  test_elements-dashboard :
      (summary : Summary) (passing total : ℕ)
      → sum_passing 0 summary ≡ passing
      → passing + sum_failing 0 summary ≡ suc total
      → test_elements s summary ≡ ok (dashboard passing (suc total))
  unfolding test_elements
  test_elements-dashboard summary passing total e f =
      let nonzero : (suc total == 0) ≡ false = ground arith in rw (e, f, nonzero) refl

  summarise_lem :
      (summary : Summary) (infos : List (TestSummary F)) (total passing : ℕ)
      → counted summary ≡ true
      → (more : List (TestSummary F)) × (summarise s summary (infos, total, passing)
          ≡ ok (
            infos ++ more,
            total + (all_passing summary + all_failing summary),
            passing + all_passing summary,
          ))
        × (map (λ i. i.name) more ≡ map (λ e. e.0) summary)
  unfolding summarise
  summarise_lem [] infos total passing h = ([], ground (arith, append-nil infos), refl)
  summarise_lem ((n, c) ∷ summary) infos total passing h =
      let info : TestSummary F = record {
        name = n;
        passing = c.passing;
        total_tests = c.passing + c.failing;
        pass_rate = s.ratio c.passing (c.passing + c.failing);
      } in
      let (more, made, named) =
        summarise_lem summary (infos ++ info ∷ []) (total + (c.passing + c.failing))
          (passing + c.passing) (ground (arith, h)) in
      (
        info ∷ more,
        ground (arith, h, made, append_assoc infos (info ∷ []) more),
        ap (λ (l : List (Option String)). n ∷ l) named,
      )

  -- A coverage summary from which each report can be written: it is not there, or is empty, or all its
  -- values are there and each metric that is shown has one.
  abbrev pub valued : Dict (Option F) → String → Bool
  valued cov metric = elim (lookup metric cov) [ some (some v) ↦ true | _ ↦ false ]

  abbrev pub has_value : String × Option F → Bool
  has_value (cov_name, cov_value) = elim cov_value [ none ↦ false | some v ↦ true ]

  abbrev pub complete : Option (Dict (Option F)) → Bool
  complete none = true
  complete (some []) = true
  complete (some (entry ∷ cov)) =
      all has_value (entry ∷ cov) && all (valued (entry ∷ cov)) (cov_columns s)

  cov_cell_ok :
      (cov : Dict (Option F)) (metric : String)
      → valued cov metric ≡ true
      → is_ok (cov_cell s cov metric) ≡ true
  unfolding cov_cell cov_value
  cov_cell_ok cov metric h = ground (arith, h)

  cells_ok :
      (cov : Dict (Option F)) (metrics : List String)
      → all (valued cov) metrics ≡ true
      → is_ok (traverse (cov_cell s cov) metrics) ≡ true
  cells_ok cov [] h = refl
  cells_ok cov (metric ∷ metrics) h =
      ground (arith, h, cov_cell_ok cov metric, cells_ok cov metrics)

  pub cov_row_ok :
      (cov : Option (Dict (Option F))) → complete cov ≡ true → is_ok (cov_row s cov) ≡ true
  unfolding cov_row
  cov_row_ok none h = refl
  cov_row_ok (some []) h = refl
  cov_row_ok (some (entry ∷ cov)) h =
      cells_ok (entry ∷ cov) (cov_columns s)
        (and_right (all has_value (entry ∷ cov)) (all (valued (entry ∷ cov)) (cov_columns s)) h)

  -- The arguments of the template
  page_lem :
      (md : RegressionMetadata) (cov : Option (Dict (Option F))) (tests : List TestRunResult)
      → 0 < length tests
      → (page : Page F) × (page_of s md tests (create_test_summary_dict tests) cov ≡ ok page)
        × (map (λ i. i.name) page.test_summaries ≡ map (λ e. e.0) (create_test_summary_dict tests))
        × (page.total_tests_acc ≡ length tests)
        × (page.passing_tests_acc ≡ length (keep is_passing tests))
        × (page.cov_summary ≡ cov)
        × (page.all_tests ≡ tests)
  unfolding page_of create_test_summary_dict
  page_lem md cov [] h = let no : ⊥ = omega (arith, h) in elim no [ ]
  page_lem md cov (t ∷ ts) h =
      let tests = t ∷ ts in
      let summary = count_runs tests [] in
      let (p, f) = totals-count_runs tests [] in
      let total : all_passing summary + all_failing summary ≡ length tests =
        omega (arith, p, f, length_kept tests) in
      let (more, made, named) = summarise_lem summary [] 0 0 (counted-count_runs tests [] refl) in
      let page : Page F = record {
        run_datetime = md.creation_datetime;
        sha1 = md.git_commit;
        test_summaries = more;
        cov_summary = cov;
        passing_tests_acc = 0 + all_passing summary;
        total_tests_acc = 0 + (all_passing summary + all_failing summary);
        pass_rate_acc =
            s.ratio (0 + all_passing summary) (0 + (all_passing summary + all_failing summary));
        all_tests = tests;
      } in
      (
        page,
        ground (arith, made, total, h),
        named,
        omega (arith, total),
        omega (arith, p),
        refl,
        refl,
      )

  pub dashboard_lem :
      (tests : List TestRunResult)
      → 0 < length tests
      → test_elements s (create_test_summary_dict tests)
        ≡ ok (dashboard (length (keep is_passing tests)) (length tests))
  unfolding create_test_summary_dict
  dashboard_lem [] h = let no : ⊥ = omega (arith, h) in elim no [ ]
  dashboard_lem (t ∷ ts) h =
      let tests = t ∷ ts in
      let summary = count_runs tests [] in
      let (p, f) = totals-count_runs tests [] in
      let (sp, sf) = sums_lem summary 0 in
      test_elements-dashboard summary (length (keep is_passing tests)) (length ts)
        (omega (arith, sp, p)) (omega (arith, sf, p, f, length_kept tests))

  row_names :
      (infos : List (TestSummary F))
      → map (λ r. r.name) (map (test_row s) infos) ≡ map (λ i. i.name) infos
  unfolding test_row
  row_names [] = refl
  row_names (info ∷ infos) = ap (λ (l : List (Option String)). info.name ∷ l) (row_names infos)

  module _ (relative_to : FilePath → FilePath → Result String) where
    -- Of a regression with at least one run, where the texts of the runs that do not pass can be
    -- written and the coverage summary is not there, is empty, or has all values that are shown: the
    -- HTML page and the part of the dashboard for the tests can be written; the page has a row for each
    -- name of the summary, in order; and the totals of both are the number of the runs and of those
    -- that pass.
    pub test_summary_dict-totals :
        (md : RegressionMetadata) (cov : Option (Dict (Option F))) (tests : List TestRunResult)
        → 0 < length tests
        → describable relative_to (keep (λ t. not (is_passing t)) tests) ≡ true
        → complete cov ≡ true
        → (page : Rendered) × (output_results_html s relative_to md tests
              (create_test_summary_dict tests)
              cov
            ≡ ok page)
          × (map (λ r. r.name) page.test_rows ≡ map (λ e. e.0) (create_test_summary_dict tests))
          × (page.total_row.total_tests ≡ length tests)
          × (page.total_row.passing ≡ length (keep is_passing tests))
          × (test_elements s (create_test_summary_dict tests)
              ≡ ok (dashboard (length (keep is_passing tests)) (length tests)))
    unfolding output_results_html render
    test_summary_dict-totals md cov tests h shown covered =
        let (page, made, named, total, passing, same_cov, same_tests) = page_lem md cov tests h in
        let (cells, celled) = ok_value (cov_row s page.cov_summary) (
          ap (λ (c : Option (Dict (Option F))). is_ok (cov_row s c)) same_cov
          ∙ cov_row_ok cov covered) in
        let gen = gen_test_run_result_text relative_to in
        let (texts, written) =
          ok_value (traverse gen (keep (λ t. not (is_passing t)) page.all_tests)) (
            traverse-is_ok gen (keep (λ t. not (is_passing t)) page.all_tests) (
              ap
                (λ (ts : List TestRunResult).
                  describable relative_to (keep (λ t. not (is_passing t)) ts))
                same_tests
              ∙ shown)) in
        (
          record {
            run_datetime = page.run_datetime;
            sha1 = page.sha1;
            short_sha1 = slice page.sha1 0 7;
            test_rows = map (test_row s) page.test_summaries;
            total_row = record {
              name = some "Total";
              passing = page.passing_tests_acc;
              total_tests = page.total_tests_acc;
              style = pct_style s page.pass_rate_acc;
              pct = pct_str s page.pass_rate_acc;
            };
            cov_cells = cells;
            failure_details = texts;
          },
          ap (λ (call : Result (Page F)). call >>= render s relative_to) made
              ∙ rw (celled, written) refl,
          row_names page.test_summaries ∙ named,
          total,
          passing,
          dashboard_lem tests h,
        )
