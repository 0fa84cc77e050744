-- ===== src/Reports/Junit/PerSuite.antt =====
-- The suites of the JUnit reports: one for each test name, with the runs of that name.
use kiemchung_ibex_v.Base.{
  String, ◌<>◌, true, List, [], ◌∷◌, ◌++◌, Option, none, some, Result, ok, ◌>>=◌, map,
  if◌then◌else◌, ◌≡◌, refl, ap, ◌∙◌, arith,
}
use kiemchung_ibex_v.Reports.{
  is_passing, name_eq, count_run, count_runs, create_test_summary_dict, Summary,
}
use kiemchung_ibex_v.Reports.Collect.{describable}
use kiemchung_ibex_v.Reports.Junit.{
  TestCase, TestSuite, SuiteInfo, SuiteInfos, no_info, test_case, extend, add_result, suites_of,
  merged_case, JunitReports, output_run_results_junit_xml,
}
use kiemchung_ibex_v.Reports.PerName.{name_eq_iff}
use kiemchung_ibex_v.TestRunResult.{TestRunResult, FilePath}
use text.Mathlib.TextLemmas
use kiemchung_ibex_v.Reports.Junit.Entries.{
  info_of, names-add_result, text_of, case_of, texts, failure_texts, add_each, add_results-add_each,
  named, extend_all, info_of-add_each, failures-extend, extend_all-joined,
}

module _ (relative_to : FilePath → FilePath → Result String) where
  -- The suites of a name in each report
  abbrev pub suite_cases : Option String → List TestSuite → List TestCase
  suite_cases name [] = []
  suite_cases name (suite ∷ suites) =
      if name_eq suite.name name then suite.test_cases else suite_cases name suites

  abbrev pub cases_in : Option SuiteInfo → List TestCase
  cases_in none = []
  cases_in (some info) = info.unmerged

  suite_cases-suites_of :
      (name : Option String) (infos : SuiteInfos)
      → suite_cases name (suites_of infos).test_suites ≡ cases_in (info_of name infos)
  unfolding suites_of
  suite_cases-suites_of name [] = refl
  suite_cases-suites_of name ((n, info) ∷ infos) = ground (arith, suite_cases-suites_of name infos)

  -- The one case of a name in the merged report
  abbrev pub merged_cases : Option String → List TestRunResult → List TestCase
  merged_cases name [] = []
  merged_cases name (trr ∷ tests) =
      record {
        name = name;
        stdout = texts relative_to (trr ∷ tests);
        failures = failure_texts relative_to (trr ∷ tests) ∷ [];
      }
      ∷ []

  abbrev merged_in : Option String → Option SuiteInfo → List TestCase
  merged_in name none = []
  merged_in name (some info) = merged_case name info ∷ []

  merged-suites_of :
      (name : Option String) (infos : SuiteInfos)
      → suite_cases name (suites_of infos).merged_test_suites ≡ merged_in name (info_of name infos)
  unfolding suites_of merged_case
  merged-suites_of name [] = refl
  merged-suites_of name ((n, info) ∷ infos) =
      ground (arith, merged-suites_of name infos, name_eq_iff n name)

  found :
      (name : Option String) (tests : List TestRunResult)
      → (cases_in (extend_all relative_to tests none) ≡ map (case_of relative_to) tests)
        × (merged_in name (extend_all relative_to tests none) ≡ merged_cases name tests)
  unfolding extend_all extend merged_case test_case
  found name [] = (refl, refl)
  found name (trr ∷ tests) =
      let made =
        extend_all-joined relative_to tests (extend trr (text_of relative_to trr) no_info) in
      (
        ap cases_in made,
        ap (merged_in name) made ∙ (λ i.
            record {
              name = name;
              stdout =
                  TextLemmas.nil-append (text_of relative_to trr <> "\n") i
                  <> texts relative_to tests;
              failures =
                  (failures-extend relative_to trr tests ""
                      ∙ TextLemmas.nil-append (failure_texts relative_to (trr ∷ tests)))
                    i
                  ∷ [];
            }
            ∷ []),
      )

  names-add_each :
      (tests : List TestRunResult) (infos : SuiteInfos) (summary : Summary)
      → map (λ e. e.0) infos ≡ map (λ e. e.0) summary
      → map (λ e. e.0) (add_each relative_to tests infos)
        ≡ map (λ e. e.0) (count_runs tests summary)
  unfolding count_runs
  names-add_each [] infos summary h = h
  names-add_each (trr ∷ tests) infos summary h =
      names-add_each tests (add_result trr (text_of relative_to trr) infos)
        (count_run trr.testname (is_passing trr) summary)
        (names-add_result trr (text_of relative_to trr) (is_passing trr) infos summary h)

  suite_names :
      (infos : SuiteInfos)
      → map (λ suite. suite.name) (suites_of infos).test_suites ≡ map (λ e. e.0) infos
  unfolding suites_of
  suite_names [] = refl
  suite_names ((n, info) ∷ infos) = ap (λ (l : List (Option String)). n ∷ l) (suite_names infos)

  merged_suite_names :
      (infos : SuiteInfos)
      → map (λ suite. suite.name) (suites_of infos).merged_test_suites ≡ map (λ e. e.0) infos
  unfolding suites_of
  merged_suite_names [] = refl
  merged_suite_names ((n, info) ∷ infos) =
      ap (λ (l : List (Option String)). n ∷ l) (merged_suite_names infos)

  -- If the text of each run can be written, both reports have one suite for each name of the summary,
  -- in its order. The suite of a name has one case for each run of the name, in order, with its text,
  -- which is also the text of a failure exactly if the run does not pass. The merged suite has one
  -- case, whose output holds the texts of these runs and whose failure those of the runs that do not
  -- pass.
  pub output_run_results_junit_xml-cases :
      (name : Option String) (passing_tests failing_tests : List TestRunResult)
      → describable relative_to (passing_tests ++ failing_tests) ≡ true
      → (r : JunitReports) × (output_run_results_junit_xml relative_to passing_tests failing_tests
          ≡ ok r)
        × (map (λ suite. suite.name) r.test_suites
            ≡ map (λ e. e.0) (create_test_summary_dict (passing_tests ++ failing_tests)))
        × (map (λ suite. suite.name) r.merged_test_suites
            ≡ map (λ e. e.0) (create_test_summary_dict (passing_tests ++ failing_tests)))
        × (suite_cases name r.test_suites
            ≡ map (case_of relative_to) (named relative_to name (passing_tests ++ failing_tests)))
        × (suite_cases name r.merged_test_suites
            ≡ merged_cases name (named relative_to name (passing_tests ++ failing_tests)))
  unfolding output_run_results_junit_xml create_test_summary_dict
  output_run_results_junit_xml-cases name passing_tests failing_tests h =
      let tests = passing_tests ++ failing_tests in
      let infos = add_each relative_to tests [] in
      (
        suites_of infos,
        ap (λ (call : Result SuiteInfos). call >>= λ infos. ok (suites_of infos))
            (add_results-add_each relative_to tests [] h),
        suite_names infos ∙ names-add_each tests [] [] refl,
        merged_suite_names infos ∙ names-add_each tests [] [] refl,
        suite_cases-suites_of name infos
            ∙ ap cases_in (info_of-add_each relative_to name tests [])
            ∙ (found name (named relative_to name tests)).0,
        merged-suites_of name infos
            ∙ ap (merged_in name) (info_of-add_each relative_to name tests [])
            ∙ (found name (named relative_to name tests)).1,
      )
