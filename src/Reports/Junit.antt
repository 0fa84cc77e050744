-- ===== src/Reports/Junit.antt =====
-- report_lib/junit_xml.py (dv/uvm/core_ibex/scripts): the test suites of both JUnit reports, with the
-- cases and suites of the junit_xml library as records. Their XML is written by that library.
pub mod Entries
pub mod PerSuite
use kiemchung_ibex_v.Base.{
  String, ◌<>◌, Bool, List, [], ◌∷◌, ◌++◌, Option, some, Result, ok, err, ◌>>=◌, map, if◌then◌else◌,
}
use kiemchung_ibex_v.Reports.{gen_test_run_result_text, is_passing, name_eq, run_name}
use kiemchung_ibex_v.TestRunResult.{TestRunResult, FilePath}

-- `junit_xml.TestCase`, with the outputs of its failures
pub record TestCase : Type 0 where
  pub name : Option String
  pub stdout : String
  pub failures : List String

-- `junit_xml.TestSuite`
pub record TestSuite : Type 0 where
  pub name : Option String
  pub test_cases : List TestCase

-- What `test_suite_info` holds for a name
pub record SuiteInfo : Type 0 where
  pub unmerged : List TestCase
  pub merged_stdout : String
  pub merged_failures : String

abbrev pub SuiteInfos : Type 0
SuiteInfos = List (Option String × SuiteInfo)

abbrev pub no_info : SuiteInfo
no_info = record { unmerged = []; merged_stdout = ""; merged_failures = "" }

unfoldable pub test_case : TestRunResult → String → TestCase
test_case trr result_text = record {
  name = some (run_name trr);
  stdout = result_text;
  failures = if is_passing trr then [] else result_text ∷ [];
}

-- What one run adds to the entry of its name
unfoldable pub extend : TestRunResult → String → SuiteInfo → SuiteInfo
unfolding test_case
extend trr result_text info = record {
  unmerged = info.unmerged ++ test_case trr result_text ∷ [];
  merged_stdout = info.merged_stdout <> (result_text <> "\n");
  merged_failures =
      if is_passing trr then info.merged_failures else info.merged_failures <> result_text;
}

-- `setdefault`, and what is added to the entry
unfoldable pub add_result : TestRunResult → String → SuiteInfos → SuiteInfos
unfolding extend
add_result trr result_text [] = (trr.testname, extend trr result_text no_info) ∷ []
add_result trr result_text ((n, info) ∷ infos) =
    let rest = add_result trr result_text infos in
    if name_eq n trr.testname then (n, extend trr result_text info) ∷ infos else (n, info) ∷ rest

-- The two reports
pub record JunitReports : Type 0 where
  pub test_suites : List TestSuite
  pub merged_test_suites : List TestSuite

unfoldable pub merged_case : Option String → SuiteInfo → TestCase
merged_case name info = record {
  name = name;
  stdout = info.merged_stdout;
  failures = info.merged_failures ∷ [];
}

unfoldable pub suites_of : SuiteInfos → JunitReports
unfolding merged_case
suites_of infos = record {
  test_suites = map (λ (name, info). record { name = name; test_cases = info.unmerged }) infos;
  merged_test_suites =
      map (λ (name, info). record { name = name; test_cases = merged_case name info ∷ [] }) infos;
}

module _ (relative_to : FilePath → FilePath → Result String) where
  -- The loop over the tests
  unfoldable pub add_results : List TestRunResult → SuiteInfos → Result SuiteInfos
  unfolding add_result
  add_results [] infos = ok infos
  add_results (trr ∷ tests) infos = do
    result_text ← gen_test_run_result_text relative_to trr
    add_results tests (add_result trr result_text infos)

  -- `output_run_results_junit_xml`, up to the XML
  unfoldable pub output_run_results_junit_xml :
      List TestRunResult → List TestRunResult → Result JunitReports
  unfolding add_results suites_of
  output_run_results_junit_xml passing_tests failing_tests = do
    infos ← add_results (passing_tests ++ failing_tests) []
    ok (suites_of infos)
