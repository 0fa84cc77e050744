-- ===== src/Reports/Junit/Entries.antt =====
-- What the loop of the JUnit reports holds for each test name.
use kiemchung_ibex_v.Base.{
  String, ◌<>◌, Bool, true, List, [], ◌∷◌, ◌++◌, Option, none, some, Result, ok, err, map, keep,
  if◌then◌else◌, ◌≡◌, refl, sym, ◌∙◌, arith, append_assoc, append-nil, Bool-cases, inl, inr,
}
use kiemchung_ibex_v.Reports.{
  run_name, gen_test_run_result_text, is_passing, name_eq, count_run, Summary,
}
use kiemchung_ibex_v.Reports.Collect.{describable}
use kiemchung_ibex_v.Reports.Junit.{
  TestCase, SuiteInfo, SuiteInfos, no_info, test_case, extend, add_result, add_results,
}
use kiemchung_ibex_v.Reports.PerName.{name_eq_iff}
use kiemchung_ibex_v.TestRunResult.{TestRunResult, FilePath}
use text.Mathlib.TextLemmas

-- The entry of a name
abbrev pub info_of : Option String → SuiteInfos → Option SuiteInfo
info_of name [] = none
info_of name ((n, info) ∷ infos) = if name_eq n name then some info else info_of name infos

abbrev pub or_none : Option SuiteInfo → SuiteInfo
or_none none = no_info
or_none (some info) = info

pub info_of-add_result :
    (trr : TestRunResult) (text : String) (name : Option String) (infos : SuiteInfos)
    → info_of name (add_result trr text infos) ≡ (
        if name_eq trr.testname name
        then some (extend trr text (or_none (info_of name infos)))
        else info_of name infos)
unfolding add_result
info_of-add_result trr text name [] = refl
info_of-add_result trr text name ((n, info) ∷ infos) = ground (
  arith,
  info_of-add_result trr text name infos,
  name_eq_iff n trr.testname,
  name_eq_iff n name,
  name_eq_iff trr.testname name,
)

pub names-add_result :
    (trr : TestRunResult) (text : String) (passed : Bool) (infos : SuiteInfos) (summary : Summary)
    → map (λ e. e.0) infos ≡ map (λ e. e.0) summary
    → map (λ e. e.0) (add_result trr text infos)
      ≡ map (λ e. e.0) (count_run trr.testname passed summary)
unfolding add_result count_run
names-add_result trr text passed [] [] h = refl
names-add_result trr text passed [] (c ∷ summary) h = cc
names-add_result trr text passed (i ∷ infos) [] h = cc
names-add_result trr text passed ((m, i) ∷ infos) ((n, c) ∷ summary) h =
    ground (arith, h, names-add_result trr text passed infos summary)

module _ (relative_to : FilePath → FilePath → Result String) where
  -- The text of a run, where it can be written
  abbrev pub text_of : TestRunResult → String
  text_of trr = elim (gen_test_run_result_text relative_to trr) [ err _ _ ↦ "" | ok text ↦ text ]

  -- The case of a run: its text, which a run that does not pass also has as a failure
  abbrev pub case_of : TestRunResult → TestCase
  case_of trr = record {
    name = some (run_name trr);
    stdout = text_of trr;
    failures = if is_passing trr then [] else text_of trr ∷ [];
  }

  -- The texts of runs, each with a line end, and those of the runs that do not pass
  abbrev pub texts : List TestRunResult → String
  texts [] = ""
  texts (trr ∷ tests) = (text_of trr <> "\n") <> texts tests

  abbrev pub failure_texts : List TestRunResult → String
  failure_texts [] = ""
  failure_texts (trr ∷ tests) =
      if is_passing trr then failure_texts tests else text_of trr <> failure_texts tests

  abbrev pub add_each : List TestRunResult → SuiteInfos → SuiteInfos
  add_each [] infos = infos
  add_each (trr ∷ tests) infos = add_each tests (add_result trr (text_of trr) infos)

  pub add_results-add_each :
      (tests : List TestRunResult) (infos : SuiteInfos)
      → describable relative_to tests ≡ true
      → add_results relative_to tests infos ≡ ok (add_each tests infos)
  unfolding add_results
  add_results-add_each [] infos h = refl
  add_results-add_each (trr ∷ tests) infos h =
      ground (arith, h, add_results-add_each tests (add_result trr (text_of trr) infos))

  abbrev pub named : Option String → List TestRunResult → List TestRunResult
  named name = keep (λ trr. name_eq trr.testname name)

  unfoldable pub extend_all : List TestRunResult → Option SuiteInfo → Option SuiteInfo
  extend_all [] found = found
  extend_all (trr ∷ tests) found =
      extend_all tests (some (extend trr (text_of trr) (or_none found)))

  pub info_of-add_each :
      (name : Option String) (tests : List TestRunResult) (infos : SuiteInfos)
      → info_of name (add_each tests infos) ≡ extend_all (named name tests) (info_of name infos)
  unfolding extend_all
  info_of-add_each name [] infos = refl
  info_of-add_each name (trr ∷ tests) infos =
      info_of-add_each name tests (add_result trr (text_of trr) infos)
      ∙ (elim (Bool-cases (name_eq trr.testname name)) [
        | inl same ↦ rw (info_of-add_result trr (text_of trr) name infos, same) refl
        | inr other ↦ rw (info_of-add_result trr (text_of trr) name infos, other) refl
      ])

  abbrev pub joined : SuiteInfo → List TestRunResult → SuiteInfo
  joined info tests = record {
    unmerged = info.unmerged ++ map case_of tests;
    merged_stdout = info.merged_stdout <> texts tests;
    merged_failures = info.merged_failures <> failure_texts tests;
  }

  pub failures-extend :
      (trr : TestRunResult) (tests : List TestRunResult) (f : String)
      → (if is_passing trr then f else f <> text_of trr) <> failure_texts tests
        ≡ f <> failure_texts (trr ∷ tests)
  failures-extend trr tests f = elim (Bool-cases (is_passing trr)) [
    | inl passing ↦ rw (passing) refl
    | inr failing ↦ rw (failing) (TextLemmas.append_assoc f (text_of trr) (failure_texts tests))
  ]

  pub extend_all-joined :
      (tests : List TestRunResult) (info : SuiteInfo)
      → extend_all tests (some info) ≡ some (joined info tests)
  unfolding extend_all extend test_case
  extend_all-joined [] info = λ i. some (record {
    unmerged = sym (append-nil info.unmerged) i;
    merged_stdout = sym (TextLemmas.append-nil info.merged_stdout) i;
    merged_failures = sym (TextLemmas.append-nil info.merged_failures) i;
  })
  extend_all-joined (trr ∷ tests) info =
      extend_all-joined tests (extend trr (text_of trr) info) ∙ (λ i. some (record {
        unmerged = append_assoc info.unmerged (case_of trr ∷ []) (map case_of tests) i;
        merged_stdout =
            TextLemmas.append_assoc info.merged_stdout (text_of trr <> "\n") (texts tests) i;
        merged_failures = failures-extend trr tests info.merged_failures i;
      }))
