-- ===== src/Reports.antt =====
-- The reports of a regression: collect_results.py and report_lib/ (dv/uvm/core_ibex/scripts), with
-- `pprint_dict` of scripts_lib.py. Floating-point percentages and `relative_to` of pathlib3x are
-- parameters.
pub mod Coverage
pub mod Dvsim
pub mod Html
pub mod Junit
pub mod Main
pub mod PerName
pub mod Svg
pub mod Totals
pub mod Written
pub mod Collect
mod Tests
use kiemchung_ibex_v.Base.{
  ℕ, ◌+◌, ◌-◌, max, String, ◌<>◌, Bool, true, false, ◌||◌, List, [], ◌∷◌, ◌++◌, Option, none, some,
  Result, ok, err, ErrorKind, ◌>>=◌, traverse, if◌then◌else◌, str_eq, ◌==◌, length, map, any,
}
use kiemchung_ibex_v.Base.Dict.{Dict, keys, insert}
use kiemchung_ibex_v.Base.Int.{ℤ}
use kiemchung_ibex_v.Base.Text.{has, join, lines, split, str_int}
use kiemchung_ibex_v.TestRunResult.{TestRunResult, FilePath, timeout}
use Prim.Native.String.{count}

-- `if trr.passed`
abbrev pub is_passing : TestRunResult → Bool
is_passing trr = elim trr.passed [ some true ↦ true | _ ↦ false ]

-- Runs of a test that pass and that fail
pub record Counts : Type 0 where
  pub passing : ℕ
  pub failing : ℕ

abbrev pub name_eq : Option String → Option String → Bool
name_eq (some a) (some b) = str_eq a b
name_eq none none = true
name_eq _ _ = false

-- A dictionary by test names, which may be `None`
abbrev pub Summary : Type 0
Summary = List (Option String × Counts)

abbrev pub add_run : Bool → Counts → Counts
add_run true c = record c { passing = c.passing + 1 }
add_run false c = record c { failing = c.failing + 1 }

-- The body of the loop: a name that is not there gets two zeros, and then one of them is raised.
unfoldable pub count_run : Option String → Bool → Summary → Summary
count_run name passed [] = (name, add_run passed (record { passing = 0; failing = 0 })) ∷ []
count_run name passed ((n, c) ∷ summary) =
    let rest = count_run name passed summary in
    if name_eq n name then (n, add_run passed c) ∷ summary else (n, c) ∷ rest

unfoldable pub count_runs : List TestRunResult → Summary → Summary
unfolding count_run
count_runs [] summary = summary
count_runs (test ∷ tests) summary =
    count_runs tests (count_run test.testname (is_passing test) summary)

unfoldable pub create_test_summary_dict : List TestRunResult → Summary
unfolding count_runs
create_test_summary_dict tests = count_runs tests []

-- `'-' * n` and `' ' * n`
repeat_text : ℕ → String → String
repeat_text ℕ.zero s = ""
repeat_text (ℕ.suc n) s = s <> repeat_text n s

-- `_yaml_value_format`, of a text
pub yaml_value_format : String → String
yaml_value_format val =
    if any (λ c. has c val) ("[" ∷ "]" ∷ ":" ∷ "'" ∷ "\"" ∷ "\n" ∷ [])
    then "|-\n" <> join "\n" (map (λ line. "  " <> line) (split b'\n' val))
    else val

abbrev key_length : List String → ℕ
key_length [] = 1
key_length (k ∷ ks) = max (count k) (key_length ks)

pprint_items : ℕ → Dict String → String
unfolding repeat_text yaml_value_format
pprint_items klen [] = ""
pprint_items klen ((k, v) ∷ d) =
    k
    <> ":"
    <> repeat_text (klen - count k) " "
    <> " "
    <> yaml_value_format v
    <> "\n"
    <> pprint_items klen d

-- `pprint_dict`, of texts
pub pprint_dict : Dict String → String
unfolding pprint_items
pprint_dict d = pprint_items (key_length (keys d)) d

abbrev text_or_none : Option String → String
text_or_none (some s) = s
text_or_none none = "None"

abbrev seed_or_none : Option ℤ → String
seed_or_none (some z) = str_int z
seed_or_none none = "None"

unfoldable pub run_name : TestRunResult → String
run_name trr = text_or_none trr.testname <> "." <> seed_or_none trr.seed

pub box_comment : String → String
unfolding repeat_text
box_comment line = let hr = repeat_text 80 "#" in hr <> "\n# " <> line <> "\n" <> hr

-- `pct` prints the percentage that two counts give.
module _ (pct : ℕ → ℕ → String) where
  -- The quotient of two whole numbers raises for a total of zero.
  unfoldable pub gen_summary_line : List TestRunResult → List TestRunResult → Result String
  gen_summary_line passing_tests failing_tests =
      let total_tests = length passing_tests + length failing_tests in
      if total_tests == 0
      then err ErrorKind.zero_division_error "division by zero"
      else ok (
          pct (length passing_tests) total_tests
          <> "% PASS "
          <> str_int (ℤ.pos (length passing_tests))
          <> " PASSED, "
          <> str_int (ℤ.pos (length failing_tests))
          <> " FAILED")

-- `relative_to p dir`
module _ (relative_to : FilePath → FilePath → Result String) where
  shown_path : TestRunResult → Option FilePath → Result String
  shown_path trr none = ok "MISSING"
  shown_path trr (some p) = elim trr.dir_test [
    | none ↦ err ErrorKind.type_error "None is no path"
    | some dir ↦ relative_to p dir
  ]

  unfoldable pub gen_test_run_result_text : TestRunResult → Result String
  unfolding shown_path repeat_text run_name pprint_dict
  gen_test_run_result_text trr = do
    binary ← shown_path trr trr.binary
    rtl_log ← shown_path trr trr.rtl_log
    rtl_trace ← shown_path trr trr.rtl_trace
    iss_cosim_trace ← shown_path trr trr.iss_cosim_trace
    let name = run_name trr
    let yaml = pprint_dict (
        ("binary", binary)
        ∷ ("rtl_log", rtl_log)
        ∷ ("rtl_trace", rtl_trace)
        ∷ ("iss_cosim_trace", iss_cosim_trace)
        ∷ [])
    let last = if is_passing trr then "\n[PASSED]" else text_or_none trr.failure_message
    ok ("\n" <> join "\n" (name ∷ repeat_text (count name) "-" ∷ lines yaml ++ last ∷ []) <> "\n")

  -- One part of the text report, and what it says where there are no tests
  pub details : String → String → List TestRunResult → Result String
  unfolding box_comment
  details title empty tests = do
    texts ← traverse gen_test_run_result_text tests
    let start = "\n" <> box_comment title <> "\n"
    ok (elim texts [
      | [] ↦ start <> empty <> "\n"
      | text ∷ rest ↦ start <> join "\n" (text ∷ rest) <> "\n"
    ])

module _ (relative_to : FilePath → FilePath → Result String) (pct : ℕ → ℕ → String) where
  unfoldable pub output_results_text :
      List TestRunResult → List TestRunResult → Dict String → Result String
  unfolding details
  output_results_text passing_tests failing_tests summary_dict = do
    summary ← gen_summary_line pct passing_tests failing_tests
    failing ←
        details relative_to "Details of failing tests" "No failing tests. Nice job!" failing_tests
    passing ←
        details relative_to "Details of passing tests" "No passing tests. Hmmmm..." passing_tests
    ok (summary <> "\n" <> pprint_dict summary_dict <> "\n" <> failing <> passing)

-- A test of the dvsim report: `rate` is its pass rate, a rounded floating-point number.
pub record TestInfo (Rate : Type 0) : Type 0 where
  pub name : Option String
  pub passing_runs : ℕ
  pub total_runs : ℕ
  pub pass_rate : Rate

module _ {Rate : Type 0} (rate : ℕ → ℕ → Rate) where
  test_info : Option String × Counts → Result (TestInfo Rate)
  test_info (test_name, counts) =
      let total = counts.passing + counts.failing in
      if total == 0
      then err ErrorKind.zero_division_error "division by zero"
      else ok (record {
        name = test_name;
        passing_runs = counts.passing;
        total_runs = total;
        pass_rate = rate counts.passing total;
      })

  -- The tests of `create_dvsim_report_dict`
  pub dvsim_test_info : Summary → Result (List (TestInfo Rate))
  unfolding test_info
  dvsim_test_info summary = traverse test_info summary

-- What the loop of `collect_results.main` gathers
pub record Gathered : Type 0 where
  pub summary_dict : Dict String
  pub passing_tests : List TestRunResult
  pub failing_tests : List TestRunResult

abbrev pub no_tests : Gathered
no_tests = record { summary_dict = []; passing_tests = []; failing_tests = [] }

-- `1 if failing_tests else 0`
abbrev pub exit_code : List TestRunResult → ℕ
exit_code [] = 0
exit_code (_ ∷ _) = 1

status : TestRunResult → String
status trr =
    if is_passing trr
    then "PASS"
    else "FAILED" <> elim trr.failure_mode [ some timeout ↦ " {T}" | _ ↦ "" ]

gather_one : TestRunResult → Gathered → Gathered
unfolding status run_name
gather_one trr g =
    let named = record g { summary_dict = insert (run_name trr) (status trr) g.summary_dict } in
    if is_passing trr
    then record named { passing_tests = g.passing_tests ++ trr ∷ [] }
    else record named { failing_tests = g.failing_tests ++ trr ∷ [] }

-- The loop over what loading each test gave. The handler of a `RuntimeError` makes a
-- `TestRunResult` with an argument that is no field: a `TypeError`.
unfoldable pub gather : List (Result TestRunResult) → Gathered → Result Gathered
unfolding gather_one
gather [] g = ok g
gather (ok trr ∷ rest) g = gather rest (gather_one trr g)
gather (err ErrorKind.runtime_error m ∷ rest) g =
    err ErrorKind.type_error "got an unexpected keyword argument 'name'"
gather (err kind m ∷ rest) g = err kind m
