-- ===== src/Metadata/TestList.antt =====
-- The tests of a regression, in metadata.py: `process_riscvdv_testlist`,
-- `process_directed_testlist` and `get_tests_and_counts`. The list of riscv-dv
-- (`process_regression_list`) is a parameter: it gives the entries for a selection and a number of
-- iterations. So are the entries of the YAML files of directed tests.
pub mod Positive
use kiemchung_ibex_v.Base.{
  String, Bool, true, false, not, ◌||◌, List, [], ◌∷◌, ◌++◌, Option, none, some, Result, ok, err,
  ErrorKind, ◌>>=◌, ◌>>◌, guard, traverse, any, keep, map, if◌then◌else◌, str_eq,
}
use kiemchung_ibex_v.Base.Dict.{Dict, insert}
use kiemchung_ibex_v.Base.Int.{ℤ, pos, is_positive, is_nonzero}
use kiemchung_ibex_v.Base.Text.{split}
use kiemchung_ibex_v.Base.Value.{Value, null, bool, int, str, list, dict, of_bool}
use kiemchung_ibex_v.DirectedTests.{Coercions, DTest, contains, import_model, test_entry}
use kiemchung_ibex_v.IbexCmd.{filter_tests_by_config}
use kiemchung_ibex_v.IbexConfig.{get_item, parse_config}
use kiemchung_ibex_v.Metadata.{RegressionMetadata}
use kiemchung_ibex_v.TestRunResult.{FilePath, TestType, riscvdv, directed}

-- What is read from outside
pub record TestSources : Type 0 where
  pub configs_yaml : Value
  pub process_regression_list : String → ℤ → Result (List (Dict Value))
  pub coercions : Coercions
  pub exists : FilePath → Bool
  pub parent : FilePath → FilePath
  pub read_yaml : FilePath → Result (List Value)

-- A test with its number of iterations and its kind, and its entry
abbrev pub Counted : Type 0
Counted = (String × ℤ × TestType) × Dict Value

abbrev pub is_empty {ℓ} : {A : Type ℓ} → List A → Bool
is_empty [] = true
is_empty (_ ∷ _) = false

abbrev pub selectors : RegressionMetadata → List String
selectors md = split b',' md.test

abbrev pub all_names : List String
all_names = "all" ∷ "all_riscvdv" ∷ "all_directed" ∷ "all_custom" ∷ []

-- `self.iterations or n`
unfoldable pub iterations_or : RegressionMetadata → ℤ → ℤ
iterations_or md n = elim md.iterations [ none ↦ n | some i ↦ if is_nonzero i then i else n ]

-- The entry of a selected test, with the iterations asked for; one with no iterations is left out.
-- The entries of a model are typed, so they have the keys that are read.
unfoldable pub matched : RegressionMetadata → DTest → List (Dict Value)
unfolding iterations_or
matched md t =
    let n = iterations_or md t.iterations in
    if is_positive n then insert "iterations" (int n) (test_entry t) ∷ [] else []

-- The loop over the tests of a model; `always` are the names that select every test.
unfoldable pub match_tests : RegressionMetadata → List String → List DTest → List (Dict Value)
unfolding matched
match_tests md always [] = []
match_tests md always (t ∷ ts) =
    let rest = match_tests md always ts in
    if any (contains (selectors md)) (always ++ t.test ∷ []) then matched md t ++ rest else rest

-- The check of the form of an entry
unfoldable pub count_test : TestType → Dict Value → Result Counted
count_test kind test = do
  name ← get_item "test" test
  iterations ← get_item "iterations" test
  elim name [
    | str name ↦ elim iterations [
      | int n ↦ do guard (is_positive n) ErrorKind.assertion_error ""; ok ((name, n, kind), test)
      | bool b ↦ do
        guard (is_positive (of_bool b)) ErrorKind.assertion_error ""
        ok ((name, of_bool b, kind), test)
      | _ ↦ err ErrorKind.assertion_error ""
    ]
    | _ ↦ err ErrorKind.assertion_error ""
  ]

module _ (s : TestSources) (md : RegressionMetadata) where
  unfoldable pub process_riscvdv_testlist : Result (List (Dict Value))
  unfolding iterations_or
  process_riscvdv_testlist =
      s.process_regression_list
        (if any (contains (selectors md)) ("all_riscvdv" ∷ "all" ∷ []) then "all" else md.test)
        (iterations_or md (pos 0))

  -- `import_model`, or `import_selected_model` for the tests named
  unfoldable pub import_tests : FilePath → Bool → Result (List DTest)
  import_tests yaml whole = do
    yaml_data ← s.read_yaml yaml
    let selected_tests = keep (λ x. not (contains all_names x)) (selectors md)
    m ←
        import_model s.coercions s.exists s.parent yaml yaml_data
          (if whole then none else some selected_tests)
    ok m.tests

  -- The tests of the custom list, if there is one
  unfoldable pub custom_tests : Result (List (Dict Value))
  unfolding import_tests match_tests
  custom_tests =
      let always = "all_directed" ∷ "all_custom" ∷ [] in
      elim (s.exists md.custom_test_data) [
        | false ↦ ok []
        | true ↦ do
          ts ← import_tests md.custom_test_data (any (contains (selectors md)) always)
          ok (match_tests md always ts)
      ]

  unfoldable pub directed_tests : Result (List (Dict Value))
  unfolding import_tests match_tests
  directed_tests = do
    ts ← import_tests md.directed_test_data (contains (selectors md) "all_directed")
    ok (match_tests md ("all_directed" ∷ []) ts)

  -- Only where there is a custom list does `all_custom` leave out the others.
  unfoldable pub process_directed_testlist : Result (List (Dict Value))
  unfolding custom_tests directed_tests
  process_directed_testlist = do
    custom ← custom_tests
    elim (s.exists md.custom_test_data) [
      | true ↦
          if contains (selectors md) "all_custom"
          then ok custom
          else do others ← directed_tests; ok (custom ++ others)
      | false ↦ do others ← directed_tests; ok (custom ++ others)
    ]

  unfoldable pub filtered : List (Dict Value) → Result (List (Dict Value))
  filtered tests = do
    cfg ← parse_config md.ibex_config s.configs_yaml
    filter_tests_by_config cfg tests

  -- The directed tests that are matched: they are read only if they are asked for, or if there is
  -- no other.
  unfoldable pub matched_directed : List (Dict Value) → Result (List (Dict Value))
  unfolding process_directed_testlist
  matched_directed riscvdv_matched =
      if any (contains (selectors md)) ("all_directed" ∷ "all_custom" ∷ [])
        || is_empty riscvdv_matched
      then process_directed_testlist
      else ok []

  unfoldable pub get_tests_and_counts : Result (List Counted)
  unfolding process_riscvdv_testlist matched_directed filtered count_test
  get_tests_and_counts = do
    riscvdv_matched ← process_riscvdv_testlist
    directed_matched ← matched_directed riscvdv_matched
    guard (not (is_empty (riscvdv_matched ++ directed_matched))) ErrorKind.runtime_error
        "No matching tests found in testlists."
    riscvdv_filtered ← filtered riscvdv_matched
    directed_filtered ← filtered directed_matched
    riscvdv_tests ← traverse (count_test riscvdv) riscvdv_filtered
    directed_tests ← traverse (count_test directed) directed_filtered
    ok (riscvdv_tests ++ directed_tests)
