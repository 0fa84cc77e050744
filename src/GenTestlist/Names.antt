-- ===== src/GenTestlist/Names.antt =====
-- The tests that the new list names.
use kiemchung_ibex_v.Base.{
  String, ◌<>◌, false, List, [], ◌∷◌, ◌++◌, none, some, ok, concat_map, concat_map-append,
  append-nil, if◌then◌else◌, ◌≡◌, refl, sym, ap, ◌∙◌, arith, Bool-cases, inl, inr, ◌==◌,
}
use Prim.Native.Char.{Char, code}
use Prim.Native.String
use text.Mathlib.TextLemmas.{nil-append, cons-append}
use kiemchung_ibex_v.Base.Regex.{literal, literal-append}
use kiemchung_ibex_v.Base.Text.{split}
use kiemchung_ibex_v.Base.Text.Lines.{unlines, unlines-append}
use kiemchung_ibex_v.GenTestlist.{
  Suite, extension, suite_entry, group_lines, test_names, append_directed_testlist,
  add_configs_and_handwritten_directed_tests, add_suite, is_wanted, main, riscv_tests,
  riscv_arch_tests, epmp_tests,
}
use kiemchung_ibex_v.GenTestlist.Handwritten.{
  configs, handwritten, handwritten_names, entry, mseccfg_entry, machine_tests, user_tests,
  pmp_entries,
}

-- The test that a line of the list begins
unfoldable pub names_in_line : String → List String
names_in_line line = elim (literal "- test: " (λ name. some name) line) [
  | none ↦ []
  | some name ↦ name ∷ []
]

-- The tests that a list names, in order
unfoldable pub listed_tests : String → List String
listed_tests text = concat_map names_in_line (split 10 text)

-- The lines that a suite adds
unfoldable pub suite_lines : (String → String) → String → Suite → List String
suite_lines popen add_tests s =
    if is_wanted add_tests s
    then "" ∷ ("# Test-suite: " <> s.test_suite_name) ∷ concat_map (group_lines popen s) s.tests
    else []

-- The tests of a suite, if it is wanted
unfoldable pub suite_tests : (String → String) → String → Suite → List String
suite_tests popen add_tests s =
    if is_wanted add_tests s then concat_map (test_names popen s) s.tests else []

add_suite-unlines :
    (popen : String → String) (add_tests : String) (s : Suite) (ls : List String)
    → add_suite popen add_tests s (unlines ls) ≡ unlines (ls ++ suite_lines popen add_tests s)
unfolding add_suite suite_lines append_directed_testlist
add_suite-unlines popen add_tests s ls = elim (Bool-cases (is_wanted add_tests s)) [
  | inl wanted ↦
      let head : List String = "" ∷ ("# Test-suite: " <> s.test_suite_name) ∷ [] in
      let tail = concat_map (group_lines popen s) s.tests in
      rw (wanted) (
        ap (λ t. unlines ls <> t) (sym (unlines-append head tail))
        ∙ sym (unlines-append ls (head ++ tail)))
  | inr not_wanted ↦ rw (not_wanted) (ap unlines (sym (append-nil ls)))
]

abbrev pub own_lines : List String
own_lines = configs ++ handwritten

-- The whole file, as lines
unfoldable pub all_lines : (String → String) → String → List String
all_lines popen add_tests =
    ((own_lines ++ suite_lines popen add_tests riscv_tests)
      ++ suite_lines popen add_tests riscv_arch_tests)
    ++ suite_lines popen add_tests epmp_tests

pub main-unlines :
    (popen : String → String) (add_tests old : String)
    → main popen add_tests (some old) ≡ ok (unlines (all_lines popen add_tests))
unfolding main add_configs_and_handwritten_directed_tests all_lines
main-unlines popen add_tests old =
    let start : add_configs_and_handwritten_directed_tests "" ≡ unlines own_lines =
      nil-append (unlines configs <> unlines handwritten)
      ∙ sym (unlines-append configs handwritten) in
    let add = add_suite popen add_tests in
    let step = add_suite-unlines popen add_tests in
    let riscv = ap (add riscv_tests) start ∙ step riscv_tests own_lines in
    let arch = ap (add riscv_arch_tests) riscv ∙ step riscv_arch_tests _ in
    ap ok (ap (add epmp_tests) arch ∙ step epmp_tests _)

-- What cannot begin a test: a line with another first character
not_a_test :
    (c : Char) (s t : String)
    → (code c == b'-') ≡ false
    → names_in_line ((Prim.Native.String.◌∷◌ c s) <> t) ≡ []
unfolding names_in_line literal
not_a_test c s t h = rw (cons-append c s t) (ground (arith, h))

at_test : (name : String) → names_in_line ("- test: " <> name) ≡ name ∷ []
unfolding names_in_line
at_test name = rw (names_in_line, literal-append "- test: " name (λ (n : String). some n)) refl

names-suite_entry :
    (s : Suite) (group name : String)
    → concat_map names_in_line (suite_entry s group name) ≡ name ∷ []
unfolding suite_entry
names-suite_entry s group name =
    rw
      (
        at_test name,
        not_a_test " " "   riscv test - " name refl,
        not_a_test " " " test_srcs: " (s.test_suite <> (group <> ("/" <> (name <> extension s))))
            refl,
        not_a_test " " " config: " s.test_suite_name refl,
      )
      (unfold names_in_line literal in refl)

names-group :
    (s : Suite) (group : String) (names : List String)
    → concat_map names_in_line (concat_map (suite_entry s group) names) ≡ names
names-group s group [] = refl
names-group s group (name ∷ names) =
    concat_map-append names_in_line (suite_entry s group name)
      (concat_map (suite_entry s group) names)
    ∙ ap
        (λ (ns : List String).
          ns ++ concat_map names_in_line (concat_map (suite_entry s group) names))
        (names-suite_entry s group name)
    ∙ ap (λ (ns : List String). name ∷ ns) (names-group s group names)

names-groups :
    (popen : String → String) (s : Suite) (groups : List String)
    → concat_map names_in_line (concat_map (group_lines popen s) groups)
      ≡ concat_map (test_names popen s) groups
unfolding group_lines
names-groups popen s [] = refl
names-groups popen s (g ∷ groups) =
    concat_map-append names_in_line (group_lines popen s g)
      (concat_map (group_lines popen s) groups)
    ∙ ap
        (λ (ns : List String).
          ns ++ concat_map names_in_line (concat_map (group_lines popen s) groups))
        (names-group s g (test_names popen s g))
    ∙ ap (λ (ns : List String). test_names popen s g ++ ns) (names-groups popen s groups)

names-suite_lines :
    (popen : String → String) (add_tests : String) (s : Suite)
    → concat_map names_in_line (suite_lines popen add_tests s) ≡ suite_tests popen add_tests s
unfolding suite_lines suite_tests
names-suite_lines popen add_tests s = elim (Bool-cases (is_wanted add_tests s)) [
  | inl wanted ↦
      rw (wanted, not_a_test "#" " Test-suite: " s.test_suite_name refl)
        (unfold names_in_line literal in names-groups popen s s.tests)
  | inr not_wanted ↦ rw (not_wanted) refl
]

names-configs : concat_map names_in_line configs ≡ []
unfolding names_in_line literal configs
names-configs = refl

names-handwritten : concat_map names_in_line handwritten ≡ handwritten_names
unfolding names_in_line literal handwritten handwritten_names entry mseccfg_entry machine_tests
    user_tests pmp_entries
names-handwritten = refl

pub names-all_lines :
    (popen : String → String) (add_tests : String)
    → concat_map names_in_line (all_lines popen add_tests)
      ≡ ((handwritten_names ++ suite_tests popen add_tests riscv_tests)
          ++ suite_tests popen add_tests riscv_arch_tests)
        ++ suite_tests popen add_tests epmp_tests
unfolding all_lines
names-all_lines popen add_tests =
    simp (concat_map-append, names-suite_lines popen add_tests, names-configs, names-handwritten)
      refl
