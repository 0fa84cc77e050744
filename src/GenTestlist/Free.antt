-- ===== src/GenTestlist/Free.antt =====
-- The lines of the new list hold no line ends, whatever the directories hold.
use kiemchung_ibex_v.Base.{
  String, ◌<>◌, Bool, true, ◌&&◌, List, [], ◌∷◌, map, concat_map, ◌≡◌, refl, arith, Bool-cases, inl,
  inr,
}
use kiemchung_ibex_v.Base.Text.{all_free, free_of_char}
use kiemchung_ibex_v.Base.Text.Lines.{
  before, free_of_char-append, all_free-split, all_free-append, free_of_char-before,
}
use kiemchung_ibex_v.GenTestlist.{
  Suite, extension, suite_entry, group_lines, test_names, available_testlist, without_last,
  is_wanted, riscv_tests, riscv_arch_tests, epmp_tests,
}
use kiemchung_ibex_v.GenTestlist.Handwritten.{
  configs, handwritten, entry, mseccfg_entry, machine_tests, user_tests, pmp_entries,
}
use kiemchung_ibex_v.GenTestlist.Names.{suite_lines, all_lines, own_lines}

-- The words of a suite hold no line ends.
abbrev plain : Suite → Bool
plain s = free_of_char 10 s.test_suite && free_of_char 10 s.test_suite_name && all_free 10 s.tests

all_free-without_last :
    (names : List String) → all_free 10 names ≡ true → all_free 10 (without_last names) ≡ true
unfolding without_last
all_free-without_last [] h = refl
all_free-without_last (x ∷ []) h = refl
all_free-without_last (x ∷ y ∷ xs) h =
    ground (arith, h, all_free-without_last (y ∷ xs) (ground (arith, h)))

all_free-before :
    (ext : String) (names : List String)
    → all_free 10 names ≡ true
    → all_free 10 (map (before ext) names) ≡ true
all_free-before ext [] h = refl
all_free-before ext (x ∷ xs) h = ground (
  arith,
  h,
  free_of_char-before 10 ext x (ground (arith, h)),
  all_free-before ext xs (ground (arith, h)),
)

all_free-test_names :
    (popen : String → String) (s : Suite) (group : String)
    → all_free 10 (test_names popen s group) ≡ true
unfolding test_names available_testlist
all_free-test_names popen s group =
    all_free-before (extension s) _ (all_free-without_last _ (all_free-split 10 _))

free-extension : (s : Suite) → free_of_char 10 (extension s) ≡ true
unfolding extension free_of_char
free-extension s = elim (Bool-cases s.is_assembly) [ inl asm ↦ rw (asm) refl | inr c ↦ rw (c) refl ]

all_free-suite_entry :
    (s : Suite) (group name : String)
    → plain s ≡ true
    → free_of_char 10 group ≡ true
    → free_of_char 10 name ≡ true
    → all_free 10 (suite_entry s group name) ≡ true
unfolding suite_entry
all_free-suite_entry s group name h g n =
    let both = free_of_char-append 10 in
    let file = both name (extension s) n (free-extension s) in
    let path = both "/" (name <> extension s) (unfold free_of_char in refl) file in
    let path' = both group ("/" <> (name <> extension s)) g path in
    let path'' =
      both s.test_suite (group <> ("/" <> (name <> extension s))) (ground (arith, h)) path' in
    rw
      (
        both "- test: " name (unfold free_of_char in refl) n,
        both "    riscv test - " name (unfold free_of_char in refl) n,
        both "  test_srcs: " _ (unfold free_of_char in refl) path'',
        both "  config: " s.test_suite_name (unfold free_of_char in refl) (ground (arith, h)),
      )
      (unfold free_of_char in refl)

all_free-entries :
    (s : Suite) (group : String) (names : List String)
    → plain s ≡ true
    → free_of_char 10 group ≡ true
    → all_free 10 names ≡ true
    → all_free 10 (concat_map (suite_entry s group) names) ≡ true
all_free-entries s group [] h g ns = refl
all_free-entries s group (name ∷ names) h g ns =
    all_free-append 10 (suite_entry s group name) _
      (all_free-suite_entry s group name h g (ground (arith, ns)))
      (all_free-entries s group names h g (ground (arith, ns)))

all_free-groups :
    (popen : String → String) (s : Suite) (groups : List String)
    → plain s ≡ true
    → all_free 10 groups ≡ true
    → all_free 10 (concat_map (group_lines popen s) groups) ≡ true
unfolding group_lines
all_free-groups popen s [] h gs = refl
all_free-groups popen s (g ∷ groups) h gs =
    all_free-append 10 (group_lines popen s g) _
      (all_free-entries s g (test_names popen s g) h (ground (arith, gs))
        (all_free-test_names popen s g))
      (all_free-groups popen s groups h (ground (arith, gs)))

all_free-suite_lines :
    (popen : String → String) (add_tests : String) (s : Suite)
    → plain s ≡ true
    → all_free 10 (suite_lines popen add_tests s) ≡ true
unfolding suite_lines
all_free-suite_lines popen add_tests s h = elim (Bool-cases (is_wanted add_tests s)) [
  | inl wanted ↦
      let title =
        free_of_char-append 10 "# Test-suite: " s.test_suite_name (unfold free_of_char in refl)
          (ground (arith, h)) in
      let rest = all_free-groups popen s s.tests h (ground (arith, h)) in
      rw (wanted, title, rest) (unfold free_of_char in refl)
  | inr not_wanted ↦ rw (not_wanted) refl
]

all_free-own_lines : all_free 10 own_lines ≡ true
unfolding free_of_char configs handwritten entry mseccfg_entry machine_tests user_tests pmp_entries
all_free-own_lines = refl

pub all_free-all_lines :
    (popen : String → String) (add_tests : String) → all_free 10 (all_lines popen add_tests) ≡ true
unfolding all_lines
all_free-all_lines popen add_tests =
    let suite = all_free-suite_lines popen add_tests in
    let join = all_free-append 10 in
    let riscv =
      join own_lines _ all_free-own_lines (suite riscv_tests (unfold free_of_char in refl)) in
    let arch = join _ _ riscv (suite riscv_arch_tests (unfold free_of_char in refl)) in
    join _ _ arch (suite epmp_tests (unfold free_of_char in refl))
