-- ===== src/Metadata/Create/Names.antt =====
-- The names of the runs of a regression: what is read back from a name, and that no two runs share
-- one.
use kiemchung_ibex_v.Base.{
  ℕ, zero, suc, ◌≤◌, String, Bool, true, false, ◌&&◌, List, [], ◌∷◌, ◌++◌, Option, some, ok, map,
  concat_map, ◌≡◌, ◌≢◌, refl, sym, ap, subst, ◌∙◌, arith, All, All-append, All-map, All-mono,
  Distinct, Distinct-append, Distinct-map, ok-injective, ◌+◌, All-every,
}
use mathlib.Core.Path.{ap₂}
use kiemchung_ibex_v.Base.Int.{ℤ, pos, negsuc, is_negative, pos_part}
use kiemchung_ibex_v.Base.Regex.{all_chars, nonempty}
use kiemchung_ibex_v.Base.Text.{str_ℕ, str_int}
use kiemchung_ibex_v.Base.Text.Numerals.{to_ℕ-str_ℕ, str_ℕ-digits}
use kiemchung_ibex_v.TestEntry.{no_dot, read_test_dot_seed}
use kiemchung_ibex_v.TestEntry.RoundTrip.{read_test_dot_seed-join}
use kiemchung_ibex_v.TestRunResult.{FilePath, TestRunResult, TestType}
use kiemchung_ibex_v.Metadata.{RegressionMetadata}
use kiemchung_ibex_v.Metadata.Args.{Given}
use kiemchung_ibex_v.Metadata.TestList.{TestSources, Counted}
use kiemchung_ibex_v.Metadata.Create.{Created, create, created, runs, seeds, seeds_from, tds_str}
use kiemchung_ibex_v.Metadata.Create.Labels.{Label, label_of, run_label, create_lem}
use kiemchung_ibex_v.Metadata.Create.WellFormed.{create-IsWellFormed}

-- The name of a test, as the scripts can read it back: not empty, and without a dot
abbrev pub plain : String → Bool
plain test = nonempty test && all_chars no_dot test

-- The name of the run of a plain test with a seed is read back as the test and the seed.
pub read_test_dot_seed-tds_str :
    (test : String) (seed : ℕ)
    → plain test ≡ true
    → read_test_dot_seed (tds_str test (pos seed)) ≡ ok (test, seed)
unfolding str_int
read_test_dot_seed-tds_str test seed h =
    read_test_dot_seed-join test (str_ℕ seed) h (str_ℕ-digits seed)
    ∙ ap (λ n. ok (test, n)) (to_ℕ-str_ℕ seed)

-- A plain test with a seed that is not negative
abbrev Nameable : String × ℤ → Type 0
Nameable r = (plain r.0 ≡ true) × (n : ℕ) × (r.1 ≡ pos n)

abbrev name_of : String × ℤ → String
name_of r = tds_str r.0 r.1

name_of-injective : (x y : String × ℤ) → Nameable x → Nameable y → name_of x ≡ name_of y → x ≡ y
name_of-injective (a, z) (b, w) (p, m, e) (q, n, f) same =
    let same' = sym (ap (tds_str a) e) ∙ same ∙ ap (tds_str b) f in
    let read =
      sym (read_test_dot_seed-tds_str a m p)
      ∙ ap read_test_dot_seed same'
      ∙ read_test_dot_seed-tds_str b n q in
    let r = ok-injective read in
    ap₂ (λ (t : String) (u : ℤ). (t, u)) (ap (λ (s : String × ℕ). s.0) r)
      (e ∙ ap (λ (s : String × ℕ). pos s.1) r ∙ sym f)

too_late : (m n : ℕ) → pos m ≡ pos n → m + 1 ≤ n → ⊥
too_late m n same le = omega (arith, ap pos_part same, le)

-- The seeds of a test are `m` or later.
abbrev From : ℕ → ℤ → Type 0
From m z = (n : ℕ) × (z ≡ pos n) × (m ≤ n)

seeds-From : (m count : ℕ) → All (From m) (seeds_from (pos m) count)
unfolding seeds_from
seeds-From m zero = tt
seeds-From m (suc count) = (
  (m, refl, omega arith),
  All-mono {P = From (m + 1)} {Q = From m} (seeds_from (pos (m + 1)) count)
      (λ z later. (later.0, later.1, omega (arith, later.2))) (seeds-From (m + 1) count),
)

seeds-Distinct : (m count : ℕ) → Distinct (seeds_from (pos m) count)
unfolding seeds_from
seeds-Distinct m zero = tt
seeds-Distinct m (suc count) = (
  All-mono {P = From (m + 1)} {Q = λ y. pos m ≢ y} (seeds_from (pos (m + 1)) count)
      (λ z later same. too_late m later.0 (same ∙ later.1) later.2) (seeds-From (m + 1) count),
  seeds-Distinct (m + 1) count,
)

-- All runs of the tests and counts that metadata list, by test and seed
abbrev pub listed_runs : ℤ → List (String × ℤ × TestType) → List (String × ℤ)
listed_runs seed tests = concat_map (λ t. map (λ s. (t.0, s)) (seeds seed t.1)) tests

runs_of-Nameable :
    (test : String) (m count : ℕ)
    → plain test ≡ true
    → All Nameable (map (λ s. (test, s)) (seeds_from (pos m) count))
runs_of-Nameable test m count h =
    All-map (λ s. (test, s)) Nameable (seeds_from (pos m) count)
      (All-mono {P = From m} {Q = λ s. Nameable (test, s)} (seeds_from (pos m) count)
        (λ s later. (h, later.0, later.1)) (seeds-From m count))

listed_runs-Nameable :
    (m : ℕ) (tests : List (String × ℤ × TestType))
    → All (λ t. plain t.0 ≡ true) tests
    → All Nameable (listed_runs (pos m) tests)
listed_runs-Nameable m [] h = tt
listed_runs-Nameable m ((test, count, kind) ∷ tests) (p, h) =
    All-append Nameable (map (λ s. (test, s)) (seeds (pos m) count)) (listed_runs (pos m) tests)
      (runs_of-Nameable test m (pos_part count) p) (listed_runs-Nameable m tests h)

-- The runs of tests with other names are other runs.
others :
    (seed : ℤ) (name : String) (tests : List (String × ℤ × TestType))
    → All (λ n. name ≢ n) (map (λ t. t.0) tests)
    → All (λ r. name ≢ r.0) (listed_runs seed tests)
others seed name [] h = tt
others seed name (t ∷ tests) (p, h) =
    All-append (λ r. name ≢ r.0) (map (λ s. (t.0, s)) (seeds seed t.1)) (listed_runs seed tests)
      (All-map (λ s. (t.0, s)) (λ r. name ≢ r.0) (seeds seed t.1)
        (All-every (λ s. name ≢ t.0) (seeds seed t.1) (λ s. p)))
      (others seed name tests h)

listed_runs-Distinct :
    (m : ℕ) (tests : List (String × ℤ × TestType))
    → Distinct (map (λ t. t.0) tests)
    → Distinct (listed_runs (pos m) tests)
listed_runs-Distinct m [] d = tt
listed_runs-Distinct m ((name, count, kind) ∷ tests) (apart, d) =
    let ss = seeds (pos m) count in
    Distinct-append (map (λ s. (name, s)) ss) (listed_runs (pos m) tests)
      (Distinct-map (λ (s : ℤ). Unit {0}) (λ s. (name, s)) ss
        (λ x y _ _ same. ap (λ (r : String × ℤ). r.1) same) (All-every (λ s. Unit {0}) ss (λ s. tt))
        (seeds-Distinct m (pos_part count)))
      (listed_runs-Distinct m tests d)
      (All-map (λ s. (name, s)) (λ r. All (λ y. r ≢ y) (listed_runs (pos m) tests)) ss
        (All-every (λ s. All (λ y. (name, s) ≢ y) (listed_runs (pos m) tests)) ss
          (λ s.
            All-mono {P = λ r. name ≢ r.0} {Q = λ y. (name, s) ≢ y} (listed_runs (pos m) tests)
              (λ y differ same. differ (ap (λ (r : String × ℤ). r.0) same))
              (others (pos m) name tests apart))))

-- The names of the runs that are made
abbrev made : RegressionMetadata → List (Counted × ℤ) → List (Option String)
made md rs = map (λ (l : Label). l.1) (map (run_label md) rs)

made-one :
    (md : RegressionMetadata) (t : Counted) (ss : List ℤ) (rs : List (Counted × ℤ))
    (ls : List (String × ℤ))
    → made md rs ≡ map (λ r. some (name_of r)) ls
    → made md (map (λ s. (t, s)) ss ++ rs)
      ≡ map (λ r. some (name_of r)) (map (λ s. (t.0.0, s)) ss ++ ls)
made-one md t [] rs ls h = h
made-one md t (s ∷ ss) rs ls h =
    ap (λ (ns : List (Option String)). some (tds_str t.0.0 s) ∷ ns) (made-one md t ss rs ls h)

made-runs :
    (md : RegressionMetadata) (tests : List Counted)
    → made md (runs md tests)
      ≡ map (λ r. some (name_of r)) (listed_runs md.seed (map (λ t. t.0) tests))
unfolding runs
made-runs md [] = refl
made-runs md (t ∷ tests) =
    made-one md t (seeds md.seed t.0.1) (runs md tests) (listed_runs md.seed (map (λ t. t.0) tests))
      (made-runs md tests)

names_of :
    (trrs : List TestRunResult)
    → map (λ trr. trr.testdotseed) trrs ≡ map (λ (l : Label). l.1) (map label_of trrs)
names_of [] = refl
names_of (trr ∷ trrs) = ap (λ (ns : List (Option String)). trr.testdotseed ∷ ns) (names_of trrs)

some-injective : {a b : String} → some a ≡ some b → a ≡ b
some-injective h = cc

nonnegative : (z : ℤ) → is_negative z ≡ false → (m : ℕ) × (pos m ≡ z)
nonnegative (pos m) h = (m, refl)
nonnegative (negsuc m) h = cc

-- If the tests of the metadata that are created have plain names, each another, no two runs have
-- the same name.
pub create-Distinct :
    (g : Given) (s : TestSources) (dir_metadata dir_out : FilePath) (args_list : String)
    (c : Created)
    → create g s dir_metadata dir_out args_list ≡ ok c
    → All (λ t. plain t.0 ≡ true) c.md.tests_and_counts
    → Distinct (map (λ t. t.0) c.md.tests_and_counts)
    → Distinct (map (λ trr. trr.testdotseed) c.trrs)
unfolding created
create-Distinct g s dir_metadata dir_out args_list c h =
    let found = create_lem g s dir_metadata dir_out args_list c h in
    let nonneg = (create-IsWellFormed g s dir_metadata dir_out args_list c h).seed_accepted in
    let tests = map (λ t. t.0) found.tests in
    let (m, is_m) =
      nonnegative found.md.seed
        (ap (λ (c : Created). is_negative c.md.seed) found.result ∙ nonneg) in
    subst
      (λ (c : Created).
        All (λ t. plain t.0 ≡ true) c.md.tests_and_counts
        → Distinct (map (λ t. t.0) c.md.tests_and_counts)
        → Distinct (map (λ trr. trr.testdotseed) c.trrs))
      found.result
      (λ plain_names distinct_names.
        subst Distinct
          (sym (
            names_of found.trrs
            ∙ ap (map (λ (l : Label). l.1)) found.labels
            ∙ made-runs found.md found.tests
            ∙ ap (λ z. map (λ r. some (name_of r)) (listed_runs z tests)) (sym is_m)))
          (Distinct-map Nameable (λ r. some (name_of r)) (listed_runs (pos m) tests)
            (λ x y p q same. name_of-injective x y p q (some-injective same))
            (listed_runs-Nameable m tests plain_names)
            (listed_runs-Distinct m tests distinct_names)))
