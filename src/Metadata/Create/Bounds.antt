-- ===== src/Metadata/Create/Bounds.antt =====
-- How many runs a regression has, and with which seeds.
use kiemchung_ibex_v.Base.{
  ℕ, zero, suc, ◌+◌, ◌≤◌, ◌<◌, max, String, List, [], ◌∷◌, Option, some, ok, map, length,
  length-append, ◌≡◌, refl, sym, ap, subst, ◌∙◌, arith, All, All-append, All-map, All-of-map,
  All-mono,
}
use kiemchung_ibex_v.Base.Int.{ℤ, pos, pos_part, add_ℕ}
use kiemchung_ibex_v.TestRunResult.{FilePath, TestType}
use kiemchung_ibex_v.Metadata.{RegressionMetadata}
use kiemchung_ibex_v.Metadata.Args.{Given}
use kiemchung_ibex_v.Metadata.TestList.{TestSources, Counted}
use kiemchung_ibex_v.Metadata.Create.{Created, create, created, runs, seeds, seeds_from}
use kiemchung_ibex_v.Metadata.Create.Labels.{label_of, run_label, create_lem}

abbrev Listed : Type 0
Listed = List (String × ℤ × TestType)

-- The sum of the numbers of iterations, and the highest of them
abbrev pub total : Listed → ℕ
total [] = 0
total (t ∷ tests) = pos_part t.1 + total tests

abbrev pub most : Listed → ℕ
most [] = 0
most (t ∷ tests) = max (pos_part t.1) (most tests)

-- A seed that is not before `m`, and before `bound`
abbrev pub InRange : ℕ → ℕ → Option ℤ → Type 0
InRange m bound seed = (n : ℕ) × (seed ≡ some (pos n)) × (m ≤ n) × (n < bound)

seeds-InRange : (m count : ℕ) → All (λ z. InRange m (m + count) (some z)) (seeds_from (pos m) count)
unfolding seeds_from
seeds-InRange m zero = tt
seeds-InRange m (suc count) = (
  (m, refl, omega arith, omega arith),
  All-mono {P = λ z. InRange (m + 1) (m + 1 + count) (some z)}
      {Q = λ z. InRange m (m + suc count) (some z)} (seeds_from (pos (m + 1)) count)
      (λ z r. (r.0, r.1, omega (arith, r.2), omega (arith, r.3))) (seeds-InRange (m + 1) count),
)

length-map : {A B : Type 0} (f : A → B) (xs : List A) → length (map f xs) ≡ length xs
length-map f [] = refl
length-map f (x ∷ xs) = ap suc (length-map f xs)

length-seeds_from : (z : ℤ) (count : ℕ) → length (seeds_from z count) ≡ count
unfolding seeds_from
length-seeds_from z zero = refl
length-seeds_from z (suc count) = ap suc (length-seeds_from (add_ℕ z 1) count)

length-runs :
    (md : RegressionMetadata) (tests : List Counted)
    → length (runs md tests) ≡ total (map (λ t. t.0) tests)
unfolding runs
length-runs md [] = refl
length-runs md (t ∷ tests) =
    let ss = seeds md.seed t.0.1 in
    length-append (map (λ s. (t, s)) ss) (runs md tests)
    ∙ omega (
      arith,
      length-map {B = Counted × ℤ} (λ s. (t, s)) ss,
      length-seeds_from md.seed (pos_part t.0.1),
      length-runs md tests,
    )

runs-InRange :
    (md : RegressionMetadata) (m : ℕ) (tests : List Counted)
    → md.seed ≡ pos m
    → All (λ r. InRange m (m + most (map (λ t. t.0) tests)) (some r.1)) (runs md tests)
unfolding runs
runs-InRange md m [] e = tt
runs-InRange md m (t ∷ tests) e =
    let ss = seeds md.seed t.0.1 in
    let count = pos_part t.0.1 in
    let rest = most (map (λ t. t.0) tests) in
    All-append (λ r. InRange m (m + max count rest) (some r.1)) (map (λ s. (t, s)) ss)
      (runs md tests)
      (All-map (λ s. (t, s)) (λ r. InRange m (m + max count rest) (some r.1)) ss
        (All-mono {P = λ z. InRange m (m + count) (some z)}
          {Q = λ z. InRange m (m + max count rest) (some z)} ss
          (λ z r. (r.0, r.1, r.2, omega (arith, r.3)))
          (subst (λ z. All (λ s. InRange m (m + count) (some s)) (seeds_from z count)) (sym e)
            (seeds-InRange m count))))
      (All-mono {P = λ r. InRange m (m + rest) (some r.1)}
        {Q = λ r. InRange m (m + max count rest) (some r.1)} (runs md tests)
        (λ z r. (r.0, r.1, r.2, omega (arith, r.3))) (runs-InRange md m tests e))

-- There are as many runs as the iterations of the tests together, and every run has a seed that is
-- not before the first seed of the regression, and less than the highest number of iterations after
-- it.
pub create-InRange :
    (g : Given) (s : TestSources) (dir_metadata dir_out : FilePath) (args_list : String)
    (c : Created) (m : ℕ)
    → create g s dir_metadata dir_out args_list ≡ ok c
    → c.md.seed ≡ pos m
    → (length c.trrs ≡ total c.md.tests_and_counts)
      × All (λ trr. InRange m (m + most c.md.tests_and_counts) trr.seed) c.trrs
unfolding created
create-InRange g s dir_metadata dir_out args_list c m h e =
    let found = create_lem g s dir_metadata dir_out args_list c h in
    let tests = map (λ t. t.0) found.tests in
    let first = ap (λ (c : Created). c.md.seed) found.result ∙ e in
    subst
      (λ (c : Created).
        (length c.trrs ≡ total c.md.tests_and_counts)
        × All (λ trr. InRange m (m + most c.md.tests_and_counts) trr.seed) c.trrs)
      found.result
      (
        sym (length-map label_of found.trrs)
            ∙ ap length found.labels
            ∙ length-map (run_label found.md) (runs found.md found.tests)
            ∙ length-runs found.md found.tests,
        All-of-map label_of (λ l. InRange m (m + most tests) l.3) found.trrs
            (subst (All (λ l. InRange m (m + most tests) l.3)) (sym found.labels) (
              All-map (run_label found.md) (λ l. InRange m (m + most tests) l.3)
                (runs found.md found.tests) (runs-InRange found.md m found.tests first))),
      )
