-- ===== src/Reports/Collect.antt =====
-- What collect_results.py gathers, and which texts can be written.
use kiemchung_ibex_v.Base.{
  is_ok, ℕ, ◌+◌, String, Bool, true, not, List, [], ◌∷◌, ◌++◌, Result, ok, ◌≡◌, refl, arith,
  if◌then◌else◌, all, keep, traverse, length, ◌<◌, append_assoc, append-nil, sym,
}
use kiemchung_ibex_v.TestRunResult.{TestRunResult, FilePath}
use kiemchung_ibex_v.Reports.{
  gen_test_run_result_text, details, is_passing, Gathered, gather_one, gather, exit_code,
  gen_summary_line,
}

abbrev pub loaded_all : List TestRunResult → List (Result TestRunResult)
loaded_all [] = []
loaded_all (t ∷ ts) = ok t ∷ loaded_all ts

-- Tests that can be loaded are put in two lists, each in order.
pub gather_lem :
    (tests : List TestRunResult) (g : Gathered)
    → (h : Gathered) × (gather (loaded_all tests) g ≡ ok h)
      × (h.passing_tests ≡ g.passing_tests ++ keep is_passing tests)
      × (h.failing_tests ≡ g.failing_tests ++ keep (λ t. not (is_passing t)) tests)
unfolding gather gather_one
gather_lem [] g = (g, refl, sym (append-nil g.passing_tests), sym (append-nil g.failing_tests))
gather_lem (t ∷ tests) g =
    let (h, made, pass, fail) = gather_lem tests (gather_one t g) in
    (
      h,
      made,
      ground (arith, pass, append_assoc g.passing_tests (t ∷ []) (keep is_passing tests)),
      ground (
        arith,
        fail,
        append_assoc g.failing_tests (t ∷ []) (keep (λ u. not (is_passing u)) tests),
      ),
    )

pub none_failing :
    (tests : List TestRunResult)
    → exit_code (keep (λ t. not (is_passing t)) tests) ≡ (if all is_passing tests then 0 else 1)
none_failing [] = refl
none_failing (t ∷ tests) = ground (arith, none_failing tests)

module _ {ℓ κ} {A : Type ℓ} {B : Type κ} (f : A → Result B) where
  pub traverse-is_ok :
      (xs : List A) → all (λ x. is_ok (f x)) xs ≡ true → is_ok (traverse f xs) ≡ true
  traverse-is_ok [] h = refl
  traverse-is_ok (x ∷ xs) h = ground (arith, h, traverse-is_ok xs)

pub length_kept :
    (tests : List TestRunResult)
    → length (keep is_passing tests) + length (keep (λ t. not (is_passing t)) tests) ≡ length tests
length_kept [] = omega arith
length_kept (t ∷ tests) = ground (arith, length_kept tests)

-- Whether the text of each test can be written: its files lie in its directory.
abbrev pub describable : (FilePath → FilePath → Result String) → List TestRunResult → Bool
describable relative_to = all (λ t. is_ok (gen_test_run_result_text relative_to t))

module _ (relative_to : FilePath → FilePath → Result String) where
  pub details_ok :
      (title empty : String) (tests : List TestRunResult)
      → describable relative_to tests ≡ true
      → is_ok (details relative_to title empty tests) ≡ true
  unfolding details
  details_ok title empty tests h =
      ground (arith, traverse-is_ok (gen_test_run_result_text relative_to) tests h)

pub summary_ok :
    (pct : ℕ → ℕ → String) (passing failing : List TestRunResult)
    → 0 < length passing + length failing
    → is_ok (gen_summary_line pct passing failing) ≡ true
unfolding gen_summary_line
summary_ok pct passing failing h = ground arith
