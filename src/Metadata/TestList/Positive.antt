-- ===== src/Metadata/TestList/Positive.antt =====
-- The numbers of iterations of the tests that are chosen.
use kiemchung_ibex_v.Base.{
  true, not, List, ◌++◌, ok, ErrorKind, ◌>>=◌, ◌>>◌, guard, traverse, ◌≡◌, subst, arith, >>=-eq-ok,
  ok-injective, All, All-append, All-traverse, Bool-cases, inl, inr,
}
use kiemchung_ibex_v.Base.Dict.{Dict}
use kiemchung_ibex_v.Base.Int.{is_positive}
use kiemchung_ibex_v.Base.Value.{Value}
use kiemchung_ibex_v.TestRunResult.{TestType, riscvdv, directed}
use kiemchung_ibex_v.Metadata.{RegressionMetadata}
use kiemchung_ibex_v.Metadata.TestList.{
  TestSources, Counted, get_tests_and_counts, count_test, matched_directed, filtered,
  process_riscvdv_testlist, is_empty,
}

-- A test with a positive number of iterations
abbrev pub IsCounted : Counted → Type 0
IsCounted t = is_positive t.0.1 ≡ true

count_test_lem :
    (kind : TestType) (test : Dict Value) (y : Counted) → count_test kind test ≡ ok y → IsCounted y
unfolding count_test
count_test_lem kind test y h = ground (arith, h)

counted_lem :
    (riscvdv_filtered directed_filtered : List (Dict Value)) (ts : List Counted)
    → (do
      riscvdv_tests ← traverse (count_test riscvdv) riscvdv_filtered
      directed_tests ← traverse (count_test directed) directed_filtered
      ok (riscvdv_tests ++ directed_tests))
      ≡ ok ts
    → All IsCounted ts
counted_lem rs ds ts h =
    let (riscvdv_tests, made, h1) =
      >>=-eq-ok (traverse (count_test riscvdv) rs)
        (λ riscvdv_tests. do
          directed_tests ← traverse (count_test directed) ds
          ok (riscvdv_tests ++ directed_tests))
        h in
    let (directed_tests, made', done) =
      >>=-eq-ok (traverse (count_test directed) ds)
        (λ directed_tests. ok (riscvdv_tests ++ directed_tests)) h1 in
    subst (All IsCounted) (ok-injective done) (
      All-append IsCounted riscvdv_tests directed_tests
        (All-traverse IsCounted (count_test riscvdv) rs (count_test_lem riscvdv) made)
        (All-traverse IsCounted (count_test directed) ds (count_test_lem directed) made'))

module _ (s : TestSources) (md : RegressionMetadata) where
  pub get_tests_and_counts_lem :
      (ts : List Counted) → get_tests_and_counts s md ≡ ok ts → All IsCounted ts
  unfolding get_tests_and_counts
  get_tests_and_counts_lem ts h =
      let rest1 = λ (rm : List (Dict Value)) (dm : List (Dict Value)). (do
        guard (not (is_empty (rm ++ dm))) ErrorKind.runtime_error
            "No matching tests found in testlists."
        riscvdv_filtered ← filtered s md rm
        directed_filtered ← filtered s md dm
        riscvdv_tests ← traverse (count_test riscvdv) riscvdv_filtered
        directed_tests ← traverse (count_test directed) directed_filtered
        ok (riscvdv_tests ++ directed_tests)) in
      let (rm, _, h1) =
        >>=-eq-ok (process_riscvdv_testlist s md)
          (λ rm. matched_directed s md rm >>= λ dm. rest1 rm dm) h in
      let (dm, _, h2) = >>=-eq-ok (matched_directed s md rm) (rest1 rm) h1 in
      elim (Bool-cases (is_empty (rm ++ dm))) [
        | inl missing ↦ ground (arith, h2, missing)
        | inr found ↦
            let rest2 = λ (rs : List (Dict Value)) (ds : List (Dict Value)). (do
              riscvdv_tests ← traverse (count_test riscvdv) rs
              directed_tests ← traverse (count_test directed) ds
              ok (riscvdv_tests ++ directed_tests)) in
            let (rs, _, h3) =
              >>=-eq-ok (filtered s md rm) (λ rs. filtered s md dm >>= λ ds. rest2 rs ds)
                (ground (arith, h2, found)) in
            let (ds, _, h4) = >>=-eq-ok (filtered s md dm) (rest2 rs) h3 in counted_lem rs ds ts h4
      ]
