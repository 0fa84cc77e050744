-- ===== src/Builds.antt =====
-- The scripts that build (dv/uvm/core_ibex/scripts): compile_tb.py, compile_test.py and
-- merge_cov.py, and what they share: the loop that runs commands, and the commands of riscv-dv
-- (riscvdv_interface.py).
pub mod CompileTb
pub mod CompileTest
pub mod MergeCov
pub mod Riscvdv
mod Tests
use kiemchung_ibex_v.Base.{
  ℕ, ◌+◌, String, ◌<>◌, Bool, true, false, List, [], ◌∷◌, ◌++◌, Option, none, some, Result, ok, err,
  ErrorKind, ◌>>=◌, if◌then◌else◌, ◌≡◌, refl, arith, Bool-cases, inl, inr,
}
use kiemchung_ibex_v.Base.Int.{ℤ, pos, int_eq}
use kiemchung_ibex_v.Metadata.{RegressionMetadata, Roots}
use kiemchung_ibex_v.RunOne.{
  Spawn, exited, not_started, timed_out, to_stream, run_one, open_redirect,
}
use kiemchung_ibex_v.TestRunResult.{FilePath, path_join}

-- What the `n`-th command that is run does
abbrev pub Runs : Type 0
Runs = ℕ → List String → Spawn

module _ (spawn : Runs) where
  -- The loop over commands, which ends at the first return code that is not zero
  unfoldable pub run_all : ℕ → List (List String) → Result ℤ
  run_all n [] = ok (pos 0)
  run_all n (cmd ∷ cmds) =
      let rest = run_all (n + 1) cmds in
      run_one (spawn n cmd) to_stream false >>= λ retcode.
      if int_eq retcode (pos 0) then rest else ok retcode

  -- The return code of a command: one if it did not start or ran into its timeout
  abbrev pub code : ℕ → List String → ℤ
  code n cmd = elim (spawn n cmd) [ exited z ↦ z | not_started ↦ pos 1 | timed_out ↦ pos 1 ]

  abbrev pub codes : ℕ → List (List String) → List ℤ
  codes n [] = []
  codes n (cmd ∷ cmds) = code n cmd ∷ codes (n + 1) cmds

  abbrev pub first_failure : List ℤ → ℤ
  first_failure [] = pos 0
  first_failure (z ∷ zs) = if int_eq z (pos 0) then first_failure zs else z

  -- The loop always ends, with the first return code that is not zero, or zero.
  pub run_all-first_failure :
      (n : ℕ) (cmds : List (List String)) → run_all n cmds ≡ ok (first_failure (codes n cmds))
  unfolding run_all run_one open_redirect
  run_all-first_failure n [] = refl
  run_all-first_failure n (cmd ∷ cmds) = ground (arith, run_all-first_failure (n + 1) cmds)

-- `get_run_cmd` of riscvdv_interface.py, with its paths resolved by `format_to_cmd`
pub get_run_cmd : Roots → (FilePath → FilePath) → Bool → List String
get_run_cmd r resolve verbose =
    let extension = path_join r.core_ibex "riscv_dv_extension" in
    ("python3"
      ∷ resolve (path_join r.riscv_dv "run.py")
      ∷ "--testlist"
      ∷ resolve (path_join extension "testlist.yaml")
      ∷ "--gcc_opts=-mno-strict-align -misa-spec=2.2"
      ∷ "--custom_target"
      ∷ resolve extension
      ∷ "--csr_yaml"
      ∷ resolve (path_join extension "csr_description.yaml")
      ∷ "--mabi=ilp32"
      ∷ [])
    ++ (if verbose then "--verbose" ∷ [] else [])
