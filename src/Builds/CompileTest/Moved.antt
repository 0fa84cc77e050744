-- ===== src/Builds/CompileTest/Moved.antt =====
-- The commands of riscv-dv in compile_test.py: they are moved to the test, every one of them, and
-- what happens when riscv-dv fails.
use kiemchung_ibex_v.Base.{
  String, true, false, List, some, ok, err, ErrorKind, traverse, keep, length, ◌≡◌, refl, ◌∙◌,
  >>=-eq-ok, All, All-traverse, length-traverse, arith,
}
use kiemchung_ibex_v.Base.Int.{ℤ, is_nonzero}
use kiemchung_ibex_v.Base.Shlex.{shlex_split}
use kiemchung_ibex_v.Base.Text.{has, strip}
use kiemchung_ibex_v.Builds.{Runs}
use kiemchung_ibex_v.Metadata.{RegressionMetadata}
use kiemchung_ibex_v.RunOne.{exited, run_one, open_redirect}
use kiemchung_ibex_v.TestRunResult.{FilePath, TestRunResult, riscvdv}
use kiemchung_ibex_v.Builds.CompileTest.{
  Outside, Rewrites, rewrite_word, rewrite_cmd, move_cmds, is_command, required,
  get_riscvdv_compile_cmds, compile_test, after_dv,
}

-- No word mentions the placeholder directory.
abbrev pub IsMoved : FilePath → List String → Type 0
IsMoved placeholder cmd = All (λ word. has placeholder word ≡ false) cmd

rewrite_word_lem :
    (placeholder : FilePath) (rs : Rewrites) (word new : String)
    → rewrite_word placeholder rs word ≡ ok new
    → has placeholder new ≡ false
unfolding rewrite_word
rewrite_word_lem placeholder rs word new h = ground (arith, h)

-- If the commands of riscv-dv are moved, there is one for each line of the list that is not blank,
-- and none mentions the placeholder directory any more.
pub move_cmds-IsMoved :
    (placeholder : FilePath) (rs : Rewrites) (orig_lines : List String) (cmds : List (List String))
    → move_cmds placeholder rs orig_lines ≡ ok cmds
    → All (IsMoved placeholder) cmds × (length cmds ≡ length (keep is_command orig_lines))
unfolding move_cmds rewrite_cmd
move_cmds-IsMoved placeholder rs orig_lines cmds h =
    let lines = keep is_command orig_lines in
    let (orig_cmds, parsed, moved) =
      >>=-eq-ok (traverse (λ line. shlex_split (strip line)) lines)
        (traverse (rewrite_cmd placeholder rs)) h in
    (
      All-traverse (IsMoved placeholder) (rewrite_cmd placeholder rs) orig_cmds
          (λ cmd new made.
            All-traverse (λ word. has placeholder word ≡ false) (rewrite_word placeholder rs) cmd
              (rewrite_word_lem placeholder rs) made)
          moved,
      length-traverse (rewrite_cmd placeholder rs) orig_cmds moved
          ∙ length-traverse (λ line. shlex_split (strip line)) lines parsed,
    )

-- If riscv-dv cannot write the commands of a test that it generates, the script ends with a
-- `TypeError`, and not with the return code of riscv-dv.
pub compile_test-dv_failed :
    (o : Outside) (z : ℤ) (spawn : Runs) (md : RegressionMetadata) (trr : TestRunResult)
    (dir_test : FilePath)
    → trr.testtype ≡ some riscvdv
    → trr.dir_test ≡ some dir_test
    → o.log_opens ≡ true
    → is_nonzero z ≡ true
    → compile_test o (exited z) spawn md trr
      ≡ err ErrorKind.type_error "'int' object is not iterable"
unfolding compile_test get_riscvdv_compile_cmds required after_dv run_one open_redirect
compile_test-dv_failed o z spawn md trr dir_test kind dir opens nonzero =
    rw (kind, dir, opens, nonzero) refl
