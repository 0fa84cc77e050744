-- ===== src/RunInstrGen/Exported.antt =====
-- What holds of the generation of a test.
use kiemchung_ibex_v.Base.{
  String, false, List, ◌∷◌, [], some, Result, ok, ErrorKind, ◌>>=◌, guard, map, Bool-cases, inl,
  inr, >>=-eq-ok, ◌≡◌, refl, arith,
}
use kiemchung_ibex_v.Base.Int.{ℤ, is_nonzero}
use kiemchung_ibex_v.Builds.{Runs, run_all}
use kiemchung_ibex_v.IbexConfig.{Config, parse_config}
use kiemchung_ibex_v.Metadata.{RegressionMetadata}
use kiemchung_ibex_v.RunInstrGen.{reloc_commands}
use kiemchung_ibex_v.RunInstrGen.Copies.{do_file_copies, do_file_copies-all, paths}
use kiemchung_ibex_v.RunInstrGen.Generate.{
  Outside, Generated, run_generator, generate, name_of, dir_of, gen_cmd, signature, run_gen,
  file_copies, finish, run_moved, started_with,
}
use kiemchung_ibex_v.RunOne.{Spawn, run_one}
use kiemchung_ibex_v.TestRunResult.{FilePath, TestRunResult, path_join}

module _ (o : Outside) where
  -- The record is exported with the program of the test, and every file of the rules was copied.
  pub IsComplete : String → FilePath → Generated o → Type 0
  IsComplete testname dir_test g =
      (trr : TestRunResult) × (g.exported ≡ some trr)
      × (trr.assembly ≡ some (path_join dir_test "test.S"))
      × (g.copied ≡ map (paths o.exists o.copies o.td dir_test) (file_copies o testname))

  finish-IsComplete :
      (testname : String) (dir_test : FilePath) (trr : TestRunResult) (ret : ℤ) (g : Generated o)
      → trr.assembly ≡ some (path_join dir_test "test.S")
      → finish o testname dir_test trr ret ≡ ok g
      → is_nonzero g.returncode ≡ false
      → IsComplete testname dir_test g
  unfolding finish IsComplete
  finish-IsComplete testname dir_test trr ret g assembly h zero_code =
      let made = do_file_copies o.exists o.copies o.td dir_test (file_copies o testname) in
      let complete = do_file_copies-all o.exists o.copies o.td dir_test (file_copies o testname) in
      elim (Bool-cases (is_nonzero ret)) [
        | inl failed ↦ ground (arith, failed, h, zero_code)
        | inr succeeded ↦
            (trr, ground (arith, succeeded, h), assembly, ground (arith, succeeded, h, complete))
      ]

  run_generator-IsComplete :
      (spawn : Runs) (md : RegressionMetadata) (testname : String) (dir_test : FilePath)
      (started : TestRunResult) (g : Generated o)
      → run_generator o spawn md testname dir_test started ≡ ok g
      → is_nonzero g.returncode ≡ false
      → IsComplete testname dir_test g
  unfolding run_generator run_moved started_with
  run_generator-IsComplete spawn md testname dir_test started g h zero_code =
      let moved = run_moved o spawn md testname dir_test started in
      let move =
        reloc_commands o.cwd (path_join o.td "@@PLACEHOLDER@@")
          (o.resolve md.dir_instruction_generator) o.td md.simulator testname in
      let (orig, _, h1) = >>=-eq-ok o.orig_cmds (λ orig. move orig >>= moved) h in
      let (cmds, _, h2) = >>=-eq-ok (move orig) moved h1 in
      let last = finish o testname dir_test (started_with o md dir_test started cmds) in
      let (_, _, h3) =
        >>=-eq-ok (guard o.run_log_opens ErrorKind.os_error "cannot open")
          (λ _. run_all spawn 0 cmds >>= last) h2 in
      let (ret, _, h4) = >>=-eq-ok (run_all spawn 0 cmds) last h3 in
      finish-IsComplete testname dir_test _ ret g refl h4 zero_code

  run_gen-IsComplete :
      (gen : Spawn) (spawn : Runs) (md : RegressionMetadata) (trr : TestRunResult)
      (testname : String) (dir_test : FilePath) (cmd : List String) (g : Generated o)
      → run_gen o gen spawn md trr testname dir_test cmd ≡ ok g
      → is_nonzero g.returncode ≡ false
      → IsComplete testname dir_test g
  unfolding run_gen run_one
  run_gen-IsComplete gen spawn md trr testname dir_test cmd g h zero_code =
      let started : TestRunResult = record trr {
        riscvdv_run_gen_stdout = some (path_join md.dir_instruction_generator "riscvdv_cmds.log");
        riscvdv_run_gen_cmds = some (cmd ∷ []);
      } in
      let finished = run_generator-IsComplete spawn md testname dir_test started g in
      ground (arith, h, zero_code, finished)

  name_of-some :
      (trr : TestRunResult) (name : String) → name_of o trr ≡ ok name → trr.testname ≡ some name
  unfolding name_of
  name_of-some trr name h = ground (arith, h)

  dir_of-some :
      (trr : TestRunResult) (dir : FilePath) → dir_of o trr ≡ ok dir → trr.dir_test ≡ some dir
  unfolding dir_of
  dir_of-some trr dir h = ground (arith, h)

  -- If the script returns zero, the test has a name and a directory, its record is exported with the
  -- assembly file in that directory, and every file that the rules of the test name was copied there.
  pub generate-IsComplete :
      (gen : Spawn) (spawn : Runs) (md : RegressionMetadata) (trr : TestRunResult) (g : Generated o)
      → generate o gen spawn md trr ≡ ok g
      → is_nonzero g.returncode ≡ false
      → (testname : String) × (dir_test : FilePath) × (trr.testname ≡ some testname)
        × (trr.dir_test ≡ some dir_test)
        × IsComplete testname dir_test g
  unfolding generate
  generate-IsComplete gen spawn md trr g h zero_code =
      let k3 : Config → String → String → FilePath → Result (Generated o) = λ cfg name sig dir.
        run_gen o gen spawn md trr name dir (gen_cmd o md cfg name trr.seed sig) in
      let k2 : Config → String → String → Result (Generated o) =
        λ cfg name sig. dir_of o trr >>= k3 cfg name sig in
      let k1 : Config → String → Result (Generated o) =
        λ cfg name. signature name md.signature_addr >>= k2 cfg name in
      let (cfg, _, h1) =
        >>=-eq-ok (parse_config md.ibex_config o.configs_yaml) (λ cfg. name_of o trr >>= k1 cfg)
          h in
      let (name, named, h2) = >>=-eq-ok (name_of o trr) (k1 cfg) h1 in
      let (sig, _, h3) = >>=-eq-ok (signature name md.signature_addr) (k2 cfg name) h2 in
      let (dir, placed, h4) = >>=-eq-ok (dir_of o trr) (k3 cfg name sig) h3 in
      (
        name,
        dir,
        name_of-some trr name named,
        dir_of-some trr dir placed,
        run_gen-IsComplete gen spawn md trr name dir _ g h4 zero_code,
      )
