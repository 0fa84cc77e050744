-- ===== src/RunInstrGen/Generate.antt =====
-- `_main` of run_instr_gen.py: riscv-dv writes the commands of the generator, they are moved to the
-- temporary directory, run, and what they leave is copied to the directory of the test. The files,
-- the commands, `Path.resolve` and the current directory are parameters.
use kiemchung_ibex_v.Base.{
  ℕ, zero, suc, ◌/◌, ◌%◌, ◌==◌, ltb, String, ◌<>◌, Bool, true, false, not, List, [], ◌∷◌, ◌++◌,
  Option, none, some, Result, ok, err, ErrorKind, ◌>>=◌, ◌>>◌, guard, map, if◌then◌else◌, str_eq,
}
use kiemchung_ibex_v.Base.Int.{ℤ, pos, negsuc, sub_ℕ, is_nonzero}
use kiemchung_ibex_v.Base.Text.{has, join, str_int, str_ℕ}
use kiemchung_ibex_v.Base.Value.{Value, bool, int}
use kiemchung_ibex_v.Builds.{Runs, run_all, get_run_cmd}
use kiemchung_ibex_v.IbexConfig.{Config, parse_config}
use kiemchung_ibex_v.Metadata.{RegressionMetadata, Roots}
use kiemchung_ibex_v.RunInstrGen.{reloc_commands}
use kiemchung_ibex_v.RunInstrGen.Copies.{CopyRule, Copied, do_file_copies}
use kiemchung_ibex_v.RunOne.{Spawn, run_one, to_path}
use kiemchung_ibex_v.TestRunResult.{FilePath, TestRunResult, path_join}
use kiemchung_ibex_v.TraceCsv.{int_16}

-- A digit of `:x`
unfoldable pub hex_digit : ℕ → String
hex_digit d =
    if ltb d 10
    then str_ℕ d
    else if d == 10
    then "a"
    else if d == 11
    then "b"
    else if d == 12
    then "c"
    else if d == 13
    then "d"
    else if d == 14
    then "e"
    else "f"

unfoldable pub hex_onto : ℕ → ℕ → String → String
unfolding hex_digit
hex_onto zero n out = out
hex_onto (suc fuel) n out =
    let out' = hex_digit (n % 16) <> out in
    let more = hex_onto fuel (n / 16) out' in if n / 16 == 0 then out' else more

-- `f"{z:x}"`; a number has at most as many digits as its successor counts.
unfoldable pub hex_text : ℤ → String
unfolding hex_onto
hex_text (pos n) = hex_onto (suc n) n ""
hex_text (negsuc n) = "-" <> hex_onto (suc (suc n)) (suc n) ""

-- What a run gets from outside: `orig_cmds` are the lines that riscv-dv writes to its list.
pub record Outside : Type 0 where
  pub roots : Roots
  pub configs_yaml : Value
  pub td : FilePath
  pub cwd : FilePath
  pub resolve : FilePath → FilePath
  pub show : Value → String
  pub made_dir : Bool
  pub gen_log_opens : Bool
  pub orig_cmds : Result (List String)
  pub run_log_opens : Bool
  pub exists : FilePath → Bool
  pub copies : FilePath → FilePath → Bool

-- The address that the end of a test is told at: four less for a CSR test
unfoldable pub signature : String → String → Result String
unfolding int_16 hex_text
signature testname addr =
    if not (has "riscv_csr_test" testname)
    then ok addr
    else do n ← int_16 addr; ok (hex_text (sub_ℕ n 4))

abbrev inst_overrides : List String
inst_overrides = "riscv_asm_program_gen" ∷ "ibex_asm_program_gen" ∷ "uvm_test_top.asm_gen" ∷ []

module _ (o : Outside) where
  -- `str(v)` for a number of a configuration
  number_text : Value → String
  number_text (int z) = str_int z
  number_text (bool b) = if b then "True" else "False"
  number_text v = o.show v

  -- `sim_opts_dict`
  sim_opts_dict : Config → String → List (String × String)
  unfolding number_text
  sim_opts_dict cfg sig =
      ("uvm_set_inst_override", join "," inst_overrides)
      ∷ ("require_signature_addr", "1")
      ∷ ("signature_addr", sig)
      ∷ ("pmp_num_regions", number_text cfg.pmp_num_regions)
      ∷ ("pmp_granularity", number_text cfg.pmp_granularity)
      ∷ ("tvec_alignment", "8")
      ∷ []

  -- The command that writes the commands of the generator; a missing ISA is formatted to an empty
  -- text.
  unfoldable pub gen_cmd : RegressionMetadata → Config → String → Option ℤ → String → List String
  unfolding sim_opts_dict
  gen_cmd md cfg testname seed sig =
      get_run_cmd o.roots o.resolve md.verbose
      ++ "--so"
        ∷ "--steps=gen"
        ∷ "--output"
        ∷ path_join o.td "@@PLACEHOLDER@@"
        ∷ "--simulator"
        ∷ md.simulator
        ∷ "--isa"
        ∷ (elim md.isa_ibex [ none ↦ "" | some isa ↦ isa ])
        ∷ "--test"
        ∷ testname
        ∷ "--start_seed"
        ∷ (elim seed [ none ↦ "None" | some s ↦ str_int s ])
        ∷ "--iterations"
        ∷ "1"
        ∷ "--end_signature_addr"
        ∷ sig
        ∷ "--debug"
        ∷ path_join o.td "cmds.list"
        ∷ "--sim_opts"
        ∷ join " " (map (λ (k, v). "+" <> k <> "=" <> v) (sim_opts_dict cfg sig))
        ∷ []

  -- The rules for what a test leaves
  unfoldable pub file_copies : String → List CopyRule
  file_copies testname =
      if str_eq testname "riscv_csr_test"
      then ("riscv_csr_test_0.S", "test.S", false) ∷ []
      else ("gen.log", "gen.log", true) ∷ ("test_0.S", "test.S", false) ∷ []

  -- What a run leaves: the record that is exported, the copies that are made, and the return code
  pub record Generated : Type 0 where
    pub exported : Option TestRunResult
    pub copied : List Copied
    pub returncode : ℤ

  -- What follows the commands
  unfoldable pub finish : String → FilePath → TestRunResult → ℤ → Result Generated
  unfolding file_copies
  finish testname dir_test trr ret = do
    let run_failed = is_nonzero ret
    let made = do_file_copies o.exists o.copies o.td dir_test (file_copies testname) run_failed
    made.1
    ok (record {
      exported = some trr;
      copied = made.0;
      returncode = if run_failed then ret else pos 0;
    })

  -- What is kept of the commands that are run
  unfoldable pub started_with :
      RegressionMetadata → FilePath → TestRunResult → List (List String) → TestRunResult
  started_with md dir_test started cmds = record started {
    riscvdv_run_cmds = some cmds;
    riscvdv_run_stdout = some (path_join md.dir_instruction_generator "riscvdv_run.log");
    assembly = some (path_join dir_test "test.S");
  }

  -- The run of the commands
  unfoldable pub run_moved :
      Runs
      → RegressionMetadata
      → String
      → FilePath
      → TestRunResult
      → List (List String)
      → Result Generated
  unfolding finish started_with
  run_moved spawn md testname dir_test started cmds = do
    guard o.run_log_opens ErrorKind.os_error "cannot open"
    ret ← run_all spawn 0 cmds
    finish testname dir_test (started_with md dir_test started cmds) ret

  -- What follows the run of riscv-dv, if it did not fail
  unfoldable pub run_generator :
      Runs → RegressionMetadata → String → FilePath → TestRunResult → Result Generated
  unfolding run_moved
  run_generator spawn md testname dir_test started = do
    orig_cmds ← o.orig_cmds
    cmds ←
        reloc_commands o.cwd (path_join o.td "@@PLACEHOLDER@@")
          (o.resolve md.dir_instruction_generator) o.td md.simulator testname orig_cmds
    run_moved spawn md testname dir_test started cmds

  -- The run of riscv-dv, for a test with a name and a directory
  unfoldable pub run_gen :
      Spawn
      → Runs
      → RegressionMetadata
      → TestRunResult
      → String
      → FilePath
      → List String
      → Result Generated
  unfolding run_generator
  run_gen gen spawn md trr testname dir_test cmd = do
    let started = record trr {
      riscvdv_run_gen_stdout = some (path_join md.dir_instruction_generator "riscvdv_cmds.log");
      riscvdv_run_gen_cmds = some (cmd ∷ []);
    }
    gen_retcode ← run_one gen (to_path o.gen_log_opens) false
    elim (is_nonzero gen_retcode) [
      | true ↦ ok (record { exported = none; copied = []; returncode = gen_retcode })
      | false ↦ run_generator spawn md testname dir_test started
    ]

  -- The test that is run has a name and a directory, which can be made.
  unfoldable pub name_of : TestRunResult → Result String
  name_of trr = elim trr.testname [
    | none ↦ err ErrorKind.type_error "argument of type 'NoneType' is not iterable"
    | some testname ↦ ok testname
  ]

  unfoldable pub dir_of : TestRunResult → Result FilePath
  dir_of trr = elim trr.dir_test [
    | none ↦ err ErrorKind.attribute_error "'NoneType' object has no attribute 'mkdir'"
    | some dir_test ↦ do guard o.made_dir ErrorKind.os_error dir_test; ok dir_test
  ]

  -- `_main`; `gen` is what riscv-dv does, and `spawn` what the commands that it writes do.
  unfoldable pub generate : Spawn → Runs → RegressionMetadata → TestRunResult → Result Generated
  unfolding gen_cmd run_gen name_of dir_of
  generate gen spawn md trr = do
    cfg ← parse_config md.ibex_config o.configs_yaml
    testname ← name_of trr
    sig ← signature testname md.signature_addr
    dir_test ← dir_of trr
    run_gen gen spawn md trr testname dir_test (gen_cmd md cfg testname trr.seed sig)
