-- ===== src/RunRtl.antt =====
-- run_rtl.py (dv/uvm/core_ibex/scripts): the simulation of one test, and `get_test_entry` of
-- test_entry.py. The files read (the list of tests and the simulators' commands), the environment,
-- `Path.resolve` and the runs of the commands are parameters.
pub mod Timeout
mod Tests
use kiemchung_ibex_v.Base.{
  ℕ, ◌+◌, String, ◌<>◌, Bool, true, false, ◌&&◌, List, [], ◌∷◌, Option, none, some, Result, ok, err,
  ErrorKind, ◌>>=◌, ◌>>◌, if◌then◌else◌, str_eq,
}
use kiemchung_ibex_v.Base.Dict.{Dict, lookup}
use kiemchung_ibex_v.Base.Int.{ℤ, pos}
use kiemchung_ibex_v.Base.Text.{replace, str_ℕ, str_int}
use kiemchung_ibex_v.Base.Value.{Value, null, bool, int, str, list, dict, truthy}
use kiemchung_ibex_v.IbexCmd.{Completed, get_sim_opts}
use kiemchung_ibex_v.IbexConfig.{get_item}
use kiemchung_ibex_v.RunOne.{Spawn, run_one, to_stream}
use kiemchung_ibex_v.SimCommands.{as_dict, as_text, get_tool_cmds}
use kiemchung_ibex_v.TestRunResult.{
  TestRunResult, TestType, riscvdv, directed, FailureModes, timeout, FilePath, path_join,
}

-- The fields of `RegressionMetadata` that the script reads, with the two YAML files as their values
pub record Metadata : Type 0 where
  pub ibex_root : FilePath
  pub dir_tb : FilePath
  pub dir_shared_cov : FilePath
  pub ibex_dv_root : FilePath
  pub riscvdv_testlist : List Value
  pub simulator_yaml : List Value
  pub signature_addr : String
  pub ibex_config : String
  pub simulator : String
  pub iss : String
  pub cov : Bool
  pub waves : Bool
  pub run_rtl_timeout_s : ℕ

-- `get_test_entry`
pub get_test_entry : String → List Value → Result (Dict Value)
get_test_entry testname [] = err ErrorKind.runtime_error ("No matching test entry for " <> testname)
get_test_entry testname (v ∷ vs) =
    let rest = get_test_entry testname vs in
    do
      entry ← as_dict v
      elim (lookup "test" entry) [
        | some (str name) ↦ if str_eq name testname then ok entry else rest
        | _ ↦ rest
      ]

-- A field that the script needs as a text or a path
required : Option String → Result String
required (some s) = ok s
required none = err ErrorKind.type_error "None"

-- The options of the test, by its type
get_testopts : Metadata → TestRunResult → String → Result (Dict Value)
unfolding get_test_entry
get_testopts md trr testname = elim trr.testtype [
  | some riscvdv ↦ get_test_entry testname md.riscvdv_testlist
  | some directed ↦ elim trr.directed_data [
    | some testopts ↦ ok testopts
    | none ↦ err ErrorKind.type_error "'NoneType' object is not subscriptable"
  ]
  | none ↦ err ErrorKind.unbound_local_error "testopts"
]

-- `testopts.get('timeout_s') or md.run_rtl_timeout_s`
pub choose_timeout : Metadata → Dict Value → Value
choose_timeout md testopts = elim (lookup "timeout_s" testopts) [
  | none ↦ int (pos md.run_rtl_timeout_s)
  | some v ↦ if truthy v then v else int (pos md.run_rtl_timeout_s)
]

-- The simulator options of the list of tests, without their line ends
extra_sim_opts : Dict Value → Result String
extra_sim_opts testopts = elim (lookup "sim_opts" testopts) [
  | none ↦ ok ""
  | some v ↦ if truthy v then (do s ← as_text v; ok (replace s "\n" "")) else ok ""
]

-- A path in a formatted text
abbrev path_text : Option FilePath → String
path_text (some p) = p
path_text none = "None"

abbrev seed_text : Option ℤ → String
seed_text (some z) = str_int z
seed_text none = "None"

-- `trr.ddm_sim_opts`
abbrev ddm_opts : TestRunResult → String
ddm_opts trr =
    " +vmem_main="
    <> path_text trr.vmem_main
    <> "\n"
    <> " +vmem_dm="
    <> path_text trr.vmem_dm
    <> "\n"
    <> " +bin_main="
    <> path_text trr.binary_main
    <> "\n"
    <> " +bin_dm="
    <> path_text trr.binary_dm
    <> "\n"

get_ddm_sim_opts : TestRunResult → String
get_ddm_sim_opts trr = elim trr.testtype [
  | some riscvdv ↦ elim trr.is_discrete_debug_module [ some true ↦ ddm_opts trr | _ ↦ "" ]
  | _ ↦ ""
]

-- What is computed before the simulation
pub record Plan : Type 0 where
  pub rtl_test : Value
  pub timeout_s : Value
  pub ddm_sim_opts : String
  pub dir_test : FilePath
  pub sim_cmds : List (List String)

-- The fields of the record that are set before the simulation. The log of VCS is its output.
pub set_fields : Metadata → Plan → TestRunResult → TestRunResult
set_fields md plan trr =
    let rtl_stdout = path_join plan.dir_test "rtl_sim_stdstreams.log" in
    record trr {
      rtl_test = some plan.rtl_test;
      timeout_s = some plan.timeout_s;
      ddm_sim_opts = some plan.ddm_sim_opts;
      rtl_log =
          some (
            if str_eq md.simulator "vcs"
            then rtl_stdout
            else path_join plan.dir_test "rtl_sim.log");
      rtl_trace = some (path_join plan.dir_test "trace_core_00000000.log");
      iss_cosim_trace = some (path_join plan.dir_test (md.iss <> "_cosim_trace_core_00000000.log"));
      rtl_cmds = some plan.sim_cmds;
      rtl_stdout = some rtl_stdout;
    }

-- `show` is `str` of the values that are neither a text nor a number, which `timeout_s` is not.
module _ (show : Value → String) where
  value_text : Value → String
  value_text (str s) = s
  value_text (int z) = str_int z
  value_text v = show v

module _ (root : String) (run : List String → Completed) (environ : String → Option String)
    (resolve : FilePath → FilePath) (show : Value → String) where
  -- What is put for the parameters of the simulator's commands
  subst_vars :
      Metadata → TestRunResult → String → FilePath → FilePath → String → String → Dict String
  subst_vars md trr testname binary dir_test rtl_test sim_opts =
      ("cwd", resolve md.ibex_root)
      ∷ ("test_name", testname)
      ∷ ("rtl_test", rtl_test)
      ∷ ("seed", seed_text trr.seed)
      ∷ ("binary", resolve binary)
      ∷ ("test_dir", resolve dir_test)
      ∷ ("tb_dir", resolve md.dir_tb)
      ∷ ("dir_shared_cov", resolve md.dir_shared_cov)
      ∷ ("rtl_sim_log", resolve (path_join dir_test "rtl_sim.log"))
      ∷ ("rtl_trace", resolve (path_join dir_test "trace_core"))
      ∷ (
        "iss_cosim_trace",
        resolve (path_join dir_test (md.iss <> "_cosim_trace_core_00000000.log")),
      )
      ∷ ("core_ibex", resolve md.ibex_dv_root)
      ∷ ("sim_opts", sim_opts)
      ∷ []

  -- The part of `_main` that computes what the simulation needs
  pub prepare : Metadata → TestRunResult → Result Plan
  unfolding required get_testopts choose_timeout extra_sim_opts get_ddm_sim_opts value_text
      subst_vars
  prepare md trr = do
    testname ← required trr.testname
    testopts ← get_testopts md trr testname
    rtl_test_value ← get_item "rtl_test" testopts
    let timeout_s = choose_timeout md testopts
    sim_opts ← extra_sim_opts testopts
    let ddm_sim_opts = get_ddm_sim_opts trr
    dir_test ← required trr.dir_test
    config_opts ← get_sim_opts root run md.ibex_config md.simulator
    rtl_test ← as_text rtl_test_value
    binary ← required trr.binary
    let all_opts =
        "+signature_addr="
        <> md.signature_addr
        <> "\n"
        <> "+test_timeout_s="
        <> value_text show timeout_s
        <> "\n"
        <> config_opts
        <> "\n"
        <> ddm_sim_opts
        <> sim_opts
    sim_cmds ←
        get_tool_cmds environ (("cov_opts", md.cov) ∷ ("wave_opts", md.waves) ∷ [])
          (subst_vars md trr testname binary dir_test rtl_test all_opts) md.simulator_yaml
          md.simulator "sim"
    ok (record {
      rtl_test = rtl_test_value;
      timeout_s = timeout_s;
      ddm_sim_opts = ddm_sim_opts;
      dir_test = dir_test;
      sim_cmds = sim_cmds;
    })

module _ (spawn : ℕ → List String → Spawn) where
  -- The loop over the commands; the `n`-th is run next.
  run_cmds : ℕ → List (List String) → Result (Unit {0})
  run_cmds n [] = ok tt
  run_cmds n (cmd ∷ cmds) = do
    returncode ← run_one (spawn n cmd) to_stream true
    run_cmds (n + 1) cmds

  -- The handler of `TimeoutExpired`
  pub simulate : Metadata → TestRunResult → List (List String) → Result TestRunResult
  unfolding run_cmds
  simulate md trr cmds = elim (run_cmds 0 cmds) [
    | ok _ ↦ ok trr
    | err ErrorKind.timeout_expired m ↦ ok (record trr {
      failure_mode = some timeout;
      failure_message = some (
          "[FAILURE] Simulation process killed due to timeout ["
          <> str_ℕ (md.run_rtl_timeout_s + 60)
          <> "s].\n");
    })
    | err kind m ↦ err kind m
  ]

module _ (root : String) (run : List String → Completed) (environ : String → Option String)
    (resolve : FilePath → FilePath) (show : Value → String) (spawn : ℕ → List String → Spawn) where
  -- `_main`, from the metadata and the record that are loaded to the record that is exported
  pub run_rtl : Metadata → TestRunResult → Result TestRunResult
  unfolding simulate set_fields
  run_rtl md trr = do
    plan ← prepare root run environ resolve show md trr
    simulate spawn md (set_fields md plan trr) plan.sim_cmds
