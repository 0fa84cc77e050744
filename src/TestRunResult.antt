-- ===== src/TestRunResult.antt =====
-- test_run_result.py (dv/uvm/core_ibex/scripts): the record of one test run.
mod Modes
pub use Modes.{TestType, riscvdv, directed, FailureModes, timeout, file_error, log_error}
use kiemchung_ibex_v.Base.{ℕ, String, ◌<>◌, Bool, Option, none, List, starts_with, str_eq, ◌||◌}
use kiemchung_ibex_v.Base.{if◌then◌else◌}
use kiemchung_ibex_v.Base.Dict.{Dict}
use kiemchung_ibex_v.Base.Int.{ℤ}
use kiemchung_ibex_v.Base.Value.{Value}

-- A `pathlib.Path`, by its text.
abbrev pub FilePath : Type 0
FilePath = String

-- `p / q`, for texts without redundant separators
unfoldable pub path_join : FilePath → FilePath → FilePath
path_join p q =
    if starts_with q "/" then q else if str_eq p "" || str_eq p "." then q else p <> "/" <> q

-- Where the scripts set a field to something else than its annotation says, its type is what they
-- set: `timeout_s` and `rtl_test` are what a YAML file holds, `ddm_sim_opts` is one text, and
-- `compile_asm_gen_cmds` is a list of commands.
pub record TestRunResult : Type 0 where
  pub passed : Option Bool
  pub failure_mode : Option FailureModes
  pub failure_message : Option String
  pub timeout_s : Option Value
  pub testtype : Option TestType
  pub testdotseed : Option String
  pub testname : Option String
  pub seed : Option ℤ
  pub binary : Option FilePath
  pub rtl_simulator : Option String
  pub iss_cosim : Option String
  pub is_discrete_debug_module : Option Bool
  pub binary_main : Option FilePath
  pub binary_dm : Option FilePath
  pub vmem_main : Option FilePath
  pub vmem_dm : Option FilePath
  pub ddm_sim_opts : Option String
  pub gen_test : Option (List String)
  pub gen_opts : Option (List String)
  pub rtl_test : Option Value
  pub sim_opts : Option (List String)
  pub directed_data : Option (Dict Value)
  pub dir_test : Option FilePath
  pub assembly : Option FilePath
  pub objectfile : Option FilePath
  pub riscvdv_run_gen_log : Option FilePath
  pub riscvdv_run_gen_stdout : Option FilePath
  pub riscvdv_run_log : Option FilePath
  pub riscvdv_run_stdout : Option FilePath
  pub compile_asm_gen_log : Option FilePath
  pub compile_asm_log : Option FilePath
  pub rtl_log : Option FilePath
  pub rtl_stdout : Option FilePath
  pub rtl_trace : Option FilePath
  pub iss_cosim_log : Option FilePath
  pub iss_cosim_trace : Option FilePath
  pub dir_fcov : Option FilePath
  pub riscvdv_run_gen_cmds : Option (List (List String))
  pub riscvdv_run_cmds : Option (List (List String))
  pub compile_asm_gen_cmds : Option (List (List String))
  pub compile_asm_cmds : Option (List (List String))
  pub rtl_cmds : Option (List (List String))
  pub metadata_pickle_file : Option FilePath
  pub pickle_file : Option FilePath
  pub yaml_file : Option FilePath

-- `TestRunResult()`: every field has its default, `None`.
abbrev pub new : TestRunResult
new = record {
  passed = none;
  failure_mode = none;
  failure_message = none;
  timeout_s = none;
  testtype = none;
  testdotseed = none;
  testname = none;
  seed = none;
  binary = none;
  rtl_simulator = none;
  iss_cosim = none;
  is_discrete_debug_module = none;
  binary_main = none;
  binary_dm = none;
  vmem_main = none;
  vmem_dm = none;
  ddm_sim_opts = none;
  gen_test = none;
  gen_opts = none;
  rtl_test = none;
  sim_opts = none;
  directed_data = none;
  dir_test = none;
  assembly = none;
  objectfile = none;
  riscvdv_run_gen_log = none;
  riscvdv_run_gen_stdout = none;
  riscvdv_run_log = none;
  riscvdv_run_stdout = none;
  compile_asm_gen_log = none;
  compile_asm_log = none;
  rtl_log = none;
  rtl_stdout = none;
  rtl_trace = none;
  iss_cosim_log = none;
  iss_cosim_trace = none;
  dir_fcov = none;
  riscvdv_run_gen_cmds = none;
  riscvdv_run_cmds = none;
  compile_asm_gen_cmds = none;
  compile_asm_cmds = none;
  rtl_cmds = none;
  metadata_pickle_file = none;
  pickle_file = none;
  yaml_file = none;
}
