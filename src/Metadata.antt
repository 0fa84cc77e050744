-- ===== src/Metadata.antt =====
-- metadata.py (dv/uvm/core_ibex/scripts): the metadata of a regression. What the scripts keep
-- between their runs is the record `RegressionMetadata`, which this file declares; Metadata/Args.antt
-- makes one from a text of arguments, Metadata/TestList.antt chooses the tests,
-- Metadata/Create.antt makes the records of the runs, and Metadata/Locked.antt is the lock around
-- the file. The time is a text.
pub mod Args
pub mod TestList
pub mod Create
pub mod Locked
pub mod Samples
mod Tests
use kiemchung_ibex_v.Base.{String, Bool, true, false, List, [], Option, none}
use kiemchung_ibex_v.Base.Dict.{Dict}
use kiemchung_ibex_v.Base.Int.{ℤ, pos}
pub use kiemchung_ibex_v.SetupImports.{Roots, roots}
use kiemchung_ibex_v.TestRunResult.{FilePath, TestType, path_join}

-- The directory of the tests is set as an attribute that the class does not declare: the last one.
pub record RegressionMetadata : Type 0 where
  pub dir_out : FilePath
  pub dir_metadata : FilePath
  pub git_commit : String
  pub creation_datetime : String
  pub pickle_file : FilePath
  pub yaml_file : FilePath
  pub raw_args_str : String
  pub raw_args_dict : Dict String
  pub seed : ℤ
  pub waves : Bool
  pub cov : Bool
  pub cosim : Bool
  pub simulator : String
  pub iss : String
  pub test : String
  pub verbose : Bool
  pub iterations : Option ℤ
  pub signature_addr : String
  pub ibex_config : String
  pub dut_cov_rtl_path : String
  pub tests_and_counts : List (String × ℤ × TestType)
  pub isa_ibex : Option String
  pub isa_iss : Option String
  pub run_rtl_timeout_s : ℤ
  pub ibex_configs : FilePath
  pub ibex_riscvdv_simulator_yaml : FilePath
  pub ibex_riscvdv_customtarget : FilePath
  pub ibex_riscvdv_testlist : FilePath
  pub ibex_riscvdv_csr : FilePath
  pub directed_test_dir : FilePath
  pub directed_test_data : FilePath
  pub custom_test_data : FilePath
  pub riscvdv_build_log : Option FilePath
  pub riscvdv_build_stdout : Option FilePath
  pub riscvdv_build_cmds : Option (List (List String))
  pub tb_build_log : Option FilePath
  pub tb_build_stdout : Option FilePath
  pub tb_build_cmds : Option (List (List String))
  pub riscvdv_fcov_log : Option FilePath
  pub riscvdv_fcov_stdout : Option FilePath
  pub riscvdv_fcov_cmds : Option (List (List String))
  pub cov_merge_db_list : Option FilePath
  pub cov_merge_log : Option FilePath
  pub cov_merge_stdout : Option FilePath
  pub cov_merge_cmds : Option (List (List String))
  pub cov_report_log : Option FilePath
  pub cov_report_stdout : Option FilePath
  pub cov_report_cmds : Option (List (List String))
  pub regr_log : Option FilePath
  pub regr_log_junit : Option FilePath
  pub regr_log_junit_merged : Option FilePath
  pub environment_variables : Dict String
  pub ibex_root : FilePath
  pub riscvdv_root : FilePath
  pub ot_lowrisc_ip : FilePath
  pub ot_xcelium_cov_scripts : FilePath
  pub ibex_dv_root : FilePath
  pub dir_build : FilePath
  pub dir_instruction_generator : FilePath
  pub dir_tb : FilePath
  pub dir_run : FilePath
  pub dir_cov : FilePath
  pub dir_fcov : FilePath
  pub dir_shared_cov : FilePath
  pub dir_cov_merged : FilePath
  pub dir_cov_report : FilePath
  pub tests_pickle_files : List FilePath
  pub dir_tests : FilePath

-- The defaults of the fields; `now` is the time when the class was made.
abbrev pub new : String → RegressionMetadata
new now = record {
  dir_out = ".";
  dir_metadata = ".";
  git_commit = "";
  creation_datetime = now;
  pickle_file = ".";
  yaml_file = ".";
  raw_args_str = " ";
  raw_args_dict = [];
  seed = pos 1;
  waves = false;
  cov = false;
  cosim = true;
  simulator = " ";
  iss = " ";
  test = " ";
  verbose = false;
  iterations = none;
  signature_addr = " ";
  ibex_config = " ";
  dut_cov_rtl_path = "";
  tests_and_counts = [];
  isa_ibex = none;
  isa_iss = none;
  run_rtl_timeout_s = pos 1800;
  ibex_configs = ".";
  ibex_riscvdv_simulator_yaml = ".";
  ibex_riscvdv_customtarget = ".";
  ibex_riscvdv_testlist = ".";
  ibex_riscvdv_csr = ".";
  directed_test_dir = ".";
  directed_test_data = ".";
  custom_test_data = ".";
  riscvdv_build_log = none;
  riscvdv_build_stdout = none;
  riscvdv_build_cmds = none;
  tb_build_log = none;
  tb_build_stdout = none;
  tb_build_cmds = none;
  riscvdv_fcov_log = none;
  riscvdv_fcov_stdout = none;
  riscvdv_fcov_cmds = none;
  cov_merge_db_list = none;
  cov_merge_log = none;
  cov_merge_stdout = none;
  cov_merge_cmds = none;
  cov_report_log = none;
  cov_report_stdout = none;
  cov_report_cmds = none;
  regr_log = none;
  regr_log_junit = none;
  regr_log_junit_merged = none;
  environment_variables = [];
  ibex_root = ".";
  riscvdv_root = ".";
  ot_lowrisc_ip = ".";
  ot_xcelium_cov_scripts = ".";
  ibex_dv_root = ".";
  dir_build = ".";
  dir_instruction_generator = ".";
  dir_tb = ".";
  dir_run = ".";
  dir_cov = ".";
  dir_fcov = ".";
  dir_shared_cov = ".";
  dir_cov_merged = ".";
  dir_cov_report = ".";
  tests_pickle_files = [];
  dir_tests = ".";
}

unfoldable pub setup_directories : Roots → RegressionMetadata → RegressionMetadata
setup_directories r md =
    let dir_build = path_join md.dir_out "build" in
    let dir_run = path_join md.dir_out "run" in
    let dir_cov = path_join dir_run "coverage" in
    record md {
      ibex_root = r.ibex_root;
      riscvdv_root = r.riscv_dv;
      ot_lowrisc_ip = r.ot_lowrisc_ip;
      ibex_dv_root = r.core_ibex;
      dir_build = dir_build;
      dir_instruction_generator = path_join dir_build "instr_gen";
      dir_tb = path_join dir_build "tb";
      dir_run = dir_run;
      dir_tests = path_join dir_run "tests";
      dir_cov = dir_cov;
      dir_fcov = path_join dir_cov "fcov";
      dir_shared_cov = path_join dir_cov "shared_cov";
      dir_cov_merged = path_join dir_cov "merged";
      dir_cov_report = path_join dir_cov "report";
    }

-- `__post_init__`; `environ` is `dict(os.environ)`.
unfoldable pub post_init : Roots → Dict String → RegressionMetadata → RegressionMetadata
unfolding setup_directories
post_init r environ md =
    let md = setup_directories r md in
    let riscv_dv_extension = path_join md.ibex_dv_root "riscv_dv_extension" in
    let directed_tests = path_join md.ibex_dv_root "directed_tests" in
    record md {
      pickle_file = path_join md.dir_metadata "metadata.pickle";
      yaml_file = path_join md.dir_metadata "metadata.yaml";
      ibex_configs = path_join md.ibex_root "ibex_configs.yaml";
      ot_xcelium_cov_scripts =
          path_join (path_join (path_join md.ot_lowrisc_ip "dv") "tools") "xcelium";
      ibex_riscvdv_simulator_yaml =
          path_join (path_join md.ibex_dv_root "yaml") "rtl_simulation.yaml";
      ibex_riscvdv_customtarget = riscv_dv_extension;
      ibex_riscvdv_testlist = path_join riscv_dv_extension "testlist.yaml";
      ibex_riscvdv_csr = path_join riscv_dv_extension "csr_description.yaml";
      directed_test_dir = directed_tests;
      directed_test_data = path_join directed_tests "directed_testlist.yaml";
      custom_test_data = path_join directed_tests "custom_testlist.yaml";
      environment_variables = environ;
    }
