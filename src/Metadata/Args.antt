-- ===== src/Metadata/Args.antt =====
-- The metadata that `--args-list` describes, in metadata.py: `arg_list_initializer` and
-- `_get_ibex_metadata`. `Path.resolve`, the time, the Git commit, the environment and what reading
-- ibex_configs.yaml gives are parameters.
pub mod Fresh
use kiemchung_ibex_v.Base.{
  String, ◌<>◌, Bool, true, false, not, List, [], ◌∷◌, Option, none, some, Result, ok, err,
  ErrorKind, ◌>>=◌, ◌>>◌, guard, traverse, if◌then◌else◌, str_eq,
}
use kiemchung_ibex_v.Base.Dict.{Dict, lookup, insert, has_key}
use kiemchung_ibex_v.Base.Int.{ℤ, pos, is_positive, is_negative, is_nonzero}
use kiemchung_ibex_v.Base.Shlex.{shlex_split}
use kiemchung_ibex_v.Base.Text.{lower, parse_int, split_once}
use kiemchung_ibex_v.Base.Value.{Value}
use kiemchung_ibex_v.IbexCmd.{get_isas_for_config}
use kiemchung_ibex_v.IbexConfig.{parse_config}
use kiemchung_ibex_v.TestRunResult.{FilePath, path_join}
use kiemchung_ibex_v.Metadata.{RegressionMetadata, Roots, new, post_init}

-- The types of the fields that a text is read as
pub data FieldType : Type 0 where
  str_t int_t bool_t path_t optional_int_t other_t : FieldType

-- A field of the dataclass; `init` says whether the constructor takes it.
pub record Field : Type 0 where
  pub name : String
  pub type : FieldType
  pub init : Bool

-- `dataclasses.fields(dummy_obj)`
abbrev pub dataclass_fields : List Field
dataclass_fields =
    record { name = "dir_out"; type = FieldType.path_t; init = true }
    ∷ record { name = "dir_metadata"; type = FieldType.path_t; init = true }
    ∷ record { name = "git_commit"; type = FieldType.str_t; init = true }
    ∷ record { name = "creation_datetime"; type = FieldType.other_t; init = true }
    ∷ record { name = "pickle_file"; type = FieldType.path_t; init = false }
    ∷ record { name = "yaml_file"; type = FieldType.path_t; init = false }
    ∷ record { name = "raw_args_str"; type = FieldType.str_t; init = true }
    ∷ record { name = "raw_args_dict"; type = FieldType.other_t; init = true }
    ∷ record { name = "seed"; type = FieldType.int_t; init = true }
    ∷ record { name = "waves"; type = FieldType.bool_t; init = true }
    ∷ record { name = "cov"; type = FieldType.bool_t; init = true }
    ∷ record { name = "cosim"; type = FieldType.bool_t; init = true }
    ∷ record { name = "simulator"; type = FieldType.str_t; init = true }
    ∷ record { name = "iss"; type = FieldType.str_t; init = true }
    ∷ record { name = "test"; type = FieldType.str_t; init = true }
    ∷ record { name = "verbose"; type = FieldType.bool_t; init = true }
    ∷ record { name = "iterations"; type = FieldType.optional_int_t; init = true }
    ∷ record { name = "signature_addr"; type = FieldType.str_t; init = true }
    ∷ record { name = "ibex_config"; type = FieldType.str_t; init = true }
    ∷ record { name = "dut_cov_rtl_path"; type = FieldType.str_t; init = true }
    ∷ record { name = "tests_and_counts"; type = FieldType.other_t; init = true }
    ∷ record { name = "isa_ibex"; type = FieldType.other_t; init = true }
    ∷ record { name = "isa_iss"; type = FieldType.other_t; init = true }
    ∷ record { name = "run_rtl_timeout_s"; type = FieldType.int_t; init = true }
    ∷ record { name = "ibex_configs"; type = FieldType.path_t; init = false }
    ∷ record { name = "ibex_riscvdv_simulator_yaml"; type = FieldType.path_t; init = false }
    ∷ record { name = "ibex_riscvdv_customtarget"; type = FieldType.path_t; init = false }
    ∷ record { name = "ibex_riscvdv_testlist"; type = FieldType.path_t; init = false }
    ∷ record { name = "ibex_riscvdv_csr"; type = FieldType.path_t; init = false }
    ∷ record { name = "directed_test_dir"; type = FieldType.path_t; init = false }
    ∷ record { name = "directed_test_data"; type = FieldType.path_t; init = false }
    ∷ record { name = "custom_test_data"; type = FieldType.path_t; init = false }
    ∷ record { name = "riscvdv_build_log"; type = FieldType.other_t; init = true }
    ∷ record { name = "riscvdv_build_stdout"; type = FieldType.other_t; init = true }
    ∷ record { name = "riscvdv_build_cmds"; type = FieldType.other_t; init = true }
    ∷ record { name = "tb_build_log"; type = FieldType.other_t; init = true }
    ∷ record { name = "tb_build_stdout"; type = FieldType.other_t; init = true }
    ∷ record { name = "tb_build_cmds"; type = FieldType.other_t; init = true }
    ∷ record { name = "riscvdv_fcov_log"; type = FieldType.other_t; init = true }
    ∷ record { name = "riscvdv_fcov_stdout"; type = FieldType.other_t; init = true }
    ∷ record { name = "riscvdv_fcov_cmds"; type = FieldType.other_t; init = true }
    ∷ record { name = "cov_merge_db_list"; type = FieldType.other_t; init = true }
    ∷ record { name = "cov_merge_log"; type = FieldType.other_t; init = true }
    ∷ record { name = "cov_merge_stdout"; type = FieldType.other_t; init = true }
    ∷ record { name = "cov_merge_cmds"; type = FieldType.other_t; init = true }
    ∷ record { name = "cov_report_log"; type = FieldType.other_t; init = true }
    ∷ record { name = "cov_report_stdout"; type = FieldType.other_t; init = true }
    ∷ record { name = "cov_report_cmds"; type = FieldType.other_t; init = true }
    ∷ record { name = "regr_log"; type = FieldType.other_t; init = true }
    ∷ record { name = "regr_log_junit"; type = FieldType.other_t; init = true }
    ∷ record { name = "regr_log_junit_merged"; type = FieldType.other_t; init = true }
    ∷ record { name = "environment_variables"; type = FieldType.other_t; init = false }
    ∷ record { name = "ibex_root"; type = FieldType.path_t; init = false }
    ∷ record { name = "riscvdv_root"; type = FieldType.path_t; init = false }
    ∷ record { name = "ot_lowrisc_ip"; type = FieldType.path_t; init = false }
    ∷ record { name = "ot_xcelium_cov_scripts"; type = FieldType.path_t; init = false }
    ∷ record { name = "ibex_dv_root"; type = FieldType.path_t; init = false }
    ∷ record { name = "dir_build"; type = FieldType.path_t; init = false }
    ∷ record { name = "dir_instruction_generator"; type = FieldType.path_t; init = false }
    ∷ record { name = "dir_tb"; type = FieldType.path_t; init = false }
    ∷ record { name = "dir_run"; type = FieldType.path_t; init = false }
    ∷ record { name = "dir_cov"; type = FieldType.path_t; init = false }
    ∷ record { name = "dir_fcov"; type = FieldType.path_t; init = false }
    ∷ record { name = "dir_shared_cov"; type = FieldType.path_t; init = false }
    ∷ record { name = "dir_cov_merged"; type = FieldType.path_t; init = false }
    ∷ record { name = "dir_cov_report"; type = FieldType.path_t; init = false }
    ∷ record { name = "tests_pickle_files"; type = FieldType.other_t; init = false }
    ∷ []

-- A value of `args_dict`
pub data Arg : Type 0 where
  text : String → Arg
  number : ℤ → Arg
  flag : Bool → Arg
  path : FilePath → Arg
  optional : Option ℤ → Arg

unfoldable pub parse_number : String → Result ℤ
parse_number val = elim (parse_int val) [
  | none ↦ err ErrorKind.value_error ("invalid literal for int() with base 10: " <> val)
  | some z ↦ ok z
]

-- The cast to the type of a field
unfoldable pub cast : String → FieldType → String → Result Arg
unfolding parse_number
cast key FieldType.str_t val = ok (text val)
cast key FieldType.int_t val = do z ← parse_number val; ok (number z)
cast key FieldType.bool_t val = do z ← parse_number val; ok (flag (is_nonzero z))
cast key FieldType.path_t val = ok (path val)
cast key FieldType.optional_int_t val =
    if str_eq val "" then ok (optional none) else do z ← parse_number val; ok (optional (some z))
cast key FieldType.other_t val =
    err ErrorKind.runtime_error ("Couldn't set key '" <> key <> "' in metadata object!")

-- The loop over the fields, which gives the arguments in their order
unfoldable pub cast_fields : Dict String → List Field → Result (List (Field × Arg))
unfolding cast
cast_fields kv_dict [] = ok []
cast_fields kv_dict (f ∷ fs) = elim (lookup f.name kv_dict) [
  | none ↦ cast_fields kv_dict fs
  | some val ↦ do arg ← cast f.name f.type val; args ← cast_fields kv_dict fs; ok ((f, arg) ∷ args)
]

-- `pair.split('=', maxsplit=1)`, which is unpacked into two
unfoldable pub key_value : String → Result (String × String)
key_value pair = elim (split_once b'=' pair) [
  | none ↦ err ErrorKind.value_error "not enough values to unpack (expected 2, got 1)"
  | some kv ↦ ok kv
]

unfoldable pub raw_dict : Dict String → List (String × String) → Dict String
raw_dict d [] = d
raw_dict d ((k, v) ∷ kvs) = raw_dict (insert k v d) kvs

unfoldable pub lower_dict : Dict String → List (String × String) → Dict String
lower_dict d [] = d
lower_dict d ((k, v) ∷ kvs) = lower_dict (insert (lower k) v d) kvs

-- The fields that the constructor is given besides `**args_dict`
abbrev pub is_given : String → Bool
is_given name =
    if str_eq name "dir_out"
    then true
    else if str_eq name "dir_metadata"
    then true
    else str_eq name "git_commit"

-- The keyword arguments that a text can set
pub record Settings : Type 0 where
  pub raw_args_str : String
  pub seed : ℤ
  pub waves : Bool
  pub cov : Bool
  pub cosim : Bool
  pub simulator : String
  pub iss : String
  pub test : String
  pub verbose : Bool
  pub iterations : Option ℤ
  pub signature_addr : String
  pub ibex_config : String
  pub dut_cov_rtl_path : String
  pub run_rtl_timeout_s : ℤ

-- The text itself, and for the others the defaults of the fields
abbrev pub default_settings : String → Settings
default_settings args_list = record {
  raw_args_str = args_list;
  seed = pos 1;
  waves = false;
  cov = false;
  cosim = true;
  simulator = " ";
  iss = " ";
  test = " ";
  verbose = false;
  iterations = none;
  signature_addr = " ";
  ibex_config = " ";
  dut_cov_rtl_path = "";
  run_rtl_timeout_s = pos 1800;
}

-- `cls(key=arg)`
unfoldable pub set_arg : Settings → String → Arg → Settings
set_arg kw key (text t) =
    if str_eq key "raw_args_str"
    then record kw { raw_args_str = t }
    else if str_eq key "simulator"
    then record kw { simulator = t }
    else if str_eq key "iss"
    then record kw { iss = t }
    else if str_eq key "test"
    then record kw { test = t }
    else if str_eq key "signature_addr"
    then record kw { signature_addr = t }
    else if str_eq key "ibex_config"
    then record kw { ibex_config = t }
    else if str_eq key "dut_cov_rtl_path"
    then record kw { dut_cov_rtl_path = t }
    else kw
set_arg kw key (number z) =
    if str_eq key "seed"
    then record kw { seed = z }
    else if str_eq key "run_rtl_timeout_s"
    then record kw { run_rtl_timeout_s = z }
    else kw
set_arg kw key (flag b) =
    if str_eq key "waves"
    then record kw { waves = b }
    else if str_eq key "cov"
    then record kw { cov = b }
    else if str_eq key "cosim"
    then record kw { cosim = b }
    else if str_eq key "verbose"
    then record kw { verbose = b }
    else kw
set_arg kw key (optional z) = if str_eq key "iterations" then record kw { iterations = z } else kw
set_arg kw key (path p) = kw

-- One keyword argument of the constructor: one that it does not take, or that is given twice, is a
-- `TypeError`.
unfoldable pub set_field : Settings → Field × Arg → Result Settings
unfolding set_arg
set_field kw (f, arg) =
    if not f.init
    then err ErrorKind.type_error ("got an unexpected keyword argument '" <> f.name <> "'")
    else if is_given f.name
    then err ErrorKind.type_error ("got multiple values for keyword argument '" <> f.name <> "'")
    else ok (set_arg kw f.name arg)

unfoldable pub set_fields : Settings → List (Field × Arg) → Result Settings
unfolding set_field
set_fields kw [] = ok kw
set_fields kw (a ∷ args) = do kw' ← set_field kw a; set_fields kw' args

-- What the program gets from outside
pub record Given : Type 0 where
  pub roots : Roots
  pub environ : Dict String
  pub resolve : FilePath → FilePath
  pub now : String
  pub git_commit : String
  pub configs_yaml : Value

-- The constructor, but for `__post_init__`
unfoldable pub make_md : Given → FilePath → FilePath → Dict String → Settings → RegressionMetadata
make_md g dir_metadata dir_out raw_args_dict kw = record (new g.now) {
  raw_args_dict = raw_args_dict;
  dir_out = g.resolve dir_out;
  dir_metadata = g.resolve dir_metadata;
  git_commit = g.git_commit;
  creation_datetime = g.now;
  raw_args_str = kw.raw_args_str;
  seed = kw.seed;
  waves = kw.waves;
  cov = kw.cov;
  cosim = kw.cosim;
  simulator = kw.simulator;
  iss = kw.iss;
  test = kw.test;
  verbose = kw.verbose;
  iterations = kw.iterations;
  signature_addr = kw.signature_addr;
  ibex_config = kw.ibex_config;
  dut_cov_rtl_path = kw.dut_cov_rtl_path;
  run_rtl_timeout_s = kw.run_rtl_timeout_s;
}

unfoldable pub arg_list_initializer :
    Given → FilePath → FilePath → String → Result RegressionMetadata
unfolding make_md set_fields cast_fields key_value raw_dict lower_dict post_init
arg_list_initializer g dir_metadata dir_out args_list = do
  pairs ← shlex_split args_list
  key_values ← traverse key_value pairs
  args ← cast_fields (lower_dict [] key_values) dataclass_fields
  kw ← set_fields (default_settings args_list) args
  ok (post_init g.roots g.environ (make_md g dir_metadata dir_out (raw_dict [] key_values) kw))

-- `self.iterations is None or self.iterations > 0`
abbrev pub iterations_accepted : Option ℤ → Bool
iterations_accepted none = true
iterations_accepted (some n) = is_positive n

-- `_get_ibex_metadata`
unfoldable pub get_ibex_metadata : Value → RegressionMetadata → Result RegressionMetadata
get_ibex_metadata configs_yaml md = do
  guard (iterations_accepted md.iterations) ErrorKind.runtime_error
      "Bad --iterations argument: must be positive"
  guard (not (is_negative md.seed)) ErrorKind.runtime_error
      "Bad --start_seed argument: must be non-negative"
  cfg ← parse_config md.ibex_config configs_yaml
  isas ← get_isas_for_config cfg
  ok (record md { isa_ibex = some isas.0; isa_iss = some isas.1 })
