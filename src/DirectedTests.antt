-- ===== src/DirectedTests.antt =====
-- directed_test_schema.py (dv/uvm/core_ibex/scripts): the lists of directed tests, read from YAML
-- and validated. What pydantic coerces a value of a plain type to, the files that exist and
-- `Path.parent` are parameters. A directed test holds the fields of its configuration.
pub mod Valid
mod Tests
use kiemchung_ibex_v.Base.{
  String, ◌<>◌, Bool, true, false, not, List, [], ◌∷◌, Option, none, some, Result, ok, err,
  ErrorKind, ◌>>=◌, ◌>>◌, guard, traverse, any, all, keep, first, map, if◌then◌else◌, str_eq,
}
use kiemchung_ibex_v.Base.Dict.{Dict, lookup, update}
use kiemchung_ibex_v.Base.Int.{ℤ, is_positive}
use kiemchung_ibex_v.Base.Value.{Value, null, bool, int, str, list, dict, Fields, scalar_eq}
use kiemchung_ibex_v.IbexConfig.{get_item}
use kiemchung_ibex_v.SimCommands.{as_dict}
use kiemchung_ibex_v.TestRunResult.{FilePath, path_join}

-- What pydantic reads a value of type `str`, `int` or `dict` from, if it does
pub record Coercions : Type 0 where
  pub to_str : Value → Option String
  pub to_int : Value → Option ℤ
  pub to_dict : Value → Option Fields

pub record DConfig : Type 0 where
  pub config : String
  pub rtl_test : String
  pub rtl_params : Fields
  pub timeout_s : ℤ
  pub gcc_opts : String
  pub ld_script : FilePath
  pub includes : FilePath

pub record DTest : Type 0 where
  pub common : DConfig
  pub test : String
  pub desc : String
  pub test_srcs : FilePath
  pub iterations : ℤ

-- `DirectedTestsYaml`
pub record Model : Type 0 where
  pub configs : List DConfig
  pub tests : List DTest

abbrev invalid {ℓ} : {A : Type ℓ} → String → Result A
invalid m = err ErrorKind.value_error m

-- A field that must be there
field_of : String → Dict Value → Result Value
field_of k d = elim (lookup k d) [ none ↦ invalid (k <> ": Field required") | some v ↦ ok v ]

coerced {ℓ} : {A : Type ℓ} → String → Option A → Result A
coerced k none = invalid (k <> ": Input should be of another type")
coerced k (some a) = ok a

-- `make_valid_pathlib_path`
make_valid_path : Value → Result FilePath
make_valid_path (str s) = ok s
make_valid_path _ = invalid "Could not convert input to valid Path"

-- `name in names`
abbrev pub contains : List String → String → Bool
contains names name = any (λ n. str_eq n name) names

abbrev pub config_names : List DConfig → List String
config_names cs = map (λ c. c.config) cs

module _ (c : Coercions) where
  str_field : String → Dict Value → Result String
  unfolding field_of coerced
  str_field k d = do v ← field_of k d; coerced k (c.to_str v)

  dict_field : String → Dict Value → Result Fields
  unfolding field_of coerced
  dict_field k d = do v ← field_of k d; coerced k (c.to_dict v)

  path_field : String → Dict Value → Result FilePath
  unfolding field_of make_valid_path
  path_field k d = do v ← field_of k d; make_valid_path v

  -- `pydantic.conint(gt=0)`
  positive_field : String → Dict Value → Result ℤ
  unfolding field_of coerced
  positive_field k d = do
    v ← field_of k d
    z ← coerced k (c.to_int v)
    guard (is_positive z) ErrorKind.value_error (k <> ": Input should be greater than 0")
    ok z

  validate_config : Dict Value → Result DConfig
  unfolding str_field dict_field path_field positive_field
  validate_config d = do
    config ← str_field "config" d
    rtl_test ← str_field "rtl_test" d
    rtl_params ← dict_field "rtl_params" d
    gcc_opts ← str_field "gcc_opts" d
    ld_script ← path_field "ld_script" d
    includes ← path_field "includes" d
    timeout_s ← positive_field "timeout_s" d
    ok (record {
      config = config;
      rtl_test = rtl_test;
      rtl_params = rtl_params;
      timeout_s = timeout_s;
      gcc_opts = gcc_opts;
      ld_script = ld_script;
      includes = includes;
    })

  validate_test : Dict Value → Result DTest
  unfolding validate_config
  validate_test d = do
    common ← validate_config d
    test ← str_field "test" d
    desc ← str_field "desc" d
    test_srcs ← path_field "test_srcs" d
    iterations ← positive_field "iterations" d
    ok (record {
      common = common;
      test = test;
      desc = desc;
      test_srcs = test_srcs;
      iterations = iterations;
    })

module _ (exists : FilePath → Bool) (parent : FilePath → FilePath) (yaml : FilePath) where
  -- `validate_path_exists`: the path is taken from the directory of the YAML file.
  existing_path : FilePath → Result FilePath
  existing_path v =
      let p = path_join (parent yaml) v in
      if exists p then ok p else invalid ("Path object does not exist on disk : " <> p)

  -- `check_model_path_fields_exist`, which sets each field of type `Path`
  config_paths : DConfig → Result DConfig
  unfolding existing_path
  config_paths m = do
    ld_script ← existing_path m.ld_script
    includes ← existing_path m.includes
    ok (record m { ld_script = ld_script; includes = includes })

  test_paths : DTest → Result DTest
  unfolding config_paths
  test_paths m = do
    common ← config_paths m.common
    test_srcs ← existing_path m.test_srcs
    ok (record m { common = common; test_srcs = test_srcs })

  -- `all_paths_must_exist`
  check_paths : List DConfig → List DTest → Result Model
  unfolding config_paths test_paths
  check_paths configs tests = do
    configs' ← traverse config_paths configs
    tests' ← traverse test_paths tests
    ok (record { configs = configs'; tests = tests' })

  -- `test_config_must_exist`, and then the other validator of the whole model
  check_model : List DConfig → List DTest → Result Model
  unfolding check_paths
  check_model configs tests = do
    guard (all (λ t. contains (config_names configs) t.common.config) tests) ErrorKind.value_error
        "a test gave a config that does not exist in the file"
    check_paths configs tests

  -- `DirectedTestsYaml(yaml=…, configs=…, tests=…)`
  validate_model : Coercions → List (Dict Value) → List (Dict Value) → Result Model
  unfolding validate_config validate_test check_model
  validate_model c raw_configs raw_tests = do
    guard (exists yaml) ErrorKind.value_error ("Path object not found in filesystem : " <> yaml)
    configs ← traverse (validate_config c) raw_configs
    tests ← traverse (validate_test c) raw_tests
    check_model configs tests

-- `entry.get(k)`
abbrev pub get_or_null : String → Dict Value → Value
get_or_null k entry = elim (lookup k entry) [ none ↦ null | some v ↦ v ]

abbrev pub is_test : Dict Value → Bool
is_test entry = not (scalar_eq (get_or_null "test" entry) null)

abbrev pub is_selected : Option (List String) → Dict Value → Bool
is_selected none entry = true
is_selected (some names) entry = any (λ n. scalar_eq (str n) (get_or_null "test" entry)) names

-- `{**t_config, **t}`, with the first configuration of the test's name. The names are texts or
-- other plain values; two that are missing are the same.
join_config : List (Dict Value) → Dict Value → Result (Dict Value)
join_config configs t =
    elim (first (λ i. scalar_eq (get_or_null "config" i) (get_or_null "config" t)) configs) [
      | some t_config ↦ ok (update t_config t)
      | none ↦ do
        name ← get_item "test" t
        config ← get_item "config" t
        invalid "a test gave a config that does not exist in the file"
    ]

-- The handler of a `ValidationError`
exit_on_invalid : Result Model → Result Model
exit_on_invalid (err ErrorKind.value_error m) = err ErrorKind.system_exit "1"
exit_on_invalid r = r

-- `_import_model`, from the entries of the file
pub import_model :
    Coercions
    → (FilePath → Bool)
    → (FilePath → FilePath)
    → FilePath
    → List Value
    → Option (List String)
    → Result Model
unfolding join_config exit_on_invalid validate_model
import_model c exists parent yaml yaml_data selected_tests = do
  entries ← traverse as_dict yaml_data
  let configs = keep (λ i. not (is_test i)) entries
  tests ← traverse (join_config configs) (keep (is_selected selected_tests) (keep is_test entries))
  exit_on_invalid (validate_model exists parent yaml c configs tests)

-- A test of `m.dict()`; a path stands there as its text.
pub test_entry : DTest → Dict Value
test_entry t =
    ("config", str t.common.config)
    ∷ ("rtl_test", str t.common.rtl_test)
    ∷ ("rtl_params", dict t.common.rtl_params)
    ∷ ("timeout_s", int t.common.timeout_s)
    ∷ ("gcc_opts", str t.common.gcc_opts)
    ∷ ("ld_script", str t.common.ld_script)
    ∷ ("includes", str t.common.includes)
    ∷ ("test", str t.test)
    ∷ ("desc", str t.desc)
    ∷ ("test_srcs", str t.test_srcs)
    ∷ ("iterations", int t.iterations)
    ∷ []
