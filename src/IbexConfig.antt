-- ===== src/IbexConfig.antt =====
-- util/ibex_config.py: reading a named configuration and writing it as tool options.
pub mod Accepts
pub mod Options
pub mod Outputs
pub mod Samples
mod Tests
use kiemchung_ibex_v.Base.{String, ◌<>◌, Bool, true, false, not, List, [], ◌∷◌, Option, none, some}
use kiemchung_ibex_v.Base.{Result, ok, err, ErrorKind, ◌>>=◌, ◌>>◌, guard, any, all, ltb, ◌==◌}
use kiemchung_ibex_v.Base.{map, if◌then◌else◌, str_eq}
use kiemchung_ibex_v.Base.Dict.{Dict, keys, lookup, insert, has_key}
use kiemchung_ibex_v.Base.Int.{ℤ, pos, int_eq, is_nonzero}
use kiemchung_ibex_v.Base.Value.{Value, bool, int, str, dict, Fields, fields}

-- The types that `known_fields` gives.
pub data FieldType : Type 0 where
  bool_type str_type int_type : FieldType

abbrev pub known_fields : List (String × FieldType)
known_fields =
    ("RV32E", bool_type)
    ∷ ("RV32M", str_type)
    ∷ ("RV32B", str_type)
    ∷ ("RV32ZC", str_type)
    ∷ ("RegFile", str_type)
    ∷ ("BranchTargetALU", bool_type)
    ∷ ("WritebackStage", bool_type)
    ∷ ("ICache", bool_type)
    ∷ ("ICacheECC", bool_type)
    ∷ ("ICacheScramble", bool_type)
    ∷ ("BranchPredictor", bool_type)
    ∷ ("DbgTriggerEn", bool_type)
    ∷ ("SecureIbex", bool_type)
    ∷ ("PMPEnable", bool_type)
    ∷ ("PMPGranularity", int_type)
    ∷ ("PMPNumRegions", int_type)
    ∷ ("MHPMCounterNum", int_type)
    ∷ ("MHPMCounterWidth", int_type)
    ∷ []

abbrev pub known_keys : List String
known_keys = map (λ (fld, typ). fld) known_fields

-- `yml[fld]`
unfoldable pub get_item : String → Dict Value → Result Value
get_item fld yml = elim (lookup fld yml) [ none ↦ err ErrorKind.key_error fld | some v ↦ ok v ]

abbrev as_bool : String → Value → Result Bool
as_bool fld (bool b) = ok b
as_bool fld (int z) =
    if int_eq z (pos 0)
    then ok false
    else if int_eq z (pos 1)
    then ok true
    else err ErrorKind.value_error (fld <> " value is out of range for a boolean type.")
as_bool fld v = err ErrorKind.value_error (fld <> " value, but we expected a bool.")

unfoldable pub read_bool : String → Dict Value → Result Bool
unfolding get_item
read_bool fld yml = do val ← get_item fld yml; as_bool fld val

-- A boolean is an `int` to `isinstance`, and is returned as it stands.
abbrev as_int : String → Value → Result Value
as_int fld (int z) = ok (int z)
as_int fld (bool b) = ok (bool b)
as_int fld v = err ErrorKind.value_error (fld <> " value, but we expected an int.")

unfoldable pub read_int : String → Dict Value → Result Value
unfolding get_item
read_int fld yml = do val ← get_item fld yml; as_int fld val

abbrev as_str : String → Value → Result String
as_str fld (str s) = ok s
as_str fld v = err ErrorKind.value_error (fld <> " value, but we expected a string.")

unfoldable pub read_str : String → Dict Value → Result String
unfolding get_item
read_str fld yml = do val ← get_item fld yml; as_str fld val

pub record Config : Type 0 where
  pub params : Dict Value
  pub rv32e : Bool
  pub rv32m : String
  pub rv32b : String
  pub rv32zc : String
  pub reg_file : String
  pub branch_target_alu : Bool
  pub writeback_stage : Bool
  pub icache : Bool
  pub icache_ecc : Bool
  pub icache_scramble : Bool
  pub branch_predictor : Bool
  pub dbg_trigger_en : Bool
  pub secure_ibex : Bool
  pub pmp_enable : Bool
  pub pmp_granularity : Value
  pub pmp_num_regions : Value
  pub mhpm_counter_num : Value
  pub mhpm_counter_width : Value

-- `fld in known_keys`
abbrev pub is_known : String → Bool
is_known k = any (λ j. str_eq j k) known_keys

-- The fields, read in the order of the source.
unfoldable pub read_fields : Dict Value → Result Config
read_fields yml = do
  rv32e ← read_bool "RV32E" yml
  rv32m ← read_str "RV32M" yml
  rv32b ← read_str "RV32B" yml
  rv32zc ← read_str "RV32ZC" yml
  reg_file ← read_str "RegFile" yml
  branch_target_alu ← read_bool "BranchTargetALU" yml
  writeback_stage ← read_bool "WritebackStage" yml
  icache ← read_bool "ICache" yml
  icache_ecc ← read_bool "ICacheECC" yml
  icache_scramble ← read_bool "ICacheScramble" yml
  branch_predictor ← read_bool "BranchPredictor" yml
  dbg_trigger_en ← read_bool "DbgTriggerEn" yml
  secure_ibex ← read_bool "SecureIbex" yml
  pmp_enable ← read_bool "PMPEnable" yml
  pmp_granularity ← read_int "PMPGranularity" yml
  pmp_num_regions ← read_int "PMPNumRegions" yml
  mhpm_counter_num ← read_int "MHPMCounterNum" yml
  mhpm_counter_width ← read_int "MHPMCounterWidth" yml
  ok (record {
    params = yml;
    rv32e = rv32e;
    rv32m = rv32m;
    rv32b = rv32b;
    rv32zc = rv32zc;
    reg_file = reg_file;
    branch_target_alu = branch_target_alu;
    writeback_stage = writeback_stage;
    icache = icache;
    icache_ecc = icache_ecc;
    icache_scramble = icache_scramble;
    branch_predictor = branch_predictor;
    dbg_trigger_en = dbg_trigger_en;
    secure_ibex = secure_ibex;
    pmp_enable = pmp_enable;
    pmp_granularity = pmp_granularity;
    pmp_num_regions = pmp_num_regions;
    mhpm_counter_num = mhpm_counter_num;
    mhpm_counter_width = mhpm_counter_width;
  })

-- `Config(yml)`
unfoldable pub make_config : Value → Result Config
make_config (dict fs) = do
  let yml = fields fs
  guard (all is_known (keys yml)) ErrorKind.value_error "Configuration object has unknown keys"
  guard (all (λ k. has_key k yml) known_keys) ErrorKind.value_error
      "Configuration object has missing keys"
  read_fields yml
make_config v = err ErrorKind.value_error "Configuration object is not a dict"

-- The handler of `Configs.__init__`: a `ValueError` is raised again with the name in its text.
unfoldable pub name_error : String → Result Config → Result Config
name_error name (ok c) = ok c
name_error name (err ErrorKind.value_error m) =
    err ErrorKind.value_error ("Error when reading " <> name <> " config: " <> m)
name_error name (err kind m) = err kind m

-- The loop of `Configs.__init__`
unfoldable pub make_all : Dict Value → Dict Config → Result (Dict Config)
unfolding name_error
make_all [] configs = ok configs
make_all ((name, yaml) ∷ rest) configs = do
  c ← name_error name (make_config yaml)
  make_all rest (insert name c configs)

-- `Configs(yml)`
unfoldable pub make_configs : Value → Result (Dict Config)
unfolding make_all
make_configs (dict fs) = make_all (fields fs) []
make_configs v = err ErrorKind.value_error "Configurations dictionary is not a dict"

unfoldable pub as_config_error : Result (Dict Config) → Result (Dict Config)
as_config_error (ok cs) = ok cs
as_config_error (err ErrorKind.value_error m) = err ErrorKind.config_exception m
as_config_error (err kind m) = err kind m

-- `parse_config`, from what loading the YAML file gave
unfoldable pub parse_config : String → Value → Result Config
unfolding as_config_error
parse_config config_name yml = do
  configs ← as_config_error (make_configs yml)
  elim (lookup config_name configs) [
    | none ↦ err ErrorKind.value_error ("Configuration " <> config_name <> " not found")
    | some c ↦ ok c
  ]
