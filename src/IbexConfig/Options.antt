-- ===== src/IbexConfig/Options.antt =====
-- What the fields of an accepted configuration hold.
use mathlib.Core.Option
use kiemchung_ibex_v.Base.{Option, String, Bool, some, ◌≡◌, arith, ok}
use kiemchung_ibex_v.Base.Dict.{Dict, lookup}
use kiemchung_ibex_v.Base.Value.{Value, str, dict, Fields, fields, truthy}
use kiemchung_ibex_v.IbexConfig.{read_bool, read_int, read_str, Config, read_fields, make_config}

-- A field as a truth value; `none` if the key is missing.
abbrev pub flag : String → Dict Value → Option Bool
flag fld yml = Option.map truthy (lookup fld yml)

read_bool-flag :
    (fld : String) (yml : Dict Value) (b : Bool) → read_bool fld yml ≡ ok b → flag fld yml ≡ some b
unfolding read_bool
read_bool-flag fld yml b h = ground arith

read_int-value :
    (fld : String) (yml : Dict Value) (v : Value)
    → read_int fld yml ≡ ok v
    → lookup fld yml ≡ some v
unfolding read_int
read_int-value fld yml v h = ground arith

read_str-value :
    (fld : String) (yml : Dict Value) (s : String)
    → read_str fld yml ≡ ok s
    → lookup fld yml ≡ some (str s)
unfolding read_str
read_str-value fld yml v h = ground arith

-- Every field of a configuration is the value that the dictionary has under the field's key.
pub record Mirrors (yml : Dict Value) (c : Config) : Type 0 where
  pub params : c.params ≡ yml
  pub rv32e : flag "RV32E" yml ≡ some c.rv32e
  pub branch_target_alu : flag "BranchTargetALU" yml ≡ some c.branch_target_alu
  pub writeback_stage : flag "WritebackStage" yml ≡ some c.writeback_stage
  pub icache : flag "ICache" yml ≡ some c.icache
  pub icache_ecc : flag "ICacheECC" yml ≡ some c.icache_ecc
  pub icache_scramble : flag "ICacheScramble" yml ≡ some c.icache_scramble
  pub branch_predictor : flag "BranchPredictor" yml ≡ some c.branch_predictor
  pub dbg_trigger_en : flag "DbgTriggerEn" yml ≡ some c.dbg_trigger_en
  pub secure_ibex : flag "SecureIbex" yml ≡ some c.secure_ibex
  pub pmp_enable : flag "PMPEnable" yml ≡ some c.pmp_enable
  pub rv32m : lookup "RV32M" yml ≡ some (str c.rv32m)
  pub rv32b : lookup "RV32B" yml ≡ some (str c.rv32b)
  pub rv32zc : lookup "RV32ZC" yml ≡ some (str c.rv32zc)
  pub reg_file : lookup "RegFile" yml ≡ some (str c.reg_file)
  pub pmp_granularity : lookup "PMPGranularity" yml ≡ some c.pmp_granularity
  pub pmp_num_regions : lookup "PMPNumRegions" yml ≡ some c.pmp_num_regions
  pub mhpm_counter_num : lookup "MHPMCounterNum" yml ≡ some c.mhpm_counter_num
  pub mhpm_counter_width : lookup "MHPMCounterWidth" yml ≡ some c.mhpm_counter_width

read_fields-Mirrors : (yml : Dict Value) (c : Config) → read_fields yml ≡ ok c → Mirrors yml c
unfolding read_fields
read_fields-Mirrors yml c h = record {
  params = ground arith;
  rv32e = ground (arith, read_bool-flag "RV32E" yml c.rv32e);
  branch_target_alu = ground (arith, read_bool-flag "BranchTargetALU" yml c.branch_target_alu);
  writeback_stage = ground (arith, read_bool-flag "WritebackStage" yml c.writeback_stage);
  icache = ground (arith, read_bool-flag "ICache" yml c.icache);
  icache_ecc = ground (arith, read_bool-flag "ICacheECC" yml c.icache_ecc);
  icache_scramble = ground (arith, read_bool-flag "ICacheScramble" yml c.icache_scramble);
  branch_predictor = ground (arith, read_bool-flag "BranchPredictor" yml c.branch_predictor);
  dbg_trigger_en = ground (arith, read_bool-flag "DbgTriggerEn" yml c.dbg_trigger_en);
  secure_ibex = ground (arith, read_bool-flag "SecureIbex" yml c.secure_ibex);
  pmp_enable = ground (arith, read_bool-flag "PMPEnable" yml c.pmp_enable);
  rv32m = ground (arith, read_str-value "RV32M" yml c.rv32m);
  rv32b = ground (arith, read_str-value "RV32B" yml c.rv32b);
  rv32zc = ground (arith, read_str-value "RV32ZC" yml c.rv32zc);
  reg_file = ground (arith, read_str-value "RegFile" yml c.reg_file);
  pmp_granularity = ground (arith, read_int-value "PMPGranularity" yml c.pmp_granularity);
  pmp_num_regions = ground (arith, read_int-value "PMPNumRegions" yml c.pmp_num_regions);
  mhpm_counter_num = ground (arith, read_int-value "MHPMCounterNum" yml c.mhpm_counter_num);
  mhpm_counter_width = ground (arith, read_int-value "MHPMCounterWidth" yml c.mhpm_counter_width);
}

-- A configuration that is made holds, field by field, what the dictionary says; a boolean field
-- holds whether the value is true to Python.
pub make_config-Mirrors :
    (fs : Fields) (c : Config) → make_config (dict fs) ≡ ok c → Mirrors (fields fs) c
unfolding make_config
make_config-Mirrors fs c h = read_fields-Mirrors (fields fs) c (ground arith)
