-- ===== src/IbexConfig/Samples.antt =====
-- The `small` configuration of ibex_configs.yaml.
use kiemchung_ibex_v.Base.{String, false, [], ◌∷◌}
use kiemchung_ibex_v.Base.Dict.{Dict}
use kiemchung_ibex_v.Base.Int.{pos}
use kiemchung_ibex_v.Base.Value.{Value, int, str, dict, field, end, to_fields}
use kiemchung_ibex_v.IbexConfig.{Config}

abbrev zero_at : String → String × Value
zero_at k = (k, int (pos 0))

abbrev pub small_params : Dict Value
small_params =
    zero_at "RV32E"
    ∷ ("RV32M", str "ibex_pkg::RV32MFast")
    ∷ ("RV32B", str "ibex_pkg::RV32BNone")
    ∷ ("RV32ZC", str "ibex_pkg::RV32Zca")
    ∷ ("RegFile", str "ibex_pkg::RegFileFF")
    ∷ zero_at "BranchTargetALU"
    ∷ zero_at "WritebackStage"
    ∷ zero_at "ICache"
    ∷ zero_at "ICacheECC"
    ∷ zero_at "ICacheScramble"
    ∷ zero_at "BranchPredictor"
    ∷ zero_at "DbgTriggerEn"
    ∷ zero_at "SecureIbex"
    ∷ zero_at "PMPEnable"
    ∷ zero_at "PMPGranularity"
    ∷ ("PMPNumRegions", int (pos 4))
    ∷ zero_at "MHPMCounterNum"
    ∷ ("MHPMCounterWidth", int (pos 40))
    ∷ []

abbrev pub small : Config
small = record {
  params = small_params;
  rv32e = false;
  rv32m = "ibex_pkg::RV32MFast";
  rv32b = "ibex_pkg::RV32BNone";
  rv32zc = "ibex_pkg::RV32Zca";
  reg_file = "ibex_pkg::RegFileFF";
  branch_target_alu = false;
  writeback_stage = false;
  icache = false;
  icache_ecc = false;
  icache_scramble = false;
  branch_predictor = false;
  dbg_trigger_en = false;
  secure_ibex = false;
  pmp_enable = false;
  pmp_granularity = int (pos 0);
  pmp_num_regions = int (pos 4);
  mhpm_counter_num = int (pos 0);
  mhpm_counter_width = int (pos 40);
}

-- A file with only this configuration
abbrev pub configs_yaml : Value
configs_yaml = dict (field "small" (dict (to_fields small_params)) end)
