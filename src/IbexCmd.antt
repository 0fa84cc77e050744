-- ===== src/IbexCmd.antt =====
-- dv/uvm/core_ibex/scripts/ibex_cmd.py: options and ISA strings for a configuration, and the
-- choice of the tests that a configuration can run.
pub mod Selection
pub mod Isa
mod Tests
use kiemchung_ibex_v.Base.{ℕ, String, ◌<>◌, Bool, true, false, not, ◌&&◌, List, [], ◌∷◌, ◌++◌}
use kiemchung_ibex_v.Base.{Option, none, some, Result, ok, err, ErrorKind, ◌>>=◌, any, ◌==◌}
use kiemchung_ibex_v.Base.{if◌then◌else◌, str_eq}
use kiemchung_ibex_v.Base.Dict.{Dict, keys, lookup, has_key}
use kiemchung_ibex_v.Base.Text.{join, strip}
use kiemchung_ibex_v.Base.Value.{Value, null, bool, int, str, list, dict, items, fields, scalar_eq}
use kiemchung_ibex_v.IbexConfig.{Config, get_item}

-- For each simulator, whether it needs compile options and simulation options
abbrev pub sim_cfgs : Dict (Bool × Bool)
sim_cfgs =
    ("vcs", (true, false))
    ∷ ("riviera", (true, true))
    ∷ ("questa", (true, true))
    ∷ ("xlm", (true, false))
    ∷ ("dsim", (true, false))
    ∷ []

-- What a subprocess gave: its return code, and the text of its output streams.
pub record Completed : Type 0 where
  pub returncode : ℕ
  pub stdout : String
  pub stderr : String

unfoldable pub needs_opts : String → Bool × Bool → Result Bool
needs_opts stage (needs_compile_opts, needs_sim_opts) =
    if str_eq stage "compile"
    then ok needs_compile_opts
    else if str_eq stage "sim"
    then ok needs_sim_opts
    else err ErrorKind.assertion_error ""

pub output_type_name : String → String → Bool × Bool → String
output_type_name simulator stage (needs_compile_opts, needs_sim_opts) =
    if needs_compile_opts && needs_sim_opts
    then simulator <> "_" <> stage <> "_opts"
    else simulator <> "_opts"

-- `root` is the root of the repository, and `run` runs a command.
module _ (root : String) (run : List String → Completed) where
  pub run_ibex_config : String → String → Result String
  run_ibex_config config_name output_type =
      let script_path = root <> "/util/ibex_config.py" in
      let yaml_path = root <> "/ibex_configs.yaml" in
      let proc = run (
        script_path ∷ "--config_filename" ∷ yaml_path ∷ config_name ∷ output_type
        ∷ "--ins_hier_path" ∷ "core_ibex_tb_top" ∷ "--string_define_prefix" ∷ "IBEX_CFG_" ∷ []) in
      if proc.returncode == 0
      then ok (strip proc.stdout)
      else err ErrorKind.gen_error
          ("Error running " <> script_path <> " got:\n" <> proc.stdout <> "\n" <> proc.stderr)

  -- `_get_x_opts`
  unfoldable pub get_x_opts : String → String → String → Result String
  unfolding needs_opts
  get_x_opts config_name simulator stage = elim (lookup simulator sim_cfgs) [
    | none ↦ err ErrorKind.value_error ("Unsupported simulator: " <> simulator <> ".")
    | some needs ↦ do
      needed ← needs_opts stage needs
      let output_type = output_type_name simulator stage needs
      if needed then run_ibex_config config_name output_type else ok ""
  ]

  pub get_compile_opts : String → String → Result String
  get_compile_opts config_name simulator = get_x_opts config_name simulator "compile"

  unfoldable pub get_sim_opts : String → String → Result String
  get_sim_opts config_name simulator = get_x_opts config_name simulator "sim"

abbrev pub bitmanip_mapping : Dict (List String)
bitmanip_mapping =
    ("ibex_pkg::RV32BNone", [])
    ∷ ("ibex_pkg::RV32BBalanced", "Zba" ∷ "Zbb" ∷ "Zbs" ∷ "XZbf" ∷ "XZbt" ∷ [])
    ∷ (
      "ibex_pkg::RV32BOTEarlGrey",
      "Zba" ∷ "Zbb" ∷ "Zbc" ∷ "Zbs" ∷ "XZbf" ∷ "XZbp" ∷ "XZbr" ∷ "XZbt" ∷ [],
    )
    ∷ (
      "ibex_pkg::RV32BFull",
      "Zba" ∷ "Zbb" ∷ "Zbc" ∷ "Zbs" ∷ "XZbe" ∷ "XZbf" ∷ "XZbp" ∷ "XZbr" ∷ "XZbt" ∷ [],
    )
    ∷ []

unfoldable pub base_isa : Config → String
base_isa cfg =
    let has_multiplier = not (str_eq cfg.rv32m "ibex_pkg::RV32MNone") in
    "rv32" <> (if cfg.rv32e then "e" else "i") <> (if has_multiplier then "m" else "") <> "c"

unfoldable pub get_isas_for_config : Config → Result (String × String)
unfolding base_isa
get_isas_for_config cfg = elim (lookup cfg.rv32b bitmanip_mapping) [
  | none ↦ err ErrorKind.value_error ("Unknown RV32B value (" <> cfg.rv32b <> ") in config YAML")
  | some bitmanip_isa ↦
      let has_bitmanip = not (str_eq cfg.rv32b "ibex_pkg::RV32BNone") in
      let toolchain_isa = base_isa cfg <> (if has_bitmanip then "b" else "") in
      ok (toolchain_isa, join "_" (base_isa cfg ∷ bitmanip_isa))
]

abbrev pub TestEntry : Type 0
TestEntry = Dict Value

-- `config_val in p_val`, after a text or a number was put in a list. The keys of a dictionary are
-- texts, and `None` cannot be searched.
pub contains : Value → Value → Result Bool
contains config_val (str s) = ok (scalar_eq config_val (str s))
contains config_val (int z) = ok (scalar_eq config_val (int z))
contains config_val (bool b) = ok (scalar_eq config_val (bool b))
contains config_val (list vs) = ok (any (scalar_eq config_val) (items vs))
contains config_val (dict fs) = ok (any (λ k. scalar_eq config_val (str k)) (keys (fields fs)))
contains config_val null = err ErrorKind.type_error "argument of type 'NoneType' is not iterable"

-- `cfg.params.get(p, None)`, which must not be `None`
pub config_value : Config → String → Result Value
config_value cfg p = elim (lookup p cfg.params) [
  | none ↦ err ErrorKind.value_error ("Parameter " <> p <> " not found in config")
  | some null ↦ err ErrorKind.value_error ("Parameter " <> p <> " not found in config")
  | some v ↦ ok v
]

-- The inner loop: a parameter that does not match ends it, with a warning that names the test;
-- after each parameter that matches, the test is appended.
unfoldable pub params_loop :
    Config → TestEntry → Dict Value → List TestEntry → Result (List TestEntry)
unfolding contains config_value
params_loop cfg test [] filtered = ok filtered
params_loop cfg test ((p, p_val) ∷ rest) filtered = do
  config_val ← config_value cfg p
  matches ← contains config_val p_val
  elim matches [
    | true ↦ params_loop cfg test rest (filtered ++ test ∷ [])
    | false ↦ do name ← get_item "test" test; ok filtered
  ]

-- One round of the outer loop
unfoldable pub filter_one : Config → TestEntry → List TestEntry → Result (List TestEntry)
unfolding params_loop
filter_one cfg test filtered = elim (lookup "rtl_params" test) [
  | none ↦ ok (filtered ++ test ∷ [])
  | some (dict fs) ↦ params_loop cfg test (fields fs) filtered
  | some _ ↦ err ErrorKind.assertion_error ""
]

unfoldable pub filter_loop : Config → List TestEntry → List TestEntry → Result (List TestEntry)
unfolding filter_one
filter_loop cfg [] filtered = ok filtered
filter_loop cfg (test ∷ tests) filtered = do
  filtered' ← filter_one cfg test filtered
  filter_loop cfg tests filtered'

unfoldable pub filter_tests_by_config : Config → List TestEntry → Result (List TestEntry)
unfolding filter_loop
filter_tests_by_config cfg test_list = filter_loop cfg test_list []
