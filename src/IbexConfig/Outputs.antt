-- ===== src/IbexConfig/Outputs.antt =====
-- The output formats of util/ibex_config.py and the table of them in its `main`.
pub mod Lines
use kiemchung_ibex_v.Base.{
  ℕ, ◌+◌, String, ◌<>◌, Bool, true, false, List, [], ◌∷◌, ◌++◌, Option, none, some,
}
use kiemchung_ibex_v.Base.{
  ◌≡◌, refl, ◌∙◌, ap, arith, Result, ok, err, ErrorKind, ◌>>=◌, traverse, map,
}
use kiemchung_ibex_v.Base.{concat_map, all, if◌then◌else◌, str_eq}
use kiemchung_ibex_v.Base.Dict.{Dict, lookup}
use kiemchung_ibex_v.Base.Int.{ℤ}
use kiemchung_ibex_v.Base.Text.{str_int, join}
use kiemchung_ibex_v.Base.Shlex.{quote, join_quoted, shlex_split, shlex_split-join_quoted}
use kiemchung_ibex_v.Base.Value.{Value, null, bool, int, str, list, dict, of_bool}
use kiemchung_ibex_v.IbexConfig.{
  FieldType, bool_type, str_type, int_type, known_fields, get_item, Config,
}
use kiemchung_ibex_v.IbexConfig.Accepts.{fits, holds}

-- `f'{val}'`. A list or a dictionary is no value of an accepted configuration.
unfoldable pub value_text : Value → String
value_text null = "None"
value_text (bool true) = "True"
value_text (bool false) = "False"
value_text (int z) = str_int z
value_text (str s) = s
value_text (list vs) = ""
value_text (dict fs) = ""

-- `FusesocOpts.output`
pub fusesoc_output : Config → Result String
unfolding get_item
fusesoc_output config = do
  fusesoc_cmd ←
      traverse
        (λ (fld, typ). do
          val ← get_item fld config.params
          ok (quote ("--" <> fld <> "=" <> value_text val)))
        known_fields
  ok (join " " fusesoc_cmd)

-- `QueryOpts.output`
query_line : Config → String → String
query_line config fld = elim (lookup fld config.params) [
  | some val ↦ fld <> "=" <> value_text val
  | none ↦ fld <> " not found in config"
]

pub query_output : Config → List String → String
unfolding query_line
query_output config flds = join "\n" (map (query_line config) flds)

pub record SimOpts : Type 0 where
  pub cmd_name : String
  pub description : String
  pub param_set_fn : String → String → List String
  pub define_set_fn : String → String → List String
  pub hierarchy_sep : String

pub record Args : Type 0 where
  pub ins_hier_path : String
  pub string_define_prefix : String

-- `int(val)`, where the field is a boolean or a number
val_as_int : Value → Result ℤ
val_as_int (bool b) = ok (of_bool b)
val_as_int (int z) = ok z
val_as_int v = err ErrorKind.type_error "int() argument"

val_as_str : Value → Result String
val_as_str (str s) = ok s
val_as_str v = err ErrorKind.type_error "can only concatenate str"

pub hier_prefix : SimOpts → Args → String
hier_prefix o args =
    if str_eq args.ins_hier_path "" then "" else args.ins_hier_path <> o.hierarchy_sep

-- The arguments of one field, before they are quoted
field_opts : SimOpts → Args → Config → String × FieldType → Result (List String)
unfolding get_item val_as_int val_as_str hier_prefix
field_opts o args config (fld, str_type) = do
  val ← get_item fld config.params
  s ← val_as_str val
  ok (o.define_set_fn (args.string_define_prefix <> fld) s)
field_opts o args config (fld, typ) = do
  val ← get_item fld config.params
  z ← val_as_int val
  ok (o.param_set_fn (hier_prefix o args <> fld) (str_int z))

-- The loop of `SimOpts.output`
sim_opts_loop :
    SimOpts → Args → Config → List (String × FieldType) → List String → Result (List String)
unfolding field_opts
sim_opts_loop o args config [] sim_opts = ok sim_opts
sim_opts_loop o args config (f ∷ fs) sim_opts = do
  opts ← field_opts o args config f
  sim_opts_loop o args config fs (sim_opts ++ map quote opts)

-- `SimOpts.output`
pub sim_output : SimOpts → Args → Config → Result String
unfolding sim_opts_loop
sim_output o args config = do
  sim_opts ← sim_opts_loop o args config known_fields []
  ok (join " " sim_opts)

abbrev no_opts : String → String → List String
no_opts p v = []

abbrev plus_define : String → String → List String
plus_define d v = ("+define+" <> d <> "=" <> v) ∷ []

abbrev dash_g : String → String → List String
dash_g p v = ("-g/" <> p <> "=" <> v) ∷ []

abbrev defparam : String → String → List String
defparam p v = "-defparam" ∷ (p <> "=" <> v) ∷ []

abbrev pub vcs_opts : SimOpts
vcs_opts = record {
  cmd_name = "vcs_opts";
  description = "VCS compile";
  param_set_fn = λ p v. ("-pvalue+" <> p <> "=" <> v) ∷ [];
  define_set_fn = plus_define;
  hierarchy_sep = ".";
}

abbrev pub riviera_sim_opts : SimOpts
riviera_sim_opts = record {
  cmd_name = "riviera_sim_opts";
  description = "Riviera simulate";
  param_set_fn = dash_g;
  define_set_fn = no_opts;
  hierarchy_sep = "/";
}

abbrev pub riviera_compile_opts : SimOpts
riviera_compile_opts = record {
  cmd_name = "riviera_compile_opts";
  description = "Riviera compile";
  param_set_fn = no_opts;
  define_set_fn = plus_define;
  hierarchy_sep = "/";
}

abbrev pub questa_sim_opts : SimOpts
questa_sim_opts = record {
  cmd_name = "questa_sim_opts";
  description = "Questa simulate";
  param_set_fn = dash_g;
  define_set_fn = no_opts;
  hierarchy_sep = "/";
}

abbrev pub questa_compile_opts : SimOpts
questa_compile_opts = record {
  cmd_name = "questa_compile_opts";
  description = "Questa compile";
  param_set_fn = no_opts;
  define_set_fn = plus_define;
  hierarchy_sep = "/";
}

abbrev pub xlm_opts : SimOpts
xlm_opts = record {
  cmd_name = "xlm_opts";
  description = "Xcelium compile";
  param_set_fn = defparam;
  define_set_fn = λ d v. "-define" ∷ (d <> "=" <> v) ∷ [];
  hierarchy_sep = ".";
}

abbrev pub dsim_opts : SimOpts
dsim_opts = record {
  cmd_name = "dsim_opts";
  description = "DSim compile";
  param_set_fn = defparam;
  define_set_fn = plus_define;
  hierarchy_sep = ".";
}

-- The simulators' formats, in the order of `main`
abbrev pub sim_outputters : List SimOpts
sim_outputters =
    vcs_opts ∷ riviera_sim_opts ∷ riviera_compile_opts ∷ questa_sim_opts ∷ questa_compile_opts
    ∷ xlm_opts ∷ dsim_opts ∷ []

-- The names of the output types that the command line takes
abbrev pub output_types : List String
output_types = "fusesoc_opts" ∷ "query_fields" ∷ map (λ o. o.cmd_name) sim_outputters
