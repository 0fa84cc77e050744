-- ===== src/SimCommands.antt =====
-- The commands of a simulator: the substitutions of dv/uvm/core_ibex/scripts/scripts_lib.py and
-- `get_tool_cmds` of dv/uvm/core_ibex/scripts/riscvdv_interface.py. What reading the YAML file
-- gives and the environment are parameters; a path is substituted by its resolved text.
pub mod Filled
pub mod Parameters
mod Tests
use kiemchung_ibex_v.Base.{
  String, ◌<>◌, Bool, true, false, not, ◌&&◌, ◌||◌, List, [], ◌∷◌, Option, none, some, Result, ok,
  err, ErrorKind, ◌>>=◌, ◌>>◌, guard, traverse, if◌then◌else◌, str_eq, ◌==◌, leb, map,
}
use kiemchung_ibex_v.Base.Dict.{Dict, lookup}
use kiemchung_ibex_v.Base.Regex.{one, some_of}
use kiemchung_ibex_v.Base.Shlex.{shlex_split}
use kiemchung_ibex_v.Base.Text.{has, is_digit, replace, split, strip}
use kiemchung_ibex_v.Base.Value.{Value, null, bool, int, str, list, dict, items, fields}
use kiemchung_ibex_v.IbexConfig.{get_item}
use Prim.Native.Char.{Char, code}
use Prim.Native.String

-- `parameter_format.format(name)`
abbrev pub parameter : String → String
parameter name = "<" <> name <> ">"

unfoldable pub subst_opt : String → String → String → String
subst_opt string name replacement =
    let needle = parameter name in
    if has needle string then replace string needle replacement else string

unfoldable pub subst_dict : String → Dict String → String
subst_dict string [] = string
subst_dict string ((key, value) ∷ rest) = subst_dict (subst_opt string key value) rest

-- `environ` is `os.environ.get`.
unfoldable pub subst_env_vars : (String → Option String) → String → List String → Result String
subst_env_vars environ string [] = ok string
subst_env_vars environ string (var ∷ env_vars) = elim (environ var) [
  | none ↦ err ErrorKind.runtime_error (
      "Cannot substitute " <> var <> " in command because the environment variable $" <> var
      <> " is not set.")
  | some value ↦ subst_env_vars environ (subst_opt string var value) env_vars
]

-- `\w`, on ASCII
abbrev pub is_word_char : Char → Bool
is_word_char c =
    is_digit c
    || leb b'a' (code c) && leb (code c) b'z'
    || leb b'A' (code c) && leb (code c) b'Z'
    || code c == b'_'

-- Whether `<\w+>` matches at the start of a text
parameter_here : String → Bool
parameter_here s =
    elim (one (λ c. code c == b'<')
      (some_of is_word_char (λ name. one (λ c. code c == b'>') (λ rest. some name))) s) [
        | none ↦ false
        | some name ↦ true
      ]

-- `re.findall(parameter_regex, text)` is not empty
unfoldable pub has_parameters : String → Bool
unfolding parameter_here
has_parameters Prim.Native.String.[] = false
has_parameters (Prim.Native.String.◌∷◌ c s) =
    parameter_here (Prim.Native.String.◌∷◌ c s) || has_parameters s

-- The dictionary that a value is
unfoldable pub as_dict : Value → Result (Dict Value)
as_dict (dict fs) = ok (fields fs)
as_dict _ = err ErrorKind.attribute_error "no dictionary"

unfoldable pub as_text : Value → Result String
as_text (str s) = ok s
as_text _ = err ErrorKind.attribute_error "no text"

-- `entry.get('tool') == simulator`
pub is_tool : String → Dict Value → Bool
is_tool simulator entry = elim (lookup "tool" entry) [
  | some (str tool) ↦ str_eq tool simulator
  | _ ↦ false
]

-- `_get_yaml_for_simulator`, on the entries of the file
unfoldable pub get_yaml_for_simulator : String → List Value → Result (Dict Value)
unfolding as_dict is_tool
get_yaml_for_simulator simulator [] =
    err ErrorKind.runtime_error ("Cannot find RTL simulator " <> simulator)
get_yaml_for_simulator simulator (v ∷ vs) =
    let rest = get_yaml_for_simulator simulator vs in
    do entry ← as_dict v; if is_tool simulator entry then ok entry else rest

-- `v.strip() if user_enables.get(k) else ''`
option_text : Dict Bool → String → Value → Result String
unfolding as_text
option_text user_enables k v = elim (lookup k user_enables) [
  | some true ↦ do s ← as_text v; ok (strip s)
  | _ ↦ ok ""
]

-- The options of the entry, but for its commands
cmd_opts_dict : Dict Bool → Dict Value → Result (Dict String)
unfolding option_text
cmd_opts_dict user_enables [] = ok []
cmd_opts_dict user_enables ((k, v) ∷ rest) =
    let opts = cmd_opts_dict user_enables rest in
    if str_eq k "cmd"
    then opts
    else do text ← option_text user_enables k v; texts ← opts; ok ((k, text) ∷ texts)

-- Step 3: the variables that the entry names
substitute_env : (String → Option String) → Dict Value → String → Result String
unfolding as_text
substitute_env environ entry cmd = elim (lookup "env_var" entry) [
  | none ↦ ok cmd
  | some v ↦ do names ← as_text v; subst_env_vars environ cmd (split b',' (replace names " " ""))
]

-- `simulator_entry[cmd_type]`, a dictionary
unfoldable pub section_of : String → Dict Value → Result (Dict Value)
unfolding as_dict
section_of cmd_type entry = do section ← get_item cmd_type entry; as_dict section

-- Its item `cmd`, a list
unfoldable pub commands_in : Dict Value → Result (List Value)
commands_in section = do
  cmds ← get_item "cmd" section
  elim cmds [ list vs ↦ ok (items vs) | _ ↦ err ErrorKind.type_error "no list" ]

module _ (environ : String → Option String) (user_enables : Dict Bool)
    (user_subst_options : Dict String) where
  -- Steps 1 to 3 for one command of the entry: a substitution by an empty dictionary changes
  -- nothing, so the two tests for one are left out.
  pub fill : Dict Value → Dict Value → String → Result String
  unfolding cmd_opts_dict substitute_env
  fill entry section cmd = do
    opts ← cmd_opts_dict user_enables section
    substitute_env environ entry (subst_dict (subst_dict cmd opts) user_subst_options)

  -- The body of the loop over the commands
  pub format_cmd : Dict Value → Dict Value → Value → Result (List String)
  unfolding fill
  format_cmd entry section (str cmd) = do
    formatted_cmd ← fill entry section cmd
    guard (not (has_parameters formatted_cmd)) ErrorKind.runtime_error ""
    shlex_split formatted_cmd
  format_cmd entry section _ = err ErrorKind.assertion_error ""

  -- The loop over the commands of `simulator_entry[cmd_type]`
  format_all : Dict Value → Dict Value → Result (List (List String))
  unfolding format_cmd
  format_all entry section = do cmds ← commands_in section; traverse (format_cmd entry section) cmds

  for_entry : String → Dict Value → Result (List (List String))
  unfolding format_all
  for_entry cmd_type entry = do section ← section_of cmd_type entry; format_all entry section

  unfoldable pub get_tool_cmds : List Value → String → String → Result (List (List String))
  unfolding for_entry
  get_tool_cmds yaml simulator cmd_type = do
    entry ← get_yaml_for_simulator simulator yaml
    for_entry cmd_type entry
