-- ===== src/SimCommands/Tests.antt =====
-- A small simulator entry like those of rtl_simulation.yaml.
use kiemchung_ibex_v.Base.{
  is_ok, String, Bool, true, false, List, [], ◌∷◌, Option, none, some, ok, ◌≡◌, refl, all, first,
  map, if◌then◌else◌, str_eq,
}
use kiemchung_ibex_v.Base.Dict.{Dict, lookup}
use kiemchung_ibex_v.Base.Regex.{one}
use kiemchung_ibex_v.Base.Shlex.{shlex_split}
use kiemchung_ibex_v.Base.Text.{has, replace, split, strip}
use kiemchung_ibex_v.Base.Value.{
  Value, Items, Fields, fields, items, str, list, dict, item, nil, end, field, to_fields,
}
use kiemchung_ibex_v.IbexConfig.{get_item}
use kiemchung_ibex_v.SimCommands.{
  section_of, commands_in, has_parameters, subst_opt, subst_dict, subst_env_vars,
  get_yaml_for_simulator, is_tool, get_tool_cmds,
}
use kiemchung_ibex_v.SimCommands.Filled.{
  is_set, found, Filled, subst_env_vars-succeeds, get_yaml_for_simulator-first,
  get_tool_cmds-Filled,
}

abbrev environ : String → Option String
environ name = if str_eq name "HOME" then some "/home/u" else none

abbrev enables : Dict Bool
enables = ("cov_opts", false) ∷ ("wave_opts", true) ∷ []

abbrev options : Dict String
options = ("seed", "7") ∷ ("test", "a b") ∷ []

abbrev entry : Dict Value
entry =
    ("tool", str "dsim")
    ∷ ("env_var", str "HOME")
    ∷ (
      "sim",
      dict (
          field "cmd"
            (list (item (str "<HOME>/sim <wave_opts> <cov_opts> +seed=<seed> '<test>'") nil))
            (field "wave_opts" (str "-waves\n") (field "cov_opts" (str "-cov") end))),
    )
    ∷ []

abbrev other : Dict Value
other = ("tool", str "vcs") ∷ []

abbrev yaml : List Value
yaml = map (λ (e : Dict Value). dict (to_fields e)) (other ∷ entry ∷ [])

abbrev cmds : List (List String)
cmds = ("/home/u/sim" ∷ "-waves" ∷ "+seed=7" ∷ "a b" ∷ []) ∷ []

commands_made : get_tool_cmds environ enables options yaml "dsim" "sim" ≡ ok cmds
unfolding get_tool_cmds get_item lookup has replace split strip shlex_split get_yaml_for_simulator
    section_of commands_in subst_env_vars has_parameters subst_opt subst_dict one
commands_made = refl

get_tool_cmds-Filled_example :
    (e : Dict Value) × (section : Fields) × (templates : Items) × (first
        (is_tool "dsim")
        (other ∷ entry ∷ [])
      ≡ some e)
    × (lookup "sim" e ≡ some (dict section))
    × (lookup "cmd" (fields section) ≡ some (list templates))
    × Filled environ enables options e (fields section) (items templates) cmds
get_tool_cmds-Filled_example =
    get_tool_cmds-Filled environ enables options (other ∷ entry ∷ []) "dsim" "sim" cmds
      commands_made

home_set :
    is_ok (subst_env_vars environ "<HOME>/x" ("HOME" ∷ "TOOL" ∷ []))
    ≡ all (λ var. is_set (environ var)) ("HOME" ∷ "TOOL" ∷ [])
home_set = subst_env_vars-succeeds environ "<HOME>/x" ("HOME" ∷ "TOOL" ∷ [])

dsim_is_second :
    get_yaml_for_simulator "dsim" yaml ≡ found "dsim" (first (is_tool "dsim") (other ∷ entry ∷ []))
dsim_is_second = get_yaml_for_simulator-first "dsim" (other ∷ entry ∷ [])
