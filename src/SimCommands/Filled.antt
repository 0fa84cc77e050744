-- ===== src/SimCommands/Filled.antt =====
-- What the commands hold once they are filled in.
use kiemchung_ibex_v.Base.{
  is_ok, String, ◌<>◌, Option-cases, Bool, true, false, not, List, [], ◌∷◌, Option, none, some,
  Result, ok, err, ErrorKind, ◌≡◌, refl, arith, ◌>>◌, >>=-eq-ok, traverse, all, first, map, guard,
  inl, inr, Result-cases, ok-injective, subst, sym, ap, ◌∙◌,
}
use kiemchung_ibex_v.Base.Dict.{Dict, lookup}
use kiemchung_ibex_v.IbexConfig.{get_item}
use kiemchung_ibex_v.Base.Shlex.{shlex_split}
use kiemchung_ibex_v.Base.Value.{
  Value, Items, Fields, fields, items, null, bool, int, str, list, dict, to_fields,
  fields-to_fields,
}
use kiemchung_ibex_v.SimCommands.Parameters.{HoldsParameter, has_parameters-none}
use kiemchung_ibex_v.SimCommands.{
  subst_opt, subst_env_vars, has_parameters, is_tool, as_dict, get_yaml_for_simulator, fill,
  format_cmd, commands_in, section_of, format_all, for_entry, get_tool_cmds,
}

abbrev pub is_set : Option String → Bool
is_set (some value) = true
is_set none = false

-- The substitution of environment variables succeeds exactly if all of them are set, whether they
-- occur in the text or not.
pub subst_env_vars-succeeds :
    (environ : String → Option String) (string : String) (env_vars : List String)
    → is_ok (subst_env_vars environ string env_vars) ≡ all (λ var. is_set (environ var)) env_vars
unfolding subst_env_vars
subst_env_vars-succeeds environ string [] = refl
subst_env_vars-succeeds environ string (var ∷ vars) = elim (Option-cases (environ var)) [
  | inl unset ↦ ground (arith, unset)
  | inr (value, set) ↦
      ground (arith, set, subst_env_vars-succeeds environ (subst_opt string var value) vars)
]

-- An entry is found exactly if one has the simulator as its tool, and it is the first such.
abbrev pub found : String → Option (Dict Value) → Result (Dict Value)
found simulator (some entry) = ok entry
found simulator none = err ErrorKind.runtime_error ("Cannot find RTL simulator " <> simulator)

pub get_yaml_for_simulator-first :
    (simulator : String) (entries : List (Dict Value))
    → get_yaml_for_simulator simulator (map (λ e. dict (to_fields e)) entries)
      ≡ found simulator (first (is_tool simulator) entries)
unfolding get_yaml_for_simulator as_dict
get_yaml_for_simulator-first simulator [] = refl
get_yaml_for_simulator-first simulator (e ∷ es) =
    rw (fields-to_fields e) (ground (arith, get_yaml_for_simulator-first simulator es))

first_lem :
    (simulator : String) (entries : List (Dict Value)) (entry : Dict Value)
    → get_yaml_for_simulator simulator (map (λ e. dict (to_fields e)) entries) ≡ ok entry
    → first (is_tool simulator) entries ≡ some entry
first_lem simulator entries entry h =
    let e = sym (get_yaml_for_simulator-first simulator entries) ∙ h in
    elim (Option-cases (first (is_tool simulator) entries)) [
      | inl missing ↦ ground (arith, e, missing)
      | inr (one, there) ↦ ground (arith, e, there)
    ]

section_of_lem :
    (cmd_type : String) (entry section : Dict Value)
    → section_of cmd_type entry ≡ ok section
    → (fs : Fields) × (lookup cmd_type entry ≡ some (dict fs)) × (section ≡ fields fs)
unfolding section_of as_dict get_item
section_of_lem cmd_type entry section h = elim (Option-cases (lookup cmd_type entry)) [
  | inl missing ↦ ground (arith, h, missing)
  | inr (dict fs, there) ↦ (fs, there, ground (arith, h, there))
  | inr (v, there) ↦ ground (arith, h, there)
]

commands_in_lem :
    (section : Dict Value) (cmds : List Value)
    → commands_in section ≡ ok cmds
    → (vs : Items) × (lookup "cmd" section ≡ some (list vs)) × (cmds ≡ items vs)
unfolding commands_in get_item
commands_in_lem section cmds h = elim (Option-cases (lookup "cmd" section)) [
  | inl missing ↦ ground (arith, h, missing)
  | inr (list vs, there) ↦ (vs, there, ground (arith, h, there))
  | inr (v, there) ↦ ground (arith, h, there)
]

module _ (environ : String → Option String) (user_enables : Dict Bool)
    (user_subst_options : Dict String) where
  -- Each list of words is made of the command at its place: that is a text, which was filled in and
  -- holds no parameter, and the words are those into which a shell splits it. There are as many.
  abbrev pub Filled : Dict Value → Dict Value → List Value → List (List String) → Type 0
  Filled entry section [] [] = Unit
  Filled entry section [] (words ∷ cmds) = ⊥
  Filled entry section (template ∷ templates) [] = ⊥
  Filled entry section (template ∷ templates) (words ∷ cmds) =
      ((cmd text : String) × (template ≡ str cmd)
        × (fill environ user_enables user_subst_options entry section cmd ≡ ok text)
        × (¬ HoldsParameter text)
        × (shlex_split text ≡ ok words))
      × Filled entry section templates cmds

  format_cmd_lem :
      (entry section : Dict Value) (template : Value) (words : List String)
      → format_cmd environ user_enables user_subst_options entry section template ≡ ok words
      → (cmd text : String) × (template ≡ str cmd)
        × (fill environ user_enables user_subst_options entry section cmd ≡ ok text)
        × (¬ HoldsParameter text)
        × (shlex_split text ≡ ok words)
  unfolding format_cmd
  format_cmd_lem entry section (str cmd) words h =
      let f = fill environ user_enables user_subst_options entry section cmd in
      let check : String → Result (Unit {0}) =
        λ t. guard (not (has_parameters t)) ErrorKind.runtime_error "" in
      let (text, filled, h1) = >>=-eq-ok f (λ t. check t >> shlex_split t) h in
      let (checked, guarded, split) = >>=-eq-ok (check text) (λ _. shlex_split text) h1 in
      (cmd, text, refl, filled, has_parameters-none text (ground (arith, guarded)), split)
  format_cmd_lem entry section null words h = cc
  format_cmd_lem entry section (bool b) words h = cc
  format_cmd_lem entry section (int z) words h = cc
  format_cmd_lem entry section (list vs) words h = cc
  format_cmd_lem entry section (dict fs) words h = cc

  traverse-Filled :
      (entry section : Dict Value) (templates : List Value) (cmds : List (List String))
      → traverse (format_cmd environ user_enables user_subst_options entry section) templates
        ≡ ok cmds
      → Filled entry section templates cmds
  traverse-Filled entry section [] [] h = tt
  traverse-Filled entry section [] (words ∷ cmds) h = cc
  traverse-Filled entry section (template ∷ templates) cmds h =
      let format = format_cmd environ user_enables user_subst_options entry section in
      elim (Result-cases (format template)) [
        | inl (k, m, e) ↦ ground (arith, h, e)
        | inr (words, e) ↦ elim (Result-cases (traverse format templates)) [
          | inl (k, m, f) ↦ ground (arith, h, e, f)
          | inr (rest, f) ↦
              let same : ok (words ∷ rest) ≡ ok cmds = ground (arith, h, e, f) in
              subst (Filled entry section (template ∷ templates)) (ok-injective same) (
                format_cmd_lem entry section template words e,
                traverse-Filled entry section templates rest f,
              )
        ]
      ]

  -- If the commands of a simulator are returned, of a file whose entries are dictionaries, they are
  -- made of the list of commands that the section for the type of command holds in the first entry of
  -- the simulator: each, at its place, is the command there, filled in and split as a shell splits
  -- it, and what was filled in holds no name of word characters in angle brackets any more.
  pub get_tool_cmds-Filled :
      (entries : List (Dict Value)) (simulator cmd_type : String) (cmds : List (List String))
      → get_tool_cmds environ user_enables user_subst_options
          (map (λ e. dict (to_fields e)) entries)
          simulator
          cmd_type
        ≡ ok cmds
      → (entry : Dict Value) × (section : Fields) × (templates : Items) × (first
            (is_tool simulator)
            entries
          ≡ some entry)
        × (lookup cmd_type entry ≡ some (dict section))
        × (lookup "cmd" (fields section) ≡ some (list templates))
        × Filled entry (fields section) (items templates) cmds
  unfolding get_tool_cmds for_entry format_all
  get_tool_cmds-Filled entries simulator cmd_type cmds h =
      let section_cmds = format_all environ user_enables user_subst_options in
      let entry_cmds = for_entry environ user_enables user_subst_options cmd_type in
      let yaml = map (λ (e : Dict Value). dict (to_fields e)) entries in
      let (entry, is_entry, h1) = >>=-eq-ok (get_yaml_for_simulator simulator yaml) entry_cmds h in
      let (found_section, is_section, h2) =
        >>=-eq-ok (section_of cmd_type entry) (section_cmds entry) h1 in
      let format = format_cmd environ user_enables user_subst_options entry in
      let (found_cmds, are_cmds, h3) =
        >>=-eq-ok (commands_in found_section) (traverse (format found_section)) h2 in
      let (section, at_type, same) = section_of_lem cmd_type entry found_section is_section in
      let (templates, at_cmd, same') = commands_in_lem found_section found_cmds are_cmds in
      (
        entry,
        section,
        templates,
        first_lem simulator entries entry is_entry,
        at_type,
        ap (lookup "cmd") (sym same) ∙ at_cmd,
        subst (λ d. Filled entry d (items templates) cmds) same
            (subst (λ l. Filled entry found_section l cmds) same'
              (traverse-Filled entry found_section found_cmds cmds h3)),
      )
