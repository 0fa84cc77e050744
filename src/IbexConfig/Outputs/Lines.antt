-- ===== src/IbexConfig/Outputs/Lines.antt =====
-- The command lines of an accepted configuration, as a shell splits them again.
use mathlib.Core.List.{map-append}
use kiemchung_ibex_v.Base.{String, ◌<>◌, true, List, [], ◌∷◌, ◌++◌, none, some}
use kiemchung_ibex_v.Base.{◌≡◌, refl, ◌∙◌, ap, arith, ok, ◌>>=◌, traverse, map, append_assoc}
use kiemchung_ibex_v.Base.{concat_map, all, append-nil}
use kiemchung_ibex_v.Base.Dict.{Dict, lookup}
use kiemchung_ibex_v.Base.Text.{str_int}
use kiemchung_ibex_v.Base.Shlex.{quote, join_quoted, shlex_split, shlex_split-join_quoted}
use kiemchung_ibex_v.Base.Value.{Value, bool, int, of_bool}
use kiemchung_ibex_v.IbexConfig.{
  FieldType, bool_type, str_type, int_type, known_fields, get_item, Config,
}
use kiemchung_ibex_v.IbexConfig.Accepts.{holds}
use kiemchung_ibex_v.IbexConfig.Outputs.{
  value_text, fusesoc_output, SimOpts, Args, hier_prefix, field_opts, sim_opts_loop, sim_output,
}

-- The text of a field's value
unfoldable pub field_text : Dict Value → String → String
field_text params fld = elim (lookup fld params) [ none ↦ "" | some v ↦ value_text v ]

-- The number that a field's value is written as
unfoldable pub field_number : Dict Value → String → String
field_number params fld = elim (lookup fld params) [
  | some (bool b) ↦ str_int (of_bool b)
  | some (int z) ↦ str_int z
  | _ ↦ ""
]

module _ (config : Config) where
  fusesoc_args :
      (fs : List (String × FieldType))
      → all (holds config.params) fs ≡ true
      → traverse
          (λ (fld, typ). do
            val ← get_item fld config.params
            ok (quote ("--" <> fld <> "=" <> value_text val)))
          fs
        ≡ ok (map quote (map (λ (fld, typ). "--" <> fld <> "=" <> field_text config.params fld) fs))
  unfolding get_item holds field_text
  fusesoc_args [] h = refl
  fusesoc_args ((fld, typ) ∷ fs) h = ground (arith, fusesoc_args fs)

  -- Of an accepted configuration the FuseSoC options are one argument `--FIELD=VALUE` for each
  -- known field, in order, when a shell splits them.
  pub fusesoc_output-split :
      all (holds config.params) known_fields ≡ true
      → (line : String) × (fusesoc_output config ≡ ok line)
        × (shlex_split line
            ≡ ok (
                map
                  (λ (fld, typ). "--" <> fld <> "=" <> field_text config.params fld)
                  known_fields))
  unfolding fusesoc_output join_quoted
  fusesoc_output-split h = (_, rw (fusesoc_args known_fields h), shlex_split-join_quoted _)

module _ (o : SimOpts) (args : Args) (config : Config) where
  -- The arguments of one field
  abbrev pub setting : String × FieldType → List String
  setting (fld, str_type) =
      o.define_set_fn (args.string_define_prefix <> fld) (field_text config.params fld)
  setting (fld, bool_type) =
      o.param_set_fn (hier_prefix o args <> fld) (field_number config.params fld)
  setting (fld, int_type) =
      o.param_set_fn (hier_prefix o args <> fld) (field_number config.params fld)

  field_opts-setting :
      (f : String × FieldType)
      → holds config.params f ≡ true
      → field_opts o args config f ≡ ok (setting f)
  unfolding field_opts holds field_text field_number value_text
  field_opts-setting (fld, str_type) h = ground arith
  field_opts-setting (fld, bool_type) h = ground arith
  field_opts-setting (fld, int_type) h = ground arith

  loop-settings :
      (fs : List (String × FieldType)) (acc : List String)
      → all (holds config.params) fs ≡ true
      → sim_opts_loop o args config fs (map quote acc)
        ≡ ok (map quote (acc ++ concat_map setting fs))
  unfolding sim_opts_loop
  loop-settings [] acc h = rw append-nil
  loop-settings (f ∷ fs) acc h =
      rw (field_opts-setting f (ground arith), ← map-append)
        (loop-settings fs (acc ++ setting f) (ground arith)
          ∙ ap (λ l. ok (map quote l)) (append_assoc acc (setting f) (concat_map setting fs)))

  -- Of an accepted configuration the options for a simulator are the settings of the known fields,
  -- in order, when a shell splits them: a text field is set by the definition function, and a
  -- boolean or a number by the parameter function.
  pub sim_output-split :
      all (holds config.params) known_fields ≡ true
      → (line : String) × (sim_output o args config ≡ ok line)
        × (shlex_split line ≡ ok (concat_map setting known_fields))
  unfolding sim_output join_quoted
  sim_output-split h = (_, rw (loop-settings known_fields [] h), shlex_split-join_quoted _)
