-- ===== src/IbexConfig/Tests.antt =====
-- The `small` configuration of ibex_configs.yaml, and the theorems at it.

use kiemchung_ibex_v.Base.{is_ok, String, ◌<>◌, true, ◌≡◌, refl, ok, map}
use kiemchung_ibex_v.Base.{all, concat_map}
use kiemchung_ibex_v.Base.Dict.{lookup}
use kiemchung_ibex_v.Base.Shlex.{shlex_split}
use kiemchung_ibex_v.Base.Value.{dict, to_fields}
use kiemchung_ibex_v.IbexConfig.{
  known_fields, read_bool, read_str, read_int, read_fields, make_config,
}
use kiemchung_ibex_v.IbexConfig.Accepts.{holds, well_formed, make_config-well_formed}
use kiemchung_ibex_v.IbexConfig.Samples.{small_params, small}
use kiemchung_ibex_v.IbexConfig.Options.{Mirrors, make_config-Mirrors}
use kiemchung_ibex_v.IbexConfig.Outputs.{Args, fusesoc_output, sim_output, xlm_opts}
use kiemchung_ibex_v.IbexConfig.Outputs.Lines.{
  field_text, setting, fusesoc_output-split, sim_output-split,
}

small_made : make_config (dict (to_fields small_params)) ≡ ok small
unfolding make_config read_fields lookup read_bool read_str read_int
small_made = refl

make_config-well_formed_example :
    is_ok (make_config (dict (to_fields small_params)))
    ≡ well_formed (dict (to_fields small_params))
make_config-well_formed_example = make_config-well_formed (dict (to_fields small_params))

make_config-Mirrors_example : Mirrors small_params small
make_config-Mirrors_example = make_config-Mirrors (to_fields small_params) small small_made

small_holds : all (holds small_params) known_fields ≡ true
unfolding holds lookup
small_holds = refl

fusesoc_output-split_example :
    (line : String) × (fusesoc_output small ≡ ok line)
    × (shlex_split line
        ≡ ok (map (λ (fld, typ). "--" <> fld <> "=" <> field_text small_params fld) known_fields))
fusesoc_output-split_example = fusesoc_output-split small small_holds

abbrev tb_args : Args
tb_args = record { ins_hier_path = "core_ibex_tb_top"; string_define_prefix = "IBEX_CFG_" }

sim_output-split_example :
    (line : String) × (sim_output xlm_opts tb_args small ≡ ok line)
    × (shlex_split line ≡ ok (concat_map (setting xlm_opts tb_args small) known_fields))
sim_output-split_example = sim_output-split xlm_opts tb_args small small_holds
