-- ===== src/DirectedTests/Tests.antt =====
-- Runs of directed_test_schema.py on small lists.
use kiemchung_ibex_v.Base.{
  String, Bool, true, [], ◌∷◌, Option, none, some, ok, err, ErrorKind, ◌≡◌, refl, All,
}
use kiemchung_ibex_v.Base.Dict.{lookup, update}
use kiemchung_ibex_v.Base.Int.{ℤ, pos}
use kiemchung_ibex_v.Base.Value.{Value, int, str, dict, Fields, end, to_fields}
use kiemchung_ibex_v.IbexConfig.{get_item}
use kiemchung_ibex_v.SimCommands.{as_dict}
use kiemchung_ibex_v.TestRunResult.{FilePath, path_join}
use kiemchung_ibex_v.DirectedTests.{
  Coercions, Model, config_names, validate_config, config_paths, exit_on_invalid, join_config,
  validate_model, import_model, str_field, dict_field, path_field, positive_field, field_of,
  coerced, make_valid_path, validate_test, existing_path, test_paths, check_paths, check_model,
}
use kiemchung_ibex_v.DirectedTests.Valid.{IsBuildable, IsRunnable, import_model-IsRunnable}

abbrev strict_str : Value → Option String
strict_str (str s) = some s
strict_str _ = none

abbrev strict_int : Value → Option ℤ
strict_int (int z) = some z
strict_int _ = none

abbrev strict_dict : Value → Option Fields
strict_dict (dict d) = some d
strict_dict _ = none

abbrev strict : Coercions
strict = record { to_str = strict_str; to_int = strict_int; to_dict = strict_dict }

abbrev riscv_tests : Value
riscv_tests = dict (
    to_fields (
      ("config", str "riscv-tests")
      ∷ ("rtl_test", str "core_ibex_base_test")
      ∷ ("rtl_params", dict end)
      ∷ ("timeout_s", int (pos 300))
      ∷ ("gcc_opts", str "-O2")
      ∷ ("ld_script", str "link.ld")
      ∷ ("includes", str ".")
      ∷ []))

abbrev pub empty_test : Value
empty_test = dict (
    to_fields (
      ("test", str "empty")
      ∷ ("desc", str "an empty program")
      ∷ ("test_srcs", str "empty.S")
      ∷ ("config", str "riscv-tests")
      ∷ ("iterations", int (pos 1))
      ∷ []))

abbrev orphan_test : Value
orphan_test = dict (to_fields (("test", str "orphan") ∷ ("config", str "epmp-tests") ∷ []))

abbrev empty_model : Model
empty_model = record {
  configs =
      record {
        config = "riscv-tests";
        rtl_test = "core_ibex_base_test";
        rtl_params = end;
        timeout_s = pos 300;
        gcc_opts = "-O2";
        ld_script = "dir/link.ld";
        includes = "dir/.";
      }
      ∷ [];
  tests =
      record {
        common = record {
          config = "riscv-tests";
          rtl_test = "core_ibex_base_test";
          rtl_params = end;
          timeout_s = pos 300;
          gcc_opts = "-O2";
          ld_script = "dir/link.ld";
          includes = "dir/.";
        };
        test = "empty";
        desc = "an empty program";
        test_srcs = "dir/empty.S";
        iterations = pos 1;
      }
      ∷ [];
}

abbrev everywhere : FilePath → Bool
everywhere p = true

abbrev in_dir : FilePath → FilePath
in_dir p = "dir"

module _ where
  imports :
      import_model strict everywhere in_dir "dir/list.yaml" (riscv_tests ∷ empty_test ∷ []) none
      ≡ ok empty_model
  unfolding import_model join_config as_dict lookup update path_join exit_on_invalid validate_model
      validate_config validate_test check_model check_paths config_paths test_paths existing_path
      str_field dict_field path_field positive_field field_of coerced make_valid_path
  imports = refl

  -- A test that names no configuration of the file ends the import.
  orphan_fails :
      import_model strict everywhere in_dir "dir/list.yaml" (riscv_tests ∷ orphan_test ∷ []) none
      ≡ err ErrorKind.value_error "a test gave a config that does not exist in the file"
  unfolding import_model join_config as_dict lookup get_item
  orphan_fails = refl

  -- One that is not selected is not looked at.
  orphan_left_out :
      import_model strict everywhere in_dir "dir/list.yaml"
        (riscv_tests ∷ empty_test ∷ orphan_test ∷ [])
        (some ("empty" ∷ []))
      ≡ ok empty_model
  unfolding import_model join_config as_dict lookup update path_join exit_on_invalid validate_model
      validate_config validate_test check_model check_paths config_paths test_paths existing_path
      str_field dict_field path_field positive_field field_of coerced make_valid_path
  orphan_left_out = refl

import_model-IsRunnable_example :
    All (IsBuildable everywhere) empty_model.configs
    × All (IsRunnable everywhere (config_names empty_model.configs)) empty_model.tests
import_model-IsRunnable_example =
    import_model-IsRunnable everywhere in_dir "dir/list.yaml" strict (riscv_tests ∷ empty_test ∷ [])
      none empty_model imports
