-- ===== src/Metadata/Samples.antt =====
-- A regression of one test that runs twice, made from the `small` configuration.
use kiemchung_ibex_v.Base.{
  String, true, false, [], ◌∷◌, none, Result, ok, err, ◌≡◌, refl, map, All, Distinct,
}
use kiemchung_ibex_v.Base.Dict.{Dict, lookup, insert}
use kiemchung_ibex_v.Base.Shlex.{shlex_split}
use kiemchung_ibex_v.Base.Text.{
  split_once, lower, parse_int, strip, lstrip, rstrip, join, split, str_int, str_ℕ,
}
use kiemchung_ibex_v.IbexCmd.{
  get_isas_for_config, base_isa, filter_loop, filter_one, filter_tests_by_config,
}
use kiemchung_ibex_v.IbexConfig.{
  parse_config, make_configs, make_config, read_fields, read_bool, read_str, read_int,
  as_config_error, get_item, make_all, name_error,
}
use kiemchung_ibex_v.SimCommands.{as_text}
use kiemchung_ibex_v.TestRunResult.{path_join}
use kiemchung_ibex_v.Metadata.{new, roots, post_init, setup_directories}
use kiemchung_ibex_v.Metadata.Args.{
  Given, arg_list_initializer, cast, cast_fields, get_ibex_metadata, key_value, lower_dict, make_md,
  parse_number, raw_dict, set_fields, set_field, set_arg,
}
use kiemchung_ibex_v.Metadata.TestList.{
  TestSources, get_tests_and_counts, process_riscvdv_testlist, matched_directed, filtered,
  count_test, iterations_or,
}
use kiemchung_ibex_v.Metadata.Create.{
  Created, create, created, tds_list, make_trr, new_trr, riscvdv_fields, riscvdv_opts, set_opts,
  shlex_if_not_empty, debug_module, plusarg, runs, seeds_from,
}
use kiemchung_ibex_v.Metadata.Create.Names.{plain}
use kiemchung_ibex_v.Base.Int.{pos}
use kiemchung_ibex_v.Base.Value.{Value, str, int}
use kiemchung_ibex_v.DirectedTests.{Coercions}
use kiemchung_ibex_v.IbexConfig.Samples.{configs_yaml}

abbrev csr_test : Dict Value
csr_test =
    ("test", str "riscv_csr_test")
    ∷ ("iterations", int (pos 2))
    ∷ ("gen_test", str "riscv_instr_base_test")
    ∷ ("sim_opts", str "+discrete_debug_module=1 +max_interval=500")
    ∷ []

abbrev no_coercions : Coercions
no_coercions = record { to_str = λ v. none; to_int = λ v. none; to_dict = λ v. none }

abbrev pub sources : TestSources
sources = record {
  configs_yaml = configs_yaml;
  process_regression_list = λ test iterations. ok (csr_test ∷ []);
  coercions = no_coercions;
  exists = λ p. false;
  parent = λ p. p;
  read_yaml = λ p. ok [];
}

abbrev pub given : Given
given = record {
  roots = roots "/ibex";
  environ = [];
  resolve = λ p. p;
  now = "2024-01-01";
  git_commit = "f00";
  configs_yaml = configs_yaml;
}

abbrev pub arguments : String
arguments = "SEED=7 WAVES=0 TEST=riscv_csr_test IBEX_CONFIG=small"

abbrev pub run : Result Created
run = create given sources "/out/metadata" "/out" arguments

-- What it gives, or the empty metadata
abbrev pub sample : Created
sample = elim run [ err _ _ ↦ created (new "") [] [] | ok c ↦ c ]

pub run_made : run ≡ ok sample
unfolding create arg_list_initializer shlex_split split_once lookup insert lower parse_int strip
    lstrip rstrip parse_config make_configs make_config read_fields read_bool read_str read_int
    get_isas_for_config get_tests_and_counts join split str_int str_ℕ base_isa filter_loop
    filter_one filter_tests_by_config as_config_error get_item make_all name_error cast cast_fields
    get_ibex_metadata key_value lower_dict make_md parse_number raw_dict set_fields set_field
    set_arg post_init setup_directories path_join process_riscvdv_testlist matched_directed filtered
    count_test iterations_or make_trr new_trr riscvdv_fields riscvdv_opts set_opts
    shlex_if_not_empty debug_module plusarg runs seeds_from tds_list created as_text
run_made = refl

pub plain_names : All (λ t. plain t.0 ≡ true) sample.md.tests_and_counts
unfolding create arg_list_initializer shlex_split split_once lookup insert lower parse_int strip
    lstrip rstrip parse_config make_configs make_config read_fields read_bool read_str read_int
    get_isas_for_config get_tests_and_counts join split str_int str_ℕ base_isa filter_loop
    filter_one filter_tests_by_config as_config_error get_item make_all name_error cast cast_fields
    get_ibex_metadata key_value lower_dict make_md parse_number raw_dict set_fields set_field
    set_arg post_init setup_directories path_join process_riscvdv_testlist matched_directed filtered
    count_test iterations_or make_trr new_trr riscvdv_fields riscvdv_opts set_opts
    shlex_if_not_empty debug_module plusarg runs seeds_from tds_list created as_text
plain_names = (refl, tt)

pub Distinct-names : Distinct (map (λ t. t.0) sample.md.tests_and_counts)
unfolding create arg_list_initializer shlex_split split_once lookup insert lower parse_int strip
    lstrip rstrip parse_config make_configs make_config read_fields read_bool read_str read_int
    get_isas_for_config get_tests_and_counts join split str_int str_ℕ base_isa filter_loop
    filter_one filter_tests_by_config as_config_error get_item make_all name_error cast cast_fields
    get_ibex_metadata key_value lower_dict make_md parse_number raw_dict set_fields set_field
    set_arg post_init setup_directories path_join process_riscvdv_testlist matched_directed filtered
    count_test iterations_or make_trr new_trr riscvdv_fields riscvdv_opts set_opts
    shlex_if_not_empty debug_module plusarg runs seeds_from tds_list created as_text
Distinct-names = (tt, tt)
