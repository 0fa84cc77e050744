-- ===== src/Metadata/Tests.antt =====
-- What the theorems say of the sample of a regression.
use kiemchung_ibex_v.Base.{true, [], ◌∷◌, some, ok, ◌≡◌, refl, map, keep, All, Distinct}
use kiemchung_ibex_v.Base.Dict.{lookup, insert}
use kiemchung_ibex_v.Base.Shlex.{shlex_split}
use kiemchung_ibex_v.Base.Text.{
  split_once, lower, parse_int, strip, lstrip, rstrip, join, split, str_int, str_ℕ,
}
use kiemchung_ibex_v.IbexCmd.{
  get_isas_for_config, base_isa, filter_loop, filter_one, filter_tests_by_config,
}
use kiemchung_ibex_v.IbexConfig.{
  parse_config, make_configs, make_config, read_fields, read_bool, read_str, read_int,
  as_config_error, get_item, make_all, name_error,
}
use kiemchung_ibex_v.SimCommands.{as_text}
use kiemchung_ibex_v.TestRunResult.{riscvdv, path_join}
use kiemchung_ibex_v.Metadata.{post_init, setup_directories}
use kiemchung_ibex_v.Metadata.Args.{
  arg_list_initializer, cast, cast_fields, get_ibex_metadata, key_value, lower_dict, make_md,
  parse_number, raw_dict, set_fields, set_field, set_arg,
}
use kiemchung_ibex_v.Metadata.TestList.{
  get_tests_and_counts, process_riscvdv_testlist, matched_directed, filtered, count_test,
  iterations_or,
}
use kiemchung_ibex_v.Metadata.Create.{
  create, created, tds_list, tds_str, make_trr, new_trr, riscvdv_fields, riscvdv_opts, set_opts,
  shlex_if_not_empty, debug_module, plusarg, runs, seeds_from,
}
use kiemchung_ibex_v.Base.{length, ◌+◌}
use kiemchung_ibex_v.Metadata.Create.Bounds.{total, most, InRange, create-InRange}
use kiemchung_ibex_v.Metadata.Create.Listed.{is_kind, create-tds_list}
use kiemchung_ibex_v.Metadata.Create.Names.{read_test_dot_seed-tds_str, create-Distinct}
use kiemchung_ibex_v.Metadata.Create.WellFormed.{IsWellFormed, create-IsWellFormed}
use kiemchung_ibex_v.Base.Int.{pos}
use kiemchung_ibex_v.TestEntry.{read_test_dot_seed}
use kiemchung_ibex_v.Metadata.Samples.{
  given, sources, arguments, sample, run_made, plain_names, Distinct-names,
}

sample_listed :
    map (λ trr. trr.testdotseed) (keep (is_kind riscvdv) sample.trrs)
    ≡ map (λ n. some n) (tds_list sample.md riscvdv)
sample_listed =
    create-tds_list riscvdv given sources "/out/metadata" "/out" arguments sample run_made

create-IsWellFormed_example : IsWellFormed sample.md
create-IsWellFormed_example =
    create-IsWellFormed given sources "/out/metadata" "/out" arguments sample run_made

create-Distinct_example : Distinct (map (λ trr. trr.testdotseed) sample.trrs)
create-Distinct_example =
    create-Distinct given sources "/out/metadata" "/out" arguments sample run_made plain_names
      Distinct-names

tds_made : tds_list sample.md riscvdv ≡ ("riscv_csr_test.7" ∷ "riscv_csr_test.8" ∷ [])
unfolding create arg_list_initializer shlex_split split_once lookup insert lower parse_int strip
    lstrip rstrip parse_config make_configs make_config read_fields read_bool read_str read_int
    get_isas_for_config get_tests_and_counts join split str_int str_ℕ base_isa filter_loop
    filter_one filter_tests_by_config as_config_error get_item make_all name_error cast cast_fields
    get_ibex_metadata key_value lower_dict make_md parse_number raw_dict set_fields set_field
    set_arg post_init setup_directories path_join process_riscvdv_testlist matched_directed filtered
    count_test iterations_or make_trr new_trr riscvdv_fields riscvdv_opts set_opts
    shlex_if_not_empty debug_module plusarg runs seeds_from tds_list created as_text
tds_made = refl

debug_module_read :
    map (λ trr. trr.is_discrete_debug_module) sample.trrs ≡ (some true ∷ some true ∷ [])
unfolding create arg_list_initializer shlex_split split_once lookup insert lower parse_int strip
    lstrip rstrip parse_config make_configs make_config read_fields read_bool read_str read_int
    get_isas_for_config get_tests_and_counts join split str_int str_ℕ base_isa filter_loop
    filter_one filter_tests_by_config as_config_error get_item make_all name_error cast cast_fields
    get_ibex_metadata key_value lower_dict make_md parse_number raw_dict set_fields set_field
    set_arg post_init setup_directories path_join process_riscvdv_testlist matched_directed filtered
    count_test iterations_or make_trr new_trr riscvdv_fields riscvdv_opts set_opts
    shlex_if_not_empty debug_module plusarg runs seeds_from tds_list created as_text
debug_module_read = refl

read_test_dot_seed-tds_str_example :
    read_test_dot_seed (tds_str "riscv_csr_test" (pos 1077)) ≡ ok ("riscv_csr_test", 1077)
read_test_dot_seed-tds_str_example = read_test_dot_seed-tds_str "riscv_csr_test" 1077 refl

sample_seed : sample.md.seed ≡ pos 7
unfolding create arg_list_initializer shlex_split split_once lookup insert lower parse_int strip
    lstrip rstrip parse_config make_configs make_config read_fields read_bool read_str read_int
    get_isas_for_config get_tests_and_counts join split str_int str_ℕ base_isa filter_loop
    filter_one filter_tests_by_config as_config_error get_item make_all name_error cast cast_fields
    get_ibex_metadata key_value lower_dict make_md parse_number raw_dict set_fields set_field
    set_arg post_init setup_directories path_join process_riscvdv_testlist matched_directed filtered
    count_test iterations_or make_trr new_trr riscvdv_fields riscvdv_opts set_opts
    shlex_if_not_empty debug_module plusarg runs seeds_from tds_list created as_text
sample_seed = refl

create-InRange_example :
    (length sample.trrs ≡ total sample.md.tests_and_counts)
    × All (λ trr. InRange 7 (7 + most sample.md.tests_and_counts) trr.seed) sample.trrs
create-InRange_example =
    create-InRange given sources "/out/metadata" "/out" arguments sample 7 run_made sample_seed
