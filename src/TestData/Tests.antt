-- ===== src/TestData/Tests.antt =====
-- The sample regression, exported to no files and read back.
use kiemchung_ibex_v.Base.{
  String, List, ErrorKind, err, keep, ◌∷◌, true, [], none, some, ok, ◌≡◌, refl, map, All, Bool,
}
use kiemchung_ibex_v.Base.Dict.{lookup, insert}
use kiemchung_ibex_v.Base.Shlex.{shlex_split}
use kiemchung_ibex_v.Base.Text.{
  split_once, lower, parse_int, strip, lstrip, rstrip, join, split, str_int, str_ℕ,
}
use kiemchung_ibex_v.IbexCmd.{
  get_isas_for_config, base_isa, filter_loop, filter_one, filter_tests_by_config,
}
use kiemchung_ibex_v.IbexConfig.{
  parse_config, make_configs, make_config, read_fields, read_bool, read_str, read_int,
  as_config_error, get_item, make_all, name_error,
}
use kiemchung_ibex_v.SimCommands.{as_text}
use kiemchung_ibex_v.TestRunResult.{path_join, FilePath, riscvdv}
use kiemchung_ibex_v.Metadata.Create.Listed.{is_kind}
use kiemchung_ibex_v.TestData.PrintField.{print_field, tds_field, Names, print_field-export_created}
use kiemchung_ibex_v.Metadata.{post_init, setup_directories}
use kiemchung_ibex_v.Metadata.Args.{
  arg_list_initializer, cast, cast_fields, get_ibex_metadata, key_value, lower_dict, make_md,
  parse_number, raw_dict, set_fields, set_field, set_arg,
}
use kiemchung_ibex_v.Metadata.TestList.{
  get_tests_and_counts, process_riscvdv_testlist, matched_directed, filtered, count_test,
  iterations_or,
}
use kiemchung_ibex_v.Metadata.Create.{
  create, created, tds_list, make_trr, new_trr, riscvdv_fields, riscvdv_opts, set_opts,
  shlex_if_not_empty, debug_module, plusarg, runs, seeds_from,
}
use kiemchung_ibex_v.Metadata.Samples.{
  given, sources, arguments, sample, run_made, plain_names, Distinct-names,
}
use kiemchung_ibex_v.TestData.{
  Printing, format_to_printable_dict, asdict, relative_field, format_dict_to_printable_dict,
  printable, format_to_str, format_to_cmd, str_item, none_item, path_item, other_item,
}
use kiemchung_ibex_v.TestData.Files.{
  export_trrs, export_trr, export_object, trr_text, export_md, follow, write, write_text,
  trr_pickle, md_pickle, Files, export_created, construct_trr, construct_md,
}
use kiemchung_ibex_v.TestData.Exported.{relative_name, Listed}
use kiemchung_ibex_v.TestData.RoundTrip.{export_created-IsRead}

abbrev printing : Printing
printing = record {
  resolve = λ f. f;
  relative_to = λ f dir. none;
  str_of_list = λ items. "[...]";
  str_of_value = λ v. "{...}";
  str_of_cmd = λ cmd. "[...]";
  str_of_dict = λ d. "{...}";
}

abbrev any : FilePath → Bool
any f = true

abbrev no_files : Files
no_files f = none

within : All (λ n. relative_name n ≡ true) (map (λ trr. trr.testdotseed) sample.trrs)
unfolding create arg_list_initializer shlex_split split_once lookup insert lower parse_int strip
    lstrip rstrip parse_config make_configs make_config read_fields read_bool read_str read_int
    get_isas_for_config get_tests_and_counts join split str_int str_ℕ base_isa filter_loop
    filter_one filter_tests_by_config as_config_error get_item make_all name_error cast cast_fields
    get_ibex_metadata key_value lower_dict make_md parse_number raw_dict set_fields set_field
    set_arg post_init setup_directories path_join process_riscvdv_testlist matched_directed filtered
    count_test iterations_or make_trr new_trr riscvdv_fields riscvdv_opts set_opts
    shlex_if_not_empty debug_module plusarg runs seeds_from tds_list created as_text
within = (refl, (refl, tt))

done : (export_created any printing (λ md. []) sample no_files).1 ≡ ok tt
unfolding create arg_list_initializer shlex_split split_once lookup insert lower parse_int strip
    lstrip rstrip parse_config make_configs make_config read_fields read_bool read_str read_int
    get_isas_for_config get_tests_and_counts join split str_int str_ℕ base_isa filter_loop
    filter_one filter_tests_by_config as_config_error get_item make_all name_error cast cast_fields
    get_ibex_metadata key_value lower_dict make_md parse_number raw_dict set_fields set_field
    set_arg post_init setup_directories path_join process_riscvdv_testlist matched_directed filtered
    count_test iterations_or make_trr new_trr riscvdv_fields riscvdv_opts set_opts
    shlex_if_not_empty debug_module plusarg runs seeds_from tds_list created as_text export_created
    export_trrs export_trr export_object trr_text export_md follow write write_text
    format_to_printable_dict asdict relative_field format_dict_to_printable_dict printable
    format_to_str
done = refl

export_created-IsRead_example :
    All
      (λ trr.
        (tds : String) × (trr.testdotseed ≡ some tds)
        × (construct_trr
              (export_created any printing (λ md. []) sample no_files).0
              sample.md.dir_metadata
              tds
            ≡ ok (trr_pickle trr)))
      sample.trrs
    × Listed (export_created any printing (λ md. []) sample no_files).0 sample
    × (construct_md
          (export_created any printing (λ md. []) sample no_files).0
          sample.md.dir_metadata
        ≡ ok (md_pickle sample.md))
export_created-IsRead_example =
    export_created-IsRead given sources "/out/metadata" "/out" arguments sample any printing
      (λ md. []) no_files run_made plain_names Distinct-names within done

print_field-export_created_example :
    (names : List String) × (map (λ trr. trr.testdotseed) (keep (is_kind riscvdv) sample.trrs)
      ≡ map (λ n. some n) names)
    × (print_field
          (λ o field. none)
          (export_created any printing (λ md. []) sample no_files).0
          sample.md.dir_metadata
          (tds_field (λ o field. none) riscvdv)
        ≡ ok (join " " names))
    × All
        (Names
          (λ o field. none)
          riscvdv
          (export_created any printing (λ md. []) sample no_files).0
          sample.md.dir_metadata)
        names
print_field-export_created_example =
    print_field-export_created (λ o field. none) given sources "/out/metadata" "/out" arguments
      sample any printing (λ md. []) no_files riscvdv run_made plain_names Distinct-names within
      done

none_in_cmd :
    format_to_cmd printing (str_item "a" ∷ none_item ∷ path_item "b" ∷ [])
    ≡ ok ("a" ∷ "" ∷ "b" ∷ [])
unfolding format_to_cmd
none_in_cmd = refl

other_not_in_cmd :
    format_to_cmd printing (other_item "{}" ∷ [])
    ≡ err ErrorKind.runtime_error "Can't format item to str when constructing a cmd"
unfolding format_to_cmd
other_not_in_cmd = refl
