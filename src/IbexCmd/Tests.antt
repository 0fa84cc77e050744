-- ===== src/IbexCmd/Tests.antt =====
-- The theorems at the `small` configuration and at tests like those of testlist.yaml.
use kiemchung_ibex_v.Base.{
  true, false, List, [], ◌∷◌, some, ◌≡◌, refl, ok, all, any, keep, concat_map, replicate, str_eq,
}
use kiemchung_ibex_v.Base.Dict.{lookup}
use kiemchung_ibex_v.Base.Int.{pos}
use kiemchung_ibex_v.Base.Value.{int, str, list, dict, item, nil, end, field}
use kiemchung_ibex_v.IbexConfig.Samples.{small}
use kiemchung_ibex_v.IbexConfig.Outputs.{output_types}
use kiemchung_ibex_v.IbexCmd.{
  TestEntry, contains, config_value, filter_tests_by_config, needs_opts, output_type_name, sim_cfgs,
}
use kiemchung_ibex_v.IbexCmd.Isa.{
  Described, level, get_isas_for_config-isas, output_type_name-offered,
}
use kiemchung_ibex_v.IbexCmd.Selection.{
  checks, matches, copies, checkable, supported, simple, filter_tests_by_config-copies,
  filter_tests_by_config-keep, filter_tests_by_config-unsupported,
}

abbrev plain_test : TestEntry
plain_test = ("test", str "riscv_arithmetic_basic_test") ∷ []

abbrev pmp_test : TestEntry
pmp_test =
    ("test", str "riscv_pmp_basic_test")
    ∷ ("rtl_params", dict (field "PMPEnable" (int (pos 1)) end))
    ∷ []

abbrev either_test : TestEntry
either_test =
    ("test", str "either")
    ∷ (
      "rtl_params",
      dict (field "PMPEnable" (list (item (int (pos 0)) (item (int (pos 1)) nil))) end),
    )
    ∷ []

-- It wants no PMP and the B extension, which `small` lacks.
abbrev mixed_test : TestEntry
mixed_test =
    ("test", str "mixed")
    ∷ (
      "rtl_params",
      dict (field "PMPEnable" (int (pos 0)) (field "RV32B" (str "ibex_pkg::RV32BFull") end)),
    )
    ∷ []

abbrev tests : List TestEntry
tests = plain_test ∷ pmp_test ∷ either_test ∷ []

tests-checkable : all (checkable small) tests ≡ true
unfolding checks lookup contains config_value
tests-checkable = refl

small_copies :
    filter_tests_by_config small tests ≡ ok (concat_map (λ t. replicate (copies small t) t) tests)
small_copies = filter_tests_by_config-copies small tests tests-checkable

tests-simple : all (simple small) tests ≡ true
unfolding lookup
tests-simple = refl

filter_tests_by_config-keep_example :
    filter_tests_by_config small tests ≡ ok (keep (supported small) tests)
filter_tests_by_config-keep_example =
    filter_tests_by_config-keep small tests tests-checkable tests-simple

two_kept : keep (supported small) tests ≡ plain_test ∷ either_test ∷ []
unfolding supported matches lookup contains config_value
two_kept = refl

mixed_params :
    lookup "rtl_params" mixed_test
    ≡ some (dict (field "PMPEnable" (int (pos 0)) (field "RV32B" (str "ibex_pkg::RV32BFull") end)))
unfolding lookup
mixed_params = refl

mixed_checkable : checkable small mixed_test ≡ true
unfolding checks lookup contains config_value
mixed_checkable = refl

mixed_first : matches small ("PMPEnable", int (pos 0)) ≡ true
unfolding matches lookup contains config_value
mixed_first = refl

mixed_second : matches small ("RV32B", str "ibex_pkg::RV32BFull") ≡ false
unfolding matches lookup contains config_value
mixed_second = refl

smaller_kept :
    (filter_tests_by_config small (mixed_test ∷ []) ≡ ok (mixed_test ∷ []))
    × (supported small mixed_test ≡ false)
smaller_kept =
    filter_tests_by_config-unsupported small mixed_test ("PMPEnable", int (pos 0))
      ("RV32B", str "ibex_pkg::RV32BFull") end mixed_params mixed_checkable mixed_first mixed_second

get_isas_for_config-isas_example : Described small (level small.rv32b)
get_isas_for_config-isas_example = get_isas_for_config-isas small

riviera_known : lookup "riviera" sim_cfgs ≡ some (true, true)
unfolding lookup
riviera_known = refl

riviera_needed : needs_opts "sim" (true, true) ≡ ok true
unfolding needs_opts
riviera_needed = refl

vcs_offered : any (str_eq (output_type_name "riviera" "sim" (true, true))) output_types ≡ true
vcs_offered = output_type_name-offered "riviera" "sim" (true, true) riviera_known riviera_needed
