-- ===== src/GenTestlist/Tests.antt =====
-- A list with the tests of one suite, of which two files are listed.
use kiemchung_ibex_v.Base.{
  String, [], ◌∷◌, ◌++◌, none, some, ok, err, ErrorKind, ◌≡◌, refl, str_eq, if◌then◌else◌,
}
use kiemchung_ibex_v.Base.Text.{split}
use kiemchung_ibex_v.Base.Text.Lines.{before}
use kiemchung_ibex_v.GenTestlist.{
  main, test_names, available_testlist, extension, extension_grep, without_last, is_wanted,
  riscv_tests, riscv_arch_tests, epmp_tests,
}
use kiemchung_ibex_v.GenTestlist.Handwritten.{handwritten_names}
use kiemchung_ibex_v.GenTestlist.Listed.{main-listed_tests}
use kiemchung_ibex_v.GenTestlist.Names.{listed_tests, suite_tests}

abbrev popen : String → String
popen cmd =
    if str_eq cmd "ls ../../../../vendor/riscv-isa-sim/tests/mseccfg/gengen_src/outputs | egrep .c"
    then "test_pmp_csr_1.c\ntest_pmp_ok_1.c\n"
    else ""

epmp_found :
    suite_tests popen "riscv-tests,epmp-tests" epmp_tests ≡ "test_pmp_csr_1" ∷ "test_pmp_ok_1" ∷ []
unfolding suite_tests test_names available_testlist extension extension_grep without_last is_wanted
    split before
epmp_found = refl

new_list_read :
    (text : String) × (main popen "riscv-tests,epmp-tests" (some "old") ≡ ok text)
    × (listed_tests text
        ≡ ((handwritten_names ++ suite_tests popen "riscv-tests,epmp-tests" riscv_tests)
            ++ suite_tests popen "riscv-tests,epmp-tests" riscv_arch_tests)
          ++ suite_tests popen "riscv-tests,epmp-tests" epmp_tests)
new_list_read = main-listed_tests popen "riscv-tests,epmp-tests" "old"

no_old_list : main popen "all" none ≡ err ErrorKind.os_error "directed_testlist.yaml"
unfolding main
no_old_list = refl
