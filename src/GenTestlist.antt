-- ===== src/GenTestlist.antt =====
-- gen_testlist.py (dv/uvm/core_ibex/directed_tests): the list of directed tests is written anew. The
-- commands that list directories are a parameter, from the command to what it prints.
pub mod Free
pub mod Handwritten
pub mod Listed
pub mod Names
mod Tests
use kiemchung_ibex_v.Base.{
  String, ◌<>◌, Bool, true, false, ◌||◌, List, [], ◌∷◌, ◌++◌, Option, none, some, Result, ok, err,
  ErrorKind, ◌>>=◌, any, map, concat_map, if◌then◌else◌, str_eq,
}
use kiemchung_ibex_v.Base.Text.{split}
use kiemchung_ibex_v.Base.Text.Lines.{unlines, before}
use kiemchung_ibex_v.GenTestlist.Handwritten.{configs, handwritten}

-- `names[:-1]`
unfoldable pub without_last : List String → List String
without_last [] = []
without_last (x ∷ []) = []
without_last (x ∷ y ∷ xs) = x ∷ without_last (y ∷ xs)

-- `add_configs_and_handwritten_directed_tests`, where a file is its text
unfoldable pub add_configs_and_handwritten_directed_tests : String → String
add_configs_and_handwritten_directed_tests file = file <> (unlines configs <> unlines handwritten)

-- A suite: its groups, its directory, its name and `is_assembly`
pub record Suite : Type 0 where
  pub tests : List String
  pub test_suite : String
  pub test_suite_name : String
  pub is_assembly : Bool

unfoldable pub extension : Suite → String
extension s = if s.is_assembly then ".S" else ".c"

unfoldable pub extension_grep : Suite → String
extension_grep s = if s.is_assembly then " | egrep .S" else " | egrep .c"

-- The lines of one test
unfoldable pub suite_entry : Suite → String → String → List String
unfolding extension
suite_entry s test_group_name test_name =
    ""
    ∷ ("- test: " <> test_name)
    ∷ "  desc: >"
    ∷ ("    riscv test - " <> test_name)
    ∷ "  iterations: 1"
    ∷ ("  test_srcs: "
        <> (s.test_suite <> (test_group_name <> ("/" <> (test_name <> extension s)))))
    ∷ ("  config: " <> s.test_suite_name)
    ∷ []

-- The suites, in the order in which `_main` adds them
abbrev pub riscv_tests : Suite
riscv_tests = record {
  tests = "rv32mi" ∷ "rv32uc" ∷ "rv32um" ∷ "rv32ui" ∷ [];
  test_suite = "../../../../vendor/riscv-tests/isa/";
  test_suite_name = "riscv-tests";
  is_assembly = true;
}

abbrev pub riscv_arch_tests : Suite
riscv_arch_tests = record {
  tests =
      "rv32i_m/M/src" ∷ "rv32i_m/C/src" ∷ "rv32i_m/Zifencei/src" ∷ "rv32i_m/I/src" ∷ "rv32i_m/B/src"
      ∷ [];
  test_suite = "../../../../vendor/riscv-arch-tests/riscv-test-suite/";
  test_suite_name = "riscv-arch-tests";
  is_assembly = true;
}

abbrev pub epmp_tests : Suite
epmp_tests = record {
  tests = "outputs" ∷ [];
  test_suite = "../../../../vendor/riscv-isa-sim/tests/mseccfg/gengen_src/";
  test_suite_name = "epmp-tests";
  is_assembly = false;
}

-- `name in test_suite_list or test_suite == 'all'`
unfoldable pub is_wanted : String → Suite → Bool
is_wanted add_tests s =
    any (λ name. str_eq s.test_suite_name name) (split b',' add_tests) || str_eq add_tests "all"

module _ (popen : String → String) where
  -- The files of a group that are listed
  unfoldable pub available_testlist : Suite → String → List String
  unfolding extension_grep without_last
  available_testlist s test_group_name =
      without_last
        (split 10 (popen ("ls " <> (s.test_suite <> (test_group_name <> extension_grep s)))))

  -- The names of the tests of a group
  unfoldable pub test_names : Suite → String → List String
  unfolding available_testlist extension
  test_names s test_group_name = map (before (extension s)) (available_testlist s test_group_name)

  unfoldable pub group_lines : Suite → String → List String
  unfolding test_names suite_entry
  group_lines s test_group_name =
      concat_map (suite_entry s test_group_name) (test_names s test_group_name)

  unfoldable pub append_directed_testlist : Suite → String → String
  unfolding group_lines
  append_directed_testlist s file =
      file
      <> (unlines ("" ∷ ("# Test-suite: " <> s.test_suite_name) ∷ [])
          <> unlines (concat_map (group_lines s) s.tests))

  -- `list_tests`, but for what it prints
  unfoldable pub list_tests : String → List String
  unfolding without_last
  list_tests dir = without_last (split 10 (popen ("ls " <> dir)))

  unfoldable pub add_suite : String → Suite → String → String
  unfolding append_directed_testlist is_wanted
  add_suite add_tests s file =
      if is_wanted add_tests s then append_directed_testlist s file else file

  -- `_main`, from the text of the old file, if there is one, to that of the new file: a file that is
  -- not there cannot be opened to be read and written.
  unfoldable pub main : String → Option String → Result String
  unfolding add_suite
  main add_tests none = err ErrorKind.os_error "directed_testlist.yaml"
  main add_tests (some old) = ok (
      add_suite add_tests epmp_tests (
        add_suite add_tests riscv_arch_tests
          (add_suite add_tests riscv_tests (add_configs_and_handwritten_directed_tests ""))))
