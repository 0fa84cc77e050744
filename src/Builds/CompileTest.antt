-- ===== src/Builds/CompileTest.antt =====
-- compile_test.py: the commands that compile a test. What riscv-dv writes, the temporary directory,
-- the environment and `Path.resolve` are parameters. Where the script sets a field of the record of
-- the run, the record is returned.
pub mod Moved
use kiemchung_ibex_v.Base.{
  String, ◌<>◌, Bool, true, false, not, ◌&&◌, List, [], ◌∷◌, ◌++◌, Option, none, some, Result, ok,
  err, ErrorKind, ◌>>=◌, ◌>>◌, guard, traverse, map, all, keep, concat_map, length, if◌then◌else◌,
  str_eq, starts_with, ◌≡◌, refl, ap, arith,
}
use kiemchung_ibex_v.Base.Dict.{Dict, lookup}
use kiemchung_ibex_v.Base.Int.{ℤ, pos, is_nonzero}
use kiemchung_ibex_v.Base.Shlex.{shlex_split}
use kiemchung_ibex_v.Base.Text.{has, join, replace, str_int, strip}
use kiemchung_ibex_v.Base.Value.{Value, null, str}
use kiemchung_ibex_v.Builds.{Runs, run_all, get_run_cmd}
use kiemchung_ibex_v.DirectedTests.{get_or_null}
use kiemchung_ibex_v.Metadata.{RegressionMetadata, Roots}
use kiemchung_ibex_v.RunOne.{Spawn, Redirect, run_one, to_path}
use kiemchung_ibex_v.TestRunResult.{FilePath, TestRunResult, TestType, riscvdv, directed, path_join}

-- What a compilation gets from outside: `orig_cmds` are the lines that riscv-dv writes to its list,
-- and `log_opens` says whether the log of riscv-dv can be opened.
pub record Outside : Type 0 where
  pub roots : Roots
  pub td : FilePath
  pub orig_cmds : List String
  pub log_opens : Bool
  pub environ : String → Option String
  pub resolve : FilePath → FilePath
  pub show : Value → String

-- What `get_riscvdv_compile_cmds` returns: commands, or the return code of riscv-dv
pub data Compiled : Type 0 where
  commands : List (List String) → Compiled
  dv_failed : ℤ → Compiled

-- `p / name` for a path that must be set
required : Option FilePath → Result FilePath
required none = err ErrorKind.type_error "None"
required (some p) = ok p

-- `f"{v}"`
abbrev none_text : Option String → String
none_text none = "None"
none_text (some s) = s

-- `format_to_str`, which gives an empty text for `None`
abbrev empty_text : Option String → String
empty_text none = ""
empty_text (some s) = s

-- The paths of riscv-dv, and those of the test
abbrev pub Rewrites : Type 0
Rewrites = List (String × String)

rewrites : FilePath → TestRunResult → Rewrites
rewrites placeholder trr =
    let base = placeholder <> "/asm_test/" <> none_text trr.testname in
    (base <> "_0.S", none_text trr.assembly)
    ∷ (base <> "_0.o", none_text trr.objectfile)
    ∷ (base <> "_0.bin", none_text trr.binary)
    ∷ []

unfoldable pub replace_all : Rewrites → String → String
replace_all [] word = word
replace_all ((old, new) ∷ rest) word = replace_all rest (replace word old new)

unfoldable pub rewrite_word : FilePath → Rewrites → String → Result String
unfolding replace_all
rewrite_word placeholder rs word =
    let new = replace_all rs word in
    if has placeholder new
    then err ErrorKind.runtime_error "Couldn't replace every copy of placeholder"
    else ok new

unfoldable pub rewrite_cmd : FilePath → Rewrites → List String → Result (List String)
unfolding rewrite_word
rewrite_cmd placeholder rs = traverse (rewrite_word placeholder rs)

-- `new_cmds.pop()`
without_last : List (List String) → Result (List (List String))
without_last [] = err ErrorKind.index_error "pop from empty list"
without_last (cmd ∷ []) = ok []
without_last (cmd ∷ c ∷ cmds) = do rest ← without_last (c ∷ cmds); ok (cmd ∷ rest)

-- The linker script of the discrete debug module, for the one of riscv-dv
relink : RegressionMetadata → List String → List String
relink md = map (λ token.
    if starts_with token "-T"
    then "-T" <> path_join md.ibex_riscvdv_customtarget "ddm_link.ld"
    else token)

abbrev dm_sections : List String
dm_sections = ".debug_module" ∷ ".dm_scratch" ∷ []

abbrev sections : String → List String
sections flag = concat_map (λ s. flag ∷ s ∷ []) dm_sections

-- One call of objcopy
objcopy_cmd : String → String → String → TestRunResult → FilePath → List String
objcopy_cmd objcopy format flag trr out =
    (objcopy ∷ "-O" ∷ format ∷ []) ++ sections flag ++ none_text trr.objectfile ∷ out ∷ []

-- With a discrete debug module the memory is written in two parts, each in two formats.
ddm_cmds :
    Outside
    → RegressionMetadata
    → TestRunResult
    → FilePath
    → List (List String)
    → Result (TestRunResult × List (List String))
unfolding without_last relink objcopy_cmd
ddm_cmds o md trr dir_test new_cmds = do
  kept ← without_last new_cmds
  let objcopy = empty_text (o.environ "RISCV_OBJCOPY")
  let vmem_main = path_join dir_test "test.main.vmem"
  let vmem_dm = path_join dir_test "test.dm.vmem"
  let binary_main = path_join dir_test "test.main.bin"
  let binary_dm = path_join dir_test "test.dm.bin"
  ok (
    record trr {
      vmem_main = some vmem_main;
      vmem_dm = some vmem_dm;
      binary_main = some binary_main;
      binary_dm = some binary_dm;
    },
    map (relink md) kept
        ++ objcopy_cmd objcopy "verilog" "--only-section" trr vmem_dm
          ∷ objcopy_cmd objcopy "verilog" "--remove-section" trr vmem_main
          ∷ objcopy_cmd objcopy "binary" "--only-section" trr binary_dm
          ∷ objcopy_cmd objcopy "binary" "--remove-section" trr binary_main
          ∷ [],
  )

-- The lines of the list that are commands
abbrev pub is_command : String → Bool
is_command line = not (str_eq (strip line) "")

-- The command of riscv-dv
gen_cmd : Outside → RegressionMetadata → TestRunResult → List String
gen_cmd o md trr =
    get_run_cmd o.roots o.resolve md.verbose
    ++ "--verbose"
      ∷ "--output"
      ∷ o.resolve (path_join o.td "@@PLACEHOLDER@@")
      ∷ "--steps=gcc_compile"
      ∷ "--test"
      ∷ empty_text trr.testname
      ∷ "--start_seed"
      ∷ (elim trr.seed [ none ↦ "None" | some s ↦ str_int s ])
      ∷ "--iterations"
      ∷ "1"
      ∷ "--isa"
      ∷ empty_text md.isa_ibex
      ∷ "--debug"
      ∷ o.resolve (path_join o.td "orig-cmds.list")
      ∷ []

-- The commands that were read, moved to the directory of the test
unfoldable pub move_cmds : FilePath → Rewrites → List String → Result (List (List String))
unfolding rewrite_cmd
move_cmds placeholder rs orig_lines = do
  orig_cmds ← traverse (λ line. shlex_split (strip line)) (keep is_command orig_lines)
  traverse (rewrite_cmd placeholder rs) orig_cmds

abbrev is_ddm : TestRunResult → Bool
is_ddm trr = elim trr.testtype [
  | some riscvdv ↦ elim trr.is_discrete_debug_module [ some b ↦ b | none ↦ false ]
  | _ ↦ false
]

-- What follows the run of riscv-dv, if it did not fail
after_dv :
    Outside
    → RegressionMetadata
    → FilePath
    → TestRunResult
    → ℤ
    → Bool
    → Result (TestRunResult × Compiled)
unfolding move_cmds rewrites ddm_cmds
after_dv o md dir_test started dv_ret true = ok (started, dv_failed dv_ret)
after_dv o md dir_test started dv_ret false = do
  let trr = record started {
    objectfile = some (path_join dir_test "test.o");
    binary = some (path_join dir_test "test.bin");
  }
  let placeholder = path_join o.td "@@PLACEHOLDER@@"
  new_cmds ← move_cmds placeholder (rewrites placeholder trr) o.orig_cmds
  elim (is_ddm trr) [
    | false ↦ ok (trr, commands new_cmds)
    | true ↦ do made ← ddm_cmds o md trr dir_test new_cmds; ok (made.0, commands made.1)
  ]

pub get_riscvdv_compile_cmds :
    Outside → Spawn → RegressionMetadata → TestRunResult → Result (TestRunResult × Compiled)
unfolding gen_cmd after_dv required
get_riscvdv_compile_cmds o spawn md trr = do
  dir_test ← required trr.dir_test
  let cmd = gen_cmd o md trr
  let started = record trr {
    compile_asm_gen_log = some (path_join dir_test "compile_gen.riscv-dv.log");
    compile_asm_gen_cmds = some (cmd ∷ []);
  }
  dv_ret ← run_one spawn (to_path o.log_opens) false
  after_dv o md dir_test started dv_ret (is_nonzero dv_ret)

abbrev pub toolchain_vars : List String
toolchain_vars = "RISCV_TOOLCHAIN" ∷ "RISCV_GCC" ∷ "RISCV_OBJCOPY" ∷ []

-- What stands before the source of an architecture test
boot_srcs : RegressionMetadata → Value → List FilePath
boot_srcs md (str config) =
    if str_eq config "riscv-arch-tests"
    then path_join md.directed_test_dir "riscv_arch_test_boot.S" ∷ []
    else []
boot_srcs md _ = []

module _ (o : Outside) where
  abbrev pub is_set : String → Bool
  is_set var = elim (o.environ var) [ none ↦ false | some _ ↦ true ]

  -- `f"{v}"` for what a dictionary holds
  value_text : Value → String
  value_text (str s) = s
  value_text null = "None"
  value_text v = o.show v

  -- An item of `" ".join`
  text_item : Value → Result String
  text_item (str s) = ok s
  text_item v = err ErrorKind.type_error "sequence item: expected str instance"

  -- `trr.directed_data.get('test_srcs')`
  assembly_of : Value → Option FilePath
  assembly_of (str s) = some s
  assembly_of null = none
  assembly_of v = some (o.show v)

  pub get_directed_compile_cmds :
      RegressionMetadata → TestRunResult → Result (TestRunResult × List (List String))
  unfolding boot_srcs value_text text_item assembly_of required
  get_directed_compile_cmds md trr = do
    guard (all is_set toolchain_vars) ErrorKind.runtime_error
        "Missing required environment variables for the RISCV TOOLCHAIN"
    directed_data ← elim trr.directed_data [
      | none ↦ err ErrorKind.attribute_error "'NoneType' object has no attribute 'get'"
      | some d ↦ ok d
    ]
    dir_test ← required trr.dir_test
    let objectfile = path_join dir_test "test.o"
    let binary = path_join dir_test "test.bin"
    let assembly = assembly_of (get_or_null "test_srcs" directed_data)
    let boot = boot_srcs md (get_or_null "config" directed_data)
    gcc_opts ← text_item (get_or_null "gcc_opts" directed_data)
    gcc_cmd ← shlex_split (
        join " " (
          empty_text (o.environ "RISCV_GCC")
          ∷ gcc_opts
          ∷ ("-I" <> value_text (get_or_null "includes" directed_data))
          ∷ ("-T" <> value_text (get_or_null "ld_script" directed_data))
          ∷ ("-o " <> objectfile)
          ∷ (boot ++ none_text assembly ∷ [])))
    bin_cmd ← shlex_split (
        join " "
          (empty_text (o.environ "RISCV_OBJCOPY") ∷ ("-O binary " <> objectfile) ∷ binary ∷ []))
    ok (
      record trr { assembly = assembly; objectfile = some objectfile; binary = some binary },
      gcc_cmd ∷ bin_cmd ∷ [],
    )

  -- The commands of a test, by its kind, and the name of the log; the return code of riscv-dv is
  -- no list.
  pub cmds_of :
      Spawn
      → RegressionMetadata
      → TestRunResult
      → Result (TestRunResult × List (List String) × String)
  unfolding get_directed_compile_cmds
  cmds_of dv md trr = elim trr.testtype [
    | none ↦ err ErrorKind.unbound_local_error "cmds"
    | some riscvdv ↦ do
      made ← get_riscvdv_compile_cmds o dv md trr
      elim made.1 [
        | dv_failed z ↦ err ErrorKind.type_error "'int' object is not iterable"
        | commands cmds ↦ ok (made.0, cmds, "compile.riscvdv.log")
      ]
    | some directed ↦ do
      made ← get_directed_compile_cmds md trr
      ok (made.0, made.1, "compile.directed.log")
  ]

  -- `_main`: the record that is exported, and the return code, where `None` is zero
  pub compile_test : Spawn → Runs → RegressionMetadata → TestRunResult → Result (TestRunResult × ℤ)
  unfolding cmds_of
  compile_test dv spawn md trr = do
    made ← cmds_of dv md trr
    dir_test ← required made.0.dir_test
    ret ← run_all spawn 0 made.1
    ok (
      record made.0 {
        compile_asm_log = some (path_join dir_test made.2);
        compile_asm_cmds = some made.1;
      },
      ret,
    )
