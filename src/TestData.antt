-- ===== src/TestData.antt =====
-- The records that the scripts keep in files: `testdata_cls` and the formats of scripts_lib.py, and
-- what test_run_result.py and metadata.py (dv/uvm/core_ibex/scripts) add. A file is its content; which
-- files can be opened, `Path.resolve`, `Path.relative_to`, `dataclasses.asdict` of the metadata and
-- the texts of values of other classes are parameters.
pub mod Exported
pub mod Files
pub mod Placed
pub mod PrintField
pub mod RoundTrip
pub mod Stored
mod Tests
use kiemchung_ibex_v.Base.{
  String, ◌<>◌, Bool, true, false, List, [], ◌∷◌, ◌++◌, Option, none, some, Result, ok, err,
  ErrorKind, ◌>>=◌, traverse, map, if◌then◌else◌,
}
use kiemchung_ibex_v.Base.Dict.{Dict}
use kiemchung_ibex_v.Base.Int.{ℤ}
use kiemchung_ibex_v.Base.Text.{join, str_int}
use kiemchung_ibex_v.Base.Value.{Value, null, bool, int, str, list, dict, items}
use kiemchung_ibex_v.TestRunResult.{
  FilePath, TestRunResult, TestType, riscvdv, directed, FailureModes, timeout, file_error,
  log_error,
}

-- A value that is no list and no dictionary; one of another class is given by its text, `str(v)`.
pub data Item : Type 0 where
  none_item : Item
  bool_item : Bool → Item
  int_item : ℤ → Item
  str_item path_item other_item : String → Item

-- A value of a field; a dictionary is given by its text.
pub data FieldValue : Type 0 where
  one : Item → FieldValue
  many : List Item → FieldValue
  mapping : String → FieldValue

-- What the printing gets from outside
pub record Printing : Type 0 where
  pub resolve : FilePath → FilePath
  pub relative_to : FilePath → FilePath → Option FilePath
  pub str_of_list : List Item → String
  pub str_of_value : Value → String
  pub str_of_cmd : List String → String
  pub str_of_dict : Dict Value → String

module _ (p : Printing) where
  -- `format_to_str`
  unfoldable pub format_to_str : Item → Result String
  format_to_str none_item = ok ""
  format_to_str (bool_item b) = ok (if b then "True" else "False")
  format_to_str (int_item z) = ok (str_int z)
  format_to_str (str_item s) = ok s
  format_to_str (path_item f) = ok (p.resolve f)
  format_to_str (other_item s) = err ErrorKind.type_error "Couldn't format element to str!"

  -- `format_to_cmd`
  unfoldable pub format_to_cmd : List Item → Result (List String)
  unfolding format_to_str
  format_to_cmd = traverse (λ item. elim (format_to_str item) [
    | ok s ↦ ok s
    | err kind message ↦
        err ErrorKind.runtime_error "Can't format item to str when constructing a cmd"
  ])

  -- `str(v)`
  str_of_item : Item → String
  str_of_item none_item = "None"
  str_of_item (bool_item b) = if b then "True" else "False"
  str_of_item (int_item z) = str_int z
  str_of_item (str_item s) = s
  str_of_item (path_item f) = f
  str_of_item (other_item s) = s

  -- The body of the loop of `format_dict_to_printable_dict`
  unfoldable pub printable : FieldValue → String
  unfolding format_to_str str_of_item
  printable (mapping text) = text
  printable (many items) = elim (traverse format_to_str items) [
    | ok texts ↦ join " " texts
    | err kind message ↦ p.str_of_list items
  ]
  printable (one item) = elim (format_to_str item) [
    | ok text ↦ text
    | err kind message ↦ str_of_item item
  ]

  unfoldable pub format_dict_to_printable_dict : Dict FieldValue → Dict String
  unfolding printable
  format_dict_to_printable_dict = map (λ (k, v). (k, printable v))

  -- `TestType` and `Failure_Modes` as texts
  type_item : TestType → Item
  type_item riscvdv = other_item "TestType.RISCVDV"
  type_item directed = other_item "TestType.DIRECTED"

  mode_item : FailureModes → Item
  mode_item FailureModes.none = other_item "NONE(0)"
  mode_item timeout = other_item "TIMEOUT(1)"
  mode_item file_error = other_item "FILE_ERROR(2)"
  mode_item log_error = other_item "LOG_ERROR(3)"

  abbrev cmd_item : List String → Item
  cmd_item cmd = other_item (p.str_of_cmd cmd)

  abbrev maybe {ℓ} : {A : Type ℓ} → (A → Item) → Option A → Item
  maybe f none = none_item
  maybe f (some a) = f a

  abbrev maybe_list {ℓ} : {A : Type ℓ} → (A → Item) → Option (List A) → FieldValue
  maybe_list f none = one none_item
  maybe_list f (some xs) = many (map f xs)

  value_item : Value → Item
  value_item null = none_item
  value_item (bool b) = bool_item b
  value_item (int z) = int_item z
  value_item (str s) = str_item s
  value_item v = other_item (p.str_of_value v)

  value_field : Option Value → FieldValue
  unfolding value_item
  value_field none = one none_item
  value_field (some v) = elim v [
    | list vs ↦ many (map value_item (items vs))
    | dict d ↦ mapping (p.str_of_value (dict d))
    | other ↦ one (value_item other)
  ]

  text_field : Option (Dict Value) → FieldValue
  text_field none = one none_item
  text_field (some d) = mapping (p.str_of_dict d)

  -- `dataclasses.asdict` of the record of a run
  unfoldable pub asdict : TestRunResult → Dict FieldValue
  unfolding type_item mode_item value_field text_field
  asdict trr =
      ("passed", one (maybe bool_item trr.passed))
      ∷ ("failure_mode", one (maybe mode_item trr.failure_mode))
      ∷ ("failure_message", one (maybe str_item trr.failure_message))
      ∷ ("timeout_s", value_field trr.timeout_s)
      ∷ ("testtype", one (maybe type_item trr.testtype))
      ∷ ("testdotseed", one (maybe str_item trr.testdotseed))
      ∷ ("testname", one (maybe str_item trr.testname))
      ∷ ("seed", one (maybe int_item trr.seed))
      ∷ ("binary", one (maybe path_item trr.binary))
      ∷ ("rtl_simulator", one (maybe str_item trr.rtl_simulator))
      ∷ ("iss_cosim", one (maybe str_item trr.iss_cosim))
      ∷ ("is_discrete_debug_module", one (maybe bool_item trr.is_discrete_debug_module))
      ∷ ("binary_main", one (maybe path_item trr.binary_main))
      ∷ ("binary_dm", one (maybe path_item trr.binary_dm))
      ∷ ("vmem_main", one (maybe path_item trr.vmem_main))
      ∷ ("vmem_dm", one (maybe path_item trr.vmem_dm))
      ∷ ("ddm_sim_opts", one (maybe str_item trr.ddm_sim_opts))
      ∷ ("gen_test", maybe_list str_item trr.gen_test)
      ∷ ("gen_opts", maybe_list str_item trr.gen_opts)
      ∷ ("rtl_test", value_field trr.rtl_test)
      ∷ ("sim_opts", maybe_list str_item trr.sim_opts)
      ∷ ("directed_data", text_field trr.directed_data)
      ∷ ("dir_test", one (maybe path_item trr.dir_test))
      ∷ ("assembly", one (maybe path_item trr.assembly))
      ∷ ("objectfile", one (maybe path_item trr.objectfile))
      ∷ ("riscvdv_run_gen_log", one (maybe path_item trr.riscvdv_run_gen_log))
      ∷ ("riscvdv_run_gen_stdout", one (maybe path_item trr.riscvdv_run_gen_stdout))
      ∷ ("riscvdv_run_log", one (maybe path_item trr.riscvdv_run_log))
      ∷ ("riscvdv_run_stdout", one (maybe path_item trr.riscvdv_run_stdout))
      ∷ ("compile_asm_gen_log", one (maybe path_item trr.compile_asm_gen_log))
      ∷ ("compile_asm_log", one (maybe path_item trr.compile_asm_log))
      ∷ ("rtl_log", one (maybe path_item trr.rtl_log))
      ∷ ("rtl_stdout", one (maybe path_item trr.rtl_stdout))
      ∷ ("rtl_trace", one (maybe path_item trr.rtl_trace))
      ∷ ("iss_cosim_log", one (maybe path_item trr.iss_cosim_log))
      ∷ ("iss_cosim_trace", one (maybe path_item trr.iss_cosim_trace))
      ∷ ("dir_fcov", one (maybe path_item trr.dir_fcov))
      ∷ ("riscvdv_run_gen_cmds", maybe_list cmd_item trr.riscvdv_run_gen_cmds)
      ∷ ("riscvdv_run_cmds", maybe_list cmd_item trr.riscvdv_run_cmds)
      ∷ ("compile_asm_gen_cmds", maybe_list cmd_item trr.compile_asm_gen_cmds)
      ∷ ("compile_asm_cmds", maybe_list cmd_item trr.compile_asm_cmds)
      ∷ ("rtl_cmds", maybe_list cmd_item trr.rtl_cmds)
      ∷ ("metadata_pickle_file", one (maybe path_item trr.metadata_pickle_file))
      ∷ ("pickle_file", one (maybe path_item trr.pickle_file))
      ∷ ("yaml_file", one (maybe path_item trr.yaml_file))
      ∷ []

  -- A path below the directory of the test is printed relative to it.
  unfoldable pub relative_field : Option FilePath → FieldValue → Result FieldValue
  relative_field dir_test (one (path_item f)) = elim dir_test [
    | none ↦ err ErrorKind.type_error "expected str, bytes or os.PathLike object, not NoneType"
    | some dir ↦
        ok (elim (p.relative_to f dir) [ none ↦ one (path_item f) | some rel ↦ one (str_item rel) ])
  ]
  relative_field dir_test v = ok v

  -- `TestRunResult.format_to_printable_dict`
  unfoldable pub format_to_printable_dict : TestRunResult → Result (Dict String)
  unfolding asdict relative_field format_dict_to_printable_dict
  format_to_printable_dict trr = do
    relative_dict ←
        traverse (λ (k, v). relative_field trr.dir_test v >>= λ shown. ok (k, shown)) (asdict trr)
    ok (format_dict_to_printable_dict relative_dict)

-- `read_yaml` of a file that was opened or not: a text that `yaml.safe_load` rejects ends the script.
unfoldable pub read_yaml : (String → Option Value) → Result String → Result Value
read_yaml safe_load opened = do
  text ← opened
  elim (safe_load text) [ none ↦ err ErrorKind.system_exit "1" | some yaml_data ↦ ok yaml_data ]
