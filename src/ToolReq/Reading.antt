-- ===== src/ToolReq/Reading.antt =====
-- `dict_to_tool_req` and `read_tool_requirements` of util/check_tool_requirements.py, on what running
-- tool_requirements.py defined.
pub mod Accepts
use kiemchung_ibex_v.Base.{
  String, ◌<>◌, Bool, true, false, not, ◌&&◌, List, [], ◌∷◌, Option, none, some, Result, ok, err,
  ErrorKind, ◌>>=◌, ◌>>◌, guard, all, if◌then◌else◌, str_eq, ◌≡◌, refl, arith, map, eq_iff, eq_refl,
  All,
}
use kiemchung_ibex_v.Base.Dict.{Dict, keys, lookup, has_key, insert, remove}
use kiemchung_ibex_v.Base.Value.{
  Value, null, bool, int, str, list, dict, Fields, end, field, fields, to_fields,
}
use kiemchung_ibex_v.ToolReq.{
  ToolReq, ToolClass, plain, verilator, verible, vivado, vcs, ninja, edalize,
}

-- `classes.get(tool, ToolReq)`
pub class_of : String → ToolClass
class_of tool =
    if str_eq tool "edalize"
    then edalize
    else if str_eq tool "vcs"
    then vcs
    else if str_eq tool "verible"
    then verible
    else if str_eq tool "verilator"
    then verilator
    else if str_eq tool "vivado"
    then vivado
    else if str_eq tool "ninja"
    then ninja
    else plain

abbrev req_err {ℓ} : {A : Type ℓ} → String → Result A
req_err m = err ErrorKind.req_err m

pub read_min_version : String → Dict Value → Result String
read_min_version tool raw = elim (lookup "min_version" raw) [
  | none ↦ req_err ("Dict for " <> tool <> " is missing required key: min_version.")
  | some (str version) ↦ ok version
  | some _ ↦ req_err ("Dict for " <> tool <> " has min_version that is not a string.")
]

pub read_as_needed : String → Dict Value → Result Bool
read_as_needed tool raw = elim (lookup "as_needed" raw) [
  | none ↦ ok false
  | some (bool b) ↦ ok b
  | some _ ↦ req_err ("Dict for " <> tool <> " has as_needed that is not a bool.")
]

abbrev pub is_empty : Dict Value → Bool
is_empty [] = true
is_empty (_ ∷ _) = false

pub dict_to_tool_req : String → Dict Value → Result ToolReq
unfolding class_of read_min_version read_as_needed
dict_to_tool_req tool raw = do
  min_version ← read_min_version tool raw
  let raw' = remove "min_version" raw
  as_needed ← read_as_needed tool raw'
  guard (is_empty (remove "as_needed" raw')) ErrorKind.req_err
      ("Dict for " <> tool <> " has unexpected keys.")
  ok (record { cls = class_of tool; tool = tool; min_version = min_version; as_needed = as_needed })

-- A text is short for a dictionary with the least version.
pub as_dict : String → Value → Result (Dict Value)
as_dict tool (str version) = ok (("min_version", str version) ∷ [])
as_dict tool (dict fs) = ok (fields fs)
as_dict tool v =
    req_err ("Value for " <> tool <> " in __TOOL_REQUIREMENTS__ is not a string or dict.")

-- What running the file defined as `__TOOL_REQUIREMENTS__`: nothing or `None`, a dictionary, whose
-- keys need not be texts, or another value
pub data Requirements : Type 0 where
  absent : Requirements
  items_of : List (Value × Value) → Requirements
  other_value : Requirements

-- The loop over the tools
pub read_tools : List (Value × Value) → Dict ToolReq → Result (Dict ToolReq)
unfolding dict_to_tool_req as_dict
read_tools [] reqs = ok reqs
read_tools ((str tool, raw_val) ∷ rest) reqs = do
  raw ← as_dict tool raw_val
  req ← dict_to_tool_req tool raw
  read_tools rest (insert tool req reqs)
read_tools ((tool, raw_val) ∷ rest) reqs = req_err "Invalid key in __TOOL_REQUIREMENTS__"

unfoldable pub read_tool_requirements : Requirements → Result (Dict ToolReq)
unfolding read_tools
read_tool_requirements absent = req_err "The Python file did not define __TOOL_REQUIREMENTS__."
read_tool_requirements (items_of raw) = read_tools raw []
read_tool_requirements other_value = req_err "__TOOL_REQUIREMENTS__ is not a dict."
