-- ===== src/ToolReq/Reading/Accepts.antt =====
-- Which requirements can be read.
use kiemchung_ibex_v.Base.{
  is_ok, String, Bool, true, false, ◌&&◌, List, [], ◌∷◌, Option, none, some, Result, ok, err, ◌>>=◌,
  all, if◌then◌else◌, str_eq, ◌≡◌, refl, ◌∙◌, arith,
}
use kiemchung_ibex_v.Base.Dict.{Dict, keys, lookup, insert, remove, lookup-remove}
use kiemchung_ibex_v.Base.Value.{Value, null, bool, int, str, list, dict, fields}
use kiemchung_ibex_v.ToolReq.{ToolReq}
use kiemchung_ibex_v.ToolReq.Reading.{
  Requirements, absent, items_of, other_value, is_empty, read_min_version, read_as_needed,
  dict_to_tool_req, as_dict, read_tools, read_tool_requirements,
}

-- A dictionary of one tool is well formed: a least version that is a text, `as_needed` a boolean if
-- it is there, and no other key.
abbrev pub is_str : Option Value → Bool
is_str (some (str _)) = true
is_str _ = false

abbrev pub is_bool_or_absent : Option Value → Bool
is_bool_or_absent none = true
is_bool_or_absent (some (bool _)) = true
is_bool_or_absent (some _) = false

abbrev pub is_key : String → Bool
is_key k = if str_eq k "min_version" then true else str_eq k "as_needed"

abbrev pub well_formed_dict : Dict Value → Bool
well_formed_dict raw =
    is_str (lookup "min_version" raw)
    && is_bool_or_absent (lookup "as_needed" raw)
    && all is_key (keys raw)

abbrev pub well_formed_value : Value → Bool
well_formed_value (str _) = true
well_formed_value (dict fs) = well_formed_dict (fields fs)
well_formed_value _ = false

-- A tool and its requirement
abbrev pub well_formed_entry : Value × Value → Bool
well_formed_entry (str tool, v) = well_formed_value v
well_formed_entry (key, v) = false

as_needed_kept :
    (raw : Dict Value) → lookup "as_needed" (remove "min_version" raw) ≡ lookup "as_needed" raw
as_needed_kept raw = lookup-remove "min_version" "as_needed" raw

removed_empty :
    (raw : Dict Value)
    → is_empty (remove "as_needed" (remove "min_version" raw)) ≡ all is_key (keys raw)
unfolding remove
removed_empty [] = refl
removed_empty ((k, v) ∷ raw) = ground (arith, removed_empty raw)

dict_to_tool_req_lem :
    (tool : String) (raw : Dict Value) → is_ok (dict_to_tool_req tool raw) ≡ well_formed_dict raw
unfolding dict_to_tool_req read_min_version read_as_needed
dict_to_tool_req_lem tool raw = ground (arith, as_needed_kept raw, removed_empty raw)

bind-is_ok :
    (call : Result ToolReq) (rest : ToolReq → Result (Dict ToolReq)) (b : Bool)
    → ((r : ToolReq) → is_ok (rest r) ≡ b)
    → is_ok (call >>= rest) ≡ is_ok call && b
bind-is_ok (ok r) rest b h = h r
bind-is_ok (err kind m) rest b h = refl

short_form : (version : String) → well_formed_dict (("min_version", str version) ∷ []) ≡ true
unfolding lookup
short_form version = refl

read_tools_lem :
    (raw : List (Value × Value)) (reqs : Dict ToolReq)
    → is_ok (read_tools raw reqs) ≡ all well_formed_entry raw
unfolding read_tools as_dict
read_tools_lem [] reqs = refl
read_tools_lem ((str tool, str version) ∷ raw) reqs =
    bind-is_ok (dict_to_tool_req tool (("min_version", str version) ∷ [])) _ _
      (λ r. read_tools_lem raw (insert tool r reqs))
    ∙ rw (dict_to_tool_req_lem tool (("min_version", str version) ∷ []), short_form version) refl
read_tools_lem ((str tool, dict fs) ∷ raw) reqs =
    bind-is_ok (dict_to_tool_req tool (fields fs)) _ _
      (λ r. read_tools_lem raw (insert tool r reqs))
    ∙ rw (dict_to_tool_req_lem tool (fields fs)) refl
read_tools_lem ((str tool, null) ∷ raw) reqs = refl
read_tools_lem ((str tool, bool b) ∷ raw) reqs = refl
read_tools_lem ((str tool, int z) ∷ raw) reqs = refl
read_tools_lem ((str tool, list vs) ∷ raw) reqs = refl
read_tools_lem ((null, v) ∷ raw) reqs = refl
read_tools_lem ((bool b, v) ∷ raw) reqs = refl
read_tools_lem ((int z, v) ∷ raw) reqs = refl
read_tools_lem ((list vs, v) ∷ raw) reqs = refl
read_tools_lem ((dict fs, v) ∷ raw) reqs = refl

abbrev pub well_formed : Requirements → Bool
well_formed (items_of raw) = all well_formed_entry raw
well_formed _ = false

-- The requirements are read exactly if they are a dictionary whose keys are texts and whose values are
-- well formed: a text, or a dictionary with a least version that is a text, with `as_needed` a boolean
-- if it is there, and with no other key.
pub read_tool_requirements-accepts :
    (raw : Requirements) → is_ok (read_tool_requirements raw) ≡ well_formed raw
unfolding read_tool_requirements
read_tool_requirements-accepts absent = refl
read_tool_requirements-accepts (items_of raw) = read_tools_lem raw []
read_tool_requirements-accepts other_value = refl
