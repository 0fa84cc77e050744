-- ===== src/ToolReq/Tests.antt =====
-- The requirements of util/tool_requirements.py on a machine with Verilator and Edalize. Versions
-- are compared number by number.
use kiemchung_ibex_v.Base.{
  is_ok, ℕ, String, Bool, true, false, ◌&&◌, ◌||◌, List, [], ◌∷◌, Option, none, some, ok, ◌≡◌, refl,
  ltb, ◌==◌, map, str_eq, if◌then◌else◌,
}
use kiemchung_ibex_v.Base.Dict.{Dict, lookup, remove, insert}
use kiemchung_ibex_v.Base.Text.{split, str_ℕ, to_ℕ}
use kiemchung_ibex_v.Base.Value.{str, bool, dict, end, field}
use kiemchung_ibex_v.ToolReq.{
  ToolReq, Installation, verilator, edalize, vcs, vivado, check, to_semver,
}
use kiemchung_ibex_v.ToolReq.Reading.{Requirements, items_of, read_tool_requirements}
use kiemchung_ibex_v.ToolReq.Reading.Accepts.{well_formed, read_tool_requirements-accepts}
use kiemchung_ibex_v.ToolReq.Main.{main, fulfilled, all_known, succeeds, passes, main-succeeds}
use kiemchung_ibex_v.ToolReq.Verdict.{version_of, installed, recent_enough, check-passes}
use kiemchung_ibex_v.ToolReq.Semver.{to_semver-vivado, to_semver-vcs}

abbrev parse : String → Option (List ℕ)
parse text = some (map (to_ℕ 0) (split b'.' text))

abbrev older : List ℕ → List ℕ → Bool
older [] [] = false
older [] (n ∷ ns) = true
older (m ∷ ms) [] = false
older (m ∷ ms) (n ∷ ns) = let later = older ms ns in ltb m n || (m == n) && later

abbrev machine : Installation
machine = record {
  run = λ cmd env. none;
  shell = λ cmd. some "Verilator 4.222 2022-05-02 rev v4.222\n";
  import_version = λ name. if str_eq name "edalize.version" then some "0.3.3" else none;
}

abbrev requirements : Requirements
requirements = items_of (
    (str "verilator", str "4.210")
    ∷ (str "edalize", dict (field "min_version" (str "0.2.0") end))
    ∷ (
      str "vcs",
      dict (field "min_version" (str "2020.03-SP2") (field "as_needed" (bool true) end)),
    )
    ∷ [])

abbrev verilator_req : ToolReq
verilator_req = record {
  cls = verilator;
  tool = "verilator";
  min_version = "4.210";
  as_needed = false;
}

abbrev reqs : Dict ToolReq
reqs =
    ("verilator", verilator_req)
    ∷ (
      "edalize",
      record { cls = edalize; tool = "edalize"; min_version = "0.2.0"; as_needed = false },
    )
    ∷ ("vcs", record { cls = vcs; tool = "vcs"; min_version = "2020.03-SP2"; as_needed = true })
    ∷ []

requirements_read : read_tool_requirements requirements ≡ ok reqs
unfolding read_tool_requirements lookup remove insert
requirements_read = refl

read_tool_requirements-accepts_example :
    is_ok (read_tool_requirements requirements) ≡ well_formed requirements
read_tool_requirements-accepts_example = read_tool_requirements-accepts requirements

main-succeeds_example :
    succeeds (main parse older machine [] requirements)
    ≡ fulfilled parse older machine [] reqs && all_known [] reqs
main-succeeds_example =
    main-succeeds parse older machine [] requirements reqs requirements_read refl

verilator_checked :
    passes (check parse older machine verilator_req)
    ≡ recent_enough older
        (version_of parse verilator true "4.210")
        (installed parse machine verilator_req)
verilator_checked = check-passes parse older machine verilator_req

vivado_padded : to_semver vivado "2020.2" true ≡ ok "2020.2.0"
vivado_padded = to_semver-vivado "2020" "2" true refl refl

service_pack : to_semver vcs "2020.03-SP2" true ≡ ok "2020.03200"
unfolding str_ℕ to_ℕ
service_pack = to_semver-vcs "2020" "03" "2" refl refl refl
