-- ===== src/ToolReq/Verdict.antt =====
-- When the check of a tool passes.
use kiemchung_ibex_v.Base.{String, Bool, true, false, not, Option, none, some, ok, err, ◌≡◌, arith}
use kiemchung_ibex_v.ToolReq.{
  ToolReq, ToolClass, Installation, get_version, to_semver, check, check_installed,
}
use kiemchung_ibex_v.ToolReq.Main.{passes}

abbrev pub recent_enough :
    {Version : Type 0} → (Version → Version → Bool) → Option Version → Option Version → Bool
recent_enough older (some needed) (some found) = not (older found needed)
recent_enough older _ _ = false

module _ {Version : Type 0} (parse : String → Option Version) where
  -- The version that a text stands for, if it stands for one
  abbrev pub version_of : ToolClass → Bool → String → Option Version
  version_of cls from_req text = elim (to_semver cls text from_req) [
    | ok semver ↦ parse semver
    | err kind m ↦ none
  ]

  abbrev pub installed : Installation → ToolReq → Option Version
  installed env req = elim (get_version env req) [
    | ok text ↦ version_of req.cls false text
    | err kind m ↦ none
  ]

module _ {Version : Type 0} (parse : String → Option Version)
    (older : Version → Version → Bool) where
  -- The check of a tool passes exactly if the version needed and the one found are both versions,
  -- and the one found is not older.
  pub check-passes :
      (env : Installation) (req : ToolReq)
      → passes (check parse older env req)
        ≡ recent_enough older
            (version_of parse req.cls true req.min_version)
            (installed parse env req)
  unfolding check check_installed
  check-passes env req = ground arith
