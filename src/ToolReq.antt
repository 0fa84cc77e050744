-- ===== src/ToolReq.antt =====
-- The class `ToolReq` of util/check_tool_requirements.py and its subclasses: how the version of an
-- installed tool is found and compared.
pub mod Reading
pub mod Main
pub mod Verdict
pub mod Semver
mod Tests
use kiemchung_ibex_v.Base.{
  ℕ, zero, ◌+◌, ◌-◌, ◌*◌, String, ◌<>◌, Bool, true, false, List, [], ◌∷◌, Option, none, some,
  Result, ok, err, ErrorKind, ◌>>=◌, ◌==◌, if◌then◌else◌, str_eq, get_elem?, ◌≡◌, refl,
}
use kiemchung_ibex_v.Base.Dict.{Dict}
use kiemchung_ibex_v.Base.Regex.{
  many, one, some_of, literal, optional, at_end, dollar, any_char, is_hex, is_upper,
}
use kiemchung_ibex_v.Base.Shlex.{join_quoted}
use kiemchung_ibex_v.Base.Text.{is_digit, is_space, join, rstrip, split, str_ℕ, strip, to_ℕ}
use Prim.Native.Char.{Char, code}
use Prim.Native.String

-- `ToolReq` and its subclasses
pub data ToolClass : Type 0 where
  plain verilator verible vivado vcs ninja edalize : ToolClass

pub record ToolReq : Type 0 where
  pub cls : ToolClass
  pub tool : String
  pub min_version : String
  pub as_needed : Bool

-- What the checks use of the installation: the output of a command under additions to the
-- environment, the output of a shell command, and `version` of an imported module; `none` stands
-- for a command that fails or is not found, and for a module that is not found.
pub record Installation : Type 0 where
  pub run : List String → Dict String → Option String
  pub shell : String → Option String
  pub import_version : String → Option String

-- `_get_tool_cmd`, with the class variable `tool_cmd`
get_tool_cmd : ToolReq → List String
get_tool_cmd req = elim req.cls [
  | verible ↦ "verible-verilog-lint" ∷ "--version" ∷ []
  | vivado ↦ "vivado" ∷ "-version" ∷ []
  | vcs ↦ "vcs" ∷ "-full64" ∷ "-ID" ∷ []
  | ninja ↦ "ninja" ∷ "--version" ∷ []
  | _ ↦ req.tool ∷ "--version" ∷ []
]

abbrev tool_env : ToolClass → Dict String
tool_env cls = elim cls [ vcs ↦ ("VCS_ARCH_OVERRIDE", "linux") ∷ [] | _ ↦ [] ]

-- `version_regex`, matched at the start of a line: what its group captures
abbrev vivado_regex : String → Option String
vivado_regex = literal "Vivado v" (many any_char "" (λ version. one is_space (λ _. some version)))

abbrev vcs_regex : String → Option String
vcs_regex =
    literal "Compiler version = VCS "
      (one is_upper (literal "-" (many any_char "" (λ version _. some version))))

-- The last word of a line, `line.rsplit(None, 1)[-1]`: a blank begins the word again.
last_word : String → String → String
last_word word Prim.Native.String.[] = word
last_word word (Prim.Native.String.◌∷◌ c s) =
    last_word (if is_space c then "" else word <> (Prim.Native.String.◌∷◌ c "")) s

abbrev first_item : List String → String
first_item [] = ""
first_item (x ∷ xs) = x

first_match : (String → Option String) → List String → Result String
first_match regex [] = err ErrorKind.value_error "No line matched version regex."
first_match regex (line ∷ lines) =
    let rest = first_match regex lines in
    elim (regex (rstrip line)) [ some version ↦ ok version | none ↦ rest ]

-- `_parse_version_output`
pub parse_version_output : ToolClass → String → Result String
unfolding last_word first_match
parse_version_output cls stdout = elim cls [
  | vivado ↦ first_match vivado_regex (split b'\n' stdout)
  | vcs ↦ first_match vcs_regex (split b'\n' stdout)
  | _ ↦
      let line0 = rstrip (first_item (split b'\n' stdout)) in
      if str_eq line0 ""
      then err ErrorKind.value_error "Empty first line."
      else ok (last_word "" line0)
]

-- `ToolReq.get_version`; the exception that ends a run is not in the message.
pub run_version : Installation → ToolReq → Result String
unfolding get_tool_cmd parse_version_output
run_version env req =
    let cmd = get_tool_cmd req in
    elim (env.run cmd (tool_env req.cls)) [
      | none ↦
          err ErrorKind.runtime_error ("Failed to run " <> join_quoted cmd <> " to check version")
      | some stdout ↦
          if str_eq stdout ""
          then err ErrorKind.runtime_error
              ("No output from running " <> join_quoted cmd <> " to check version.")
          else elim (parse_version_output req.cls stdout) [
            | err ErrorKind.value_error m ↦
                err ErrorKind.runtime_error
                  ("Bad output from running " <> join_quoted cmd <> " to check version: " <> m)
            | result ↦ result
          ]
    ]

-- `get_version`, by class. An output of Verilator without a blank raises an `IndexError`.
pub get_version : Installation → ToolReq → Result String
unfolding run_version
get_version env req = elim req.cls [
  | verilator ↦ elim (env.shell "verilator --version") [
    | none ↦ err ErrorKind.runtime_error "Unable to call Verilator to check version"
    | some stdout ↦ elim (get_elem? (split b' ' stdout) 1) [
      | none ↦ err ErrorKind.index_error "list index out of range"
      | some word ↦ ok (strip word)
    ]
  ]
  | edalize ↦ elim (env.import_version (req.tool <> ".version")) [
    | none ↦ err ErrorKind.runtime_error ("Unable to import " <> req.tool <> " to check version")
    | some version ↦ ok version
  ]
  | _ ↦ run_version env req
]

-- `int(group or 0)`
pub number_or_zero : Option String → ℕ
unfolding to_ℕ
number_or_zero none = 0
number_or_zero (some digits) = to_ℕ 0 digits

abbrev dotted : String → String → String → String
dotted a b c = join "." (a ∷ b ∷ c ∷ [])

abbrev digits : (String → String → Option String) → String → Option String
digits = some_of is_digit

verible_semver : String → Option String
verible_semver = literal "v" (
    digits λ a. literal "." (
      digits
        λ b. literal "-" (digits λ c. literal "-g" (some_of is_hex (λ _. at_end (dotted a b c))))))

vivado_semver : String → Option String
vivado_semver = digits λ a. literal "." (
    digits λ b.
      optional "." is_digit (λ c. at_end (dotted a b (elim c [ none ↦ "0" | some patch ↦ patch ]))))

-- The dot of this expression is not escaped: it matches any character.
vcs_semver : Bool → String → Option String
unfolding number_or_zero
vcs_semver from_req = digits λ major. one any_char (
    digits λ minor. optional "-SP" is_digit (λ sp. optional "-" is_digit (λ patch rest.
      let comb = str_ℕ (number_or_zero sp * 100 + number_or_zero patch) in
      let version = major <> "." <> minor <> comb in
      if from_req then dollar version rest else some version)))

ninja_semver : String → Option String
ninja_semver =
    digits λ a. literal "." (digits λ b. literal "." (digits (λ c _. some (dotted a b c))))

-- `to_semver`, by class
pub to_semver : ToolClass → String → Bool → Result String
unfolding verible_semver vivado_semver vcs_semver ninja_semver
to_semver cls version from_req =
    let found : Option String = elim cls [
      | verible ↦ verible_semver version
      | vivado ↦ vivado_semver version
      | vcs ↦ vcs_semver from_req version
      | ninja ↦ ninja_semver version
      | _ ↦ some version
    ] in
    elim found [
      | none ↦ err ErrorKind.value_error (version <> " has invalid version string format.")
      | some semver ↦ ok semver
    ]

-- `packaging.version` gives the versions, which text is one (`none` is its `ValueError`), and their
-- order.
module _ {Version : Type 0} (parse : String → Option Version)
    (older : Version → Version → Bool) where
  -- `check`, from the parsed requirement on
  check_installed : Installation → ToolReq → Version → Result (Bool × String)
  check_installed env req min_sv = elim (get_version env req) [
    | err ErrorKind.runtime_error m ↦ ok (false, m)
    | err kind m ↦ err kind m
    | ok actual_version ↦ elim (to_semver req.cls actual_version false) [
      | err _ m ↦ ok (false, "Failed to convert installed to semantic version: " <> m)
      | ok actual_semver ↦ elim (parse actual_semver) [
        | none ↦ ok (false, "Bad semver inferred from installed version")
        | some actual_sv ↦
            if older actual_sv min_sv
            then ok (
              false,
              "Installed version is too old: found version " <> actual_version
                  <> ", but need at least " <> req.min_version,
            )
            else ok (
              true,
              "Sufficiently recent version (found " <> actual_version <> "; needed "
                  <> req.min_version <> ")",
            )
      ]
    ]
  ]

  pub check : Installation → ToolReq → Result (Bool × String)
  unfolding check_installed
  check env req = elim (to_semver req.cls req.min_version true) [
    | err _ m ↦ ok (false, "Failed to convert requirement to semantic version: " <> m)
    | ok min_semver ↦ elim (parse min_semver) [
      | none ↦ ok (false, "Bad semver inferred from required version")
      | some min_sv ↦ check_installed env req min_sv
    ]
  ]

vcs_test : to_semver vcs "2020.03-SP2-3_Full64" false ≡ ok "2020.03203"
unfolding to_semver literal many some_of optional one join str_ℕ
vcs_test = refl
