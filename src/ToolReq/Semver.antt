-- ===== src/ToolReq/Semver.antt =====
-- Versions as the subclasses rewrite them.
use kiemchung_ibex_v.Base.{
  ◌+◌, ◌*◌, String, ◌<>◌, Bool, true, Option, some, ok, ◌≡◌, refl, ◌∙◌, sym, ap, ◌&&◌, arith,
}
use text.Mathlib.TextLemmas.{append-nil, nil-append, cons-append}
use kiemchung_ibex_v.Base.Regex.{
  one, some_of, literal, optional, at_end, dollar, any_char, all_chars, stops, nonempty,
  some_of-greedy, literal-append,
}
use kiemchung_ibex_v.Base.Text.{is_digit, str_ℕ, join, to_ℕ}
use kiemchung_ibex_v.ToolReq.{vivado, vcs, to_semver, vivado_semver, vcs_semver, number_or_zero}

-- A digit string, as `[0-9]+` reads it
abbrev pub is_number : String → Bool
is_number s = nonempty s && all_chars is_digit s

dot_stops : (rest : String) → stops is_digit ("." <> rest) ≡ true
dot_stops rest = rw (cons-append "." "" rest) refl

minor_read :
    (k : String → String → Option String) (minor version : String)
    → is_number minor ≡ true
    → k minor "" ≡ some version
    → some_of is_digit k minor ≡ some version
minor_read k minor version h matched =
    ap (some_of is_digit k) (sym (append-nil minor))
    ∙ some_of-greedy is_digit minor "" k version (ground (arith, h)) (ground (arith, h)) refl
        matched

vivado_semver_lem :
    (major minor : String)
    → is_number major ≡ true
    → is_number minor ≡ true
    → vivado_semver (major <> "." <> minor) ≡ some (major <> "." <> minor <> "." <> "0")
unfolding vivado_semver optional literal at_end join
vivado_semver_lem major minor h k =
    some_of-greedy is_digit major ("." <> minor) _ _ (ground (arith, h)) (ground (arith, h))
      (dot_stops minor) (literal-append "." minor _ ∙ minor_read _ minor _ k refl)

-- A Vivado version of two numbers gets the patch level 0.
pub to_semver-vivado :
    (major minor : String) (from_req : Bool)
    → is_number major ≡ true
    → is_number minor ≡ true
    → to_semver vivado (major <> "." <> minor) from_req ≡ ok (major <> "." <> minor <> "." <> "0")
unfolding to_semver
to_semver-vivado major minor from_req h k = rw (vivado_semver_lem major minor h k, to_semver) refl

sp_stops : (rest : String) → stops is_digit ("-SP" <> rest) ≡ true
sp_stops rest = rw (cons-append "-" "SP" rest) refl

dot_read : (k : String → Option String) (rest : String) → one any_char k ("." <> rest) ≡ k rest
unfolding one
dot_read k rest = rw (cons-append "." "" rest, nil-append rest) refl

optional-taken :
    (prefix s version : String) (k : Option String → String → Option String)
    → literal prefix (some_of is_digit (λ g. k (some g))) s ≡ some version
    → optional prefix is_digit k s ≡ some version
unfolding optional
optional-taken prefix s version k h = rw h refl

vcs_end :
    (major minor sp : String)
    → optional "-" is_digit
        (λ patch.
          dollar (
            major <> "." <> minor <> str_ℕ (number_or_zero (some sp) * 100 + number_or_zero patch)))
        ""
      ≡ some (major <> "." <> minor <> str_ℕ (to_ℕ 0 sp * 100))
unfolding optional literal dollar number_or_zero
vcs_end major minor sp = ap (λ n. some (major <> "." <> minor <> str_ℕ n)) (omega arith)

vcs_semver_lem :
    (major minor sp : String)
    → is_number major ≡ true
    → is_number minor ≡ true
    → is_number sp ≡ true
    → vcs_semver true (major <> "." <> minor <> "-SP" <> sp)
      ≡ some (major <> "." <> minor <> str_ℕ (to_ℕ 0 sp * 100))
unfolding vcs_semver
vcs_semver_lem major minor sp h k l =
    some_of-greedy is_digit major ("." <> minor <> "-SP" <> sp) _ _ (ground (arith, h))
      (ground (arith, h)) (dot_stops (minor <> "-SP" <> sp))
      (dot_read _ (minor <> "-SP" <> sp)
        ∙ some_of-greedy is_digit minor ("-SP" <> sp) _ _ (ground (arith, k)) (ground (arith, k))
            (sp_stops sp)
            (optional-taken "-SP" ("-SP" <> sp) _ _
              (literal-append "-SP" sp _ ∙ minor_read _ sp _ l (vcs_end major minor sp))))

-- Of a required VCS version with a service pack, the hundreds of the service pack are written
-- directly behind the minor number, with no dot between them.
pub to_semver-vcs :
    (major minor sp : String)
    → is_number major ≡ true
    → is_number minor ≡ true
    → is_number sp ≡ true
    → to_semver vcs (major <> "." <> minor <> "-SP" <> sp) true
      ≡ ok (major <> "." <> minor <> str_ℕ (to_ℕ 0 sp * 100))
unfolding to_semver
to_semver-vcs major minor sp h k l = rw (vcs_semver_lem major minor sp h k l, to_semver) refl
