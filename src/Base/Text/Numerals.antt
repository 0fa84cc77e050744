-- ===== src/Base/Text/Numerals.antt =====
-- The decimal digits of a number are digits, and are read back as the number.
use Prim.Native.Nat.{ℕ, zero, suc, ◌+◌, ◌*◌, ◌-◌, ◌/◌, ◌%◌, ◌<◌}
use Prim.Native.Char.{code}
use Prim.Native.String.{String, ◌∷◌}
use mathlib.Core.Path.{◌≡◌, refl, ap, ◌∙◌}
use mathlib.Core.Logic.{inl, inr}
use mathlib.Core.Bool.{true, ◌&&◌}
use native.Mathlib.Omega.{arith}
use package.kiemchung_ibex_v.Base.Tests.{◌==◌, Bool-cases}
use package.kiemchung_ibex_v.Base.Regex.{all_chars, nonempty}
use package.kiemchung_ibex_v.Base.Text.{digit_char, digits_onto, str_ℕ, to_ℕ, is_digit}

digit_lem : (n : ℕ) → n < 10 → (code (digit_char n) - b'0' ≡ n) × (is_digit (digit_char n) ≡ true)
digit_lem zero h = (refl, refl)
digit_lem (suc zero) h = (refl, refl)
digit_lem (suc (suc zero)) h = (refl, refl)
digit_lem (suc (suc (suc zero))) h = (refl, refl)
digit_lem (suc (suc (suc (suc zero)))) h = (refl, refl)
digit_lem (suc (suc (suc (suc (suc zero))))) h = (refl, refl)
digit_lem (suc (suc (suc (suc (suc (suc zero)))))) h = (refl, refl)
digit_lem (suc (suc (suc (suc (suc (suc (suc zero))))))) h = (refl, refl)
digit_lem (suc (suc (suc (suc (suc (suc (suc (suc zero)))))))) h = (refl, refl)
digit_lem (suc (suc (suc (suc (suc (suc (suc (suc (suc zero))))))))) h = (refl, refl)
digit_lem (suc (suc (suc (suc (suc (suc (suc (suc (suc (suc n)))))))))) h =
    (omega (arith, h), ground (arith, h))

abbrev next : ℕ → String → String
next n out = digit_char (n % 10) ∷ out

to_ℕ-next : (m n : ℕ) (out : String) → to_ℕ m (next n out) ≡ to_ℕ (10 * m + n % 10) out
unfolding to_ℕ
to_ℕ-next m n out = ap (λ d. to_ℕ (10 * m + d) out) (digit_lem (n % 10) (omega arith)).0

to_ℕ-digits_onto :
    (fuel n : ℕ) (out : String) → n < fuel → to_ℕ 0 (digits_onto fuel n out) ≡ to_ℕ n out
unfolding digits_onto
to_ℕ-digits_onto zero n out h = omega (arith, h)
to_ℕ-digits_onto (suc fuel) n out h = elim (Bool-cases (n / 10 == 0)) [
  | inl last ↦ rw (last) (to_ℕ-next 0 n out ∙ ap (λ m. to_ℕ m out) (ground (arith, last)))
  | inr more ↦ rw (more) (
      to_ℕ-digits_onto fuel (n / 10) (next n out) (ground (arith, more, h))
      ∙ to_ℕ-next (n / 10) n out
      ∙ ap (λ m. to_ℕ m out) (omega arith))
]

-- `int(str(n))`
pub to_ℕ-str_ℕ : (n : ℕ) → to_ℕ 0 (str_ℕ n) ≡ n
unfolding str_ℕ to_ℕ
to_ℕ-str_ℕ n = to_ℕ-digits_onto (suc n) n "" (omega arith)

all_digits-digits_onto :
    (fuel n : ℕ) (out : String)
    → all_chars is_digit out ≡ true
    → all_chars is_digit (digits_onto fuel n out) ≡ true
unfolding digits_onto
all_digits-digits_onto zero n out h = h
all_digits-digits_onto (suc fuel) n out h =
    let longer : all_chars is_digit (next n out) ≡ true =
      ground (arith, h, digit_lem (n % 10) (omega arith)) in
    elim (Bool-cases (n / 10 == 0)) [
      | inl last ↦ rw (last) longer
      | inr more ↦ rw (more) (all_digits-digits_onto fuel (n / 10) (next n out) longer)
    ]

nonempty-digits_onto :
    (fuel n : ℕ) (out : String) → nonempty out ≡ true → nonempty (digits_onto fuel n out) ≡ true
unfolding digits_onto
nonempty-digits_onto zero n out h = h
nonempty-digits_onto (suc fuel) n out h = elim (Bool-cases (n / 10 == 0)) [
  | inl last ↦ rw (last) refl
  | inr more ↦ rw (more) (nonempty-digits_onto fuel (n / 10) (next n out) refl)
]

pub str_ℕ-digits : (n : ℕ) → (nonempty (str_ℕ n) && all_chars is_digit (str_ℕ n)) ≡ true
unfolding str_ℕ digits_onto
str_ℕ-digits n = elim (Bool-cases (n / 10 == 0)) [
  | inl last ↦ rw (last) (ground (arith, digit_lem (n % 10) (omega arith)))
  | inr more ↦ ground (
    arith,
    nonempty-digits_onto n (n / 10) (next n "") refl,
    all_digits-digits_onto (suc n) n "" refl,
    more,
  )
]
