-- ===== src/Base/Regex.antt =====
-- Python's regular expressions as matchers with continuations: each piece tries its possible matches
-- in the order in which `re` does, longest first, and the first that lets the rest match is taken.
use Prim.Native.Char.{Char, code}
use Prim.Native.String.{String, [], ◌∷◌, ◌++◌ as ◌<>◌}
use mathlib.Core.Path.{◌≡◌, refl, ap, sym, ◌∙◌}
use mathlib.Core.Bool.{Bool, true, false, not, ◌&&◌, ◌||◌}
use mathlib.Core.Option.{Option, none, some}
use native.Mathlib.Omega.{arith}
use text.Mathlib.Text.{◌==◌ as str_eq}
use text.Mathlib.TextLemmas.{append_assoc, append-nil, nil-append, cons-append}
use package.kiemchung_ibex_v.Base.Tests.{leb, ◌==◌, if◌then◌else◌}
use package.kiemchung_ibex_v.Base.Text.{is_digit}

abbrev or_try {ℓ} : {R : Type ℓ} → Option R → Option R → Option R
or_try m n = elim m [ none ↦ n | some r ↦ some r ]

module _ {ℓ} {R : Type ℓ} where
  -- `(p*)`, for a class of characters, after `acc` was captured
  unfoldable pub many : (Char → Bool) → String → (String → String → Option R) → String → Option R
  many p acc k [] = k acc []
  many p acc k (c ∷ s) =
      let longer = many p (acc <> (c ∷ "")) k s in
      if p c then or_try longer (k acc (c ∷ s)) else k acc (c ∷ s)

  -- `p`, for a class of characters
  unfoldable pub one : (Char → Bool) → (String → Option R) → String → Option R
  one p k [] = none
  one p k (c ∷ s) = if p c then k s else none

  -- `(p+)`
  unfoldable pub some_of : (Char → Bool) → (String → String → Option R) → String → Option R
  unfolding many
  some_of p k [] = none
  some_of p k (c ∷ s) = if p c then many p (c ∷ "") k s else none

  -- A literal text
  unfoldable pub literal : String → (String → Option R) → String → Option R
  literal [] k s = k s
  literal (d ∷ ds) k [] = none
  literal (d ∷ ds) k (c ∷ s) = if code c == code d then literal ds k s else none

  -- `(?:m(p+))?`, where `m` is a literal
  unfoldable pub optional :
      String → (Char → Bool) → (Option String → String → Option R) → String → Option R
  unfolding literal some_of
  optional prefix p k s = or_try (literal prefix (some_of p (λ g. k (some g))) s) (k none s)

  -- The end of the text
  unfoldable pub at_end : R → String → Option R
  at_end r s = if str_eq s "" then some r else none

  -- `$`: the end of the text, or the line end that ends it
  unfoldable pub dollar : R → String → Option R
  dollar r s = if str_eq s "" || str_eq s "\n" then some r else none

  -- `re.search`: the first position where a match begins
  unfoldable pub search : (String → Option R) → String → Option R
  search here [] = here ""
  search here (c ∷ s) = or_try (here (c ∷ s)) (search here s)

abbrev pub any_char : Char → Bool
any_char c = not (code c == 10)

abbrev pub is_hex : Char → Bool
is_hex c = is_digit c || leb b'a' (code c) && leb (code c) b'f'

abbrev pub is_upper : Char → Bool
is_upper c = leb b'A' (code c) && leb (code c) b'Z'

abbrev pub all_chars : (Char → Bool) → String → Bool
all_chars p [] = true
all_chars p (c ∷ s) = p c && all_chars p s

-- A text at whose start no more of a class can be read.
abbrev pub stops : (Char → Bool) → String → Bool
stops p [] = true
stops p (c ∷ s) = not (p c)

abbrev pub nonempty : String → Bool
nonempty [] = false
nonempty (c ∷ s) = true

append_char : (acc : String) (c : Char) (s : String) → (acc <> (c ∷ "")) <> s ≡ acc <> (c ∷ s)
append_char acc c s =
    append_assoc acc (c ∷ "") s
    ∙ ap (λ t. acc <> t) (cons-append c "" s ∙ ap (λ (t : String). c ∷ t) (nil-append s))

module _ {ℓ} {R : Type ℓ} where
  -- What a class reads up to where it stops is captured, if the rest then matches.
  pub many-greedy :
      (p : Char → Bool) (acc a rest : String) (k : String → String → Option R) (r : R)
      → all_chars p a ≡ true
      → stops p rest ≡ true
      → k (acc <> a) rest ≡ some r
      → many p acc k (a <> rest) ≡ some r
  unfolding many
  many-greedy p acc [] [] k r h stop matched =
      rw (nil-append "") (ap (λ t. k t "") (sym (append-nil acc)) ∙ matched)
  many-greedy p acc [] (c ∷ s) k r h stop matched =
      rw (nil-append (c ∷ s))
        (ground (arith, ap (λ t. k t (c ∷ s)) (sym (append-nil acc)) ∙ matched, stop))
  many-greedy p acc (c ∷ a) rest k r h stop matched = rw (cons-append c a rest) (
      ground (
        arith,
        many-greedy p (acc <> (c ∷ "")) a rest k r (ground arith) stop
            (ap (λ t. k t rest) (append_char acc c a) ∙ matched),
        h,
      ))

  pub some_of-greedy :
      (p : Char → Bool) (a rest : String) (k : String → String → Option R) (r : R)
      → nonempty a ≡ true
      → all_chars p a ≡ true
      → stops p rest ≡ true
      → k a rest ≡ some r
      → some_of p k (a <> rest) ≡ some r
  unfolding some_of
  some_of-greedy p [] rest k r full h stop matched = cc
  some_of-greedy p (c ∷ a) rest k r full h stop matched = rw (cons-append c a rest) (
      ground (
        arith,
        many-greedy p (c ∷ "") a rest k r (ground arith) stop (
            ap (λ t. k t rest) (cons-append c "" a ∙ ap (λ (t : String). c ∷ t) (nil-append a))
            ∙ matched),
        h,
      ))

  pub literal-append :
      (word rest : String) (k : String → Option R) → literal word k (word <> rest) ≡ k rest
  unfolding literal
  literal-append [] rest k = rw (nil-append rest) refl
  literal-append (c ∷ word) rest k =
      rw (cons-append c word rest) (ground (arith, literal-append word rest k))
