-- ===== src/Base/Text/Lines.antt =====
-- Texts made of lines, and what is split off them.
use Prim.Native.Nat.{ℕ}
use Prim.Native.Char.{code}
use Prim.Native.String.{String, [], ◌∷◌, ◌++◌ as ◌<>◌}
use mathlib.Core.Path.{◌≡◌, refl, ap, sym, ◌∙◌}
use mathlib.Core.Logic.{inl, inr}
use mathlib.Core.Bool.{true}
use mathlib.Core.List.{List, ◌++◌}
use native.Mathlib.Omega.{arith}
use text.Mathlib.Text.{starts_with}
use text.Mathlib.TextLemmas.{append_assoc, nil-append, cons-append}
use package.kiemchung_ibex_v.Base.Tests.{◌==◌, if◌then◌else◌, Bool-cases}
use package.kiemchung_ibex_v.Base.Text.{all_free, free_of_char, split, split_from, split_from-part}

-- Lines, each with its line end
unfoldable pub unlines : List String → String
unlines List.[] = ""
unlines (List.◌∷◌ l ls) = l <> ("\n" ∷ unlines ls)

-- `text.split(sep)[0]` for a nonempty `sep`
unfoldable pub before : String → String → String
before sep [] = ""
before sep (c ∷ s) = let rest = before sep s in if starts_with (c ∷ s) sep then "" else c ∷ rest

pub unlines-append : (xs ys : List String) → unlines (xs ++ ys) ≡ unlines xs <> unlines ys
unfolding unlines
unlines-append List.[] ys = sym (nil-append (unlines ys))
unlines-append (List.◌∷◌ x xs) ys =
    ap (λ t. x <> ("\n" ∷ t)) (unlines-append xs ys)
    ∙ ap (λ t. x <> t) (sym (cons-append "\n" (unlines xs) (unlines ys)))
    ∙ sym (append_assoc x ("\n" ∷ unlines xs) (unlines ys))

-- Lines without line ends are read back, with nothing behind the last line end.
pub split-unlines :
    (ls : List String) → all_free 10 ls ≡ true → split 10 (unlines ls) ≡ ls ++ List.◌∷◌ "" List.[]
unfolding split unlines split_from
split-unlines List.[] h = refl
split-unlines (List.◌∷◌ l ls) h =
    split_from-part 10 "\n" "" l (unlines ls) (ground (arith, h)) refl
    ∙ ap (λ t. List.◌∷◌ t (split 10 (unlines ls))) (nil-append l)
    ∙ ap (λ (r : List String). List.◌∷◌ l r) (split-unlines ls (ground (arith, h)))

pub free_of_char-append :
    (sep : ℕ) (s t : String)
    → free_of_char sep s ≡ true
    → free_of_char sep t ≡ true
    → free_of_char sep (s <> t) ≡ true
unfolding free_of_char
free_of_char-append sep [] t h k = rw (nil-append t) k
free_of_char-append sep (c ∷ s) t h k =
    rw (cons-append c s t) (ground (arith, h, free_of_char-append sep s t (ground (arith, h)) k))

all_free-split_from :
    (sep : ℕ) (cur s : String)
    → free_of_char sep cur ≡ true
    → all_free sep (split_from sep cur s) ≡ true
unfolding split_from free_of_char
all_free-split_from sep cur [] h = ground (arith, h)
all_free-split_from sep cur (c ∷ s) h = elim (Bool-cases (code c == sep)) [
  | inl ends ↦ rw (ends) (ground (arith, h, all_free-split_from sep "" s refl))
  | inr goes_on ↦ rw (goes_on) (
      all_free-split_from sep (cur <> (c ∷ "")) s
        (free_of_char-append sep cur (c ∷ "") h (ground (arith, goes_on))))
]

-- The parts of a text hold no separator.
pub all_free-split : (sep : ℕ) (s : String) → all_free sep (split sep s) ≡ true
unfolding split
all_free-split sep s = all_free-split_from sep "" s (unfold free_of_char in refl)

pub free_of_char-before :
    (sep : ℕ) (mark s : String)
    → free_of_char sep s ≡ true
    → free_of_char sep (before mark s) ≡ true
unfolding before free_of_char
free_of_char-before sep mark [] h = refl
free_of_char-before sep mark (c ∷ s) h = elim (Bool-cases (starts_with (c ∷ s) mark)) [
  | inl here ↦ rw (here) refl
  | inr later ↦ rw (later) (ground (arith, h, free_of_char-before sep mark s (ground (arith, h))))
]

pub all_free-append :
    (sep : ℕ) (xs ys : List String)
    → all_free sep xs ≡ true
    → all_free sep ys ≡ true
    → all_free sep (xs ++ ys) ≡ true
all_free-append sep List.[] ys h k = k
all_free-append sep (List.◌∷◌ x xs) ys h k =
    ground (arith, h, all_free-append sep xs ys (ground (arith, h)) k)
