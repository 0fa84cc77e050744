-- ===== src/Base/Text.antt =====
-- Python's text operations that the scripts use, over native strings as lists of characters.
pub mod Lines
pub mod Numerals
use Prim.Native.Nat.{ℕ, zero, suc, ◌+◌, ◌*◌, ◌-◌, ◌/◌, ◌%◌}
use Prim.Native.Char.{Char, code}
use Prim.Native.String.{String, [], ◌∷◌, ◌++◌ as ◌<>◌, count, char_at}
use mathlib.Core.Path.{◌≡◌, refl, ap, ◌∙◌}
use mathlib.Core.Bool.{Bool, true, false, not, ◌&&◌, ◌||◌}
use mathlib.Core.Option.{Option, none, some}
use mathlib.Core.List.{List}
use text.Mathlib.Text.{◌==◌ as str_eq, starts_with, find?}
use native.Mathlib.Omega.{arith}
use text.Mathlib.TextLemmas.{append_assoc, append-nil, nil-append, cons-append}
use package.kiemchung_ibex_v.Base.Tests.{leb, ◌==◌, if◌then◌else◌}
use package.kiemchung_ibex_v.Base.Int.{ℤ, pos, negsuc}

-- `needle in text`
unfoldable pub has : String → String → Bool
has needle text = elim (find? text needle) [ none ↦ false | some i ↦ true ]

-- `sep.join(parts)`
unfoldable pub join : String → List String → String
join sep List.[] = ""
join sep (List.◌∷◌ p List.[]) = p
join sep (List.◌∷◌ p (List.◌∷◌ q ps)) = p <> sep <> join sep (List.◌∷◌ q ps)

-- The decimal digits, most significant first; `fuel` bounds their number.
abbrev digit_char : ℕ → Char
digit_char n =
    if n == 0
    then "0"
    else if n == 1
    then "1"
    else if n == 2
    then "2"
    else if n == 3
    then "3"
    else if n == 4
    then "4"
    else if n == 5
    then "5"
    else if n == 6
    then "6"
    else if n == 7
    then "7"
    else if n == 8
    then "8"
    else "9"

digits_onto : ℕ → ℕ → String → String
digits_onto zero n out = out
digits_onto (suc fuel) n out =
    let out' = digit_char (n % 10) ∷ out in
    let more = digits_onto fuel (n / 10) out' in if n / 10 == 0 then out' else more

-- `str(n)` for a number; a number has at most as many digits as its successor counts.
unfoldable pub str_ℕ : ℕ → String
unfolding digits_onto
str_ℕ n = digits_onto (suc n) n ""

-- `str(z)`
unfoldable pub str_int : ℤ → String
unfolding str_ℕ
str_int (pos n) = str_ℕ n
str_int (negsuc n) = "-" <> str_ℕ (suc n)

-- `int(digits)`, after the digits of `n`
unfoldable pub to_ℕ : ℕ → String → ℕ
to_ℕ n [] = n
to_ℕ n (c ∷ s) = to_ℕ (10 * n + (code c - b'0')) s

-- `[0-9]`
abbrev pub is_digit : Char → Bool
is_digit c = leb b'0' (code c) && leb (code c) b'9'

-- `str.isspace` on ASCII
abbrev pub is_space : Char → Bool
is_space c = code c == 32 || leb 9 (code c) && leb (code c) 13 || leb 28 (code c) && leb (code c) 31

-- `text.lstrip()`
unfoldable pub lstrip : String → String
lstrip [] = []
lstrip (c ∷ s) = if is_space c then lstrip s else c ∷ s

-- `text.rstrip()`
unfoldable pub rstrip : String → String
rstrip [] = []
rstrip (c ∷ s) = let rest = rstrip s in if is_space c && str_eq rest "" then "" else c ∷ rest

-- `text.strip()`
unfoldable pub strip : String → String
unfolding lstrip rstrip
strip s = rstrip (lstrip s)

-- Digits, with single underscores between them
digits_value : Bool → ℕ → String → Option ℕ
digits_value after_digit n [] = if after_digit then some n else none
digits_value after_digit n (c ∷ s) =
    let more = digits_value true (10 * n + (code c - b'0')) s in
    let apart = digits_value false n s in
    if is_digit c then more else if after_digit && code c == b'_' then apart else none

-- `int(text)`, on ASCII
unfoldable pub parse_int : String → Option ℤ
unfolding digits_value
parse_int text = elim (strip text) [
  | [] ↦ none
  | c ∷ s ↦
      if code c == b'-'
      then elim (digits_value false 0 s) [
        | none ↦ none
        | some n ↦ some (if n == 0 then pos 0 else negsuc (n - 1))
      ]
      else elim (digits_value false 0 (if code c == b'+' then s else c ∷ s)) [
        | none ↦ none
        | some n ↦ some (pos n)
      ]
]

-- `text.lower()`, on ASCII
unfoldable pub lower : String → String
lower [] = []
lower (c ∷ s) =
    (if leb b'A' (code c) && leb (code c) b'Z'
      then char_at "abcdefghijklmnopqrstuvwxyz" (code c - b'A')
      else c)
    ∷ lower s

-- `text[n:]`
unfoldable pub drop : ℕ → String → String
drop zero s = s
drop (suc n) [] = []
drop (suc n) (c ∷ s) = drop n s

-- `head, tail = text.split(sep, maxsplit=1)`, if there is a separator
unfoldable pub split_once : ℕ → String → Option (String × String)
split_once sep [] = none
split_once sep (c ∷ s) =
    if code c == sep
    then some ("", s)
    else elim (split_once sep s) [ none ↦ none | some (head, tail) ↦ some (c ∷ head, tail) ]

-- `text.replace(old, new)` for a nonempty `old`: what matches is skipped, character by character.
replace_from : String → String → ℕ → String → String
replace_from old new skip [] = []
replace_from old new (suc skip) (c ∷ s) = replace_from old new skip s
replace_from old new zero (c ∷ s) =
    let hit = new <> replace_from old new (count old - 1) s in
    let miss = c ∷ replace_from old new zero s in if starts_with (c ∷ s) old then hit else miss

unfoldable pub replace : String → String → String → String
unfolding replace_from
replace text old new = replace_from old new zero text

-- `text.split(sep)` for a separator of one character, given by its code
split_from : ℕ → String → String → List String
split_from sep cur [] = List.◌∷◌ cur List.[]
split_from sep cur (c ∷ s) =
    let closed = List.◌∷◌ cur (split_from sep "" s) in
    let longer = split_from sep (cur <> (c ∷ "")) s in if code c == sep then closed else longer

unfoldable pub split : ℕ → String → List String
unfolding split_from
split sep text = split_from sep "" text

-- `text.endswith(suffix)`
unfoldable pub ends_with : String → String → Bool
ends_with [] suffix = str_eq "" suffix
ends_with (c ∷ s) suffix = str_eq (c ∷ s) suffix || ends_with s suffix

-- The lines that a loop over a text file gives, without their line ends: what follows the last
-- line end is a line only if it is not empty.
lines_from : String → String → List String
lines_from cur [] = if str_eq cur "" then List.[] else List.◌∷◌ cur List.[]
lines_from cur (c ∷ s) =
    let closed = List.◌∷◌ cur (lines_from "" s) in
    let longer = lines_from (cur <> (c ∷ "")) s in if code c == 10 then closed else longer

unfoldable pub lines : String → List String
unfolding lines_from
lines text = lines_from "" text

-- `os.path.splitext(path)[1]`: the last dot of the file's name and what follows it, where dots that
-- begin the name do not count.
splitext_from : Bool → String → String → String
splitext_from leading ext [] = ext
splitext_from leading ext (c ∷ s) =
    splitext_from (code c == b'/' || leading && code c == b'.')
      (if code c == b'/'
        then ""
        else if code c == b'.'
        then (if leading then "" else ".")
        else if str_eq ext ""
        then ""
        else ext <> (c ∷ ""))
      s

unfoldable pub splitext : String → String
unfolding splitext_from
splitext path = splitext_from true "" path

-- `text.rsplit(':', 1)`, where it gives two parts
rsplit_from : Option (String × String) → String → String → Option (String × String)
rsplit_from found before [] = found
rsplit_from found before (c ∷ s) =
    rsplit_from (if code c == b':' then some (before, s) else found) (before <> (c ∷ "")) s

unfoldable pub rsplit_colon : String → Option (String × String)
unfolding rsplit_from
rsplit_colon text = rsplit_from none "" text

append_char : (acc : String) (c : Char) (s : String) → (acc <> (c ∷ "")) <> s ≡ acc <> (c ∷ s)
append_char acc c s =
    append_assoc acc (c ∷ "") s
    ∙ ap (λ t. acc <> t) (cons-append c "" s ∙ ap (λ (t : String). c ∷ t) (nil-append s))

-- A text without a separator
unfoldable pub free_of_char : ℕ → String → Bool
free_of_char sep [] = true
free_of_char sep (c ∷ s) = not (code c == sep) && free_of_char sep s

split_from-last :
    (sep : ℕ) (cur part : String)
    → free_of_char sep part ≡ true
    → split_from sep cur part ≡ List.◌∷◌ (cur <> part) List.[]
unfolding split_from free_of_char
split_from-last sep cur [] h = rw (append-nil cur) refl
split_from-last sep cur (c ∷ s) h =
    ground (arith, h, split_from-last sep (cur <> (c ∷ "")) s, append_char cur c s)

split_from-part :
    (sep : ℕ) (mark : Char) (cur part rest : String)
    → free_of_char sep part ≡ true
    → (code mark == sep) ≡ true
    → split_from sep cur (part <> (mark ∷ rest)) ≡ List.◌∷◌ (cur <> part) (split_from sep "" rest)
unfolding split_from free_of_char
split_from-part sep mark cur [] rest h k =
    rw (nil-append (mark ∷ rest), append-nil cur) (ground (arith, k))
split_from-part sep mark cur (c ∷ s) rest h k = rw (cons-append c s (mark ∷ rest)) (
    ground (
      arith,
      h,
      split_from-part sep mark (cur <> (c ∷ "")) s rest (ground (arith, h)) k,
      append_char cur c s,
    ))

abbrev pub all_free : ℕ → List String → Bool
all_free sep List.[] = true
all_free sep (List.◌∷◌ p ps) = free_of_char sep p && all_free sep ps

-- Parts without commas, joined by commas, are split into the parts again.
pub split-join :
    (p : String) (ps : List String)
    → all_free b',' (List.◌∷◌ p ps) ≡ true
    → split b',' (join "," (List.◌∷◌ p ps)) ≡ List.◌∷◌ p ps
unfolding split join
split-join p List.[] h = split_from-last b',' "" p (ground (arith, h)) ∙ rw (nil-append p) refl
split-join p (List.◌∷◌ q ps) h =
    let rest = join "," (List.◌∷◌ q ps) in
    ap (λ t. split_from b',' "" (p <> t))
      (cons-append "," "" rest ∙ ap (λ (t : String). "," ∷ t) (nil-append rest))
    ∙ split_from-part b',' "," "" p rest (ground (arith, h)) refl
    ∙ ap (λ t. List.◌∷◌ t (split_from b',' "" rest)) (nil-append p)
    ∙ ap (λ (l : List String). List.◌∷◌ p l) (split-join q ps (ground (arith, h)))

splitext_test : splitext "a.b/..x.sv" ≡ ".sv"
unfolding splitext
splitext_test = refl

rsplit_test : rsplit_colon "a:b:c" ≡ some ("a:b", "c")
unfolding rsplit_colon
rsplit_test = refl

replace_test : replace "a <x> <x>b" "<x>" "y<" ≡ "a y< y<b"
unfolding replace
replace_test = refl

split_test : split b',' "a,,bc" ≡ List.◌∷◌ "a" (List.◌∷◌ "" (List.◌∷◌ "bc" List.[]))
unfolding split
split_test = refl

strip_test : strip "  a b \n" ≡ "a b"
unfolding strip
strip_test = refl

str_test : str_int (negsuc 1199) ≡ "-1200"
unfolding str_int
str_test = refl
