-- ===== src/Base/Shlex.antt =====
-- `shlex.quote`, `shlex.split` (POSIX rules, no comments) and `' '.join`, by which the scripts
-- build and read command lines.
use Prim.Native.Char.{Char, code}
use Prim.Native.String.{String, [], ◌∷◌, ◌++◌ as ◌<>◌}
use mathlib.Core.Path.{◌≡◌, refl, ◌∙◌, sym, ap}
use mathlib.Core.Logic.{inl, inr}
use mathlib.Core.Bool.{Bool, true, false, not, ◌&&◌, ◌||◌}
use mathlib.Core.List
use mathlib.Core.List.{List}
use native.Mathlib.Omega.{arith}
use text.Mathlib.Text.{◌==◌ as str_eq}
use text.Mathlib.TextLemmas.{append_assoc, append-nil, nil-append, cons-append}
use text.Mathlib.TextEquality.{Char-path, eq_iff}
use package.kiemchung_ibex_v.Base.Tests.{leb, ◌==◌, if◌then◌else◌, Bool-cases}
use package.kiemchung_ibex_v.Base.Errors.{Result, ok, err, ErrorKind, ◌>>=◌}
use package.kiemchung_ibex_v.Base.Text.{join}

-- `[a-zA-Z0-9_@%+=:,./-]`
is_safe : Char → Bool
is_safe c =
    leb 97 (code c) && leb (code c) 122
    || leb 64 (code c) && leb (code c) 90
    || leb 43 (code c) && leb (code c) 58
    || code c == 61
    || code c == 37
    || code c == 95

all_safe : String → Bool
all_safe [] = true
all_safe (c ∷ s) = is_safe c && all_safe s

-- each single quote is put between double quotes
quote_body : String → String
quote_body [] = []
quote_body (c ∷ s) = (if code c == 39 then "'\"'\"'" else c ∷ "") <> quote_body s

unfoldable pub quote : String → String
unfolding all_safe is_safe quote_body
quote s = if str_eq s "" then "''" else if all_safe s then s else "'" <> quote_body s <> "'"

-- The lexer's state; an escape remembers the state that it returns to.
pub data State : Type 0 where
  between word single double escape double_escape : State

is_blank : Char → Bool
is_blank c = code c == 32 || code c == 9 || code c == 13 || code c == 10

emit : String → Bool → Result (List String) → Result (List String)
emit token quoted rest =
    if quoted || not (str_eq token "") then (do ts ← rest; ok (List.◌∷◌ token ts)) else rest

abbrev put : String → Char → String
put token c = token <> (c ∷ "")

-- What the lexer does with a character that is in no quotes: `between` and `word` differ in nothing
-- else than that only a word can be emitted, and an empty unquoted word is not.
lex : State → String → Bool → String → Result (List String)
unfolding is_blank emit
lex between token quoted [] = emit token quoted (ok List.[])
lex word token quoted [] = emit token quoted (ok List.[])
lex single token quoted [] = err ErrorKind.value_error "No closing quotation"
lex double token quoted [] = err ErrorKind.value_error "No closing quotation"
lex escape token quoted [] = err ErrorKind.value_error "No escaped character"
lex double_escape token quoted [] = err ErrorKind.value_error "No escaped character"
lex between token quoted (c ∷ s) =
    let blank = emit token quoted (lex between "" false s) in
    let escaped = lex escape token quoted s in
    let in_single = lex single token true s in
    let in_double = lex double token true s in
    let plain = lex word (put token c) quoted s in
    if is_blank c
    then blank
    else if code c == 92
    then escaped
    else if code c == 39
    then in_single
    else if code c == 34
    then in_double
    else plain
lex word token quoted (c ∷ s) =
    let blank = emit token quoted (lex between "" false s) in
    let escaped = lex escape token quoted s in
    let in_single = lex single token true s in
    let in_double = lex double token true s in
    let plain = lex word (put token c) quoted s in
    if is_blank c
    then blank
    else if code c == 92
    then escaped
    else if code c == 39
    then in_single
    else if code c == 34
    then in_double
    else plain
lex single token quoted (c ∷ s) =
    let close = lex word token quoted s in
    let plain = lex single (put token c) quoted s in if code c == 39 then close else plain
lex double token quoted (c ∷ s) =
    let close = lex word token quoted s in
    let escaped = lex double_escape token quoted s in
    let plain = lex double (put token c) quoted s in
    if code c == 34 then close else if code c == 92 then escaped else plain
lex escape token quoted (c ∷ s) = lex word (put token c) quoted s
lex double_escape token quoted (c ∷ s) =
    lex double (if code c == 92 || code c == 34 then put token c else put (token <> "\\") c) quoted
      s

unfoldable pub shlex_split : String → Result (List String)
unfolding lex
shlex_split text = lex between "" false text

unfoldable pub join_quoted : List String → String
unfolding quote join
join_quoted args = join " " (List.map quote args)

quote_test : quote "a'b c" ≡ "'a'\"'\"'b c'"
unfolding quote
quote_test = refl

split_test :
    shlex_split " a 'b c'\"d\\\"e\" '' \\x "
    ≡ ok (List.◌∷◌ "a" (List.◌∷◌ "b cd\"e" (List.◌∷◌ "" (List.◌∷◌ "x" List.[]))))
unfolding shlex_split
split_test = refl

-- A character that the lexer takes as it stands.
plain_step :
    (c : Char) (s token : String) (quoted : Bool)
    → is_safe c ≡ true
    → lex word token quoted (c ∷ s) ≡ lex word (put token c) quoted s
unfolding lex is_safe
plain_step c s token quoted h = ground arith

put-append : (token : String) (c : Char) (s : String) → put token c <> s ≡ token <> (c ∷ s)
put-append token c s =
    append_assoc token (c ∷ "") s
    ∙ ap (λ t. token <> t) (cons-append c "" s ∙ ap (λ (t : String). c ∷ t) (nil-append s))

lex-safe :
    (s rest token : String) (quoted : Bool)
    → all_safe s ≡ true
    → lex word token quoted (s <> rest) ≡ lex word (token <> s) quoted rest
unfolding all_safe
lex-safe [] rest token quoted h = rw (nil-append rest, append-nil token)
lex-safe (c ∷ s) rest token quoted h =
    rw
      (
        cons-append c s rest,
        plain_step c (s <> rest) token quoted (ground arith),
        ← put-append token c s,
      )
      (lex-safe s rest (put token c) quoted (ground arith))

quoted_step :
    (c : Char) (s token : String)
    → (code c == 39) ≡ false
    → lex single token true (c ∷ s) ≡ lex single (put token c) true s
unfolding lex
quoted_step c s token h = rw h

close_step : (rest token : String) → lex single token true ("'" <> rest) ≡ lex word token true rest
unfolding lex
close_step rest token = rw (cons-append "'" "" rest, nil-append rest)

reopen_step :
    (rest token : String)
    → lex single token true ("'\"'\"'" <> rest) ≡ lex single (put token "'") true rest
unfolding lex
reopen_step rest token = rw (
  cons-append "'" "\"'\"'" rest,
  cons-append "\"" "'\"'" rest,
  cons-append "'" "\"'" rest,
  cons-append "\"" "'" rest,
  cons-append "'" "" rest,
  nil-append rest,
)

quote_char : (c : Char) → (code c == 39) ≡ true → c ≡ "'"
quote_char c h = Char-path c "'" (ground arith)

lex-quote_body :
    (s rest token : String)
    → lex single token true (quote_body s <> ("'" <> rest)) ≡ lex word (token <> s) true rest
unfolding quote_body
lex-quote_body [] rest token = rw (nil-append, append-nil token) (close_step rest token)
lex-quote_body (c ∷ s) rest token = elim (Bool-cases (code c == 39)) [
  | inl mark ↦
      rw (mark, append_assoc, reopen_step, ← put-append token c s, quote_char c mark)
        (lex-quote_body s rest (put token "'"))
  | inr other ↦
      rw
        (
          other,
          append_assoc,
          cons-append c "" _,
          nil-append,
          quoted_step c _ token other,
          ← put-append token c s,
        )
        (lex-quote_body s rest (put token c))
]

-- One quoted argument, and what follows it.
abbrev Read : String → String → Type 0
Read s rest =
    (q : Bool) × (lex between "" false (quote s <> rest) ≡ lex word s q rest)
    × ((q || not (str_eq s "")) ≡ true)

open_step : (rest : String) → lex between "" false ("'" <> rest) ≡ lex single "" true rest
unfolding lex
open_step rest = rw (cons-append "'" "" rest, nil-append rest)

first_step :
    (c : Char) (s : String)
    → is_safe c ≡ true
    → lex between "" false (c ∷ s) ≡ lex word (put "" c) false s
unfolding lex is_safe
first_step c s h = ground arith

Read-safe : (s rest : String) → str_eq s "" ≡ false → all_safe s ≡ true → Read s rest
unfolding quote
Read-safe [] rest e h = cc
Read-safe (c ∷ s) rest e h = (
  false,
  rw (e, h, cons-append c s rest, first_step c (s <> rest) (ground arith))
      (lex-safe s rest (put "" c) false (ground arith)
        ∙ ap (λ t. lex word t false rest) (put-append "" c s ∙ nil-append (c ∷ s))),
  rw e,
)

Read-quoted : (s rest : String) → str_eq s "" ≡ false → all_safe s ≡ false → Read s rest
unfolding quote
Read-quoted s rest e h = (
  true,
  rw
      (
        e,
        h,
        append_assoc "'" (quote_body s <> "'") rest,
        open_step,
        append_assoc (quote_body s) "'" rest,
      )
      (lex-quote_body s rest "" ∙ ap (λ t. lex word t true rest) (nil-append s)),
  refl,
)

empty_step : (rest : String) → lex between "" false ("''" <> rest) ≡ lex word "" true rest
unfolding lex
empty_step rest = rw (cons-append "'" "'" rest, cons-append "'" "" rest, nil-append rest)

Read-empty : (s rest : String) → str_eq s "" ≡ true → Read s rest
unfolding quote
Read-empty s rest e =
    (true, rw (e, empty_step) (ap (λ t. lex word t true rest) (sym ((eq_iff s "").0 e))), refl)

read : (s rest : String) → Read s rest
read s rest = elim (Bool-cases (str_eq s "")) [
  | inl empty ↦ Read-empty s rest empty
  | inr full ↦ elim (Bool-cases (all_safe s)) [
    | inl safe ↦ Read-safe s rest full safe
    | inr unsafe ↦ Read-quoted s rest full unsafe
  ]
]

blank_step :
    (rest token : String) (q : Bool)
    → (q || not (str_eq token "")) ≡ true
    → lex word token q (" " <> rest) ≡ (do ts ← lex between "" false rest; ok (List.◌∷◌ token ts))
unfolding lex
blank_step rest token q h = rw (cons-append " " "" rest, nil-append rest) (ground arith)

last_step :
    (token : String) (q : Bool)
    → (q || not (str_eq token "")) ≡ true
    → lex word token q "" ≡ ok (List.◌∷◌ token List.[])
unfolding lex
last_step token q h = ground arith

-- Splitting a command line of quoted arguments gives the arguments back.
pub shlex_split-join_quoted : (args : List String) → shlex_split (join_quoted args) ≡ ok args
unfolding shlex_split join_quoted lex
shlex_split-join_quoted List.[] = refl
shlex_split-join_quoted (List.◌∷◌ a List.[]) =
    let (q, path, emits) = read a "" in
    ap (λ t. lex between "" false t) (sym (append-nil (quote a))) ∙ path ∙ last_step a q emits
shlex_split-join_quoted (List.◌∷◌ a (List.◌∷◌ b args)) =
    let rest = join_quoted (List.◌∷◌ b args) in
    let (q, path, emits) = read a (" " <> rest) in
    path ∙ blank_step rest a q emits ∙ rw (shlex_split-join_quoted (List.◌∷◌ b args))
