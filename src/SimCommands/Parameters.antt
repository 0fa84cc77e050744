-- ===== src/SimCommands/Parameters.antt =====
-- What a parameter of a command is: the regular expression of riscvdv_interface.py
-- (dv/uvm/core_ibex/scripts) that finds those that are left.
use kiemchung_ibex_v.Base.{
  String, ◌<>◌, Option, none, Bool, ◌==◌, true, false, some, ◌≡◌, refl, arith, ap, ◌∙◌,
}
use kiemchung_ibex_v.Base.Regex.{all_chars, nonempty, one, some_of, some_of-greedy, stops}
use kiemchung_ibex_v.SimCommands.{is_word_char, parameter, parameter_here, has_parameters}
use Prim.Native.Char.{code}
use Prim.Native.String.{[], ◌∷◌}
use text.Mathlib.TextLemmas.{append_assoc, nil-append, cons-append}

-- Somewhere the text holds a name of word characters, in angle brackets.
abbrev pub HoldsParameter : String → Type 0
HoldsParameter text =
    (pre name post : String) × (nonempty name ≡ true)
    × (all_chars is_word_char name ≡ true)
    × (text ≡ pre <> (parameter name <> post))

parameter-append : (name post : String) → parameter name <> post ≡ "<" <> (name <> (">" <> post))
parameter-append name post =
    append_assoc "<" (name <> ">") post ∙ ap (λ t. "<" <> t) (append_assoc name ">" post)

bracket_stops : (post : String) → stops is_word_char (">" <> post) ≡ true
bracket_stops post = rw (cons-append ">" "" post) refl

closing : String → String → Option String
closing name = one (λ c. code c == b'>') (λ rest. some name)

closing_lem : (name post : String) → closing name (">" <> post) ≡ some name
unfolding closing one
closing_lem name post = rw (cons-append ">" "" post) refl

found : Option String → Bool
found none = false
found (some name) = true

opening_lem : (s : String) → parameter_here ("<" <> s) ≡ found (some_of is_word_char closing s)
unfolding parameter_here one closing found
opening_lem s = rw (cons-append "<" "" s, nil-append s) refl

parameter_here_lem :
    (name post : String)
    → nonempty name ≡ true
    → all_chars is_word_char name ≡ true
    → parameter_here ("<" <> (name <> (">" <> post))) ≡ true
unfolding found
parameter_here_lem name post full h =
    opening_lem (name <> (">" <> post))
    ∙ ap found (
        some_of-greedy is_word_char name (">" <> post) closing name full h (bracket_stops post)
          (closing_lem name post))

has_parameters-append :
    (pre s : String) → has_parameters s ≡ true → has_parameters (pre <> s) ≡ true
unfolding has_parameters
has_parameters-append [] s h = rw (nil-append s) h
has_parameters-append (c ∷ pre) s h =
    rw (cons-append c pre s) (ground (arith, has_parameters-append pre s h))

has_parameters-here : (s : String) → parameter_here s ≡ true → has_parameters s ≡ true
unfolding has_parameters parameter_here one
has_parameters-here [] h = h
has_parameters-here (c ∷ s) h = ground (arith, h)

-- A text in which none is found holds none.
pub has_parameters-none : (text : String) → has_parameters text ≡ false → ¬ HoldsParameter text
has_parameters-none text none_found (pre, name, post, full, h, same) =
    let bracketed = "<" <> (name <> (">" <> post)) in
    let there : has_parameters text ≡ true =
      ap has_parameters (same ∙ ap (λ t. pre <> t) (parameter-append name post))
      ∙ has_parameters-append pre bracketed
          (has_parameters-here bracketed (parameter_here_lem name post full h)) in
    ground (arith, there, none_found)
