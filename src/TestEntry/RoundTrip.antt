-- ===== src/TestEntry/RoundTrip.antt =====
-- Reading what the scripts write for a test and its seed.
use kiemchung_ibex_v.Base.{
  String, ◌<>◌, true, ◌&&◌, Option, some, ok, ◌≡◌, refl, ◌∙◌, ap, sym, arith,
}
use kiemchung_ibex_v.Base.Regex.{
  all_chars, dollar, literal-append, nonempty, some_of, some_of-greedy, stops,
}
use kiemchung_ibex_v.Base.Text.{is_digit}
use kiemchung_ibex_v.TestEntry.{match_test_dot_seed, no_dot, read_test_dot_seed}
use kiemchung_ibex_v.Base.Text.{to_ℕ}
use text.Mathlib.TextLemmas.{append-nil, cons-append}

dot_ends_name : (rest : String) → stops no_dot ("." <> rest) ≡ true
dot_ends_name rest = rw (cons-append "." "" rest) refl

match_lem :
    (test seed : String)
    → (nonempty test && all_chars no_dot test) ≡ true
    → (nonempty seed && all_chars is_digit seed) ≡ true
    → match_test_dot_seed (test <> "." <> seed) ≡ some (test, seed)
unfolding match_test_dot_seed dollar
match_lem test seed h k =
    let seed_part : String → String → Option (String × String) = λ s. dollar (test, s) in
    some_of-greedy no_dot test ("." <> seed) _ _ (ground (arith, h)) (ground (arith, h))
      (dot_ends_name seed)
      (literal-append "." seed _
        ∙ ap (some_of is_digit seed_part) (sym (append-nil seed))
        ∙ some_of-greedy is_digit seed "" seed_part (test, seed) (ground (arith, k))
            (ground (arith, k)) refl refl)

-- A test name without dots and the digits of a seed, joined by a dot, are read back as the name and
-- the number.
pub read_test_dot_seed-join :
    (test seed : String)
    → (nonempty test && all_chars no_dot test) ≡ true
    → (nonempty seed && all_chars is_digit seed) ≡ true
    → read_test_dot_seed (test <> "." <> seed) ≡ ok (test, to_ℕ 0 seed)
unfolding read_test_dot_seed
read_test_dot_seed-join test seed h k = rw (read_test_dot_seed, match_lem test seed h k) refl
