-- ===== src/TestEntry.antt =====
-- test_entry.py (dv/uvm/core_ibex/scripts): the argument that names a test and its seed.
pub mod RoundTrip
mod Tests
use kiemchung_ibex_v.Base.{
  ℕ, String, Bool, not, Option, none, some, Result, ok, err, ErrorKind, ◌==◌,
}
use kiemchung_ibex_v.Base.Regex.{dollar, literal, some_of}
use kiemchung_ibex_v.Base.Text.{is_digit}
use kiemchung_ibex_v.Base.Text.{to_ℕ}
use Prim.Native.Char.{Char, code}

-- `[^.]`
abbrev pub no_dot : Char → Bool
no_dot c = not (code c == b'.')

-- `re.match(r'([^.]+)\.([0-9]+)$', arg)`
match_test_dot_seed : String → Option (String × String)
match_test_dot_seed =
    some_of no_dot (λ test. literal "." (some_of is_digit (λ seed. dollar (test, seed))))

pub read_test_dot_seed : String → Result (String × ℕ)
unfolding match_test_dot_seed
read_test_dot_seed arg = elim (match_test_dot_seed arg) [
  | none ↦ err ErrorKind.argument_type_error "Bad --test-dot-seed: should be of the form TEST.SEED."
  | some (test, seed) ↦ ok (test, to_ℕ 0 seed)
]
