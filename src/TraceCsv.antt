-- ===== src/TraceCsv.antt =====
-- The operands of ibex_log_to_trace_csv.py (dv/uvm/core_ibex/riscv_dv_extension). `gpr_to_abi` and
-- `sint_to_hex` are functions of riscv-dv, and parameters.
pub mod Operands
pub mod Log
mod Tests
use kiemchung_ibex_v.Base.{
  ℕ, ◌+◌, ◌*◌, ◌-◌, String, ◌<>◌, Bool, true, false, ◌&&◌, List, [], ◌∷◌, Option, none, some,
  Result, ok, err, ErrorKind, ◌>>=◌, any, map, if◌then◌else◌, str_eq, ◌==◌, leb, starts_with,
}
use kiemchung_ibex_v.Base.Int.{ℤ, sub_ℕ}
use kiemchung_ibex_v.Base.Text.{is_digit, join, split}
use Prim.Native.Char.{Char, code}
use Prim.Native.String

-- `convert_operands_to_abi`
module _ (gpr_to_abi : String → String) where
  unfoldable pub convert_operand : String → String
  convert_operand operand =
      let converted_op = gpr_to_abi operand in
      if str_eq converted_op "na" then operand else converted_op

  unfoldable pub convert_operands_to_abi : String → String
  unfolding convert_operand
  convert_operands_to_abi operand_str = join "," (map convert_operand (split b',' operand_str))

-- The instructions whose last operand is an absolute address
abbrev branches : List String
branches =
    "beq" ∷ "bne" ∷ "blt" ∷ "bge" ∷ "bltu" ∷ "bgeu" ∷ "c.beqz" ∷ "c.bnez" ∷ "beqz" ∷ "bnez" ∷ "bgez"
    ∷ "bltz" ∷ "blez" ∷ "bgtz" ∷ "c.j" ∷ "j" ∷ "c.jal" ∷ "jal" ∷ []

-- The value of a hexadecimal digit
unfoldable pub hex_value : Char → Option ℕ
hex_value c =
    if is_digit c
    then some (code c - b'0')
    else if leb b'a' (code c) && leb (code c) b'f'
    then some (code c - b'a' + 10)
    else if leb b'A' (code c) && leb (code c) b'F'
    then some (code c - b'A' + 10)
    else none

unfoldable pub hex_digits : ℕ → String → Option ℕ
unfolding hex_value
hex_digits n Prim.Native.String.[] = some n
hex_digits n (Prim.Native.String.◌∷◌ c s) = elim (hex_value c) [
  | none ↦ none
  | some d ↦ hex_digits (16 * n + d) s
]

-- `int(text, 16)` of the digits that a trace holds; a sign, a prefix, blanks and underscores, which
-- Python takes too and a trace has not, are not read here.
unfoldable pub int_16 : String → Result ℕ
unfolding hex_digits
int_16 text =
    if str_eq text ""
    then err ErrorKind.value_error "invalid literal for int() with base 16"
    else elim (hex_digits 0 text) [
      | none ↦ err ErrorKind.value_error "invalid literal for int() with base 16"
      | some n ↦ ok n
    ]

-- What stands up to the last comma, with it, and what follows, where there is a comma
rsplit_comma : Option (String × String) → String → String → Option (String × String)
rsplit_comma found before Prim.Native.String.[] = found
rsplit_comma found before (Prim.Native.String.◌∷◌ c s) =
    let longer = before <> (Prim.Native.String.◌∷◌ c "") in
    rsplit_comma (if code c == b',' then some (longer, s) else found) longer s

-- `process_imm`
module _ (sint_to_hex : ℤ → String) where
  offset : String → String → Result String
  unfolding int_16
  offset imm pc = do target ← int_16 imm; base ← int_16 pc; ok (sint_to_hex (sub_ℕ target base))

  unfoldable pub process_imm : String → String → String → Result String
  unfolding offset rsplit_comma
  process_imm instr_name pc operands =
      if any (λ b. str_eq b instr_name) branches
      then elim (rsplit_comma none "" operands) [
        | none ↦ offset operands pc
        | some (before, imm) ↦ do text ← offset imm pc; ok (before <> text)
      ]
      else ok operands
