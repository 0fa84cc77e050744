-- ===== src/TraceCsv/Log.antt =====
-- The loop over a trace of Ibex in ibex_log_to_trace_csv.py: `_process_ibex_sim_log_fd`,
-- `process_ibex_sim_log` and `expand_trace_entry`. An entry has the fields that the script sets; it
-- is written by a class of riscv-dv, so that what is modelled is the list of the entries. The
-- functions of riscv-dv are parameters.
pub mod Counts
mod Tests
use kiemchung_ibex_v.Base.{
  ℕ, zero, suc, ◌+◌, String, ◌<>◌, Bool, true, false, not, ◌&&◌, List, [], ◌∷◌, ◌++◌, Option, none,
  some, Result, ok, err, ErrorKind, ◌>>=◌, if◌then◌else◌, ◌||◌, leb, ◌==◌,
}
use kiemchung_ibex_v.Base.Int.{ℤ}
use kiemchung_ibex_v.Base.Regex.{is_hex, literal, many, one, search, some_of}
use kiemchung_ibex_v.Base.Text.{has, is_digit, is_space, join, lines}
use kiemchung_ibex_v.TraceCsv.{convert_operands_to_abi, process_imm}
use Prim.Native.Char.{Char, code}
use Prim.Native.String

-- `RiscvInstructionTraceEntry`
pub record Entry : Type 0 where
  pub instr_str : String
  pub instr : String
  pub pc : String
  pub binary : String
  pub operand : String
  pub gpr : List String
  pub imm : Option String

-- The groups of `INSTR_RE`; the instruction is its mnemonic, what separates it, and its operands.
pub record Instr : Type 0 where
  pub pc : String
  pub bin : String
  pub mnemonic : String
  pub apart : String
  pub operands : String

abbrev is_text : Char → Bool
is_text c = not (is_space c)

-- `INSTR_RE.search(line)`
match_instr : String → Option Instr
match_instr = many is_space "" (λ _. some_of is_digit (λ time. some_of is_space (λ _.
    some_of is_digit (λ cycle. some_of is_space (λ _. some_of is_hex (λ pc. some_of is_space (λ _.
      some_of is_hex (λ bin. some_of is_space (λ _. some_of is_text (λ mnemonic.
        some_of is_space (λ apart. some_of is_text (λ operands rest. some (record {
          pc = pc;
          bin = bin;
          mnemonic = mnemonic;
          apart = apart;
          operands = operands;
        })))))))))))))

-- `x(?P<rd>[1-9]\d*)=0x(?P<rd_val>[0-9a-f]+)`, after the `x`
rd_value : String → Option (String × String)
rd_value Prim.Native.String.[] = none
rd_value (Prim.Native.String.◌∷◌ c s) =
    if code c == b'0'
    then none
    else some_of is_digit (λ rd. literal "=0x" (some_of is_hex (λ rd_val rest. some (rd, rd_val))))
        (Prim.Native.String.◌∷◌ c s)

-- `RD_RE.search(line)`
match_rd : String → Option (String × String)
unfolding rd_value
match_rd = search (literal "x" rd_value)

abbrev is_name : Char → Bool
is_name c = is_digit c || leb b'a' (code c) && leb (code c) b'z'

abbrev is_imm : Char → Bool
is_imm c = is_digit c || code c == b'-'

-- `ADDR_RE.search(operands)`: the register, the offset and the base register. A class that is read
-- as short as possible ends where the next character is not of it, so longest first is the same.
match_addr : String → Option (String × String × String)
match_addr = search (
    some_of is_name (λ rd. literal "," (
      some_of is_imm
        (λ imm. literal "(" (some_of is_name (λ rs1. literal ")" (λ rest. some (rd, imm, rs1))))))))

-- What riscv-dv computes
pub record RiscvDv : Type 0 where
  pub gpr_to_abi : String → String
  pub sint_to_hex : ℤ → String
  pub convert_pseudo_instr : String → String → String → String × String
  pub get_imm_hex_val : String → String

abbrev pub is_empty : List Entry → Bool
is_empty [] = true
is_empty (_ ∷ _) = false

module _ (dv : RiscvDv) where
  pub expand_trace_entry : Entry → String → Result Entry
  unfolding match_addr
  expand_trace_entry trace operands = do
    operands ← process_imm dv.sint_to_hex trace.instr trace.pc operands
    let converted = dv.convert_pseudo_instr trace.instr operands trace.binary
    let trace = record trace { instr = converted.0 }
    elim (match_addr converted.1) [
      | none ↦ ok (record trace { operand = convert_operands_to_abi dv.gpr_to_abi converted.1 })
      | some (rd, imm, rs1) ↦ ok (record trace {
        imm = some (dv.get_imm_hex_val imm);
        operand = convert_operands_to_abi dv.gpr_to_abi (join "," (rd ∷ rs1 ∷ imm ∷ []));
      })
    ]

  -- The entry of an instruction, before the registers that it writes
  new_entry : Bool → Instr → Result Entry
  unfolding expand_trace_entry
  new_entry full_trace m =
      let entry : Entry = record {
        instr_str = m.mnemonic <> m.apart <> m.operands;
        instr = m.mnemonic;
        pc = m.pc;
        binary = m.bin;
        operand = "";
        gpr = [];
        imm = none;
      } in
      elim full_trace [ true ↦ expand_trace_entry entry m.operands | false ↦ ok entry ]

  add_gpr : Option (String × String) → Entry → Entry
  add_gpr none e = e
  add_gpr (some (rd, rd_val)) e = record e {
    gpr = e.gpr ++ (dv.gpr_to_abi ("x" <> rd) <> ":" <> rd_val) ∷ [];
  }

  -- The loop over the lines, which gives the entries that are written
  pub process_lines : Bool → List String → Result (List Entry)
  unfolding match_instr match_rd new_entry add_gpr
  process_lines full_trace [] = ok []
  process_lines full_trace (line ∷ rest) =
      let later = process_lines full_trace rest in
      if has "ecall" line then ok [] else elim (match_instr line) [
        | none ↦ later
        | some m ↦ do
          entry ← new_entry full_trace m
          entries ← later
          ok (add_gpr (match_rd line) entry ∷ entries)
      ]

  -- `process_ibex_sim_log`, from the text of the log, if it can be opened
  pub process_ibex_sim_log : Option String → Bool → Result (List Entry)
  unfolding process_lines
  process_ibex_sim_log none full_trace = err ErrorKind.runtime_error "Logfile not found"
  process_ibex_sim_log (some text) full_trace = do
    entries ← process_lines full_trace (lines text)
    if is_empty entries
        then err ErrorKind.runtime_error "No instructions in logfile"
        else ok entries
