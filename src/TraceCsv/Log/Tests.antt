-- ===== src/TraceCsv/Log/Tests.antt =====
-- A trace of two instructions.
use kiemchung_ibex_v.Base.{String, true, false, List, [], ◌∷◌, ok, some, none, ◌≡◌, refl}
use kiemchung_ibex_v.Base.Regex.{many, some_of, literal, search}
use kiemchung_ibex_v.Base.Text.{has, join, lines, split}
use kiemchung_ibex_v.TraceCsv.{convert_operands_to_abi, convert_operand, process_imm}
use kiemchung_ibex_v.TraceCsv.Log.{RiscvDv, Entry, is_empty, process_ibex_sim_log}
use kiemchung_ibex_v.TraceCsv.Log.Counts.{pcs, before_ecall, process_ibex_sim_log-pcs}

abbrev dv : RiscvDv
dv = record {
  gpr_to_abi = λ r. "na";
  sint_to_hex = λ z. "";
  convert_pseudo_instr = λ instr operands binary. (instr, operands);
  get_imm_hex_val = λ imm. imm;
}

abbrev trace : String
trace =
    "  10 5 80000080 00c00093 addi x1,x0,12 x1=0x0000000c\n\n  12 6 80000084 0000a103 lw x2,0(x1) x2=0x00000001\n 13 7 80000088 00000073 ecall x\n"

abbrev entries : List Entry
entries =
    record {
      instr_str = "addi x1,x0,12";
      instr = "addi";
      pc = "80000080";
      binary = "00c00093";
      operand = "x1,x0,12";
      gpr = "na:0000000c" ∷ [];
      imm = none;
    }
    ∷ record {
      instr_str = "lw x2,0(x1)";
      instr = "lw";
      pc = "80000084";
      binary = "0000a103";
      operand = "x2,x1,0";
      gpr = "na:00000001" ∷ [];
      imm = some "0";
    }
    ∷ []

two_read : process_ibex_sim_log dv (some trace) true ≡ ok entries
unfolding process_ibex_sim_log many some_of literal search has join lines split
    convert_operands_to_abi convert_operand process_imm
two_read = refl

process_ibex_sim_log-pcs_example :
    (("80000080" ∷ "80000084" ∷ []) ≡ pcs (before_ecall (lines trace))) × (is_empty entries ≡ false)
process_ibex_sim_log-pcs_example = process_ibex_sim_log-pcs dv true trace entries two_read
