-- ===== src/TraceCsv/Tests.antt =====
-- An addition, and a branch.
use kiemchung_ibex_v.Base.{String, true, [], ◌∷◌, ok, ◌≡◌, refl, map, if◌then◌else◌, str_eq}
use kiemchung_ibex_v.Base.Text.{all_free, free_of_char, join, str_int}
use kiemchung_ibex_v.TraceCsv.{convert_operand, convert_operands_to_abi, process_imm}
use kiemchung_ibex_v.TraceCsv.Operands.{convert_operands_to_abi-join}

abbrev abi : String → String
abi name = if str_eq name "x6" then "t1" else "na"

ops_free : all_free b',' ("x6" ∷ "x6" ∷ "1000" ∷ []) ≡ true
unfolding free_of_char
ops_free = refl

addition_test :
    convert_operands_to_abi abi (join "," ("x6" ∷ "x6" ∷ "1000" ∷ []))
    ≡ join "," (map (convert_operand abi) ("x6" ∷ "x6" ∷ "1000" ∷ []))
addition_test = convert_operands_to_abi-join abi "x6" ("x6" ∷ "1000" ∷ []) ops_free

branch_test : process_imm str_int "beq" "80000010" "x1,x2,8000000c" ≡ ok "x1,x2,-4"
unfolding process_imm str_int
branch_test = refl
