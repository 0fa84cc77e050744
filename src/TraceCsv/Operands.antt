-- ===== src/TraceCsv/Operands.antt =====
-- The operands after their conversion.
use kiemchung_ibex_v.Base.{String, true, List, ◌∷◌, ◌≡◌, ap, map}
use kiemchung_ibex_v.Base.Text.{all_free, join, split-join}
use kiemchung_ibex_v.TraceCsv.{convert_operand, convert_operands_to_abi}

-- Of operands joined by commas, each is converted by itself, and their number and order are kept.
pub convert_operands_to_abi-join :
    (gpr_to_abi : String → String) (op : String) (ops : List String)
    → all_free b',' (op ∷ ops) ≡ true
    → convert_operands_to_abi gpr_to_abi (join "," (op ∷ ops))
      ≡ join "," (map (convert_operand gpr_to_abi) (op ∷ ops))
unfolding convert_operands_to_abi
convert_operands_to_abi-join gpr_to_abi op ops h =
    ap (λ (l : List String). join "," (map (convert_operand gpr_to_abi) l)) (split-join op ops h)
