-- ===== src/TraceCsv/Log/Counts.antt =====
-- What the conversion of a trace keeps: an entry for each instruction before the first `ecall`.
use kiemchung_ibex_v.Base.{
  String, Bool, true, false, List, [], ◌∷◌, Option, none, some, ok, err, ErrorKind, ◌>>=◌, map,
  if◌then◌else◌, ◌≡◌, refl, sym, ap, subst, ◌∙◌, arith, >>=-eq-ok, ok-injective, Bool-cases,
  Option-cases, inl, inr,
}
use mathlib.Core.Path.{ap₂}
use kiemchung_ibex_v.Base.Text.{has, lines}
use kiemchung_ibex_v.TraceCsv.Log.{
  RiscvDv, Entry, Instr, match_instr, match_rd, new_entry, add_gpr, expand_trace_entry,
  process_lines, process_ibex_sim_log, is_empty,
}

-- The lines before the first that mentions `ecall`
abbrev pub before_ecall : List String → List String
before_ecall [] = []
before_ecall (line ∷ rest) =
    let later = before_ecall rest in if has "ecall" line then [] else line ∷ later

-- The program counters of the lines that hold an instruction, in order
pub pcs : List String → List String
pcs [] = []
pcs (line ∷ rest) = elim (match_instr line) [ none ↦ pcs rest | some m ↦ m.pc ∷ pcs rest ]

module _ (dv : RiscvDv) (full_trace : Bool) where
  new_entry_pc : (m : Instr) (e : Entry) → new_entry dv full_trace m ≡ ok e → e.pc ≡ m.pc
  unfolding new_entry expand_trace_entry
  new_entry_pc m e h = ground (arith, h)

  add_gpr_pc : (o : Option (String × String)) (e : Entry) → (add_gpr dv o e).pc ≡ e.pc
  unfolding add_gpr
  add_gpr_pc none e = refl
  add_gpr_pc (some (rd, rd_val)) e = refl

  process_lines_lem :
      (ls : List String) (entries : List Entry)
      → process_lines dv full_trace ls ≡ ok entries
      → map (λ e. e.pc) entries ≡ pcs (before_ecall ls)
  unfolding process_lines pcs
  process_lines_lem [] entries h = ap (map (λ e. e.pc)) (sym (ok-injective h))
  process_lines_lem (line ∷ rest) entries h = elim (Bool-cases (has "ecall" line)) [
    | inl ends ↦ ap (map (λ e. e.pc)) (sym (ended ends)) ∙ rw (ends) refl
    | inr on ↦ rw (on) (elim (Option-cases (match_instr line)) [
      | inl missed ↦ rw (pcs, missed) (process_lines_lem rest entries (skipped on missed))
      | inr (m, found) ↦
          let (e, made, h1) =
            >>=-eq-ok (new_entry dv full_trace m)
              (λ entry. do
                later ← process_lines dv full_trace rest
                ok (add_gpr dv (match_rd line) entry ∷ later))
              {result = entries} (taken m on found) in
          let (later, read, done) =
            >>=-eq-ok (process_lines dv full_trace rest)
              (λ later. ok (add_gpr dv (match_rd line) e ∷ later)) h1 in
          rw (pcs, found)
            (ap (map (λ e. e.pc)) (sym (ok-injective done))
              ∙ ap₂ (λ (pc : String) (pcs : List String). pc ∷ pcs)
                  (add_gpr_pc (match_rd line) e ∙ new_entry_pc m e made)
                  (process_lines_lem rest later read))
    ])
  ]
    where
      ended : has "ecall" line ≡ true → [] ≡ entries
      ended ends = ground (arith, h, ends)

      skipped :
          has "ecall" line ≡ false
          → match_instr line ≡ none
          → process_lines dv full_trace rest ≡ ok entries
      skipped on missed = ground (arith, h, on, missed)

      taken :
          (m : Instr)
          → has "ecall" line ≡ false
          → match_instr line ≡ some m
          → (do
            entry ← new_entry dv full_trace m
            later ← process_lines dv full_trace rest
            ok (add_gpr dv (match_rd line) entry ∷ later))
            ≡ ok entries
      taken m on found = ground (arith, h, on, found)

-- If a trace can be converted, there is at least one entry, and there is one for each line before
-- the first `ecall` that holds an instruction, in order, with its program counter.
pub process_ibex_sim_log-pcs :
    (dv : RiscvDv) (full_trace : Bool) (text : String) (entries : List Entry)
    → process_ibex_sim_log dv (some text) full_trace ≡ ok entries
    → (map (λ e. e.pc) entries ≡ pcs (before_ecall (lines text))) × (is_empty entries ≡ false)
unfolding process_ibex_sim_log
process_ibex_sim_log-pcs dv full_trace text entries h =
    let (found, read, done) =
      >>=-eq-ok (process_lines dv full_trace (lines text))
        (λ found.
          if is_empty found
          then err ErrorKind.runtime_error "No instructions in logfile"
          else ok found)
        h in
    elim (Bool-cases (is_empty found)) [
      | inl nothing ↦ ground (arith, done, nothing)
      | inr some_found ↦
          let same : found ≡ entries = ground (arith, done, some_found) in
          subst
            (λ es.
              (map (λ (e : Entry). e.pc) es ≡ pcs (before_ecall (lines text)))
              × (is_empty es ≡ false))
            same (process_lines_lem dv full_trace (lines text) found read, some_found)
    ]
