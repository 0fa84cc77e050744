-- ===== src/CheckLogs/Extract.antt =====
-- The extract of the log: which line it is about and how many lines it has.
use kiemchung_ibex_v.Base.{ℕ, zero, suc, ◌+◌, ◌-◌, String, true, false, List, [], ◌∷◌, min, max}
use kiemchung_ibex_v.Base.{
  some, ◌≡◌, ◌≢◌, ◌⊎◌, inl, inr, arith, ok, length, get_elem?, Bool-cases, Option-cases, ap, ◌∙◌,
}
use kiemchung_ibex_v.Base.{if◌then◌else◌}
use kiemchung_ibex_v.Base.Text.{has}
use kiemchung_ibex_v.TestRunResult.{FailureModes, timeout, log_error}
use kiemchung_ibex_v.CheckLogs.{
  is_error, is_failed, Scan, start, note_error, note_passed, scan, extract, conclude,
  check_ibex_uvm_log,
}

length-extract :
    (e n : ℕ) (log : List String)
    → length (extract e n log) ≡ min (n + length log) (e + 5) - max n (e - 5)
unfolding extract
length-extract e n [] = omega arith
length-extract e n (line ∷ log) = ground (arith, length-extract e (n + 1) log)

-- Where the noted error line stands.
abbrev Noted : ℕ → List String → ℕ → String → Type 0
Noted n log e line = (i : ℕ) × (e ≡ n + i) × (get_elem? log i ≡ some line) × (is_error line ≡ true)

later :
    (n : ℕ) (x : String) (log : List String) (e : ℕ) (line : String)
    → Noted (n + 1) log e line
    → Noted n (x ∷ log) e line
later n x log e line (i, p, q, r) = (suc i, omega arith, q, r)

Noted-step :
    (n e : ℕ) (x line : String) (log : List String) (s : Scan)
    → (note_passed x (note_error n x s)).error ≡ some (e, line)
    → (s.error ≡ some (e, line)) ⊎ Noted n (x ∷ log) e line
unfolding note_passed note_error
Noted-step n e x line log s h = elim (Bool-cases (is_error x)) [
  | inl is ↦ elim (Bool-cases s.test_result_seen) [
    | inl seen ↦ inl (ground arith)
    | inr unseen ↦ inr (zero, ground arith, ground arith, ground arith)
  ]
  | inr not ↦ inl (ground arith)
]

Noted-scan :
    (n e : ℕ) (line : String) (log : List String) (s : Scan)
    → (scan n log s).error ≡ some (e, line)
    → (s.error ≡ some (e, line)) ⊎ Noted n log e line
unfolding scan
Noted-scan n e line [] s h = inl h
Noted-scan n e line (x ∷ log) s h = elim (Bool-cases (is_failed x)) [
  | inl last ↦ Noted-step n e x line log s (ground arith)
  | inr more ↦ elim (Noted-scan (n + 1) e line log s' (ground arith)) [
    | inl now ↦ Noted-step n e x line log s now
    | inr below ↦ inr (later n x log e line below)
  ]
]
  where
    s' : Scan
    s' = note_passed x (note_error n x s)

conclude-extract :
    (log lines : List String) (mode : FailureModes) (s : Scan)
    → conclude log s ≡ ok (false, lines, mode)
    → mode ≢ FailureModes.none
    → (e : ℕ) × (line : String) × (s.error ≡ some (e, line))
      × (lines ≡ extract e 1 log)
      × (mode ≡ (if has "Test failed due to wall-clock timeout." line then timeout else log_error))
unfolding conclude
conclude-extract log lines mode s h failed = elim (Option-cases s.error) [
  | inl gone ↦ absurd (ground arith)
  | inr (pair, found) ↦ (pair.0, pair.1, found, ground arith, ground arith)
]

-- The extract is the part of the log from five lines above an error line to four lines below it,
-- at most ten lines, and the mode is TIMEOUT exactly if the error line tells of a wall-clock
-- timeout.
pub check_ibex_uvm_log-extract :
    (log lines : List String) (mode : FailureModes)
    → check_ibex_uvm_log log ≡ ok (false, lines, mode)
    → mode ≢ FailureModes.none
    → (e : ℕ) × (line : String) × (get_elem? log e ≡ some line)
      × (is_error line ≡ true)
      × (lines ≡ extract (suc e) 1 log)
      × (length lines ≡ min (length log + 1) (e + 6) - max 1 (e - 4))
      × (mode ≡ (if has "Test failed due to wall-clock timeout." line then timeout else log_error))
unfolding check_ibex_uvm_log
check_ibex_uvm_log-extract log lines mode h failed =
    let (e, line, found, part, kind) =
      conclude-extract log lines mode (scan 1 log start) h failed in
    elim (Noted-scan 1 e line log start found) [
      | inl absent ↦ absurd (ground arith)
      | inr (i, at, here, is) ↦
          let number : e ≡ suc i = omega (arith, at) in
          (
            i,
            line,
            here,
            is,
            part ∙ ap (λ k. extract k 1 log) number,
            ap length part ∙ ground (arith, length-extract e 1 log),
            kind,
          )
    ]
