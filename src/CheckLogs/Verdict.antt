-- ===== src/CheckLogs/Verdict.antt =====
-- The verdict of the log check, against a description by the lines alone.
use kiemchung_ibex_v.Base.{ℕ, ◌+◌, String, Bool, true, false, ◌&&◌, ◌||◌, not, List, [], ◌∷◌}
use kiemchung_ibex_v.Base.{Option, none, some, ◌≡◌, arith, any, if◌then◌else◌, Result, ok, err}
use kiemchung_ibex_v.TestRunResult.{FailureModes, timeout, log_error, file_error}
use kiemchung_ibex_v.CheckLogs.{
  is_error, is_passed, is_failed, Scan, start, note_error, note_passed, scan, conclude,
  check_ibex_uvm_log,
}

-- Some error line has no PASSED and no FAILED line above it.
abbrev pub error_first : List String → Bool
error_first [] = false
error_first (line ∷ log) =
    is_error line || not (is_passed line || is_failed line) && error_first log

abbrev pub is_some {ℓ} : {A : Type ℓ} → Option A → Bool
is_some none = false
is_some (some a) = true

failed-scan :
    (n : ℕ) (log : List String) (s : Scan)
    → (scan n log s).failed
      ≡ s.failed || any is_failed log || not s.test_result_seen && error_first log
unfolding scan
failed-scan n [] s = ground arith
failed-scan n (line ∷ log) s =
    ground (arith, failed-scan (n + 1) log (note_passed line (note_error n line s)))

error-scan :
    (n : ℕ) (log : List String) (s : Scan)
    → is_some (scan n log s).error ≡ is_some s.error || not s.test_result_seen && error_first log
unfolding scan
error-scan n [] s = ground arith
error-scan n (line ∷ log) s =
    ground (arith, error-scan (n + 1) log (note_passed line (note_error n line s)))

passed-scan :
    (n : ℕ) (log : List String) (s : Scan)
    → any is_failed log ≡ false
    → (scan n log s).passed ≡ s.passed || any is_passed log
unfolding scan
passed-scan n [] s h = ground arith
passed-scan n (line ∷ log) s h =
    ground (arith, passed-scan (n + 1) log (note_passed line (note_error n line s)))

-- What a caller sees of the log check: it passes, it reports a failure, it finds no result at all,
-- or it raises.
pub data Verdict : Type 0 where
  passes fails no_result raises : Verdict

abbrev pub verdict : Result (Bool × List String × FailureModes) → Verdict
verdict (err kind e) = raises
verdict (ok (true, _, _)) = passes
verdict (ok (false, _, FailureModes.none)) = no_result
verdict (ok (false, _, timeout)) = fails
verdict (ok (false, _, file_error)) = fails
verdict (ok (false, _, log_error)) = fails

-- The same by the lines alone.
unfoldable pub verdict_by_lines : List String → Verdict
verdict_by_lines log =
    if error_first log
    then fails
    else if any is_failed log
    then raises
    else if any is_passed log
    then passes
    else no_result

verdict-conclude :
    (log : List String) (s : Scan)
    → verdict (conclude log s) ≡ (
        if s.failed
        then (if is_some s.error then fails else raises)
        else if s.passed
        then passes
        else no_result)
unfolding conclude
verdict-conclude log s = ground arith

-- The log check fails exactly if an error line stands above every result line or beside the first;
-- else it raises if some line says FAILED; else it passes if some line says PASSED; and else it
-- reports no result.
pub check_ibex_uvm_log-verdict :
    (log : List String) → verdict (check_ibex_uvm_log log) ≡ verdict_by_lines log
unfolding check_ibex_uvm_log verdict_by_lines
check_ibex_uvm_log-verdict log = ground (
  arith,
  verdict-conclude log (scan 1 log start),
  failed-scan 1 log start,
  error-scan 1 log start,
  passed-scan 1 log start,
)
