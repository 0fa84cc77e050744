-- ===== src/CheckLogs.antt =====
-- check_logs.py (dv/uvm/core_ibex/scripts) and the log check that it calls, `check_ibex_uvm_log`
-- of ibex_log_to_trace_csv.py (dv/uvm/core_ibex/riscv_dv_extension). A log is its list of lines.
pub mod Verdict
pub mod Extract
pub mod Compare
pub mod Main
pub mod Recorded
pub mod Steps
mod Tests
use kiemchung_ibex_v.Base.{ℕ, ◌+◌, String, ◌<>◌, Bool, true, false, ◌&&◌, ◌||◌, not}
use kiemchung_ibex_v.Base.{Option, none, some, List, [], ◌∷◌, leb, ltb, ◌==◌, if◌then◌else◌}
use kiemchung_ibex_v.Base.{Result, ok, err, ErrorKind}
use kiemchung_ibex_v.Base.Text.{has, str_ℕ, strip, join}
use kiemchung_ibex_v.TestRunResult.{TestRunResult, FailureModes, timeout, file_error, log_error}

-- The three tests of a line.
unfoldable pub is_error : String → Bool
is_error line = has "UVM_ERROR" line || has "UVM_FATAL" line || has "Error" line

unfoldable pub is_passed : String → Bool
is_passed line = has "RISC-V UVM TEST PASSED" line

unfoldable pub is_failed : String → Bool
is_failed line = has "RISC-V UVM TEST FAILED" line

-- The variables of the loop over the lines.
pub record Scan : Type 0 where
  pub passed : Bool
  pub failed : Bool
  pub error : Option (ℕ × String)
  pub test_result_seen : Bool

abbrev pub start : Scan
start = record { passed = false; failed = false; error = none; test_result_seen = false }

note_error : ℕ → String → Scan → Scan
note_error linenum line s =
    if is_error line && not s.test_result_seen
    then record s { failed = true; error = some (linenum, line) }
    else s

note_passed : String → Scan → Scan
note_passed line s =
    if is_passed line then record s { passed = true; test_result_seen = true } else s

-- The loop, from line `linenum` on; a FAILED line ends it.
unfoldable pub scan : ℕ → List String → Scan → Scan
unfolding note_error note_passed
scan linenum [] s = s
scan linenum (line ∷ log) s =
    let s' = note_passed line (note_error linenum line s) in
    let more = scan (linenum + 1) log s' in
    if is_failed line then record s' { failed = true; test_result_seen = true } else more

format_line : ℕ → ℕ → String → String
format_line error_linenum linenum line =
    (if linenum == error_linenum then "[E] " else "    ") <> str_ℕ linenum <> ": " <> strip line

-- The second pass over the log, for `linenum in range(error_linenum - 5, error_linenum + 5)`.
pub extract : ℕ → ℕ → List String → List String
unfolding format_line
extract error_linenum linenum [] = []
extract error_linenum linenum (line ∷ log) =
    let rest = extract error_linenum (linenum + 1) log in
    if leb error_linenum (linenum + 5) && ltb linenum (error_linenum + 5)
    then format_line error_linenum linenum line ∷ rest
    else rest

-- What stands below the loop. With no error line the text is sought in `None`: a `TypeError`.
unfoldable pub conclude : List String → Scan → Result (Bool × List String × FailureModes)
conclude log s =
    if s.failed
    then elim s.error [
      | none ↦ err ErrorKind.type_error "argument of type 'NoneType' is not iterable"
      | some (linenum, line) ↦ ok (
        false,
        extract linenum 1 log,
        if has "Test failed due to wall-clock timeout." line then timeout else log_error,
      )
    ]
    else ok (s.passed, [], FailureModes.none)

unfoldable pub check_ibex_uvm_log : List String → Result (Bool × List String × FailureModes)
check_ibex_uvm_log log = conclude log (scan 1 log start)

-- The last part of `compare_test_run`, on what the log check returned.
pub record_failure : List String → FailureModes → TestRunResult → String → String → TestRunResult
record_failure uvm_log_lines mode trr timeout_text rtl_log_name =
    let message : String = elim mode [
      | timeout ↦
          "[FAILURE] Simulation ended gracefully due to timeout [" <> timeout_text <> "s].\n"
      | _ ↦ "\n[FAILED]: error seen in '" <> rtl_log_name <> "'\n"
    ] in
    record trr {
      failure_mode = some mode;
      failure_message = some (elim uvm_log_lines [
        | [] ↦ message
        | line ∷ lines ↦
            message
            <> "---------------*LOG-EXTRACT*----------------\n"
            <> join "\n" (line ∷ lines)
            <> "\n--------------------------------------------\n"
      ]);
    }

file_failure : String → TestRunResult → TestRunResult
file_failure message trr = record trr {
  passed = some false;
  failure_mode = some file_error;
  failure_message = some message;
}

module _ (timeout_text rtl_log_name : String) where
  after_log : TestRunResult → Result (Bool × List String × FailureModes) → Result TestRunResult
  after_log trr (ok (true, _, _)) = ok (record trr { passed = some true })
  after_log trr (ok (false, lines, mode)) =
      ok (record_failure lines mode trr timeout_text rtl_log_name)
  after_log trr (err ErrorKind.os_error e) =
      ok (file_failure ("[FAILED] Could not open simulation log: " <> e <> "\n") trr)
  after_log trr (err kind e) = err kind e

  -- `open(uvm_log)` and the check of what it holds
  check_log_file : Result (List String) → Result (Bool × List String × FailureModes)
  check_log_file (ok log) = check_ibex_uvm_log log
  check_log_file (err kind e) = err kind e

  after_trace : TestRunResult → Result (Unit {0}) → Result (List String) → Result TestRunResult
  unfolding after_log check_log_file file_failure
  after_trace trr (ok _) rtl_log = after_log trr (check_log_file rtl_log)
  after_trace trr (err ErrorKind.os_error e) rtl_log =
      ok (file_failure ("[FAILED]: Processing the ibex trace failed: " <> e <> "\n") trr)
  after_trace trr (err ErrorKind.runtime_error e) rtl_log =
      ok (file_failure ("[FAILED]: Processing the ibex trace failed: " <> e <> "\n") trr)
  after_trace trr (err kind e) rtl_log = err kind e

  -- `processed` is what `process_ibex_sim_log` did, and `rtl_log` what reading the log gave.
  unfoldable pub compare_test_run :
      TestRunResult → Result (Unit {0}) → Result (List String) → Result TestRunResult
  unfolding after_trace
  compare_test_run trr processed rtl_log = elim trr.failure_mode [
    | some timeout ↦ ok (record trr { passed = some false })
    | _ ↦ after_trace trr processed rtl_log
  ]
