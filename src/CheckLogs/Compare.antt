-- ===== src/CheckLogs/Compare.antt =====
-- What `compare_test_run` concludes from the trace, the log and the mode recorded before.
use kiemchung_ibex_v.Base.{String, Bool, true, false, List, Option, none, some, ◌≡◌, ◌↔◌, arith}
use kiemchung_ibex_v.Base.{Result, ok, err, ErrorKind}
use kiemchung_ibex_v.TestRunResult.{TestRunResult, FailureModes, timeout, file_error, log_error}
use kiemchung_ibex_v.CheckLogs.{
  after_log, file_failure, record_failure, after_trace, check_ibex_uvm_log, compare_test_run,
}
use kiemchung_ibex_v.CheckLogs.Verdict.{
  Verdict, passes, fails, no_result, raises, verdict, verdict_by_lines, check_ibex_uvm_log-verdict,
}

abbrev pub is_pass : Verdict → Bool
is_pass passes = true
is_pass fails = false
is_pass no_result = false
is_pass raises = false

-- The trace was processed, and the log could be read and passes.
abbrev pub reads_well : Result (Unit {0}) → Result (List String) → Bool
reads_well (err kind e) rtl_log = false
reads_well (ok _) (err kind e) = false
reads_well (ok _) (ok log) = is_pass (verdict_by_lines log)

-- The same, and the simulation was not killed.
abbrev pub all_well : Option FailureModes → Result (Unit {0}) → Result (List String) → Bool
all_well mode processed rtl_log = elim mode [
  | some timeout ↦ false
  | _ ↦ reads_well processed rtl_log
]

module _ (timeout_text name : String) (trr : TestRunResult) (fresh : trr.passed ≡ none) where
  after_log-passed :
      (r : Result (Bool × List String × FailureModes)) (t : TestRunResult)
      → after_log timeout_text name trr r ≡ ok t
      → (t.passed ≡ some true) ↔ (is_pass (verdict r) ≡ true)
  unfolding after_log record_failure file_failure
  after_log-passed (ok (true, lines, mode)) t h = ground arith
  after_log-passed (ok (false, lines, FailureModes.none)) t h = ground arith
  after_log-passed (ok (false, lines, timeout)) t h = ground arith
  after_log-passed (ok (false, lines, file_error)) t h = ground arith
  after_log-passed (ok (false, lines, log_error)) t h = ground arith
  after_log-passed (err ErrorKind.os_error e) t h = ground arith
  after_log-passed (err kind e) t h = cc

  after_trace-passed :
      (processed : Result (Unit {0})) (rtl_log : Result (List String)) (t : TestRunResult)
      → after_trace timeout_text name trr processed rtl_log ≡ ok t
      → (t.passed ≡ some true) ↔ (reads_well processed rtl_log ≡ true)
  unfolding after_trace
  after_trace-passed (ok u) (ok log) t h =
      rw (← check_ibex_uvm_log-verdict log) (after_log-passed (check_ibex_uvm_log log) t h)
  after_trace-passed (ok u) (err kind e) t h = after_log-passed (err kind e) t h
  after_trace-passed (err ErrorKind.os_error e) rtl_log t h = ground arith
  after_trace-passed (err ErrorKind.runtime_error e) rtl_log t h = ground arith
  after_trace-passed (err kind e) rtl_log t h = cc

  -- Of a test not yet judged, the result is a pass exactly if the simulation was not killed, the
  -- trace was processed, and the log could be read and passes.
  pub compare_test_run-passed :
      (processed : Result (Unit {0})) (rtl_log : Result (List String)) (t : TestRunResult)
      → compare_test_run timeout_text name trr processed rtl_log ≡ ok t
      → (t.passed ≡ some true) ↔ (all_well trr.failure_mode processed rtl_log ≡ true)
  unfolding compare_test_run
  compare_test_run-passed processed rtl_log t h =
      ground (arith, after_trace-passed processed rtl_log t)

-- A test that was killed is judged as failed, whatever its logs say.
pub compare_test_run-killed :
    (timeout_text name : String) (trr : TestRunResult)
    → trr.failure_mode ≡ some timeout
    → (processed : Result (Unit {0})) (rtl_log : Result (List String))
    → compare_test_run timeout_text name trr processed rtl_log
      ≡ ok (record trr { passed = some false })
unfolding compare_test_run
compare_test_run-killed timeout_text name trr h processed rtl_log = ground (arith, h)
