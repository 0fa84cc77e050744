-- ===== src/CheckLogs/Tests.antt =====
-- The log check run on small logs, and its theorems at concrete logs.
use kiemchung_ibex_v.Base.{
  ◌+◌, ◌-◌, String, true, false, List, [], ◌∷◌, some, none, min, max, ◌≡◌, ◌↔◌, refl, ok, length,
  get_elem?, if◌then◌else◌, suc, ℕ,
}
use kiemchung_ibex_v.Base.Text.{has, str_ℕ, strip}
use kiemchung_ibex_v.TestRunResult.{new, FailureModes, log_error, timeout}
use kiemchung_ibex_v.CheckLogs.{
  is_error, is_passed, is_failed, scan, extract, conclude, check_ibex_uvm_log, compare_test_run,
}
use kiemchung_ibex_v.CheckLogs.Verdict.{verdict, verdict_by_lines, check_ibex_uvm_log-verdict}
use kiemchung_ibex_v.CheckLogs.Extract.{check_ibex_uvm_log-extract}
use kiemchung_ibex_v.CheckLogs.Compare.{all_well, compare_test_run-passed}

abbrev bad_log : List String
bad_log = "start" ∷ "UVM_ERROR @ 3: oops" ∷ "RISC-V UVM TEST FAILED" ∷ "UVM_ERROR : 1" ∷ []

abbrev good_log : List String
good_log = "start" ∷ "RISC-V UVM TEST PASSED" ∷ "UVM_ERROR : 0" ∷ []

abbrev bad_lines : List String
bad_lines =
    "    1: start" ∷ "[E] 2: UVM_ERROR @ 3: oops" ∷ "    3: RISC-V UVM TEST FAILED"
    ∷ "    4: UVM_ERROR : 1" ∷ []

bad_log_fails : check_ibex_uvm_log bad_log ≡ ok (false, bad_lines, log_error)
unfolding check_ibex_uvm_log scan is_error is_passed is_failed has conclude extract str_ℕ strip
bad_log_fails = refl

good_log_passes : check_ibex_uvm_log good_log ≡ ok (true, [], FailureModes.none)
unfolding check_ibex_uvm_log scan is_error is_passed is_failed has conclude
good_log_passes = refl

check_ibex_uvm_log-verdict_example : verdict (check_ibex_uvm_log bad_log) ≡ verdict_by_lines bad_log
check_ibex_uvm_log-verdict_example = check_ibex_uvm_log-verdict bad_log

check_ibex_uvm_log-extract_example :
    (e : ℕ) × (line : String) × (get_elem? bad_log e ≡ some line)
    × (is_error line ≡ true)
    × (bad_lines ≡ extract (suc e) 1 bad_log)
    × (length bad_lines ≡ min (length bad_log + 1) (e + 6) - max 1 (e - 4))
    × (log_error
        ≡ (if has "Test failed due to wall-clock timeout." line then timeout else log_error))
check_ibex_uvm_log-extract_example =
    check_ibex_uvm_log-extract bad_log bad_lines log_error bad_log_fails (λ e. cc)

judged :
    compare_test_run "1800" "rtl_sim.log" new (ok tt) (ok good_log)
    ≡ ok (record new { passed = some true })
unfolding compare_test_run
judged = rw good_log_passes

judged_passes : (◌≡◌ (some true) (some true)) ↔ (all_well none (ok tt) (ok good_log) ≡ true)
judged_passes =
    compare_test_run-passed "1800" "rtl_sim.log" new refl (ok tt) (ok good_log)
      (record new { passed = some true }) judged
