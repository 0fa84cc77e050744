-- ===== src/CheckLogs/Main.antt =====
-- `_main` of check_logs.py (dv/uvm/core_ibex/scripts), on the files that hold the records. What the
-- conversion of the trace does to the files, what reading a log gives and two texts are parameters.
use kiemchung_ibex_v.Base.{ℕ, String, ◌<>◌, Bool, true, List, some, Result, ok, err, ErrorKind}
use kiemchung_ibex_v.Base.Dict.{Dict}
use kiemchung_ibex_v.Base.Text.{str_ℕ}
use kiemchung_ibex_v.CheckLogs.{compare_test_run}
use kiemchung_ibex_v.Metadata.{RegressionMetadata}
use kiemchung_ibex_v.TestData.{Printing, FieldValue}
use kiemchung_ibex_v.TestData.Files.{trr_pickle, Files, Outcome, construct_trr, export_trr}
use kiemchung_ibex_v.TestRunResult.{FilePath, TestRunResult, timeout}

-- The logs of the tests, which do not change while they are checked
pub record Logs : Type 0 where
  -- What `process_ibex_sim_log(trr.rtl_trace, trr.dir_test/'rtl_trace.csv')` gives
  pub processing : TestRunResult → Result (Unit {0})
  -- The files after it
  pub trace_csv : TestRunResult → Files → Files
  -- The lines of `trr.rtl_log`, if it can be opened
  pub rtl_log : TestRunResult → Result (List String)
  -- `str(trr.timeout_s)` and `trr.rtl_log.name`
  pub timeout_text : TestRunResult → String
  pub rtl_log_name : TestRunResult → String

-- `compare_test_run`, on the logs of the test
unfoldable pub compare : Logs → TestRunResult → Result TestRunResult
compare l trr =
    compare_test_run (l.timeout_text trr) (l.rtl_log_name trr) trr (l.processing trr)
      (l.rtl_log trr)

-- The trace of a test that was killed is not converted.
unfoldable pub traced : Logs → TestRunResult → Files → Files
traced l trr files = elim trr.failure_mode [ some timeout ↦ files | _ ↦ l.trace_csv trr files ]

module _ (opens : FilePath → Bool) (p : Printing) (asdict_md : RegressionMetadata → Dict FieldValue)
    (l : Logs) where
  -- The comparison and the export of its result
  unfoldable pub compare_and_export : TestRunResult → Files → Outcome
  unfolding compare traced
  compare_and_export trr files = elim (compare l trr) [
    | err kind message ↦ (traced l trr files, err kind message)
    | ok compared ↦ export_trr opens p asdict_md true compared (traced l trr files)
  ]

  -- `_main`, with the arguments that are read; the metadata have no `failure_mode`.
  unfoldable pub main : FilePath → String × ℕ → Files → Outcome
  unfolding compare_and_export
  main dir_metadata (test, seed) files =
      elim (construct_trr files dir_metadata (test <> "." <> str_ℕ seed)) [
        | err kind message ↦ (files, err kind message)
        | ok (trr_pickle trr) ↦ compare_and_export trr files
        | ok other ↦ (files, err ErrorKind.attribute_error "failure_mode")
      ]
