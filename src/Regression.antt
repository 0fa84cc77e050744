-- ===== src/Regression.antt =====
-- The check of the logs of a regression followed by the collection of the results: check_logs.py and
-- collect_results.py (dv/uvm/core_ibex/scripts), joined by the files of the records.
mod Tests
use kiemchung_ibex_v.Base.{
  ℕ, String, ◌<>◌, Bool, false, List, Result, ok, err, ErrorKind, ◌≢◌, subst, map, ◌>>=◌,
}
use kiemchung_ibex_v.Base.Dict.{Dict}
use kiemchung_ibex_v.CheckLogs.Compare.{all_well}
use kiemchung_ibex_v.CheckLogs.Main.{Logs}
use kiemchung_ibex_v.CheckLogs.Steps.{Run, name_of}
use kiemchung_ibex_v.Metadata.{RegressionMetadata}
use kiemchung_ibex_v.Reports.Main.{Written}
use kiemchung_ibex_v.TestData.{Printing, FieldValue}
use kiemchung_ibex_v.TestData.Files.{Files, trr_pickle, construct_from_pickle}
use kiemchung_ibex_v.TestData.Placed.{pickle_of}
use kiemchung_ibex_v.TestRunResult.{FilePath, TestRunResult}

-- `construct_from_pickle(f)`, and the first access to `trr.testname`, which metadata do not have
unfoldable pub load_record : Files → FilePath → Result TestRunResult
unfolding construct_from_pickle
load_record files f = elim (construct_from_pickle files f) [
  | err kind message ↦ err kind message
  | ok (trr_pickle trr) ↦ ok trr
  | ok other ↦ err ErrorKind.attribute_error "testname"
]

-- The logs of a run are well.
abbrev pub well : Logs → Run → Bool
well l (a, trr) = all_well trr.failure_mode (l.processing trr) (l.rtl_log trr)

module _ (opens : FilePath → Bool) (p : Printing) (asdict_md : RegressionMetadata → Dict FieldValue)
    (l : Logs) (dm : FilePath) where
  abbrev pickles : List Run → List FilePath
  pickles = map (λ r. pickle_of dm (name_of r.0))
