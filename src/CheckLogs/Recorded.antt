-- ===== src/CheckLogs/Recorded.antt =====
-- What the check of the logs records, test by test.
use kiemchung_ibex_v.Base.{
  String, Bool, true, List, [], ◌∷◌, none, some, ok, ◌≡◌, ◌≢◌, ◌↔◌, refl, sym, ap, subst, ◌∙◌,
  arith, All, Distinct, map,
}
use kiemchung_ibex_v.Base.Dict.{Dict}
use kiemchung_ibex_v.CheckLogs.Compare.{all_well, compare_test_run-passed}
use kiemchung_ibex_v.CheckLogs.Main.{Logs, compare, main}
use kiemchung_ibex_v.Metadata.{RegressionMetadata}
use kiemchung_ibex_v.TestData.{Printing, FieldValue}
use kiemchung_ibex_v.TestData.Files.{
  trr_pickle, Files, Outcome, construct_trr, construct_from_pickle,
}
use kiemchung_ibex_v.TestData.Placed.{pickle_of, is_relative}
use kiemchung_ibex_v.TestData.Stored.{follow_lem}
use kiemchung_ibex_v.TestRunResult.{FilePath, TestRunResult}
use kiemchung_ibex_v.CheckLogs.Steps.{Run, name_of, HasFiles, check_all, KeepsPickles, main_step}

module _ (opens : FilePath → Bool) (p : Printing) (asdict_md : RegressionMetadata → Dict FieldValue)
    (l : Logs) (dm : FilePath) where
  -- What is recorded of a run: what the comparison gives, and that its test passed exactly if its
  -- logs are well.
  abbrev pub Judged : Files → Run → Type 0
  Judged files (a, trr) =
      (t : TestRunResult) × (compare l trr ≡ ok t)
      × (construct_trr files dm (name_of a) ≡ ok (trr_pickle t))
      × ((t.passed ≡ some true)
          ↔ (all_well trr.failure_mode (l.processing trr) (l.rtl_log trr) ≡ true))

  -- The record of a run is in its pickle.
  abbrev pub Holds : Files → Run → Type 0
  Holds files (a, trr) = files (pickle_of dm (name_of a)) ≡ some (trr_pickle trr)

  abbrev Checked : Files → Run → Type 0
  Checked files (a, trr) = (t : TestRunResult) × (compare l trr ≡ ok t) × Holds files (a, t)

  abbrev Others : List Run → Files → Files → Type 0
  Others runs files final =
      (n : String)
      → is_relative n ≡ true
      → All (λ m. n ≢ m) (map (λ r. name_of r.0) runs)
      → final (pickle_of dm n) ≡ files (pickle_of dm n)

  -- What holds of runs goes on to do so where other pickles are written.
  All-Holds :
      (n : String) (runs : List Run) (files later : Files)
      → ((m : String)
          → is_relative m ≡ true
          → m ≢ n
          → later (pickle_of dm m) ≡ files (pickle_of dm m))
      → All (HasFiles opens p asdict_md l dm) runs
      → All (λ m. n ≢ m) (map (λ r. name_of r.0) runs)
      → All (Holds files) runs
      → All (Holds later) runs
  All-Holds n [] files later kept placed others held = tt
  All-Holds n ((a, trr) ∷ runs) files later kept ((r, _, _), placed) (o, others) (h, held) = (
    kept (name_of a) r (λ same. o (sym same)) ∙ h,
    All-Holds n runs files later kept placed others held,
  )

  check_all-Checked :
      (runs : List Run) (files : Files)
      → KeepsPickles opens p asdict_md l dm
      → All (HasFiles opens p asdict_md l dm) runs
      → Distinct (map (λ r. name_of r.0) runs)
      → All (Holds files) runs
      → (check_all opens p asdict_md l dm (map (λ r. r.0) runs) files).1 ≡ ok tt
      → All (Checked (check_all opens p asdict_md l dm (map (λ r. r.0) runs) files).0) runs
        × Others runs files (check_all opens p asdict_md l dm (map (λ r. r.0) runs) files).0
  check_all-Checked [] files keeps placed distinct held done = (tt, λ n within others. refl)
  check_all-Checked ((a, trr) ∷ runs) files keeps (placed, more) (apart, distinct) (h, held) done =
      let rest = check_all opens p asdict_md l dm (map (λ r. r.0) runs) in
      let (first_done, followed) = follow_lem (main opens p asdict_md l dm a files) rest done in
      let fs = (main opens p asdict_md l dm a files).0 in
      let (t, e, recorded, kept) =
        main_step opens p asdict_md l dm a trr files keeps placed h first_done in
      let (checked, others) =
        check_all-Checked runs fs keeps more distinct
          (All-Holds (name_of a) runs files fs kept more apart held)
          (ap (λ (o : Outcome). o.1) (sym followed) ∙ done) in
      subst
        (λ (o : Outcome). All (Checked o.0) ((a, trr) ∷ runs) × Others ((a, trr) ∷ runs) files o.0)
        (sym followed)
        (
          ((t, e, others (name_of a) placed.0 apart ∙ recorded), checked),
          λ n within (o, os). others n within os ∙ kept n within o,
        )

  Checked-Judged : (files : Files) (r : Run) → r.1.passed ≡ none → Checked files r → Judged files r
  unfolding compare construct_trr construct_from_pickle
  Checked-Judged files (a, trr) fresh (t, e, held) =
      (t, e, ground (arith, held), compare_test_run-passed _ _ trr fresh _ _ t e)

  All-Judged :
      (files : Files) (runs : List Run)
      → All (λ r. r.1.passed ≡ none) runs
      → All (Checked files) runs
      → All (Judged files) runs
  All-Judged files [] fresh checked = tt
  All-Judged files (r ∷ runs) (f, fresh) (c, checked) =
      (Checked-Judged files r f c, All-Judged files runs fresh checked)

  -- If the script is run for one test after the other, and none of these runs raises, then each record
  -- that it was run for holds what the comparison with the logs of its own test gives, and says that
  -- the test passed exactly if these logs are well. The tests are different ones that are not judged
  -- yet, the pickle of each lies below the directory of the metadata and holds its record, and no text
  -- of a record or of a trace is written to a pickle there.
  pub check_all-Judged :
      (runs : List Run) (files : Files)
      → KeepsPickles opens p asdict_md l dm
      → All (HasFiles opens p asdict_md l dm) runs
      → Distinct (map (λ r. name_of r.0) runs)
      → All (Holds files) runs
      → All (λ r. r.1.passed ≡ none) runs
      → (check_all opens p asdict_md l dm (map (λ r. r.0) runs) files).1 ≡ ok tt
      → All (Judged (check_all opens p asdict_md l dm (map (λ r. r.0) runs) files).0) runs
  check_all-Judged runs files keeps placed distinct held fresh done =
      All-Judged (check_all opens p asdict_md l dm (map (λ r. r.0) runs) files).0 runs fresh
        (check_all-Checked runs files keeps placed distinct held done).0
