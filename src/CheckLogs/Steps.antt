-- ===== src/CheckLogs/Steps.antt =====
-- What `_main` of check_logs.py does to the files of the records.
use kiemchung_ibex_v.Base.{
  ℕ, String, ◌<>◌, Bool, true, false, List, [], ◌∷◌, Option, some, Result, ok, err, ErrorKind,
  Result-cases, inl, inr, ◌≡◌, ◌≢◌, sym, ap, ◌∙◌, arith,
}
use kiemchung_ibex_v.Base.Dict.{Dict}
use kiemchung_ibex_v.Base.Text.{str_ℕ}
use kiemchung_ibex_v.CheckLogs.{
  after_log, file_failure, record_failure, after_trace, compare_test_run,
}
use kiemchung_ibex_v.CheckLogs.Main.{Logs, compare, traced, compare_and_export, main}
use kiemchung_ibex_v.Metadata.{RegressionMetadata}
use kiemchung_ibex_v.TestData.{Printing, FieldValue}
use kiemchung_ibex_v.TestData.Files.{
  trr_pickle, Files, Outcome, construct_trr, construct_from_pickle, export_trr, follow, trr_text,
}
use kiemchung_ibex_v.TestData.Placed.{pickle_of, is_relative, pickle_of-injective}
use kiemchung_ibex_v.TestData.Stored.{export_object-other, export_trr-pickle}
use kiemchung_ibex_v.TestRunResult.{FilePath, TestRunResult, FailureModes}

-- The files of a record
abbrev paths : TestRunResult → Option FilePath × Option FilePath
paths trr = (trr.pickle_file, trr.yaml_file)

module _ (timeout_text name : String) (trr : TestRunResult) where
  paths-after_log :
      (r : Result (Bool × List String × FailureModes)) (t : TestRunResult)
      → after_log timeout_text name trr r ≡ ok t
      → paths t ≡ paths trr
  unfolding after_log record_failure file_failure
  paths-after_log (ok (true, lines, mode)) t h = cc
  paths-after_log (ok (false, lines, mode)) t h = cc
  paths-after_log (err ErrorKind.os_error e) t h = cc
  paths-after_log (err kind e) t h = cc

  paths-after_trace :
      (processed : Result (Unit {0})) (rtl_log : Result (List String)) (t : TestRunResult)
      → after_trace timeout_text name trr processed rtl_log ≡ ok t
      → paths t ≡ paths trr
  unfolding after_trace file_failure
  paths-after_trace (ok u) rtl_log t h = ground (arith, paths-after_log _ t h)
  paths-after_trace (err ErrorKind.os_error e) rtl_log t h = cc
  paths-after_trace (err ErrorKind.runtime_error e) rtl_log t h = cc
  paths-after_trace (err kind e) rtl_log t h = cc

  paths-compare_test_run :
      (processed : Result (Unit {0})) (rtl_log : Result (List String)) (t : TestRunResult)
      → compare_test_run timeout_text name trr processed rtl_log ≡ ok t
      → paths t ≡ paths trr
  unfolding compare_test_run
  paths-compare_test_run processed rtl_log t h =
      ground (arith, paths-after_trace processed rtl_log t)

some-injective : {a b : String} → some a ≡ some b → a ≡ b
some-injective h = cc

-- The name of a test and its seed
abbrev pub name_of : String × ℕ → String
name_of (test, seed) = test <> "." <> str_ℕ seed

abbrev pub Run : Type 0
Run = (String × ℕ) × TestRunResult

module _ (opens : FilePath → Bool) (p : Printing) (asdict_md : RegressionMetadata → Dict FieldValue)
    (l : Logs) (dm : FilePath) where
  -- The record of a run has its pickle below the directory of the metadata, and its text in none of
  -- the pickles there.
  abbrev pub HasFiles : Run → Type 0
  HasFiles (a, trr) =
      (is_relative (name_of a) ≡ true)
      × (trr.pickle_file ≡ some (pickle_of dm (name_of a)))
      × ((n : String) → trr.yaml_file ≢ some (pickle_of dm n))

  -- The script, run for one test after the other, up to the first that raises
  abbrev pub check_all : List (String × ℕ) → Files → Outcome
  check_all [] files = (files, ok tt)
  check_all (a ∷ rest) files = follow (main opens p asdict_md l dm a files) (check_all rest)

  -- What the script does for a test whose record can be read
  main_lem :
      (a : String × ℕ) (trr : TestRunResult) (files : Files)
      → files (pickle_of dm (name_of a)) ≡ some (trr_pickle trr)
      → main opens p asdict_md l dm a files ≡ compare_and_export opens p asdict_md l trr files
  unfolding main construct_trr construct_from_pickle
  main_lem a trr files held = ground (arith, held)

  compare_and_export_lem :
      (trr : TestRunResult) (files : Files)
      → (compare_and_export opens p asdict_md l trr files).1 ≡ ok tt
      → (t : TestRunResult) × (compare l trr ≡ ok t)
        × (compare_and_export opens p asdict_md l trr files
            ≡ export_trr opens p asdict_md true t (traced l trr files))
  unfolding compare_and_export
  compare_and_export_lem trr files done = elim (Result-cases (compare l trr)) [
    | inl (kind, message, e) ↦ ground (arith, done, e)
    | inr (t, e) ↦ (t, e, ground (arith, e))
  ]

  -- The conversion of a trace writes no pickle of the metadata's directory.
  abbrev pub KeepsPickles : Type 0
  KeepsPickles =
      (trr : TestRunResult) (files : Files) (n : String)
      → l.trace_csv trr files (pickle_of dm n) ≡ files (pickle_of dm n)

  traced-keep :
      (trr : TestRunResult) (files : Files) (n : String)
      → KeepsPickles
      → traced l trr files (pickle_of dm n) ≡ files (pickle_of dm n)
  unfolding traced
  traced-keep trr files n keeps = ground (arith, keeps trr files n)

  -- The files of what the comparison gives are those of the record.
  compared-HasFiles :
      (a : String × ℕ) (trr t : TestRunResult)
      → compare l trr ≡ ok t
      → HasFiles (a, trr)
      → HasFiles (a, t)
  unfolding compare
  compared-HasFiles a trr t e (r, pk, ym) =
      let same = paths-compare_test_run _ _ trr _ _ t e in
      (
        r,
        ap (λ (q : Option FilePath × Option FilePath). q.0) same ∙ pk,
        λ n yaml. ym n (sym (ap (λ (q : Option FilePath × Option FilePath). q.1) same) ∙ yaml),
      )

  -- The check of one test replaces its record, and no other below the directory.
  pub main_step :
      (a : String × ℕ) (trr : TestRunResult) (files : Files)
      → KeepsPickles
      → HasFiles (a, trr)
      → files (pickle_of dm (name_of a)) ≡ some (trr_pickle trr)
      → (main opens p asdict_md l dm a files).1 ≡ ok tt
      → (t : TestRunResult) × (compare l trr ≡ ok t)
        × ((main opens p asdict_md l dm a files).0 (pickle_of dm (name_of a)) ≡ some (trr_pickle t))
        × ((n : String)
            → is_relative n ≡ true
            → n ≢ name_of a
            → (main opens p asdict_md l dm a files).0 (pickle_of dm n) ≡ files (pickle_of dm n))
  unfolding export_trr
  main_step a trr files keeps placed held done =
      let opened = main_lem a trr files held in
      let (t, e, exported) =
        compare_and_export_lem trr files (ap (λ (o : Outcome). o.1) (sym opened) ∙ done) in
      let all : main opens p asdict_md l dm a files
          ≡ export_trr opens p asdict_md true t (traced l trr files) =
        opened ∙ exported in
      let (r, pk, ym) = compared-HasFiles a trr t e placed in
      let exported_done = ap (λ (o : Outcome). o.1) (sym all) ∙ done in
      (
        t,
        e,
        ap (λ (o : Outcome). o.0 (pickle_of dm (name_of a))) all
            ∙ export_trr-pickle opens p asdict_md t (traced l trr files) (pickle_of dm (name_of a))
                pk (ym (name_of a)) exported_done,
        λ n within other.
            ap (λ (o : Outcome). o.0 (pickle_of dm n)) all
            ∙ export_object-other opens t.pickle_file t.yaml_file (trr_pickle t)
                (trr_text opens p asdict_md t) true (traced l trr files) (pickle_of dm n)
                (λ same.
                  other (
                    pickle_of-injective dm n (name_of a) within r (some-injective (sym same ∙ pk))))
                (ym n)
            ∙ traced-keep trr files n keeps,
      )
