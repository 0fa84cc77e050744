-- ===== src/Builds/MergeCov.antt =====
-- merge_cov.py: merging the coverage of the runs. What `Path.glob` finds, in the order in which a
-- set of it is listed, and `Path.parent` are parameters; the path of the scripts of OpenTitan is a
-- part of `Roots`.
use kiemchung_ibex_v.Base.{
  String, ◌<>◌, Bool, true, false, ◌&&◌, ◌||◌, List, [], ◌∷◌, ◌++◌, Option, none, some, Result, ok,
  err, ErrorKind, guard, ◌>>◌, ◌>>=◌, map, is_ok, if◌then◌else◌, str_eq, ◌≡◌, refl, sym, arith,
  eq_iff, append-nil, Bool-cases, inl, inr, ◌∙◌,
}
use kiemchung_ibex_v.Base.Dict.{Dict, update}
use kiemchung_ibex_v.Base.Int.{ℤ, is_nonzero}
use kiemchung_ibex_v.Base.Text.{join}
use kiemchung_ibex_v.Metadata.{RegressionMetadata, Roots}
use kiemchung_ibex_v.RunOne.{Spawn, to_stream, run_one, run_one-is_ok}
use kiemchung_ibex_v.TestRunResult.{FilePath, path_join}

-- The set that `find_cov_dbs` returns, or the number 1 that it returns where it finds nothing
pub data Found : Type 0 where
  dbs : List FilePath → Found
  one : Found

-- What a merge gets from outside; a command is run with an environment.
pub record Outside : Type 0 where
  pub roots : Roots
  pub environ : Dict String
  pub glob : FilePath → String → List FilePath
  pub parent : FilePath → FilePath
  -- Whether a file can be opened for writing
  pub opens : FilePath → Bool
  pub spawn : Dict String → List String → Spawn

-- What is exported, the text of the file with the list of databases, if one is written, and the
-- return code
pub record Merged : Type 0 where
  pub md : RegressionMetadata
  pub runfile : Option String
  pub returncode : ℤ

abbrev found : List FilePath → Found
found [] = one
found (p ∷ ps) = dbs (p ∷ ps)

-- `open(path, 'w')`
unfoldable writable : Outside → FilePath → Result (Unit {0})
writable o path = guard (o.opens path) ErrorKind.os_error path

xlm_is_not_vcs :
    (simulator : String) → str_eq simulator "xlm" ≡ true → str_eq simulator "vcs" ≡ false
xlm_is_not_vcs simulator h =
    let same : simulator ≡ "xlm" = (eq_iff simulator "xlm").0 h in rw (same) refl

or_false : (b : Bool) → b || false ≡ b
or_false b = ground arith

-- `for d in cov_dbs`
iterate : Found → Result (List FilePath)
iterate (dbs ps) = ok ps
iterate one = err ErrorKind.type_error "'int' object is not iterable"

module _ (o : Outside) where
  pub find_cov_dbs : FilePath → String → Found
  find_cov_dbs start_dir simulator = found (
      (if str_eq simulator "xlm" then o.glob start_dir "**/*.ucd" else [])
      ++ (if str_eq simulator "vcs" then o.glob start_dir "**/test.vdb" else []))

  vcs_cmd : RegressionMetadata → List FilePath → List String
  vcs_cmd md dirs =
      "urg"
      ∷ "-full64"
      ∷ "-format"
      ∷ "both"
      ∷ "-dbname"
      ∷ path_join md.dir_cov "merged.vdb"
      ∷ "-report"
      ∷ path_join md.dir_cov "report"
      ∷ "-log"
      ∷ path_join md.dir_cov "merge.log"
      ∷ "-dir"
      ∷ dirs

  pub merge_cov_vcs : RegressionMetadata → Found → Result Merged
  unfolding iterate vcs_cmd
  merge_cov_vcs md cov_dirs = do
    dirs ← iterate cov_dirs
    let cmd = vcs_cmd md dirs
    let md' = record md {
      cov_merge_log = some (path_join md.dir_cov "merge.log");
      cov_merge_stdout = some (path_join md.dir_cov "merge.log.stdout");
      cov_merge_cmds = some (cmd ∷ []);
    }
    writable o (path_join md.dir_cov "merge.log.stdout")
    returncode ← run_one (o.spawn o.environ cmd) to_stream false
    ok (record { md = md'; runfile = none; returncode = returncode })

  -- The commands of the merge and of the report
  merge_cmd : RegressionMetadata → List String
  merge_cmd md =
      "imc"
      ∷ "-64bit"
      ∷ "-licqueue"
      ∷ "-exec"
      ∷ path_join (path_join o.roots.ot_lowrisc_ip "dv/tools/xcelium") "cov_merge.tcl"
      ∷ "-logfile"
      ∷ path_join md.dir_cov "merge.log"
      ∷ []

  report_cmd : RegressionMetadata → List String
  report_cmd md =
      "imc"
      ∷ "-64bit"
      ∷ "-licqueue"
      ∷ "-load"
      ∷ md.dir_cov_merged
      ∷ "-init"
      ∷ path_join (path_join md.ibex_dv_root "waivers") "coverage_waivers_xlm.tcl"
      ∷ "-exec"
      ∷ path_join (path_join o.roots.ot_lowrisc_ip "dv/tools/xcelium") "cov_report.tcl"
      ∷ "-logfile"
      ∷ path_join md.dir_cov "report.log"
      ∷ []

  xlm_env : RegressionMetadata → Dict String
  xlm_env md = update o.environ (
      ("cov_merge_db_dir", md.dir_cov_merged)
      ∷ ("cov_report_dir", md.dir_cov_report)
      ∷ ("cov_db_dirs", "")
      ∷ ("cov_db_runfile", path_join md.dir_cov "cov_db_runfile")
      ∷ ("DUT_TOP", md.dut_cov_rtl_path)
      ∷ [])

  -- The metadata that are exported before the merge
  xlm_md : RegressionMetadata → RegressionMetadata
  xlm_md md = record md {
    cov_merge_db_list = some (path_join md.dir_cov "cov_db_runfile");
    cov_merge_log = some (path_join md.dir_cov "merge.log");
    cov_merge_stdout = some (path_join md.dir_cov "merge.log.stdout");
    cov_merge_cmds = some (merge_cmd md ∷ []);
    cov_report_log = some (path_join md.dir_cov "report.log");
    cov_report_stdout = some (path_join md.dir_cov "report.log.stdout");
    cov_report_cmds = some (report_cmd md ∷ []);
  }

  -- What follows the merge: the report, if the merge did not fail
  report : RegressionMetadata → Option String → ℤ → Bool → Result Merged
  unfolding report_cmd xlm_env
  report md runfile merge_ret true =
      ok (record { md = md; runfile = runfile; returncode = merge_ret })
  report md runfile merge_ret false = do
    writable o (path_join md.dir_cov "report.log.stdout")
    report_ret ← run_one (o.spawn (xlm_env md) (report_cmd md)) to_stream false
    ok (record { md = md; runfile = runfile; returncode = report_ret })

  pub merge_cov_xlm : RegressionMetadata → Found → Result Merged
  unfolding merge_cmd report_cmd xlm_env iterate report xlm_md
  merge_cov_xlm md cov_dbs = do
    let md' = xlm_md md
    ps ← iterate cov_dbs
    writable o (path_join md.dir_cov "cov_db_runfile")
    let runfile = some (join "\n" (map o.parent ps) <> "\n")
    writable o (path_join md.dir_cov "merge.log.stdout")
    merge_ret ← run_one (o.spawn (xlm_env md) (merge_cmd md)) to_stream false
    report md' runfile merge_ret (is_nonzero merge_ret)

  -- `main`; the message for another simulator reads an argument that does not exist.
  pub merge_cov : RegressionMetadata → Result Merged
  merge_cov md =
      let cov_dbs = find_cov_dbs md.dir_run md.simulator in
      if str_eq md.simulator "xlm"
      then merge_cov_xlm md cov_dbs
      else if str_eq md.simulator "vcs"
      then merge_cov_vcs md cov_dbs
      else err ErrorKind.attribute_error "'Namespace' object has no attribute 'simulator'"

  abbrev is_nonempty : List FilePath → Bool
  is_nonempty [] = false
  is_nonempty (p ∷ ps) = true

  -- The simulator is one whose databases can be merged, and some of these lie below the directory of
  -- the runs: `.ucd` files of Xcelium, or directories `test.vdb` of VCS.
  abbrev pub has_dbs : RegressionMetadata → Bool
  has_dbs md =
      (str_eq md.simulator "xlm" && is_nonempty (o.glob md.dir_run "**/*.ucd"))
      || (str_eq md.simulator "vcs" && is_nonempty (o.glob md.dir_run "**/test.vdb"))

  module _ (opened : (path : FilePath) → o.opens path ≡ true) where
    merge_cov_vcs_ok :
        (md : RegressionMetadata) (ps : List FilePath)
        → is_ok (merge_cov_vcs md (found ps)) ≡ is_nonempty ps
    unfolding merge_cov_vcs writable iterate
    merge_cov_vcs_ok md [] = refl
    merge_cov_vcs_ok md (p ∷ ps) =
        rw (opened (path_join md.dir_cov "merge.log.stdout"))
          (run_one-is_ok (o.spawn o.environ (vcs_cmd md (p ∷ ps))) _ (λ z. refl))

    report_ok :
        (md : RegressionMetadata) (runfile : Option String) (z : ℤ) (failed : Bool)
        → is_ok (report md runfile z failed) ≡ true
    unfolding report writable
    report_ok md runfile z true = refl
    report_ok md runfile z false =
        rw (opened (path_join md.dir_cov "report.log.stdout"))
          (run_one-is_ok (o.spawn (xlm_env md) (report_cmd md)) _ (λ y. refl))

    merge_cov_xlm_ok :
        (md : RegressionMetadata) (ps : List FilePath)
        → is_ok (merge_cov_xlm md (found ps)) ≡ is_nonempty ps
    unfolding merge_cov_xlm writable iterate
    merge_cov_xlm_ok md [] = refl
    merge_cov_xlm_ok md (p ∷ ps) =
        rw
          (
            opened (path_join md.dir_cov "cov_db_runfile"),
            opened (path_join md.dir_cov "merge.log.stdout"),
          )
          (run_one-is_ok (o.spawn (xlm_env md) (merge_cmd md)) _ (λ z.
            report_ok (xlm_md md) (some (join "\n" (map o.parent (p ∷ ps)) <> "\n")) z
              (is_nonzero z)))

    -- If the files that it writes can be opened, the script ends with a return code exactly if the
    -- simulator is Xcelium and a `.ucd` file lies below the directory of the runs, or it is VCS and a
    -- `test.vdb` does.
    pub merge_cov-returns : (md : RegressionMetadata) → is_ok (merge_cov md) ≡ has_dbs md
    unfolding merge_cov find_cov_dbs
    merge_cov-returns md = elim (Bool-cases (str_eq md.simulator "xlm")) [
      | inl xlm ↦
          rw (xlm, xlm_is_not_vcs md.simulator xlm, append-nil (o.glob md.dir_run "**/*.ucd"))
            (merge_cov_xlm_ok md (o.glob md.dir_run "**/*.ucd")
              ∙ sym (or_false (is_nonempty (o.glob md.dir_run "**/*.ucd"))))
      | inr other ↦ elim (Bool-cases (str_eq md.simulator "vcs")) [
        | inl vcs ↦ rw (other, vcs) (merge_cov_vcs_ok md (o.glob md.dir_run "**/test.vdb"))
        | inr unsupported ↦ rw (other, unsupported) refl
      ]
    ]
