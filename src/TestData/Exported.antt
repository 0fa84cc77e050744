-- ===== src/TestData/Exported.antt =====
-- What the files hold after the runs and the metadata are exported.
use kiemchung_ibex_v.Base.{
  Result, String, Bool, true, false, List, [], ◌∷◌, Option, none, some, ok, map, All, Distinct, ◌≡◌,
  ◌≢◌, refl, sym, ap, subst, ◌∙◌, arith,
}
use kiemchung_ibex_v.Base.Dict.{Dict}
use kiemchung_ibex_v.Base.Regex.{all_chars}
use kiemchung_ibex_v.Metadata.{RegressionMetadata}
use kiemchung_ibex_v.Metadata.Create.{Created, pickle_files}
use kiemchung_ibex_v.Reports.{pprint_dict}
use kiemchung_ibex_v.TestData.{Printing, FieldValue, format_dict_to_printable_dict}
use mathlib.Core.Path.{ap₂}
use kiemchung_ibex_v.TestData.Files.{
  Content, trr_pickle, md_pickle, Files, Outcome, export_trrs, export_md, export_created,
  construct_from_pickle, construct_trr, construct_md,
}
use kiemchung_ibex_v.TestData.Placed.{
  Placed, pickle_of, is_relative, pickle_of-injective, yaml-pickle, yaml_of-pickle_of,
  md_yaml-pickle_of,
}
use kiemchung_ibex_v.TestData.Stored.{
  Avoids, Separate, IsStored, export_trrs-IsStored, export_object-other, export_object-pickle,
  follow_lem,
}
use kiemchung_ibex_v.TestEntry.{no_dot}
use kiemchung_ibex_v.TestRunResult.{FilePath, TestRunResult, path_join}

-- The pickle of a run with this name lies below the directory of the metadata.
abbrev pub relative_name : Option String → Bool
relative_name none = true
relative_name (some tds) = is_relative tds

some-injective : {a b : String} → some a ≡ some b → a ≡ b
some-injective h = cc

construct-trr :
    (fs : Files) (path : FilePath) (trr : TestRunResult)
    → fs path ≡ some (trr_pickle trr)
    → construct_from_pickle fs path ≡ ok (trr_pickle trr)
unfolding construct_from_pickle
construct-trr fs path trr held = ground (arith, held)

construct-md :
    (fs : Files) (path : FilePath) (md : RegressionMetadata)
    → fs path ≡ some (md_pickle md)
    → construct_from_pickle fs path ≡ ok (md_pickle md)
unfolding construct_from_pickle
construct-md fs path md held = ground (arith, held)

-- The pickles that the metadata list hold the records of the runs, in order.
abbrev pub Listed : Files → Created → Type 0
Listed files c =
    map (construct_from_pickle files) c.md.tests_pickle_files
    ≡ map (λ trr. ok (trr_pickle trr)) c.trrs

module _ (opens : FilePath → Bool) (p : Printing) (asdict_md : RegressionMetadata → Dict FieldValue)
    (dm dt : FilePath) where
  later-Avoids :
      (tds : String) (trrs : List TestRunResult)
      → is_relative tds ≡ true
      → All (Placed dm dt) trrs
      → All (λ n. relative_name n ≡ true) (map (λ trr. trr.testdotseed) trrs)
      → All (λ n. some tds ≢ n) (map (λ trr. trr.testdotseed) trrs)
      → All (Avoids opens p asdict_md (pickle_of dm tds)) trrs
  later-Avoids tds [] h placed relative others = tt
  later-Avoids tds (trr ∷ trrs) h ((n, named, pk, ym, _), placed) (r, relative) (o, others) = (
    (
      λ same. o (
          ap some (
            pickle_of-injective dm tds n h (ap relative_name (sym named) ∙ r)
              (some-injective (sym same ∙ pk)))
          ∙ sym named),
      λ same. yaml_of-pickle_of dm dt n tds (some-injective (sym ym ∙ same)),
    ),
    later-Avoids tds trrs h placed relative others,
  )

  Placed-Separate :
      (trrs : List TestRunResult)
      → All (Placed dm dt) trrs
      → All (λ n. relative_name n ≡ true) (map (λ trr. trr.testdotseed) trrs)
      → Distinct (map (λ trr. trr.testdotseed) trrs)
      → Separate opens p asdict_md trrs
  Placed-Separate [] placed relative distinct = tt
  Placed-Separate (trr ∷ trrs) ((n, named, pk, ym, _), placed) (r, relative) (apart, distinct) = (
    (
      pickle_of dm n,
      pk,
      λ same. yaml_of-pickle_of dm dt n n (some-injective (sym ym ∙ same)),
      later-Avoids n trrs (ap relative_name (sym named) ∙ r) placed relative
          (subst (λ o. All (λ m. o ≢ m) (map (λ trr. trr.testdotseed) trrs)) named apart),
    ),
    Placed-Separate trrs placed relative distinct,
  )

  -- The metadata's own files are no pickle of a run.
  md_pickle_lem :
      (n : String)
      → is_relative n ≡ true
      → all_chars no_dot n ≡ false
      → some (path_join dm "metadata.pickle") ≢ some (pickle_of dm n)
  md_pickle_lem n r dotted same =
      let e : ◌≡◌ {A = String} "metadata" n =
        pickle_of-injective dm "metadata" n refl r (some-injective same) in
      let f : all_chars no_dot "metadata" ≡ false = ap (all_chars no_dot) e ∙ dotted in cc

  -- A run can be read from the files by its name.
  abbrev pub IsRead : Files → TestRunResult → Type 0
  IsRead files trr =
      (tds : String) × (trr.testdotseed ≡ some tds)
      × (construct_trr files dm tds ≡ ok (trr_pickle trr))

  -- After the export of the metadata, what was stored can be read.
  stored-IsRead :
      (md : RegressionMetadata) (fs : Files) (trr : TestRunResult)
      → md.pickle_file ≡ path_join dm "metadata.pickle"
      → md.yaml_file ≡ path_join dm "metadata.yaml"
      → relative_name trr.testdotseed ≡ true
      → Placed dm dt trr
      → IsStored opens p asdict_md fs trr
      → IsRead (export_md opens p asdict_md true md fs).0 trr
  unfolding export_md construct_trr
  stored-IsRead md fs trr at_pickle at_yaml r (n, named, pk, ym, dotted) (q, at_q, held) =
      let same : q ≡ pickle_of dm n = some-injective (sym at_q ∙ pk) in
      let kept =
        export_object-other opens (some md.pickle_file) (some md.yaml_file) (md_pickle md)
          (ok (pprint_dict (format_dict_to_printable_dict p (asdict_md md)))) true fs
          (pickle_of dm n)
          (λ e.
            md_pickle_lem n (ap relative_name (sym named) ∙ r) dotted (ap some (sym at_pickle) ∙ e))
          (λ e. md_yaml-pickle_of dm n (some-injective (ap some (sym at_yaml) ∙ e))) in
      (
        n,
        named,
        construct-trr (export_md opens p asdict_md true md fs).0 (pickle_of dm n) trr
            (kept ∙ ap fs (sym same) ∙ held),
      )

  md-read :
      (md : RegressionMetadata) (fs : Files)
      → md.pickle_file ≡ path_join dm "metadata.pickle"
      → md.yaml_file ≡ path_join dm "metadata.yaml"
      → (export_md opens p asdict_md true md fs).1 ≡ ok tt
      → construct_md (export_md opens p asdict_md true md fs).0 dm ≡ ok (md_pickle md)
  unfolding export_md construct_md
  md-read md fs at_pickle at_yaml done =
      let held =
        export_object-pickle opens md.pickle_file (some md.yaml_file) (md_pickle md)
          (ok (pprint_dict (format_dict_to_printable_dict p (asdict_md md)))) true fs
          (λ e.
            yaml-pickle dm "metadata." dm "metadata.pi"
              (sym at_yaml ∙ some-injective e ∙ at_pickle))
          done in
      construct-md (export_md opens p asdict_md true md fs).0 (path_join dm "metadata.pickle") md
        (ap (export_md opens p asdict_md true md fs).0 (sym at_pickle) ∙ held)

  All-IsRead :
      (md : RegressionMetadata) (fs : Files) (trrs : List TestRunResult)
      → md.pickle_file ≡ path_join dm "metadata.pickle"
      → md.yaml_file ≡ path_join dm "metadata.yaml"
      → All (λ n. relative_name n ≡ true) (map (λ trr. trr.testdotseed) trrs)
      → All (Placed dm dt) trrs
      → All (IsStored opens p asdict_md fs) trrs
      → All (IsRead (export_md opens p asdict_md true md fs).0) trrs
  All-IsRead md fs [] at_pickle at_yaml relative placed stored = tt
  All-IsRead md fs (trr ∷ trrs) at_pickle at_yaml (r, relative) (pl, placed) (st, stored) = (
    stored-IsRead md fs trr at_pickle at_yaml r pl st,
    All-IsRead md fs trrs at_pickle at_yaml relative placed stored,
  )

  -- The records of the runs are loaded by the list of their pickles.
  pickle_files-IsRead :
      (files : Files) (trrs : List TestRunResult)
      → All (Placed dm dt) trrs
      → All (IsRead files) trrs
      → map (construct_from_pickle files) (pickle_files trrs)
        ≡ map (λ trr. ok (trr_pickle trr)) trrs
  unfolding construct_trr
  pickle_files-IsRead files [] placed read = refl
  pickle_files-IsRead files (trr ∷ trrs) ((n, named, pk, _, _), placed)
        ((tds, named', here), read) =
      let same : tds ≡ n = some-injective (sym named' ∙ named) in
      let first : construct_from_pickle files (pickle_of dm n) ≡ ok (trr_pickle trr) =
        subst (λ m. construct_from_pickle files (pickle_of dm m) ≡ ok (trr_pickle trr)) same here in
      let split : pickle_files (trr ∷ trrs) ≡ pickle_of dm n ∷ pickle_files trrs = rw (pk) refl in
      ap (map (construct_from_pickle files)) split
      ∙ ap₂ (λ (o : Result Content) (l : List (Result Content)). o ∷ l) first
          (pickle_files-IsRead files trrs placed read)

  -- What the export of runs and metadata leaves
  pub exported_lem :
      (c : Created) (fs : Files)
      → c.md.pickle_file ≡ path_join dm "metadata.pickle"
      → c.md.yaml_file ≡ path_join dm "metadata.yaml"
      → c.md.tests_pickle_files ≡ pickle_files c.trrs
      → All (λ n. relative_name n ≡ true) (map (λ trr. trr.testdotseed) c.trrs)
      → All (Placed dm dt) c.trrs
      → Distinct (map (λ trr. trr.testdotseed) c.trrs)
      → (export_created opens p asdict_md c fs).1 ≡ ok tt
      → All (IsRead (export_created opens p asdict_md c fs).0) c.trrs
        × Listed (export_created opens p asdict_md c fs).0 c
        × (construct_md (export_created opens p asdict_md c fs).0 dm ≡ ok (md_pickle c.md))
  unfolding export_created
  exported_lem c fs at_pickle at_yaml listed relative placed distinct done =
      let export = export_md opens p asdict_md true c.md in
      let runs_done = export_trrs opens p asdict_md c.trrs fs in
      let (trrs_done, followed) = follow_lem runs_done export done in
      let stored =
        export_trrs-IsStored opens p asdict_md c.trrs fs
          (Placed-Separate c.trrs placed relative distinct) trrs_done in
      let read = All-IsRead c.md runs_done.0 c.trrs at_pickle at_yaml relative placed stored in
      subst
        (λ (o : Outcome).
          All (IsRead o.0) c.trrs × Listed o.0 c × (construct_md o.0 dm ≡ ok (md_pickle c.md)))
        (sym followed)
        (
          read,
          ap (map (construct_from_pickle (export runs_done.0).0)) listed
              ∙ pickle_files-IsRead (export runs_done.0).0 c.trrs placed read,
          md-read c.md runs_done.0 at_pickle at_yaml
              (ap (λ (o : Outcome). o.1) (sym followed) ∙ done),
        )
