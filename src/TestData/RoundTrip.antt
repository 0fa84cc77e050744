-- ===== src/TestData/RoundTrip.antt =====
-- What is exported when metadata are created is what the other scripts read.
use kiemchung_ibex_v.Base.{
  ◌++◌, String, Bool, true, List, some, ok, map, All, All-traverse, Distinct, ◌≡◌, sym, ap, subst,
  ◌∙◌,
}
use kiemchung_ibex_v.Base.Dict.{Dict}
use kiemchung_ibex_v.Metadata.{RegressionMetadata}
use kiemchung_ibex_v.Metadata.Args.{Given}
use kiemchung_ibex_v.Metadata.Create.{Created, create, created, runs, make_trr, pickle_files}
use kiemchung_ibex_v.Metadata.Create.Labels.{create_lem}
use kiemchung_ibex_v.Metadata.Create.Names.{plain, create-Distinct}
use kiemchung_ibex_v.Metadata.Create.WellFormed.{get_ibex_metadata_lem}
use kiemchung_ibex_v.Metadata.TestList.{TestSources}
use kiemchung_ibex_v.TestData.{Printing, FieldValue}
use kiemchung_ibex_v.TestData.Files.{
  trr_pickle, md_pickle, Files, export_created, construct_trr, construct_md,
}
use kiemchung_ibex_v.TestData.Placed.{Placed, make_trr-Placed}
use kiemchung_ibex_v.TestRunResult.{FilePath, path_join}
use kiemchung_ibex_v.TestData.Exported.{relative_name, Listed, IsRead, exported_lem}

-- If metadata are created and exported for tests with plain names, each another, whose pickles lie
-- below the directory of the metadata, then from the files that are left each run is read back by its
-- name, all runs in order by the pickles that the metadata list, and the metadata by their directory,
-- as they were created.
pub export_created-IsRead :
    (g : Given) (s : TestSources) (dir_metadata dir_out : FilePath) (args_list : String)
    (c : Created) (opens : FilePath → Bool) (p : Printing)
    (asdict_md : RegressionMetadata → Dict FieldValue) (fs : Files)
    → create g s dir_metadata dir_out args_list ≡ ok c
    → All (λ t. plain t.0 ≡ true) c.md.tests_and_counts
    → Distinct (map (λ t. t.0) c.md.tests_and_counts)
    → All (λ n. relative_name n ≡ true) (map (λ trr. trr.testdotseed) c.trrs)
    → (export_created opens p asdict_md c fs).1 ≡ ok tt
    → All
        (λ trr.
          (tds : String) × (trr.testdotseed ≡ some tds)
          × (construct_trr (export_created opens p asdict_md c fs).0 c.md.dir_metadata tds
              ≡ ok (trr_pickle trr)))
        c.trrs
      × Listed (export_created opens p asdict_md c fs).0 c
      × (construct_md (export_created opens p asdict_md c fs).0 c.md.dir_metadata
          ≡ ok (md_pickle c.md))
unfolding created
export_created-IsRead g s dir_metadata dir_out args_list c opens p asdict_md fs h plain_names
      distinct_names relative done =
    let found = create_lem g s dir_metadata dir_out args_list c h in
    let (_, _, list_kept, pickle_kept, yaml_kept, dir_kept) =
      get_ibex_metadata_lem g.configs_yaml found.before found.md found.accepted in
    let in_dir = λ (name : String). ap (λ d. path_join d name) (sym dir_kept) in
    let placed : All (Placed found.md.dir_metadata found.md.dir_tests) found.trrs =
      All-traverse (Placed found.md.dir_metadata found.md.dir_tests)
        (λ r. make_trr found.md r.0 r.1) (runs found.md found.tests)
        (λ r y made. make_trr-Placed found.md r.0 r.1 y made) found.made in
    subst
      (λ (c : Created).
        All (λ n. relative_name n ≡ true) (map (λ trr. trr.testdotseed) c.trrs)
        → Distinct (map (λ trr. trr.testdotseed) c.trrs)
        → (export_created opens p asdict_md c fs).1 ≡ ok tt
        → All
            (IsRead opens p asdict_md c.md.dir_metadata c.md.dir_tests
              (export_created opens p asdict_md c fs).0)
            c.trrs
          × Listed (export_created opens p asdict_md c fs).0 c
          × (construct_md (export_created opens p asdict_md c fs).0 c.md.dir_metadata
              ≡ ok (md_pickle c.md)))
      found.result
      (λ within.
        exported_lem opens p asdict_md found.md.dir_metadata found.md.dir_tests
          (created found.md found.tests found.trrs) fs
          (pickle_kept ∙ found.pickled ∙ in_dir "metadata.pickle")
          (yaml_kept ∙ found.printed ∙ in_dir "metadata.yaml")
          (ap (λ (l : List FilePath). l ++ pickle_files found.trrs) (list_kept ∙ found.fresh))
          within placed)
      relative (create-Distinct g s dir_metadata dir_out args_list c h plain_names distinct_names)
      done
