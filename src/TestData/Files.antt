-- ===== src/TestData/Files.antt =====
-- The files of the records: `export` and `construct_from_pickle` of scripts_lib.py, with the defaults
-- of test_run_result.py and metadata.py for the paths, and the exports of `_main` of metadata.py. A file
-- is written with the directories above it; what a write that fails leaves of one is left out.
use kiemchung_ibex_v.Base.{
  String, ◌<>◌, Bool, true, false, List, [], ◌∷◌, Option, none, some, Result, ok, err, ErrorKind,
  ◌>>=◌, if◌then◌else◌, str_eq,
}
use kiemchung_ibex_v.Base.Dict.{Dict}
use kiemchung_ibex_v.Metadata.{RegressionMetadata}
use kiemchung_ibex_v.Metadata.Create.{Created}
use kiemchung_ibex_v.Reports.{pprint_dict}
use kiemchung_ibex_v.TestData.{
  Printing, FieldValue, format_dict_to_printable_dict, format_to_printable_dict,
}
use kiemchung_ibex_v.TestRunResult.{FilePath, TestRunResult, path_join}

-- What a file holds: a pickled record, or a text
pub data Content : Type 0 where
  trr_pickle : TestRunResult → Content
  md_pickle : RegressionMetadata → Content
  text : String → Content

abbrev pub Files : Type 0
Files = FilePath → Option Content

unfoldable pub write : FilePath → Content → Files → Files
write path content files other = if str_eq other path then some content else files other

-- What the files are after an operation, and whether it raised
abbrev pub Outcome : Type 0
Outcome = Files × Result (Unit {0})

-- What follows an operation, unless it raised
unfoldable pub follow : Outcome → (Files → Outcome) → Outcome
follow (files, err kind message) rest = (files, err kind message)
follow (files, ok _) rest = rest files

-- `open(path, 'w')` on a path that may not be one that can be written
module _ (opens : FilePath → Bool) where
  -- The part of `export` that writes the YAML file, which is empty until the text is made
  unfoldable pub write_text : FilePath → Result String → Files → Outcome
  unfolding write
  write_text path printed files = elim (opens path) [
    | false ↦ (files, err ErrorKind.os_error path)
    | true ↦ elim printed [
      | err kind message ↦ (write path (text "") files, err kind message)
      | ok shown ↦ (write path (text shown) files, ok tt)
    ]
  ]

  -- `testdata_cls.export`, of an object with these paths, this pickle and this text
  unfoldable pub export_object :
      Option FilePath → Option FilePath → Content → Result String → Bool → Files → Outcome
  unfolding write write_text
  export_object none yaml_file pickled printed write_yaml files =
      (files, err ErrorKind.runtime_error "")
  export_object (some pickle_file) none pickled printed write_yaml files =
      (files, err ErrorKind.runtime_error "")
  export_object (some pickle_file) (some yaml_file) pickled printed write_yaml files =
      elim (opens pickle_file) [
        | false ↦ (files, err ErrorKind.os_error pickle_file)
        | true ↦ elim write_yaml [
          | false ↦ (write pickle_file pickled files, ok tt)
          | true ↦ write_text yaml_file printed (write pickle_file pickled files)
        ]
      ]

  module _ (p : Printing) (asdict_md : RegressionMetadata → Dict FieldValue) where
    -- What `pprint_dict` writes for the record of a run
    unfoldable pub trr_text : TestRunResult → Result String
    trr_text trr = do d ← format_to_printable_dict p trr; ok (pprint_dict d)

    unfoldable pub export_trr : Bool → TestRunResult → Files → Outcome
    unfolding export_object trr_text
    export_trr write_yaml trr =
        export_object trr.pickle_file trr.yaml_file (trr_pickle trr) (trr_text trr) write_yaml

    unfoldable pub export_md : Bool → RegressionMetadata → Files → Outcome
    unfolding export_object
    export_md write_yaml md =
        export_object (some md.pickle_file) (some md.yaml_file) (md_pickle md)
          (ok (pprint_dict (format_dict_to_printable_dict p (asdict_md md)))) write_yaml

    -- The runs are exported one by one, up to the first that raises.
    unfoldable pub export_trrs : List TestRunResult → Files → Outcome
    unfolding export_trr follow
    export_trrs [] files = (files, ok tt)
    export_trrs (trr ∷ trrs) files = follow (export_trr true trr files) (export_trrs trrs)

    -- What `--op create_metadata` writes: the runs, each as it is made, and then the metadata. What is
    -- left where a run cannot be made is not in the model.
    unfoldable pub export_created : Created → Files → Outcome
    unfolding export_trrs export_md follow
    export_created c files = follow (export_trrs c.trrs files) (export_md true c.md)

-- `testdata_cls.construct_from_pickle`: a text is no pickle.
unfoldable pub construct_from_pickle : Files → FilePath → Result Content
construct_from_pickle files path = elim (files path) [
  | none ↦ err ErrorKind.os_error path
  | some (text t) ↦ err ErrorKind.unpickling_error path
  | some (trr_pickle trr) ↦ ok (trr_pickle trr)
  | some (md_pickle md) ↦ ok (md_pickle md)
]

-- `TestRunResult.construct_from_metadata_dir`
unfoldable pub construct_trr : Files → FilePath → String → Result Content
unfolding construct_from_pickle
construct_trr files dir_metadata tds =
    construct_from_pickle files (path_join dir_metadata (tds <> ".pickle"))

-- `RegressionMetadata.construct_from_metadata_dir`
unfoldable pub construct_md : Files → FilePath → Result Content
unfolding construct_from_pickle
construct_md files dir_metadata =
    construct_from_pickle files (path_join dir_metadata "metadata.pickle")
