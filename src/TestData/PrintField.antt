-- ===== src/TestData/PrintField.antt =====
-- `--op print_field` of metadata.py (dv/uvm/core_ibex/scripts), through which Make gets the lists of
-- the runs. `getattr` is a parameter: no attribute, `None`, or a value with its `str`.
use kiemchung_ibex_v.Base.{
  String, Bool, true, List, [], ◌∷◌, Option, none, some, Result, ok, err, ErrorKind, ◌>>=◌, ◌≡◌,
  subst, arith, All, Distinct, Bool-cases, inl, inr, map, keep, if◌then◌else◌, str_eq,
}
use kiemchung_ibex_v.Base.Dict.{Dict}
use kiemchung_ibex_v.Base.Text.{join}
use kiemchung_ibex_v.Metadata.{RegressionMetadata}
use kiemchung_ibex_v.Metadata.Args.{Given}
use kiemchung_ibex_v.Metadata.Create.{Created, create, tds_list, print_tds}
use kiemchung_ibex_v.Metadata.Create.Listed.{is_kind, create-tds_list}
use kiemchung_ibex_v.Metadata.Create.Names.{plain}
use kiemchung_ibex_v.Metadata.TestList.{TestSources}
use kiemchung_ibex_v.TestData.{Printing, FieldValue}
use kiemchung_ibex_v.TestData.Files.{
  Content, trr_pickle, md_pickle, Files, export_created, construct_md, construct_trr,
}
use kiemchung_ibex_v.TestData.Exported.{relative_name}
use kiemchung_ibex_v.TestData.RoundTrip.{export_created-IsRead}
use kiemchung_ibex_v.TestRunResult.{FilePath, TestRunResult, TestType, riscvdv, directed}

module _ (getattr : Content → String → Option (Option String)) where
  -- A field that is no list of runs
  unfoldable pub print_value : Content → String → Result String
  print_value object field = elim (getattr object field) [
    | none ↦ err ErrorKind.attribute_error field
    | some none ↦
        err ErrorKind.runtime_error
          "Field requested is not present or not set in the regression metadata object"
    | some (some text) ↦ ok text
  ]

  -- A list of runs is made from metadata; the record of a run has no `tests_and_counts`.
  unfoldable pub print_list : Content → TestType → Result String
  unfolding print_tds
  print_list (md_pickle md) kind = ok (print_tds md kind)
  print_list object kind = err ErrorKind.attribute_error "tests_and_counts"

  unfoldable pub print_field : Files → FilePath → String → Result String
  unfolding print_value print_list
  print_field files dir_metadata field = do
    md ← construct_md files dir_metadata
    if str_eq field "riscvdv_tds"
        then print_list md riscvdv
        else if str_eq field "directed_tds"
        then print_list md directed
        else print_value md field

  -- The field that lists the runs of a kind
  abbrev pub tds_field : TestType → String
  tds_field riscvdv = "riscvdv_tds"
  tds_field directed = "directed_tds"

  print_field_lem :
      (files : Files) (dir_metadata : FilePath) (md : RegressionMetadata) (kind : TestType)
      → construct_md files dir_metadata ≡ ok (md_pickle md)
      → print_field files dir_metadata (tds_field kind) ≡ ok (join " " (tds_list md kind))
  unfolding print_field print_list print_tds
  print_field_lem files dir_metadata md riscvdv read = ground (arith, read)
  print_field_lem files dir_metadata md directed read = ground (arith, read)

  -- The record of a run of this kind can be read by the name.
  abbrev pub Names : TestType → Files → FilePath → String → Type 0
  Names kind files dir_metadata n =
      (trr : TestRunResult) × (is_kind kind trr ≡ true)
      × (construct_trr files dir_metadata n ≡ ok (trr_pickle trr))

  names_lem :
      (kind : TestType) (files : Files) (dm : FilePath) (trrs : List TestRunResult)
      (names : List String)
      → map (λ trr. trr.testdotseed) (keep (is_kind kind) trrs) ≡ map (λ n. some n) names
      → All
          (λ trr.
            (tds : String) × (trr.testdotseed ≡ some tds)
            × (construct_trr files dm tds ≡ ok (trr_pickle trr)))
          trrs
      → All (Names kind files dm) names
  names_lem kind files dm [] [] same read = tt
  names_lem kind files dm [] (n ∷ names) same read = cc
  names_lem kind files dm (trr ∷ trrs) [] same (_, read) = elim (Bool-cases (is_kind kind trr)) [
    | inr other ↦ names_lem kind files dm trrs [] (rw (other) at same) read
    | inl of_kind ↦ tt
  ]
  names_lem kind files dm (trr ∷ trrs) (n ∷ names) same ((tds, named, here), read) =
      elim (Bool-cases (is_kind kind trr)) [
        | inr other ↦ names_lem kind files dm trrs (n ∷ names) (rw (other) at same) read
        | inl of_kind ↦
            let listed : ◌≡◌ {A = List (Option String)}
                (trr.testdotseed ∷ map (λ t. t.testdotseed) (keep (is_kind kind) trrs))
                (some n ∷ map (λ m. some m) names) =
              rw (of_kind) at same in
            let first : tds ≡ n = cc in
            let others : map (λ t. t.testdotseed) (keep (is_kind kind) trrs)
                ≡ map (λ m. some m) names =
              cc in
            (
              (
                trr,
                of_kind,
                subst (λ m. construct_trr files dm m ≡ ok (trr_pickle trr)) first here,
              ),
              names_lem kind files dm trrs names others read,
            )
      ]

  -- If metadata are created and exported for tests with plain names, each another, whose pickles lie
  -- below the directory of the metadata, then from the files that are left the names of the runs of a
  -- kind are printed, in order and with blanks between them, and by each of these names the record of
  -- a run of that kind is read.
  pub print_field-export_created :
      (g : Given) (s : TestSources) (dir_metadata dir_out : FilePath) (args_list : String)
      (c : Created) (opens : FilePath → Bool) (p : Printing)
      (asdict_md : RegressionMetadata → Dict FieldValue) (fs : Files) (kind : TestType)
      → create g s dir_metadata dir_out args_list ≡ ok c
      → All (λ t. plain t.0 ≡ true) c.md.tests_and_counts
      → Distinct (map (λ t. t.0) c.md.tests_and_counts)
      → All (λ n. relative_name n ≡ true) (map (λ trr. trr.testdotseed) c.trrs)
      → (export_created opens p asdict_md c fs).1 ≡ ok tt
      → (names : List String) × (map (λ trr. trr.testdotseed) (keep (is_kind kind) c.trrs)
          ≡ map (λ n. some n) names)
        × (print_field (export_created opens p asdict_md c fs).0 c.md.dir_metadata (tds_field kind)
            ≡ ok (join " " names))
        × All (Names kind (export_created opens p asdict_md c fs).0 c.md.dir_metadata) names
  print_field-export_created g s dir_metadata dir_out args_list c opens p asdict_md fs kind h
        plain_names distinct_names relative done =
      let files = (export_created opens p asdict_md c fs).0 in
      let (runs_read, _, md_read) =
        export_created-IsRead g s dir_metadata dir_out args_list c opens p asdict_md fs h
          plain_names distinct_names relative done in
      let listed = create-tds_list kind g s dir_metadata dir_out args_list c h in
      (
        tds_list c.md kind,
        listed,
        print_field_lem files c.md.dir_metadata c.md kind md_read,
        names_lem kind files c.md.dir_metadata c.trrs (tds_list c.md kind) listed runs_read,
      )
