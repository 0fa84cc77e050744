-- ===== src/Metadata/Create/WellFormed.antt =====
-- The invariant of the metadata that `--op create_metadata` exports.
use kiemchung_ibex_v.Base.{
  String, ◌<>◌, Bool, true, false, List, [], ◌∷◌, ◌++◌, none, some, Result, ok, map, concat_map,
  ◌≡◌, refl, ap, subst, ◌∙◌, map-append, arith, All, ◌>>=◌, ok-injective, >>=-eq-ok, Bool-cases,
  inl, inr,
}
use kiemchung_ibex_v.Base.Int.{ℤ, is_positive, is_negative}
use kiemchung_ibex_v.Base.Value.{Value}
use kiemchung_ibex_v.IbexCmd.{get_isas_for_config}
use kiemchung_ibex_v.IbexConfig.{parse_config}
use kiemchung_ibex_v.Metadata.{RegressionMetadata}
use kiemchung_ibex_v.Metadata.Args.{Given, iterations_accepted, get_ibex_metadata}
use kiemchung_ibex_v.Metadata.TestList.{TestSources, Counted}
use kiemchung_ibex_v.Metadata.TestList.Positive.{IsCounted, get_tests_and_counts_lem}
use kiemchung_ibex_v.Metadata.Create.{
  Created, create, created, runs, seeds, tds_str, has_tests, pickle_files,
}
use kiemchung_ibex_v.Metadata.Create.Labels.{Label, label_of, run_label, create_lem}
use kiemchung_ibex_v.TestRunResult.{FilePath, TestRunResult, TestType, path_join}

-- The file of the run of a test with a seed
abbrev pub run_file : RegressionMetadata → String → ℤ → FilePath
run_file md test seed = path_join md.dir_metadata (tds_str test seed <> ".pickle")

-- The files of the runs that the metadata list
abbrev pub run_files : RegressionMetadata → List (String × ℤ × TestType) → List FilePath
run_files md tests = concat_map (λ t. map (run_file md t.0) (seeds md.seed t.1)) tests

abbrev pub is_nonempty {ℓ} : {A : Type ℓ} → List A → Bool
is_nonempty [] = false
is_nonempty (_ ∷ _) = true

-- The metadata of a regression that can be run: the seed is not negative, the number of iterations
-- that is asked for and those of the tests are positive, there is a test, and the files of the
-- runs are those that the tests and the seed give.
pub record IsWellFormed (md : RegressionMetadata) : Type 0 where
  pub seed_accepted : is_negative md.seed ≡ false
  pub iterations_positive : iterations_accepted md.iterations ≡ true
  pub some_tests : is_nonempty md.tests_and_counts ≡ true
  pub counts_positive : All (λ t. is_positive t.1 ≡ true) md.tests_and_counts
  pub files : md.tests_pickle_files ≡ run_files md md.tests_and_counts

-- What `_get_ibex_metadata` accepts and keeps
pub get_ibex_metadata_lem :
    (yml : Value) (md0 md : RegressionMetadata)
    → get_ibex_metadata yml md0 ≡ ok md
    → (is_negative md.seed ≡ false)
      × (iterations_accepted md.iterations ≡ true)
      × (md.tests_pickle_files ≡ md0.tests_pickle_files)
      × (md.pickle_file ≡ md0.pickle_file)
      × (md.yaml_file ≡ md0.yaml_file)
      × (md.dir_metadata ≡ md0.dir_metadata)
unfolding get_ibex_metadata
get_ibex_metadata_lem yml md0 md h = elim (Bool-cases (iterations_accepted md0.iterations)) [
  | inr refused ↦ ground (arith, h, refused)
  | inl accepted ↦ elim (Bool-cases (is_negative md0.seed)) [
    | inl refused ↦ ground (arith, h, accepted, refused)
    | inr nonnegative ↦
        let finish = λ (isas : String × String).
          Result.ok (record md0 { isa_ibex = some isas.0; isa_iss = some isas.1 }) in
        let (cfg, _, h1) =
          >>=-eq-ok (parse_config md0.ibex_config yml) (λ cfg. get_isas_for_config cfg >>= finish)
            {result = md} (ground (arith, h, accepted, nonnegative)) in
        let (isas, _, done) = >>=-eq-ok (get_isas_for_config cfg) finish h1 in
        subst
          (λ md.
            (is_negative md.seed ≡ false)
            × (iterations_accepted md.iterations ≡ true)
            × (md.tests_pickle_files ≡ md0.tests_pickle_files)
            × (md.pickle_file ≡ md0.pickle_file)
            × (md.yaml_file ≡ md0.yaml_file)
            × (md.dir_metadata ≡ md0.dir_metadata))
          (ok-injective done) (nonnegative, accepted, refl, refl, refl, refl)
  ]
]

counts_lem :
    (tests : List Counted)
    → All IsCounted tests
    → All (λ t. is_positive t.1 ≡ true) (map (λ t. t.0) tests)
counts_lem [] h = tt
counts_lem (t ∷ tests) (p, h) = (p, counts_lem tests h)

some_tests_lem :
    (tests : List Counted) → has_tests tests ≡ true → is_nonempty (map (λ t. t.0) tests) ≡ true
some_tests_lem [] h = h
some_tests_lem (t ∷ tests) h = refl

abbrev files_of : List Label → List FilePath
files_of [] = []
files_of (l ∷ ls) = elim l.2 [ none ↦ files_of ls | some p ↦ p ∷ files_of ls ]

pickle_files_lem : (trrs : List TestRunResult) → pickle_files trrs ≡ files_of (map label_of trrs)
pickle_files_lem [] = refl
pickle_files_lem (trr ∷ trrs) =
    elim trr.pickle_file
      as (λ o. (elim o [ none ↦ pickle_files trrs | some p ↦ p ∷ pickle_files trrs ]) ≡ (elim o [
        | none ↦ files_of (map label_of trrs)
        | some p ↦ p ∷ files_of (map label_of trrs)
      ])) [
        | none ↦ pickle_files_lem trrs
        | some p ↦ ap (λ (ps : List FilePath). p ∷ ps) (pickle_files_lem trrs)
      ]

module _ (md : RegressionMetadata) where
  files-one :
      (t : Counted) (ss : List ℤ) (ls : List Label)
      → files_of (map (run_label md) (map (λ s. (t, s)) ss) ++ ls)
        ≡ map (run_file md t.0.0) ss ++ files_of ls
  files-one t [] ls = refl
  files-one t (s ∷ ss) ls =
      ap (λ (ps : List FilePath). run_file md t.0.0 s ∷ ps) (files-one t ss ls)

  files-runs :
      (tests : List Counted)
      → files_of (map (run_label md) (runs md tests)) ≡ run_files md (map (λ t. t.0) tests)
  unfolding runs
  files-runs [] = refl
  files-runs (t ∷ tests) =
      ap files_of
        (map-append (run_label md) (map (λ s. (t, s)) (seeds md.seed t.0.1)) (runs md tests))
      ∙ files-one t (seeds md.seed t.0.1) (map (run_label md) (runs md tests))
      ∙ ap (λ (ps : List FilePath). map (run_file md t.0.0) (seeds md.seed t.0.1) ++ ps)
          (files-runs tests)

-- Metadata that are created are well-formed.
pub create-IsWellFormed :
    (g : Given) (s : TestSources) (dir_metadata dir_out : FilePath) (args_list : String)
    (c : Created)
    → create g s dir_metadata dir_out args_list ≡ ok c
    → IsWellFormed c.md
unfolding created
create-IsWellFormed g s dir_metadata dir_out args_list c h =
    let made = create_lem g s dir_metadata dir_out args_list c h in
    let (seed_accepted, iterations_positive, kept, _, _, _) =
      get_ibex_metadata_lem g.configs_yaml made.before made.md made.accepted in
    subst (λ (c : Created). IsWellFormed c.md) made.result
      (record {
        seed_accepted = seed_accepted;
        iterations_positive = iterations_positive;
        some_tests = some_tests_lem made.tests made.some_tests;
        counts_positive =
            counts_lem made.tests (get_tests_and_counts_lem s made.md made.tests made.counted);
        files =
            ap (λ (ps : List FilePath). ps ++ pickle_files made.trrs) (kept ∙ made.fresh)
            ∙ pickle_files_lem made.trrs
            ∙ ap files_of made.labels
            ∙ files-runs made.md made.tests;
      })
