-- ===== src/TestData/Stored.antt =====
-- What the files hold after exports.
use kiemchung_ibex_v.Base.{
  String, Bool, true, List, [], ◌∷◌, Option, none, some, Result, ok, err, All, ◌≡◌, ◌≢◌, refl, sym,
  ap, subst, ◌∙◌, arith, str_eq, eq_iff, Bool-cases, inl, inr,
}
use kiemchung_ibex_v.Base.Dict.{Dict}
use kiemchung_ibex_v.Metadata.{RegressionMetadata}
use kiemchung_ibex_v.TestData.{Printing, FieldValue}
use kiemchung_ibex_v.TestData.Files.{
  Content, trr_pickle, Files, Outcome, write, write_text, export_object, export_trr, export_trrs,
  trr_text, text, follow,
}
use kiemchung_ibex_v.TestRunResult.{FilePath, TestRunResult}

write-same : (path : FilePath) (c : Content) (files : Files) → write path c files path ≡ some c
unfolding write
write-same path c files = ground (arith, eq_iff path path)

write-other :
    (path p : FilePath) (c : Content) (files : Files)
    → some path ≢ some p
    → write path c files p ≡ files p
unfolding write
write-other path p c files apart = elim (Bool-cases (str_eq p path)) [
  | inl same ↦ elim (apart (ap some (sym ((eq_iff p path).0 same)))) [ ]
  | inr other ↦ rw (other) refl
]

-- What follows succeeds only behind a success.
pub follow_lem :
    (e : Outcome) (rest : Files → Outcome)
    → (follow e rest).1 ≡ ok tt
    → (e.1 ≡ ok tt) × (follow e rest ≡ rest e.0)
unfolding follow
follow_lem (files, err kind message) rest h = cc
follow_lem (files, ok _) rest h = (refl, refl)

follow-other :
    (e : Outcome) (rest : Files → Outcome) (q : FilePath)
    → ((files : Files) → (rest files).0 q ≡ files q)
    → (follow e rest).0 q ≡ e.0 q
unfolding follow
follow-other (files, err kind message) rest q h = refl
follow-other (files, ok _) rest q h = h files

module _ (opens : FilePath → Bool) where
  write_text-other :
      (path p : FilePath) (printed : Result String) (files : Files)
      → some path ≢ some p
      → (write_text opens path printed files).0 p ≡ files p
  unfolding write_text
  write_text-other path p (err kind message) files apart =
      ground (arith, write-other path p (text "") files apart)
  write_text-other path p (ok shown) files apart =
      ground (arith, write-other path p (text shown) files apart)

  -- An export changes no other file.
  pub export_object-other :
      (pickle_file yaml_file : Option FilePath) (c : Content) (printed : Result String) (w : Bool)
      (files : Files) (p : FilePath)
      → pickle_file ≢ some p
      → yaml_file ≢ some p
      → (export_object opens pickle_file yaml_file c printed w files).0 p ≡ files p
  unfolding export_object
  export_object-other none yaml_file c printed w files p h k = refl
  export_object-other (some pk) none c printed w files p h k = refl
  export_object-other (some pk) (some ym) c printed w files p h k =
      ground (arith, write-other pk p c files h, write_text-other ym p printed (write pk c files) k)

  -- An export that succeeds leaves the pickle.
  pub export_object-pickle :
      (pk : FilePath) (yaml_file : Option FilePath) (c : Content) (printed : Result String)
      (w : Bool) (files : Files)
      → yaml_file ≢ some pk
      → (export_object opens (some pk) yaml_file c printed w files).1 ≡ ok tt
      → (export_object opens (some pk) yaml_file c printed w files).0 pk ≡ some c
  unfolding export_object
  export_object-pickle pk none c printed w files k h = cc
  export_object-pickle pk (some ym) c printed w files k h =
      ground (arith, h, write-same pk c files, write_text-other ym pk printed (write pk c files) k)

  module _ (p : Printing) (asdict_md : RegressionMetadata → Dict FieldValue) where
    -- The same of a run, with the path that its record has
    pub export_trr-pickle :
        (trr : TestRunResult) (files : Files) (pk : FilePath)
        → trr.pickle_file ≡ some pk
        → trr.yaml_file ≢ some pk
        → (export_trr opens p asdict_md true trr files).1 ≡ ok tt
        → (export_trr opens p asdict_md true trr files).0 pk ≡ some (trr_pickle trr)
    unfolding export_trr
    export_trr-pickle trr files pk here apart =
        let export = λ (o : Option FilePath).
          export_object opens o trr.yaml_file (trr_pickle trr) (trr_text opens p asdict_md trr) true
            files in
        subst (λ o. (export o).1 ≡ ok tt → (export o).0 pk ≡ some (trr_pickle trr)) (sym here)
          (export_object-pickle pk trr.yaml_file (trr_pickle trr) (trr_text opens p asdict_md trr)
            true files apart)

    -- The export of a run touches no such file.
    abbrev pub Avoids : FilePath → TestRunResult → Type 0
    Avoids q trr = (trr.pickle_file ≢ some q) × (trr.yaml_file ≢ some q)

    pub export_trrs-other :
        (trrs : List TestRunResult) (files : Files) (q : FilePath)
        → All (Avoids q) trrs
        → (export_trrs opens p asdict_md trrs files).0 q ≡ files q
    unfolding export_trrs export_trr
    export_trrs-other [] files q h = refl
    export_trrs-other (trr ∷ trrs) files q ((h, k), hs) =
        follow-other (export_trr opens p asdict_md true trr files)
          (export_trrs opens p asdict_md trrs) q (λ fs. export_trrs-other trrs fs q hs)
        ∙ export_object-other trr.pickle_file trr.yaml_file (trr_pickle trr)
            (trr_text opens p asdict_md trr) true files q h k

    -- Each run has a pickle that no YAML file of its own and no later run touches.
    abbrev pub Separate : List TestRunResult → Type 0
    Separate [] = Unit
    Separate (trr ∷ trrs) =
        ((pk : FilePath) × (trr.pickle_file ≡ some pk)
          × (trr.yaml_file ≢ some pk)
          × All (Avoids pk) trrs)
        × Separate trrs

    -- The pickle of a run holds it.
    abbrev pub IsStored : Files → TestRunResult → Type 0
    IsStored files trr =
        (pk : FilePath) × (trr.pickle_file ≡ some pk) × (files pk ≡ some (trr_pickle trr))

    pub export_trrs-IsStored :
        (trrs : List TestRunResult) (files : Files)
        → Separate trrs
        → (export_trrs opens p asdict_md trrs files).1 ≡ ok tt
        → All (IsStored (export_trrs opens p asdict_md trrs files).0) trrs
    unfolding export_trrs export_trr
    export_trrs-IsStored [] files h done = tt
    export_trrs-IsStored (trr ∷ trrs) files ((pk, here, apart, avoided), h) done =
        let rest = export_trrs opens p asdict_md trrs in
        let (exported, followed) =
          follow_lem (export_trr opens p asdict_md true trr files) rest done in
        let fs = (export_trr opens p asdict_md true trr files).0 in
        let stored = export_trr-pickle trr files pk here apart exported in
        subst (λ (o : Outcome). All (IsStored o.0) (trr ∷ trrs)) (sym followed)
          (
            (pk, here, export_trrs-other trrs fs pk avoided ∙ stored),
            export_trrs-IsStored trrs fs h (ap (λ (o : Outcome). o.1) (sym followed) ∙ done),
          )
