-- ===== src/Metadata/Create/Listed.antt =====
-- The runs that are made and the runs that are listed.
use kiemchung_ibex_v.Base.{
  String, Bool, true, false, List, [], ◌∷◌, ◌++◌, Option, none, some, ok, map, keep, concat_map,
  if◌then◌else◌, ◌≡◌, refl, sym, ap, subst, ◌∙◌, Bool-cases, inl, inr, keep-append, map-append,
}
use mathlib.Core.Path.{ap₂}
use kiemchung_ibex_v.Base.Int.{ℤ}
use kiemchung_ibex_v.Metadata.{RegressionMetadata}
use kiemchung_ibex_v.Metadata.Args.{Given}
use kiemchung_ibex_v.Metadata.TestList.{TestSources, Counted}
use kiemchung_ibex_v.Metadata.Create.{
  Created, create, created, runs, seeds, tds_str, tds_list, type_eq,
}
use kiemchung_ibex_v.Metadata.Create.Labels.{Label, label_of, run_label, create_lem}
use kiemchung_ibex_v.TestRunResult.{FilePath, TestRunResult, TestType}

module _ (kind : TestType) where
  abbrev pub is_kind : TestRunResult → Bool
  is_kind trr = elim trr.testtype [ none ↦ false | some t ↦ type_eq t kind ]

  abbrev has_kind : Label → Bool
  has_kind l = elim l.0 [ none ↦ false | some t ↦ type_eq t kind ]

  abbrev names : List Label → List (Option String)
  names ls = map (λ l. l.1) (keep has_kind ls)

  names_of :
      (trrs : List TestRunResult)
      → map (λ trr. trr.testdotseed) (keep is_kind trrs) ≡ names (map label_of trrs)
  names_of [] = refl
  names_of (trr ∷ trrs) = elim (Bool-cases (is_kind trr)) [
    | inl same ↦
        rw (same) (ap (λ (ns : List (Option String)). trr.testdotseed ∷ ns) (names_of trrs))
    | inr other ↦ rw (other) (names_of trrs)
  ]

  module _ (md : RegressionMetadata) where
    abbrev labels : Counted → List ℤ → List Label
    labels t ss = map (run_label md) (map (λ s. (t, s)) ss)

    names-kept :
        (t : Counted) (ss : List ℤ)
        → type_eq t.0.2 kind ≡ true
        → names (labels t ss) ≡ map (λ n. some n) (map (tds_str t.0.0) ss)
    names-kept t [] same = refl
    names-kept t (s ∷ ss) same =
        rw (same)
          (ap (λ (ns : List (Option String)). some (tds_str t.0.0 s) ∷ ns) (names-kept t ss same))

    names-dropped :
        (t : Counted) (ss : List ℤ) → type_eq t.0.2 kind ≡ false → names (labels t ss) ≡ []
    names-dropped t [] other = refl
    names-dropped t (s ∷ ss) other = rw (other) (names-dropped t ss other)

    abbrev listed : String × ℤ × TestType → List String
    listed t = if type_eq t.2 kind then map (tds_str t.0) (seeds md.seed t.1) else []

    names-one :
        (t : Counted) → names (labels t (seeds md.seed t.0.1)) ≡ map (λ n. some n) (listed t.0)
    names-one t = elim (Bool-cases (type_eq t.0.2 kind)) [
      | inl same ↦
          names-kept t (seeds md.seed t.0.1) same
          ∙ ap
              (λ b. map (λ n. some n) (if b then map (tds_str t.0.0) (seeds md.seed t.0.1) else []))
              (sym same)
      | inr other ↦
          names-dropped t (seeds md.seed t.0.1) other
          ∙ ap
              (λ b. map (λ n. some n) (if b then map (tds_str t.0.0) (seeds md.seed t.0.1) else []))
              (sym other)
    ]

    names-append : (xs ys : List Label) → names (xs ++ ys) ≡ names xs ++ names ys
    names-append xs ys =
        ap (map (λ l. l.1)) (keep-append has_kind xs ys)
        ∙ map-append (λ l. l.1) (keep has_kind xs) (keep has_kind ys)

    names-runs :
        (tests : List Counted)
        → names (map (run_label md) (runs md tests))
          ≡ map (λ n. some n) (concat_map listed (map (λ t. t.0) tests))
    unfolding runs
    names-runs [] = refl
    names-runs (t ∷ tests) =
        ap names
          (map-append (run_label md) (map (λ s. (t, s)) (seeds md.seed t.0.1)) (runs md tests))
        ∙ names-append (labels t (seeds md.seed t.0.1)) (map (run_label md) (runs md tests))
        ∙ ap₂ (λ (xs ys : List (Option String)). xs ++ ys) (names-one t) (names-runs tests)
        ∙ sym (map-append (λ n. some n) (listed t.0) (concat_map listed (map (λ t. t.0) tests)))

  -- Of what is created, the runs of a kind are those that the exported metadata list for it, in
  -- the same order.
  pub create-tds_list :
      (g : Given) (s : TestSources) (dir_metadata dir_out : FilePath) (args_list : String)
      (c : Created)
      → create g s dir_metadata dir_out args_list ≡ ok c
      → map (λ trr. trr.testdotseed) (keep is_kind c.trrs) ≡ map (λ n. some n) (tds_list c.md kind)
  unfolding created tds_list
  create-tds_list g s dir_metadata dir_out args_list c h =
      let made = create_lem g s dir_metadata dir_out args_list c h in
      subst
        (λ (c : Created).
          map (λ trr. trr.testdotseed) (keep is_kind c.trrs)
          ≡ map (λ n. some n) (tds_list c.md kind))
        made.result (names_of made.trrs ∙ ap names made.labels ∙ names-runs made.md made.tests)
