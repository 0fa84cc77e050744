-- ===== src/Sv2v/Splat.antt =====
-- What `main` leaves: its exit code tells whether anything was changed.
use kiemchung_ibex_v.Base.{
  ℕ, ◌++◌, Option, subst, sym, String, true, false, ◌⊎◌, List, [], ◌∷◌, none, some, ◌≡◌, refl, ap,
  ◌∙◌,
}
use kiemchung_ibex_v.Base.{arith, Result, all, keep, if◌then◌else◌, str_eq, inl, inr}
use kiemchung_ibex_v.Base.Text.{ends_with, splitext}
use kiemchung_ibex_v.Sv2v.{
  Files, write, contains, Completed, Options, read_file_list, splat, convert, main,
}
use kiemchung_ibex_v.Sv2v.Atomic.{succeeds, converted, transform_atomic}

abbrev pub with_extension : String → List String → List String
with_extension ext = keep (λ p. str_eq (splitext p) ext)

abbrev pub packages : List String → List String
packages = keep (λ p. ends_with p "pkg.sv")

splatted :
    (paths : List String) (p : String) (fs : Files)
    → splat paths fs p ≡ (if contains paths p then some "" else fs p)
unfolding splat
splatted [] p fs = refl
splatted (q ∷ qs) p fs = ground (arith, splatted qs p (write q "" fs))

module _ (run : List String → Files → Completed) (o : Options) where
  -- The files after a conversion of the listed paths that succeeds
  abbrev pub outcome : List String → Files → Files
  outcome paths fs p =
      if contains (with_extension ".svh" paths) p
      then some ""
      else converted run o (packages paths) fs (with_extension ".sv" paths) p

  convert-outcome :
      (paths : List String) (fs : Files)
      → (((convert run o paths fs).0 ≡ 0)
          × (all (succeeds run o (packages paths) fs) (with_extension ".sv" paths) ≡ true)
          × ((p : String) → (convert run o paths fs).1 p ≡ outcome paths fs p))
        ⊎ ((all (succeeds run o (packages paths) fs) (with_extension ".sv" paths) ≡ false)
            × (convert run o paths fs ≡ (1, fs)))
  unfolding convert
  convert-outcome paths fs =
      elim (transform_atomic run o (packages paths) fs (with_extension ".sv" paths)) [
        | inl (good, done, left) ↦ inl (
          rw (done, convert),
          good,
          λ p. rw (done, convert) (splatted (with_extension ".svh" paths) p _ ∙ rw (left p)),
        )
        | inr (bad, failure) ↦
            let (m, e) = failure in
            inr (
              bad,
              rw (ap (λ (t : Result (Unit {0}) × Files). t.0) e, convert)
                  (ap (λ (t : Result (Unit {0}) × Files). (1, t.1)) e),
            )
      ]

-- The options, with the directories of the list of include directories if there is one
abbrev pub with_incdirs : Options → Option String → Files → Option Options
with_incdirs o none fs = some o
with_incdirs o (some list_path) fs = elim (read_file_list list_path fs) [
  | none ↦ none
  | some dirs ↦ some (record o { incdirs = o.incdirs ++ dirs })
]

module _ (run : List String → Files → Completed) (o : Options) where
  main-convert :
      (file_list : String) (incdir_list : Option String) (paths : List String) (o' : Options)
      (fs : Files)
      → read_file_list file_list fs ≡ some paths
      → with_incdirs o incdir_list fs ≡ some o'
      → main run o file_list incdir_list fs ≡ convert run o' paths fs
  unfolding main
  main-convert file_list none paths o' fs found given = ground (arith, found, given)
  main-convert file_list (some list_path) paths o' fs found given = ground (arith, found, given)

  -- With the paths of a list that can be read, and the include directories of a second one that can
  -- be read, if one is given: if sv2v succeeds on every `.sv` path, `main` returns 0, each `.svh` path
  -- is empty, each `.sv` path holds the output of its run on the original files, and no other file is
  -- changed; else `main` returns 1 and changes no file.
  pub main-outcome :
      (file_list : String) (incdir_list : Option String) (paths : List String) (o' : Options)
      (fs : Files)
      → read_file_list file_list fs ≡ some paths
      → with_incdirs o incdir_list fs ≡ some o'
      → (((main run o file_list incdir_list fs).0 ≡ 0)
          × (all (succeeds run o' (packages paths) fs) (with_extension ".sv" paths) ≡ true)
          × ((p : String) → (main run o file_list incdir_list fs).1 p ≡ outcome run o' paths fs p))
        ⊎ ((all (succeeds run o' (packages paths) fs) (with_extension ".sv" paths) ≡ false)
            × (main run o file_list incdir_list fs ≡ (1, fs)))
  main-outcome file_list incdir_list paths o' fs found given =
      subst
        (λ (r : ℕ × Files).
          ((r.0 ≡ 0)
            × (all (succeeds run o' (packages paths) fs) (with_extension ".sv" paths) ≡ true)
            × ((p : String) → r.1 p ≡ outcome run o' paths fs p))
          ⊎ ((all (succeeds run o' (packages paths) fs) (with_extension ".sv" paths) ≡ false)
              × (r ≡ (1, fs))))
        (sym (main-convert file_list incdir_list paths o' fs found given))
        (convert-outcome run o' paths fs)
