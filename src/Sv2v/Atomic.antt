-- ===== src/Sv2v/Atomic.antt =====
-- `transform` changes every file or none, and each from the original files.
use kiemchung_ibex_v.Base.{String, ◌<>◌, ◌⊎◌, Bool, true, false, List, [], ◌∷◌, some, ◌≡◌, refl}
use kiemchung_ibex_v.Base.{
  arith, ok, err, ErrorKind, all, map, if◌then◌else◌, ◌==◌, eq_iff, Bool-cases, inl, inr,
}
use kiemchung_ibex_v.Sv2v.{
  Files, write, contains, Completed, Options, command_for, transform_all, copy_back, transform,
}

module _ (run : List String → Files → Completed) (o : Options) (pkg_paths : List String) where
  -- What sv2v does with a file, on the files given
  abbrev pub result : Files → String → Completed
  result fs path = run (command_for run o pkg_paths path) fs

  abbrev pub succeeds : Files → String → Bool
  succeeds fs path = (result fs path).returncode == 0

  -- What stands at a path afterwards, if all runs succeed
  abbrev pub converted : Files → List String → Files
  converted fs sv_paths p = if contains sv_paths p then some (result fs p).stdout else fs p

  all_texts :
      (fs : Files) (sv_paths : List String)
      → all (succeeds fs) sv_paths ≡ true
      → transform_all run o pkg_paths sv_paths fs ≡ ok (map (λ p. (result fs p).stdout) sv_paths)
  unfolding transform_all
  all_texts fs [] h = refl
  all_texts fs (p ∷ ps) h = ground (arith, all_texts fs ps)

  not_all :
      (fs : Files) (sv_paths : List String)
      → all (succeeds fs) sv_paths ≡ false
      → (m : String) × (transform_all run o pkg_paths sv_paths fs ≡ err ErrorKind.runtime_error m)
  unfolding transform_all
  not_all fs [] h = cc
  not_all fs (p ∷ ps) h = elim (Bool-cases (succeeds fs p)) [
    | inl good ↦ let (m, e) = not_all fs ps (ground arith) in (m, rw (good, e))
    | inr bad ↦ ("Failed to run sv2v on " <> p, rw bad)
  ]

  copied :
      (fs : Files) (sv_paths : List String) (p : String) (gs : Files)
      → copy_back (map (λ q. (result fs q).stdout) sv_paths) sv_paths gs p
        ≡ (if contains sv_paths p then some (result fs p).stdout else gs p)
  unfolding copy_back
  copied fs [] p gs = refl
  copied fs (q ∷ qs) p gs =
      ground (arith, copied fs qs p (write q (result fs q).stdout gs), eq_iff q p)

  -- If every run of sv2v on the original files succeeds, `transform` succeeds, each listed file
  -- then holds the output of its run on the original files, and no other file is changed. If some
  -- run fails, `transform` raises a `RuntimeError` and no file is changed.
  pub transform_atomic :
      (fs : Files) (sv_paths : List String)
      → ((all (succeeds fs) sv_paths ≡ true)
          × ((transform run o pkg_paths sv_paths fs).0 ≡ ok tt)
          × ((p : String) → (transform run o pkg_paths sv_paths fs).1 p ≡ converted fs sv_paths p))
        ⊎ ((all (succeeds fs) sv_paths ≡ false)
            × ((m : String) × (transform run o pkg_paths sv_paths fs
                  ≡ (err ErrorKind.runtime_error m, fs))))
  unfolding transform
  transform_atomic fs sv_paths = elim (Bool-cases (all (succeeds fs) sv_paths)) [
    | inl good ↦
        let e = all_texts fs sv_paths good in
        inl (good, rw (e, transform), λ p. rw (e, transform) (copied fs sv_paths p fs))
    | inr bad ↦ let (m, e) = not_all fs sv_paths bad in inr (bad, (m, rw (e, transform)))
  ]
