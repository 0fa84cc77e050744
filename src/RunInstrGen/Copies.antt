-- ===== src/RunInstrGen/Copies.antt =====
-- `do_file_copies` of run_instr_gen.py. `os.path.exists` and `shutil.copy` are parameters.
use kiemchung_ibex_v.Base.{
  String, ◌<>◌, Bool, true, false, not, ◌&&◌, List, [], ◌∷◌, Result, ok, err, is_ok, ErrorKind, map,
  keep, all, if◌then◌else◌, ◌≡◌, refl, arith,
}
use kiemchung_ibex_v.RunInstrGen.{os_join}

-- `(src_name, dst_name, copy_on_fail)`
abbrev pub CopyRule : Type 0
CopyRule = String × String × Bool

-- A file that was copied, and its copy
abbrev pub Copied : Type 0
Copied = String × String

module _ (exists : String → Bool) (copies : String → String → Bool) (src_dir dst_dir : String) where
  abbrev pub src_path : CopyRule → String
  src_path (src_name, _, _) = os_join src_dir src_name

  abbrev pub paths : CopyRule → Copied
  paths (src_name, dst_name, _) = (os_join src_dir src_name, os_join dst_dir dst_name)

  -- The copies that are made, also where the loop ends with an exception
  unfoldable pub do_file_copies : List CopyRule → Bool → List Copied × Result (Unit {0})
  do_file_copies [] run_failed = ([], ok tt)
  do_file_copies ((src_name, dst_name, copy_on_fail) ∷ copy_rules) run_failed =
      let rest = do_file_copies copy_rules run_failed in
      let src = os_join src_dir src_name in
      let dst = os_join dst_dir dst_name in
      if run_failed && not copy_on_fail
      then rest
      else if exists src
      then (if copies src dst
          then ((src, dst) ∷ rest.0, rest.1)
          else ([], err ErrorKind.os_error dst))
      else if not run_failed
      then (
        [],
        err ErrorKind.runtime_error (
            "Generation commands exited with zero status but left no " <> src_name
            <> " in scratch directory."),
      )
      else rest

  -- A rule whose file is there and is wanted after a failed run
  abbrev pub is_kept : CopyRule → Bool
  is_kept r = r.2 && exists (src_path r)

  -- The rules above the first whose file is missing
  abbrev pub before_missing : List CopyRule → List CopyRule
  before_missing [] = []
  before_missing (r ∷ rules) = if exists (src_path r) then r ∷ before_missing rules else []

  -- If files can be copied: after a run that failed the copies are made of the rules for such a run
  -- whose file exists, in order, and no missing file is an error. After a run that succeeded the
  -- copies are made of the rules above the first whose file is missing, and the loop succeeds exactly
  -- if no file is missing.
  pub do_file_copies-keep :
      ((src dst : String) → copies src dst ≡ true)
      → (rules : List CopyRule)
      → (do_file_copies rules true ≡ (map paths (keep is_kept rules), ok tt))
        × ((do_file_copies rules false).0 ≡ map paths (before_missing rules))
        × (is_ok (do_file_copies rules false).1 ≡ all (λ r. exists (src_path r)) rules)
  unfolding do_file_copies
  do_file_copies-keep h [] = (refl, refl, refl)
  do_file_copies-keep h ((src_name, dst_name, c) ∷ rules) =
      let (failed, complete, succeeds) = do_file_copies-keep h rules in
      let copied = h (os_join src_dir src_name) (os_join dst_dir dst_name) in
      ground (arith, failed, complete, succeeds, copied)

  -- If the loop succeeds after a run that succeeded, the copies are made of all rules.
  pub do_file_copies-all :
      (rules : List CopyRule)
      → (do_file_copies rules false).1 ≡ ok tt
      → (do_file_copies rules false).0 ≡ map paths rules
  unfolding do_file_copies
  do_file_copies-all [] h = refl
  do_file_copies-all ((src_name, dst_name, c) ∷ rules) h =
      ground (arith, h, do_file_copies-all rules)
