-- ===== src/Sv2v.antt =====
-- util/sv2v_in_place.py: running sv2v over a list of files, in place. Regular expressions and the
-- sv2v program are parameters; the operations on files do not fail but for the reading of lists.
pub mod Atomic
pub mod Splat
mod Tests
use kiemchung_ibex_v.Base.{
  ℕ, String, ◌<>◌, Bool, true, false, List, [], ◌∷◌, ◌++◌, Option, none, some,
}
use kiemchung_ibex_v.Base.{
  Result, ok, err, ErrorKind, ◌>>=◌, any, map, keep, if◌then◌else◌, str_eq, ◌==◌,
}
use kiemchung_ibex_v.Base.Text.{join, strip, lines, ends_with, splitext, rsplit_colon}
use kiemchung_ibex_v.Base.Shlex.{join_quoted}

-- The files, by path
abbrev pub Files : Type 0
Files = String → Option String

abbrev pub write : String → String → Files → Files
write path text fs = λ p. if str_eq path p then some text else fs p

-- `path in paths`
abbrev pub contains : List String → String → Bool
contains paths p = any (λ q. str_eq q p) paths

-- What a run of sv2v gives: its exit code and its output.
pub record Completed : Type 0 where
  pub returncode : ℕ
  pub stdout : String

-- `read_file_list`; `none` is an `IOError`.
pub read_file_list : String → Files → Option (List String)
read_file_list path fs = elim (fs path) [ none ↦ none | some text ↦ some (map strip (lines text)) ]

-- `parse_define_if`, where `compile` is `re.compile`, with what `search` then finds
pub parse_define_if : (String → Option (String → Bool)) → String → Result ((String → Bool) × String)
parse_define_if compile arg = elim (rsplit_colon arg) [
  | none ↦ err ErrorKind.argument_type_error "The --define-if argument contains no colon."
  | some (re_str, define) ↦ elim (compile re_str) [
    | none ↦ err ErrorKind.argument_type_error "The regex for the --define-if argument is malformed"
    | some regex ↦ ok (regex, define)
  ]
]

pub record Options : Type 0 where
  pub sv2v : String
  pub defines : List String
  pub defines_if : List ((String → Bool) × String)
  pub incdirs : List String

-- The command of `transform_one`
pub command : Options → List String → List String → String → List String
command o extra_defines pkg_paths sv_path =
    (o.sv2v ∷ "--exclude=assert" ∷ [])
    ++ (map (λ d. "--define=" <> d) (o.defines ++ extra_defines)
        ++ (map (λ d. "--incdir=" <> d) o.incdirs
            ++ (pkg_paths ++ (if contains pkg_paths sv_path then [] else sv_path ∷ []))))

-- The defines whose regular expression is found in the path
pub extra_file_defines : List ((String → Bool) × String) → String → List String
extra_file_defines [] src_path = []
extra_file_defines ((search, define) ∷ rest) src_path =
    let more = extra_file_defines rest src_path in if search src_path then define ∷ more else more

-- The second loop: everything is copied back.
copy_back : List String → List String → Files → Files
copy_back (text ∷ texts) (src_path ∷ rest) fs = copy_back texts rest (write src_path text fs)
copy_back [] rest fs = fs
copy_back (text ∷ texts) [] fs = fs

-- The last loop of `main`: the headers are emptied.
splat : List String → Files → Files
splat [] fs = fs
splat (path ∷ paths) fs = splat paths (write path "" fs)

-- `run` is a run of sv2v, which reads the files as they are.
module _ (run : List String → Files → Completed) where
  -- The command that one file is transformed by
  pub command_for : Options → List String → String → List String
  command_for o pkg_paths src_path =
      command o (extra_file_defines o.defines_if src_path) pkg_paths src_path

  -- `transform_one`: the text that is left in the temporary file
  transform_one : Options → List String → String → Files → Result String
  transform_one o pkg_paths src_path fs =
      let proc = run (command_for o pkg_paths src_path) fs in
      if proc.returncode == 0
      then ok proc.stdout
      else err ErrorKind.runtime_error ("Failed to run sv2v on " <> src_path)

  -- The first loop of `transform`: every file is written to the temporary directory.
  transform_all : Options → List String → List String → Files → Result (List String)
  unfolding transform_one
  transform_all o pkg_paths [] fs = ok []
  transform_all o pkg_paths (src_path ∷ rest) fs = do
    text ← transform_one o pkg_paths src_path fs
    texts ← transform_all o pkg_paths rest fs
    ok (text ∷ texts)

  pub transform : Options → List String → List String → Files → Result (Unit {0}) × Files
  transform o pkg_paths sv_paths fs = elim (transform_all o pkg_paths sv_paths fs) [
    | ok texts ↦ (ok tt, copy_back texts sv_paths fs)
    | err kind m ↦ (err kind m, fs)
  ]

  -- `transform` and what `main` does with its result
  convert : Options → List String → Files → ℕ × Files
  unfolding splat
  convert o paths fs =
      let sv_paths = keep (λ p. str_eq (splitext p) ".sv") paths in
      let svh_paths = keep (λ p. str_eq (splitext p) ".svh") paths in
      let pkg_paths = keep (λ p. ends_with p "pkg.sv") paths in
      let (result, fs') = transform o pkg_paths sv_paths fs in
      elim result [ ok _ ↦ (0, splat svh_paths fs') | err kind m ↦ (1, fs') ]

  -- `main`, from the parsed arguments: the exit code and the files that are left
  pub main : Options → String → Option String → Files → ℕ × Files
  unfolding convert
  main o file_list incdir_list fs = elim (read_file_list file_list fs) [
    | none ↦ (1, fs)
    | some paths ↦ elim incdir_list [
      | none ↦ convert o paths fs
      | some list_path ↦ elim (read_file_list list_path fs) [
        | none ↦ (1, fs)
        | some dirs ↦ convert (record o { incdirs = o.incdirs ++ dirs }) paths fs
      ]
    ]
  ]
