-- ===== src/Sv2v/Tests.antt =====
-- A conversion of three files, with a program that writes how it was called.
use kiemchung_ibex_v.Base.{
  String, true, false, ◌⊎◌, List, [], ◌∷◌, none, some, ◌≡◌, refl, ok, err, ErrorKind, all,
  if◌then◌else◌, str_eq,
}
use kiemchung_ibex_v.Base.Text.{join, lines, strip}
use kiemchung_ibex_v.Sv2v.{Files, Completed, Options, read_file_list, transform, main}
use kiemchung_ibex_v.Sv2v.Atomic.{succeeds, converted, transform_atomic}
use kiemchung_ibex_v.Sv2v.Splat.{packages, with_extension, outcome, with_incdirs, main-outcome}

abbrev files : Files
files p =
    if str_eq p "list"
    then some "a_pkg.sv\nb.sv\nc.svh\n"
    else if str_eq p "dirs"
    then some "lib\n"
    else if str_eq p "a_pkg.sv"
    then some "package a;"
    else if str_eq p "b.sv"
    then some "module b;"
    else if str_eq p "c.svh"
    then some "`define c"
    else none

abbrev echo : List String → Files → Completed
echo cmd fs = record { returncode = 0; stdout = join " " cmd }

abbrev options : Options
options = record { sv2v = "sv2v"; defines = "X" ∷ []; defines_if = []; incdirs = "inc" ∷ [] }

abbrev paths : List String
paths = "a_pkg.sv" ∷ "b.sv" ∷ "c.svh" ∷ []

list_read : read_file_list "list" files ≡ some paths
unfolding read_file_list lines strip
list_read = refl

transform_atomic_example :
    ((all (succeeds echo options [] files) paths ≡ true)
      × ((transform echo options [] paths files).0 ≡ ok tt)
      × ((p : String)
          → (transform echo options [] paths files).1 p ≡ converted echo options [] files paths p))
    ⊎ ((all (succeeds echo options [] files) paths ≡ false)
        × ((m : String) × (transform echo options [] paths files
              ≡ (err ErrorKind.runtime_error m, files))))
transform_atomic_example = transform_atomic echo options [] files paths

abbrev all_options : Options
all_options = record options { incdirs = "inc" ∷ "lib" ∷ [] }

incdirs_read : with_incdirs options (some "dirs") files ≡ some all_options
unfolding read_file_list lines strip
incdirs_read = refl

main-outcome_example :
    (((main echo options "list" (some "dirs") files).0 ≡ 0)
      × (all (succeeds echo all_options (packages paths) files) (with_extension ".sv" paths) ≡ true)
      × ((p : String)
          → (main echo options "list" (some "dirs") files).1 p
            ≡ outcome echo all_options paths files p))
    ⊎ ((all (succeeds echo all_options (packages paths) files) (with_extension ".sv" paths) ≡ false)
        × (main echo options "list" (some "dirs") files ≡ (1, files)))
main-outcome_example =
    main-outcome echo options "list" (some "dirs") paths all_options files list_read incdirs_read
