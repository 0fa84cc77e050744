-- ===== src/SetupImports.antt =====
-- setup_imports.py (dv/uvm/core_ibex/scripts): the directories of the repository, from its root, and
-- the search path for the modules of the scripts.
mod Tests
use kiemchung_ibex_v.Base.{String, [], ◌∷◌}
use kiemchung_ibex_v.Base.Text.{join}
use kiemchung_ibex_v.TestRunResult.{FilePath, path_join}

-- The paths of setup_imports.py
pub record Roots : Type 0 where
  pub ibex_root : FilePath
  pub riscv_dv : FilePath
  pub ot_lowrisc_ip : FilePath
  pub core_ibex : FilePath

-- `setup_imports`, from the root of the project
abbrev pub roots : FilePath → Roots
roots root = record {
  ibex_root = root;
  riscv_dv = path_join (path_join root "vendor") "google_riscv-dv";
  ot_lowrisc_ip = path_join (path_join root "vendor") "lowrisc_ip";
  core_ibex = path_join (path_join (path_join root "dv") "uvm") "core_ibex";
}

-- What `get_pythonpath` prints
unfoldable pub get_pythonpath : Roots → String
get_pythonpath r = join ":" (
    r.ibex_root
    ∷ path_join r.ibex_root "util"
    ∷ path_join r.core_ibex "scripts"
    ∷ path_join r.core_ibex "riscv_dv_extension"
    ∷ path_join r.core_ibex "yaml"
    ∷ path_join r.riscv_dv "scripts"
    ∷ [])
