-- ===== src/SetupImports/Tests.antt =====
-- The search path in a small repository.
use kiemchung_ibex_v.Base.{◌≡◌, refl}
use kiemchung_ibex_v.Base.Text.{join}
use kiemchung_ibex_v.SetupImports.{roots, get_pythonpath}
use kiemchung_ibex_v.TestRunResult.{path_join}

python_path :
    get_pythonpath (roots "/ibex")
    ≡ "/ibex:/ibex/util:/ibex/dv/uvm/core_ibex/scripts:/ibex/dv/uvm/core_ibex/riscv_dv_extension:/ibex/dv/uvm/core_ibex/yaml:/ibex/vendor/google_riscv-dv/scripts"
unfolding get_pythonpath path_join join
python_path = refl
