-- ===== src/Reports/Written.antt =====
-- When the reports of collect_results.py are written, and its exit code.
use kiemchung_ibex_v.Base.Dict.{Dict}
use kiemchung_ibex_v.TestRunResult.{TestRunResult}
