-- ===== src/TestEntry/Tests.antt =====
-- A test with its seed.
use kiemchung_ibex_v.Base.{◌≡◌, refl, ok}
use kiemchung_ibex_v.TestEntry.{read_test_dot_seed}
use kiemchung_ibex_v.TestEntry.RoundTrip.{read_test_dot_seed-join}
use kiemchung_ibex_v.Base.Text.{to_ℕ}

riscv_csr_read : read_test_dot_seed "riscv_csr_test.1077" ≡ ok ("riscv_csr_test", to_ℕ 0 "1077")
riscv_csr_read = read_test_dot_seed-join "riscv_csr_test" "1077" refl refl
