-- ===== src/GenTestlist/Handwritten.antt =====
-- The text that gen_testlist.py (dv/uvm/core_ibex/directed_tests) holds itself: the configurations and
-- the tests that are written by hand.
use kiemchung_ibex_v.Base.{String, ◌<>◌, List, [], ◌∷◌, ◌++◌, map, concat_map}

-- The lines of the first text of `add_configs_and_handwritten_directed_tests`
unfoldable pub configs : List String
configs =
    "# Copyright lowRISC contributors."
    ∷ "# Licensed under the Apache License, Version 2.0, see LICENSE for details."
    ∷ "# SPDX-License-Identifier: Apache-2.0" ∷ ""
    ∷ "##########################################################" ∷ ""
    ∷ "# This file is generated by gen_testlist.py script and largely copies"
    ∷ "# the formatting of the testlist.yaml used by riscv-dv, but only specifies"
    ∷ "# directed tests." ∷ "#" ∷ "# - All paths are relative to THIS FILE."
    ∷ "# - Each 'test' can specify a config by name to re-use common configuration"
    ∷ "# - If a test redefines a key already in the config, the test option takes priority." ∷ ""
    ∷ "##########################################################" ∷ "" ∷ "- config: riscv-tests"
    ∷ "  ld_script: link.ld" ∷ "  includes: ."
    ∷ "  gcc_opts: -static -mcmodel=medany -fvisibility=hidden -nostdlib -nostartfiles"
    ∷ "            -I../../../vendor/riscv-test-env/"
    ∷ "            -I../../../vendor/riscv-test-env/p/"
    ∷ "            -I../../../vendor/riscv-tests/isa/macros/scalar/"
    ∷ "  rtl_test: core_ibex_base_test" ∷ "  rtl_params:" ∷ "    PMPEnable: [0, 1]"
    ∷ "  timeout_s: 300" ∷ "" ∷ "- config: riscv-arch-tests" ∷ "  ld_script: link.ld"
    ∷ "  includes: ."
    ∷ "  gcc_opts: -static -mcmodel=medany -fvisibility=hidden -nostdlib -nostartfiles"
    ∷ "            -I../../../vendor/riscv-arch-tests/riscv-test-suite/env/"
    ∷ "            -I../../../vendor/riscv-isa-sim/arch_test_target/spike/"
    ∷ "  rtl_test: core_ibex_base_test" ∷ "  rtl_params:" ∷ "    PMPEnable: [0, 1]"
    ∷ "  timeout_s: 300" ∷ "" ∷ "- config: epmp-tests"
    ∷ "  ld_script: ../../../../vendor/riscv-isa-sim/tests/mseccfg/mseccfg_test.ld"
    ∷ "  includes: ."
    ∷ "  gcc_opts: -march=rv32imc -O2 -I . -I ./. -I ../softfloat -I ../riscv -fno-builtin-printf"
    ∷ "            -fdata-sections -fno-section-anchors -DPRINTF_SUPPORTED=1"
    ∷ "            ../../../vendor/riscv-isa-sim/tests/mseccfg/crt.S"
    ∷ "            ../../../vendor/riscv-isa-sim/tests/mseccfg/syscalls.c"
    ∷ "            -mcmodel=medany -static -nostdlib -nostartfiles -lm -lgcc"
    ∷ "            -Wl,-M -Wl,-Map=link.log" ∷ "  rtl_test: core_ibex_base_test" ∷ "  rtl_params:"
    ∷ "    PMPEnable: 1" ∷ "  timeout_s: 300" ∷ []

-- A test: its name, the lines of its description, and those that follow the iterations
unfoldable pub entry : String → List String → List String → List String
entry name desc rest = "" ∷ ("- test: " <> name) ∷ "  desc: >" ∷ (desc ++ "  iterations: 1" ∷ rest)

-- The names of the tests of `mseccfg` without the user mode, each with its last options
unfoldable pub machine_tests : List (String × String)
machine_tests =
    ("pmp_mseccfg_test_rlb1_l0_0_u0", "-DPMP_REGION=4 -DRLB -DSET_PMP_L=0 -DSET_PMP_L_PREV=0")
    ∷ ("pmp_mseccfg_test_rlb1_l0_1_u0", "-DPMP_REGION=4 -DRLB -DSET_PMP_L=1 -DSET_PMP_L_PREV=0")
    ∷ ("pmp_mseccfg_test_rlb1_l1_0_u0", "-DPMP_REGION=4 -DRLB -DSET_PMP_L=0 -DSET_PMP_L_PREV=1")
    ∷ ("pmp_mseccfg_test_rlb1_l1_1_u0", "-DPMP_REGION=4 -DRLB -DSET_PMP_L=1 -DSET_PMP_L_PREV=1")
    ∷ ("pmp_mseccfg_test_rlb0_l0_0_u0", "-DPMP_REGION=4 -DSET_PMP_L=0 -DSET_PMP_L_PREV=0")
    ∷ ("pmp_mseccfg_test_rlb0_l0_1_next_l1_u0", "-DSET_PMP_L=1 -DSET_PMP_L_PREV=0 -DPMP_NEXT_L1")
    ∷ (
      "pmp_mseccfg_test_rlb0_l0_1_next_l1_r1_u0",
      "-DSET_PMP_L=1 -DSET_PMP_L_PREV=0 -DPMP_NEXT_L1_R1",
    )
    ∷ (
      "pmp_mseccfg_test_rlb0_l0_1_next_l1_w1_u0",
      "-DSET_PMP_L=1 -DSET_PMP_L_PREV=0 -DPMP_NEXT_L1_W1",
    )
    ∷ (
      "pmp_mseccfg_test_rlb0_l0_1_next_l1_x1_u0",
      "-DSET_PMP_L=1 -DSET_PMP_L_PREV=0 -DPMP_NEXT_L1_X1",
    )
    ∷ (
      "pmp_mseccfg_test_rlb0_l0_1_next_l1_r1_w1_u0",
      "-DSET_PMP_L=1 -DSET_PMP_L_PREV=0 -DPMP_NEXT_L1_R1_W1",
    )
    ∷ (
      "pmp_mseccfg_test_rlb0_l0_1_next_l1_r1_x1_u0",
      "-DSET_PMP_L=1 -DSET_PMP_L_PREV=0 -DPMP_NEXT_L1_R1_X1",
    )
    ∷ (
      "pmp_mseccfg_test_rlb0_l0_1_next_l1_w1_x1_u0",
      "-DSET_PMP_L=1 -DSET_PMP_L_PREV=0 -DPMP_NEXT_L1_W1_X1",
    )
    ∷ (
      "pmp_mseccfg_test_rlb0_l0_1_next_l1_r1_w1_x1_u0",
      "-DSET_PMP_L=1 -DSET_PMP_L_PREV=0 -DPMP_NEXT_L1_R1_W1_X1",
    )
    ∷ []

-- The names of those with the user mode
unfoldable pub user_tests : List (String × String)
user_tests =
    (
      "pmp_mseccfg_test_rlb1_l0_0_u1",
      "-DPMP_REGION=4 -DRLB -DSET_PMP_L=0 -DSET_PMP_L_PREV=0 -DU_MODE",
    )
    ∷ (
      "pmp_mseccfg_test_rlb1_l0_1_u1",
      "-DPMP_REGION=4 -DRLB -DSET_PMP_L=1 -DSET_PMP_L_PREV=0 -DU_MODE",
    )
    ∷ (
      "pmp_mseccfg_test_rlb1_l1_0_u1",
      "-DPMP_REGION=4 -DRLB -DSET_PMP_L=0 -DSET_PMP_L_PREV=1 -DU_MODE",
    )
    ∷ (
      "pmp_mseccfg_test_rlb1_l1_1_u1",
      "-DPMP_REGION=4 -DRLB -DSET_PMP_L=1 -DSET_PMP_L_PREV=1 -DU_MODE",
    )
    ∷ ("pmp_mseccfg_test_rlb0_l0_0_u1", "-DPMP_REGION=4 -DSET_PMP_L=0 -DSET_PMP_L_PREV=0 -DU_MODE")
    ∷ (
      "pmp_mseccfg_test_rlb0_l0_1_next_l1_u1",
      "-DSET_PMP_L=1 -DSET_PMP_L_PREV=0 -DPMP_NEXT_L1 -DU_MODE",
    )
    ∷ (
      "pmp_mseccfg_test_rlb0_l0_1_next_l1_r1_u1",
      "-DSET_PMP_L=1 -DSET_PMP_L_PREV=0 -DPMP_NEXT_L1_R1 -DU_MODE",
    )
    ∷ (
      "pmp_mseccfg_test_rlb0_l0_1_next_l1_w1_u1",
      "-DSET_PMP_L=1 -DSET_PMP_L_PREV=0 -DPMP_NEXT_L1_W1 -DU_MODE",
    )
    ∷ (
      "pmp_mseccfg_test_rlb0_l0_1_next_l1_x1_u1",
      "-DSET_PMP_L=1 -DSET_PMP_L_PREV=0 -DPMP_NEXT_L1_X1 -DU_MODE",
    )
    ∷ (
      "pmp_mseccfg_test_rlb0_l0_1_next_l1_r1_w1_u1",
      "-DSET_PMP_L=1 -DSET_PMP_L_PREV=0 -DPMP_NEXT_L1_R1_W1 -DU_MODE",
    )
    ∷ (
      "pmp_mseccfg_test_rlb0_l0_1_next_l1_r1_x1_u1",
      "-DSET_PMP_L=1 -DSET_PMP_L_PREV=0 -DPMP_NEXT_L1_R1_X1 -DU_MODE",
    )
    ∷ (
      "pmp_mseccfg_test_rlb0_l0_1_next_l1_w1_x1_u1",
      "-DSET_PMP_L=1 -DSET_PMP_L_PREV=0 -DPMP_NEXT_L1_W1_X1 -DU_MODE",
    )
    ∷ (
      "pmp_mseccfg_test_rlb0_l0_1_next_l1_r1_w1_x1_u1",
      "-DSET_PMP_L=1 -DSET_PMP_L_PREV=0 -DPMP_NEXT_L1_R1_W1_X1 -DU_MODE",
    )
    ∷ []

-- The lines of a test of `mseccfg`
unfoldable pub mseccfg_entry : String × String → List String
unfolding entry
mseccfg_entry (name, flags) = entry name ("    mseccfg test" ∷ []) (
    "  test_srcs: pmp_mseccfg_test/pmp_mseccfg_test.S"
    ∷ "  config: riscv-tests"
    ∷ "  gcc_opts: -static -mcmodel=medany -fvisibility=hidden -nostdlib -nostartfiles"
    ∷ "            -I../../../vendor/riscv-test-env/"
    ∷ "            -I../../../vendor/riscv-test-env/p/"
    ∷ "            -I../../../vendor/riscv-tests/isa/macros/scalar/"
    ∷ ("            " <> flags)
    ∷ [])

-- The last two tests
unfoldable pub pmp_entries : List String
unfolding entry
pmp_entries =
    entry "access_pmp_overlap" ("    PMP access basic test" ∷ [])
      ("  test_srcs: access_pmp_overlap/access_pmp_overlap.S" ∷ "  config: riscv-tests" ∷ [])
    ++ entry "u_mode_exec_test" ("    PMP U mode exec test" ∷ [])
        ("  test_srcs: u_mode_exec_test/u_mode_exec_test.S" ∷ "  config: riscv-tests" ∷ [])

-- The lines of `available_directed_tests`
unfoldable pub handwritten : List String
unfolding entry mseccfg_entry machine_tests user_tests pmp_entries
handwritten =
    ("" ∷ "# Custom directed tests" ∷ [])
    ++ entry "empty" ("    Empty directed test" ∷ [])
        ("  test_srcs: empty/empty.S" ∷ "  config: riscv-tests" ∷ [])
    ++ entry "mcounteren_test"
        ("    Tests the mcounteren CSR: reset value, hardwired-zero bit 1 (time),"
          ∷ "    and U-mode counter access gating." ∷ [])
        ("  test_srcs: mcounteren_test/mcounteren_test.S" ∷ "  config: riscv-tests" ∷ [])
    ++ entry "mcounteren_lock_test"
        ("    Tests that mcounteren retains its value after mcounteren_writable_i is"
          ∷ "    de-asserted mid-simulation (write-lock)." ∷ [])
        ("  rtl_test: core_ibex_mcounteren_lock_test"
          ∷ "  test_srcs: mcounteren_test/mcounteren_lock_test.S" ∷ "  config: riscv-tests" ∷ [])
    ++ concat_map mseccfg_entry machine_tests
    ++ concat_map mseccfg_entry user_tests
    ++ pmp_entries

-- The names of the tests that are written by hand
unfoldable pub handwritten_names : List String
unfolding machine_tests user_tests
handwritten_names =
    ("empty" ∷ "mcounteren_test" ∷ "mcounteren_lock_test" ∷ [])
    ++ map (λ t. t.0) machine_tests
    ++ map (λ t. t.0) user_tests
    ++ "access_pmp_overlap" ∷ "u_mode_exec_test" ∷ []
