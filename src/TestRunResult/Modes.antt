-- ===== src/TestRunResult/Modes.antt =====
-- The enumerations of test_run_result.py.

-- `TestType`
pub data TestType : Type 0 where
  riscvdv directed : TestType

-- `Failure_Modes`
pub data FailureModes : Type 0 where
  none timeout file_error log_error : FailureModes
