-- ===== src/RunOne.antt =====
-- `run_one` of dv/uvm/core_ibex/scripts/scripts_lib.py: one command, run to its end or its timeout.
use kiemchung_ibex_v.Base.{
  String, Bool, true, false, is_ok, ◌>>=◌, Result, ok, err, ErrorKind, ◌>>◌, guard, if◌then◌else◌,
  str_eq, ◌≡◌, refl,
}
use kiemchung_ibex_v.Base.Int.{ℤ, pos}

-- What `subprocess.run` does: it gives a return code, raises an `OSError`, or raises
-- `TimeoutExpired`. It is called without `check`, so it raises no `CalledProcessError`. The argument
-- `timeout_s` is part of the outcome: a command that does not end within it is `timed_out`, and one
-- that is run without a limit and never ends has no outcome here.
pub data Spawn : Type 0 where
  exited : ℤ → Spawn
  not_started timed_out : Spawn

-- The argument `redirect_stdstreams`; opening the file of a path may fail.
pub data Redirect : Type 0 where
  none_given : Redirect
  to_text : String → Redirect
  to_path : Bool → Redirect
  to_stream : Redirect

unfoldable pub open_redirect : Redirect → Result (Unit {0})
open_redirect none_given = ok tt
open_redirect (to_text t) =
    guard (str_eq t "/dev/null") ErrorKind.runtime_error "redirect_stdstream argument is invalid."
open_redirect (to_path opens) = guard opens ErrorKind.os_error "cannot open"
open_redirect to_stream = ok tt

-- `run_one` but for what it prints; `spawn` is what the command does.
unfoldable pub run_one : Spawn → Redirect → Bool → Result ℤ
unfolding open_redirect
run_one spawn redirect reraise = do
  open_redirect redirect
  elim spawn [
    | exited returncode ↦ ok returncode
    | not_started ↦ ok (pos 1)
    | timed_out ↦ if reraise then err ErrorKind.timeout_expired "" else ok (pos 1)
  ]

-- A command whose output goes to a stream, run so that a timeout is raised: it raises exactly if it
-- is killed.
pub run_one-stream :
    (spawn : Spawn)
    → run_one spawn to_stream true ≡ elim spawn [
      | exited n ↦ ok n
      | not_started ↦ ok (pos 1)
      | timed_out ↦ err ErrorKind.timeout_expired ""
    ]
unfolding run_one
run_one-stream spawn = refl

-- What follows a command whose output goes to a stream is reached, where a timeout is not raised.
pub run_one-is_ok {ℓ} :
    {A : Type ℓ} (spawn : Spawn) (rest : ℤ → Result A)
    → ((z : ℤ) → is_ok (rest z) ≡ true)
    → is_ok (run_one spawn to_stream false >>= rest) ≡ true
unfolding run_one open_redirect
run_one-is_ok (exited z) rest h = h z
run_one-is_ok not_started rest h = h (pos 1)
run_one-is_ok timed_out rest h = h (pos 1)
