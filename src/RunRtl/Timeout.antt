-- ===== src/RunRtl/Timeout.antt =====
-- What the simulation leaves in the record of the test, and what the log check makes of it.
use kiemchung_ibex_v.Base.{
  ℕ, ◌+◌, String, Bool, true, false, ◌||◌, List, [], ◌∷◌, Option, none, some, Result, ok, err,
  ErrorKind, ◌>>=◌, ◌≡◌, refl, sym, ◌∙◌, subst, arith, if◌then◌else◌, ap, ◌<>◌, not, ◌&&◌, ◌↔◌,
  Bool-cases, Result-cases, inl, inr,
}
use kiemchung_ibex_v.Base.Value.{Value}
use kiemchung_ibex_v.Base.Text.{str_ℕ}
use kiemchung_ibex_v.CheckLogs.{compare_test_run}
use kiemchung_ibex_v.CheckLogs.Compare.{reads_well, all_well, compare_test_run-passed}
use kiemchung_ibex_v.IbexCmd.{Completed}
use kiemchung_ibex_v.RunOne.{Spawn, exited, not_started, timed_out, run_one-stream}
use kiemchung_ibex_v.RunRtl.{Metadata, Plan, prepare, set_fields, run_cmds, simulate, run_rtl}
use kiemchung_ibex_v.TestRunResult.{TestRunResult, timeout, FilePath}

abbrev pub is_timeout : Spawn → Bool
is_timeout timed_out = true
is_timeout not_started = false
is_timeout (exited n) = false

-- Whether one of the commands is killed
abbrev pub any_timeout : (ℕ → List String → Spawn) → ℕ → List (List String) → Bool
any_timeout spawn n [] = false
any_timeout spawn n (cmd ∷ cmds) = is_timeout (spawn n cmd) || any_timeout spawn (n + 1) cmds

-- The record of a test whose simulation was killed
abbrev pub killed : Metadata → TestRunResult → TestRunResult
killed md trr = record trr {
  failure_mode = some timeout;
  failure_message = some (
      "[FAILURE] Simulation process killed due to timeout ["
      <> str_ℕ (md.run_rtl_timeout_s + 60)
      <> "s].\n");
}

module _ (spawn : ℕ → List String → Spawn) where
  run_cmds_lem :
      (n : ℕ) (cmds : List (List String))
      → run_cmds spawn n cmds
        ≡ (if any_timeout spawn n cmds then err ErrorKind.timeout_expired "" else ok tt)
  unfolding run_cmds
  run_cmds_lem n [] = refl
  run_cmds_lem n (cmd ∷ cmds) =
      ground (arith, run_one-stream (spawn n cmd), run_cmds_lem (n + 1) cmds)

  -- The record that the simulation leaves
  abbrev pub finished : Metadata → TestRunResult → List (List String) → TestRunResult
  finished md trr cmds = if any_timeout spawn 0 cmds then killed md trr else trr

  simulate_lem :
      (md : Metadata) (trr : TestRunResult) (cmds : List (List String))
      → simulate spawn md trr cmds ≡ ok (finished md trr cmds)
  unfolding simulate
  simulate_lem md trr cmds = elim (Bool-cases (any_timeout spawn 0 cmds)) [
    | inl e ↦ rw (simulate, run_cmds_lem 0 cmds, e) refl
    | inr e ↦ rw (simulate, run_cmds_lem 0 cmds, e) refl
  ]

judged :
    (timeout_text name : String) (md : Metadata) (b : Bool) (u : TestRunResult)
    → u.passed ≡ none
    → u.failure_mode ≡ none
    → (processed : Result (Unit {0})) (rtl_log : Result (List String)) (t : TestRunResult)
    → compare_test_run timeout_text name (if b then killed md u else u) processed rtl_log ≡ ok t
    → (t.passed ≡ some true) ↔ (not b && reads_well processed rtl_log ≡ true)
judged timeout_text name md true u fresh unmarked processed rtl_log t h =
    compare_test_run-passed timeout_text name (killed md u) fresh processed rtl_log t h
judged timeout_text name md false u fresh unmarked processed rtl_log t h =
    subst (λ mode. (t.passed ≡ some true) ↔ (all_well mode processed rtl_log ≡ true)) unmarked
      (compare_test_run-passed timeout_text name u fresh processed rtl_log t h)

module _ (root : String) (run : List String → Completed) (environ : String → Option String)
    (resolve : FilePath → FilePath) (show : Value → String) (spawn : ℕ → List String → Spawn) where
  -- Once the commands are prepared the script always ends, and it marks the test as killed exactly
  -- if one of the commands runs into its timeout.
  pub run_rtl-finished :
      (md : Metadata) (trr : TestRunResult)
      → run_rtl root run environ resolve show spawn md trr ≡ (do
        plan ← prepare root run environ resolve show md trr
        ok (finished spawn md (set_fields md plan trr) plan.sim_cmds))
  unfolding run_rtl
  run_rtl-finished md trr = elim (Result-cases (prepare root run environ resolve show md trr)) [
    | inl (k, m, e) ↦ rw (run_rtl, e) refl
    | inr (plan, e) ↦ rw (run_rtl, e) (simulate_lem spawn md (set_fields md plan trr) plan.sim_cmds)
  ]

  -- Of a new test whose commands could be prepared, the simulation followed by the log check gives
  -- a pass exactly if no command ran into its timeout, the trace was processed, and the log could
  -- be read and passes.
  pub run_rtl-compare_test_run :
      (timeout_text name : String) (md : Metadata) (trr : TestRunResult) (plan : Plan)
      → prepare root run environ resolve show md trr ≡ ok plan
      → trr.passed ≡ none
      → trr.failure_mode ≡ none
      → (processed : Result (Unit {0})) (rtl_log : Result (List String)) (t : TestRunResult)
      → (run_rtl root run environ resolve show spawn md trr >>= λ r.
          compare_test_run timeout_text name r processed rtl_log)
        ≡ ok t
      → (t.passed ≡ some true)
        ↔ (not (any_timeout spawn 0 plan.sim_cmds) && reads_well processed rtl_log ≡ true)
  unfolding set_fields
  run_rtl-compare_test_run timeout_text name md trr plan prepared fresh unmarked processed rtl_log t
        h =
      let compare = λ (r : TestRunResult). compare_test_run timeout_text name r processed rtl_log in
      let finish = λ (p : Plan). finished spawn md (set_fields md p trr) p.sim_cmds in
      let simulated =
        run_rtl-finished md trr
        ∙ ap (λ (p : Result Plan). p >>= λ plan'. ok (finish plan')) prepared in
      judged timeout_text name md (any_timeout spawn 0 plan.sim_cmds) (set_fields md plan trr) fresh
        unmarked processed rtl_log t
        (sym (ap (λ (r : Result TestRunResult). r >>= compare) simulated) ∙ h)
