-- ===== src/RunRtl/Tests.antt =====
-- A directed test on a simulator whose second command is killed.
use kiemchung_ibex_v.Base.{
  ℕ, String, true, false, not, ◌&&◌, List, [], ◌∷◌, Option, none, some, Result, ok, ◌≡◌, refl, ap,
  ◌∙◌, ◌↔◌, ◌>>=◌, ◌==◌, if◌then◌else◌,
}
use kiemchung_ibex_v.Base.Int.{pos}
use kiemchung_ibex_v.Base.Value.{Value, str, list, dict, item, nil, end, field}
use kiemchung_ibex_v.Base.Dict.{lookup}
use kiemchung_ibex_v.Base.Regex.{one}
use kiemchung_ibex_v.Base.Shlex.{shlex_split}
use kiemchung_ibex_v.Base.Text.{has, replace, split, strip, str_int, str_ℕ}
use kiemchung_ibex_v.IbexConfig.{get_item}
use kiemchung_ibex_v.SimCommands.{
  get_tool_cmds, get_yaml_for_simulator, section_of, commands_in, subst_env_vars, has_parameters,
  subst_opt, subst_dict,
}
use kiemchung_ibex_v.CheckLogs.{compare_test_run}
use kiemchung_ibex_v.CheckLogs.Compare.{reads_well, compare_test_run-killed}
use kiemchung_ibex_v.IbexCmd.{Completed, get_x_opts, get_sim_opts}
use kiemchung_ibex_v.RunOne.{Spawn, exited, timed_out}
use kiemchung_ibex_v.RunRtl.{Metadata, Plan, prepare, set_fields, run_rtl}
use kiemchung_ibex_v.RunRtl.Timeout.{
  any_timeout, finished, killed, run_rtl-finished, run_rtl-compare_test_run,
}
use kiemchung_ibex_v.TestRunResult.{TestRunResult, directed, new, path_join}

abbrev no_config : List String → Completed
no_config cmd = record { returncode = 0; stdout = ""; stderr = "" }

abbrev environ : String → Option String
environ name = none

abbrev resolve : String → String
resolve p = p

abbrev show : Value → String
show v = "?"

abbrev spawn : ℕ → List String → Spawn
spawn n cmd = if n == 1 then timed_out else exited (pos 0)

abbrev md : Metadata
md = record {
  ibex_root = "/ibex";
  dir_tb = "/out/tb";
  dir_shared_cov = "/out/cov";
  ibex_dv_root = "/ibex/dv";
  riscvdv_testlist = [];
  simulator_yaml =
      dict (
        field "tool" (str "vcs") (
          field "sim"
            (dict (
              field "cmd" (list (item (str "<tb_dir>/simv +seed=<seed>") (item (str "report") nil)))
                end))
            end))
      ∷ [];
  signature_addr = "8ffffffc";
  ibex_config = "small";
  simulator = "vcs";
  iss = "spike";
  cov = false;
  waves = false;
  run_rtl_timeout_s = 1800;
}

abbrev trr : TestRunResult
trr = record new {
  testtype = some directed;
  testname = some "pmp";
  seed = some (pos 7);
  binary = some "/out/test.bin";
  dir_test = some "/out/run";
  directed_data = some (("rtl_test", str "core_ibex_base_test") ∷ []);
}

abbrev plan : Plan
plan = record {
  rtl_test = str "core_ibex_base_test";
  timeout_s = Value.int (pos 1800);
  ddm_sim_opts = "";
  dir_test = "/out/run";
  sim_cmds = ("/out/tb/simv" ∷ "+seed=7" ∷ []) ∷ ("report" ∷ []) ∷ [];
}

plan_made : prepare "/ibex" no_config environ resolve show md trr ≡ ok plan
unfolding prepare get_sim_opts get_x_opts get_item lookup has replace split strip shlex_split
    get_tool_cmds get_yaml_for_simulator section_of commands_in subst_env_vars has_parameters
    subst_opt subst_dict one path_join str_int str_ℕ
plan_made = refl

sample_finished : run_rtl "/ibex" no_config environ resolve show spawn md trr ≡ (do
  p ← prepare "/ibex" no_config environ resolve show md trr
  ok (finished spawn md (set_fields md p trr) p.sim_cmds))
sample_finished = run_rtl-finished "/ibex" no_config environ resolve show spawn md trr

abbrev judged_trr : TestRunResult
judged_trr = record (killed md (set_fields md plan trr)) { passed = some false }

trr_judged :
    (run_rtl "/ibex" no_config environ resolve show spawn md trr >>= λ r.
    compare_test_run "1800" "rtl_sim.log" r (ok tt) (ok ("RISC-V UVM TEST PASSED" ∷ [])))
    ≡ ok judged_trr
unfolding set_fields
trr_judged =
    ap
      (λ (r : Result TestRunResult). r >>= λ u.
        compare_test_run "1800" "rtl_sim.log" u (ok tt) (ok ("RISC-V UVM TEST PASSED" ∷ [])))
      (run_rtl-finished "/ibex" no_config environ resolve show spawn md trr
        ∙ ap
            (λ (p : Result Plan).
              p >>= λ q. ok (finished spawn md (set_fields md q trr) q.sim_cmds))
            plan_made)
    ∙ compare_test_run-killed "1800" "rtl_sim.log" (killed md (set_fields md plan trr)) refl (ok tt)
        (ok ("RISC-V UVM TEST PASSED" ∷ []))

run_rtl-compare_test_run_example : (judged_trr.passed ≡ some true) ↔ (
    not (any_timeout spawn 0 plan.sim_cmds)
      && reads_well (ok tt) (ok ("RISC-V UVM TEST PASSED" ∷ []))
    ≡ true)
run_rtl-compare_test_run_example =
    run_rtl-compare_test_run "/ibex" no_config environ resolve show spawn "1800" "rtl_sim.log" md
      trr plan plan_made refl refl (ok tt) (ok ("RISC-V UVM TEST PASSED" ∷ [])) judged_trr
      trr_judged
