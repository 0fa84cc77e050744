-- ===== src/RunInstrGen/GenerateTests.antt =====
-- A run of the generator for VCS.
use kiemchung_ibex_v.Base.{
  String, true, false, List, [], ◌∷◌, some, ok, err, none, ◌≡◌, refl, is_ok,
}
use kiemchung_ibex_v.Base.Dict.{insert, lookup}
use kiemchung_ibex_v.Base.Int.{pos, is_nonzero}
use kiemchung_ibex_v.Base.Regex.{literal, many, some_of}
use kiemchung_ibex_v.Base.Shlex.{shlex_split}
use kiemchung_ibex_v.Base.Text.{has, join, split, strip, ends_with, str_int, str_ℕ}
use kiemchung_ibex_v.Builds.{run_all}
use kiemchung_ibex_v.IbexConfig.{
  parse_config, make_configs, make_config, read_fields, read_bool, read_str, read_int,
  as_config_error, get_item, make_all, name_error,
}
use kiemchung_ibex_v.IbexConfig.Samples.{configs_yaml}
use kiemchung_ibex_v.Metadata.{RegressionMetadata, new, roots}
use kiemchung_ibex_v.RunInstrGen.{abs_path, reloc_commands, os_join, split_plusarg}
use kiemchung_ibex_v.RunInstrGen.Copies.{CopyRule, do_file_copies, do_file_copies-keep}
use kiemchung_ibex_v.RunInstrGen.Exported.{IsComplete, generate-IsComplete}
use kiemchung_ibex_v.RunInstrGen.Generate.{
  Outside, Generated, generate, run_gen, run_generator, run_moved, finish, started_with, name_of,
  dir_of, gen_cmd, signature, file_copies, hex_text, hex_onto, hex_digit,
}
use kiemchung_ibex_v.RunOne.{exited, run_one}
use kiemchung_ibex_v.TestRunResult
use kiemchung_ibex_v.TraceCsv.{int_16, hex_digits, hex_value}
use kiemchung_ibex_v.TestRunResult.{TestRunResult, path_join}

abbrev outside : Outside
outside = record {
  roots = roots "/ibex";
  configs_yaml = configs_yaml;
  td = "/run";
  cwd = "/home";
  resolve = λ p. p;
  show = λ v. "";
  made_dir = true;
  gen_log_opens = true;
  orig_cmds = ok ("/run/@@PLACEHOLDER@@/vcs_simv -l x.log\n" ∷ "  \n" ∷ []);
  run_log_opens = true;
  exists = λ p. true;
  copies = λ src dst. true;
}

abbrev md : RegressionMetadata
md = record (new "/out/metadata") {
  simulator = "vcs";
  ibex_config = "small";
  signature_addr = "8ffffffc";
  isa_ibex = some "rv32imc";
  dir_instruction_generator = "/build";
}

abbrev trr : TestRunResult
trr = record TestRunResult.new {
  testname = some "arith";
  seed = some (pos 7);
  dir_test = some "/out/arith.7";
}

-- What it gives, or nothing
abbrev sample : Generated outside
sample = elim (generate outside (exited (pos 0)) (λ n cmd. exited (pos 0)) md trr) [
  | err _ _ ↦ record { exported = none; copied = []; returncode = pos 1 }
  | ok g ↦ g
]

csr_signature : signature "riscv_csr_test" "8ffffffc" ≡ ok "8ffffff8"
unfolding signature str_ℕ hex_text hex_onto hex_digit int_16 hex_digits hex_value has
csr_signature = refl

run_made :
    (generate outside (exited (pos 0)) (λ n cmd. exited (pos 0)) md trr ≡ ok sample)
    × (is_nonzero sample.returncode ≡ false)
unfolding generate run_gen run_generator run_moved finish started_with name_of dir_of gen_cmd
    signature file_copies parse_config make_configs make_config read_fields read_bool read_str
    read_int as_config_error get_item make_all name_error reloc_commands shlex_split strip has
    lookup split_plusarg literal some_of many os_join abs_path join split ends_with str_int str_ℕ
    run_all run_one do_file_copies path_join insert
run_made = (refl, refl)

generate-IsComplete_example :
    (testname : String) × (dir_test : String) × (trr.testname ≡ some testname)
    × (trr.dir_test ≡ some dir_test)
    × IsComplete outside testname dir_test sample
generate-IsComplete_example =
    generate-IsComplete outside (exited (pos 0)) (λ n cmd. exited (pos 0)) md trr sample run_made.0
      run_made.1

abbrev rules : List CopyRule
rules = ("gen.log", "gen.log", true) ∷ ("test_0.S", "test.S", false) ∷ []

do_file_copies-keep_example :
    (do_file_copies (λ p. true) (λ src dst. true) "/run" "/out" rules true
      ≡ (("/run/gen.log", "/out/gen.log") ∷ [], ok tt))
    × ((do_file_copies (λ p. true) (λ src dst. true) "/run" "/out" rules false).0
        ≡ ("/run/gen.log", "/out/gen.log") ∷ ("/run/test_0.S", "/out/test.S") ∷ [])
    × (is_ok (do_file_copies (λ p. true) (λ src dst. true) "/run" "/out" rules false).1 ≡ true)
unfolding os_join ends_with
do_file_copies-keep_example =
    do_file_copies-keep (λ p. true) (λ src dst. true) "/run" "/out" (λ src dst. refl) rules
