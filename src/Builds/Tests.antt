-- ===== src/Builds/Tests.antt =====
-- Runs of the scripts that build.
use kiemchung_ibex_v.Base.{
  String, true, List, [], ◌∷◌, none, some, ok, err, ErrorKind, is_ok, ◌≡◌, refl, All, length, keep,
  traverse,
}
use kiemchung_ibex_v.Base.Int.{pos}
use kiemchung_ibex_v.Base.Shlex.{shlex_split, join_quoted}
use kiemchung_ibex_v.Base.Text.{strip, lstrip, rstrip, has, replace, join, split, drop}
use kiemchung_ibex_v.Metadata.{roots, new}
use kiemchung_ibex_v.RunOne.{exited}
use kiemchung_ibex_v.TestRunResult
use kiemchung_ibex_v.TestRunResult.{FilePath, TestRunResult, TestType, riscvdv}
use kiemchung_ibex_v.Builds.CompileTb
use kiemchung_ibex_v.Builds.CompileTb.{
  get_iss_pkgconfig_flags, get_iss_pkgconfig_flags-split, tokens_of, concat,
  fixup_xcelium_rpath_token,
}
use kiemchung_ibex_v.Builds.CompileTest
use kiemchung_ibex_v.Builds.CompileTest.{
  compile_test, move_cmds, rewrite_cmd, rewrite_word, replace_all, is_command,
}
use kiemchung_ibex_v.Builds.CompileTest.Moved.{IsMoved, move_cmds-IsMoved, compile_test-dv_failed}
use kiemchung_ibex_v.Builds.MergeCov
use kiemchung_ibex_v.Builds.MergeCov.{merge_cov, has_dbs, merge_cov-returns}

abbrev tb : CompileTb.Outside
tb = record {
  root = "/ibex";
  run = λ cmd. record { returncode = 0; stdout = ""; stderr = "" };
  pkg_config = λ args. ok "-L/opt/spike/lib -Wl,-rpath,/opt/spike/lib\n";
  environ = λ var. some "";
  resolve = λ p. p;
  simulator_yaml = [];
}

xcelium_token :
    fixup_xcelium_rpath_token "xlm" "-Wl,-rpath,/opt/spike/lib"
    ≡ "-Wld,-Xlinker,-rpath,-Xlinker,/opt/spike/lib"
unfolding fixup_xcelium_rpath_token join split drop
xcelium_token = refl

flags_made :
    get_iss_pkgconfig_flags tb ("--libs-only-L" ∷ []) ("riscv-riscv" ∷ []) "vcs"
    ≡ ok "-L/opt/spike/lib -Wl,-rpath,/opt/spike/lib"
unfolding get_iss_pkgconfig_flags tokens_of fixup_xcelium_rpath_token shlex_split join_quoted strip
flags_made = refl

get_iss_pkgconfig_flags-split_example :
    (tokens : List (List String)) × (traverse
        (tokens_of tb ("riscv-riscv" ∷ []) "vcs")
        ("--libs-only-L" ∷ [])
      ≡ ok tokens)
    × (shlex_split "-L/opt/spike/lib -Wl,-rpath,/opt/spike/lib" ≡ ok (concat tb tokens))
get_iss_pkgconfig_flags-split_example =
    get_iss_pkgconfig_flags-split tb ("--libs-only-L" ∷ []) ("riscv-riscv" ∷ []) "vcs"
      "-L/opt/spike/lib -Wl,-rpath,/opt/spike/lib" flags_made

abbrev ct : CompileTest.Outside
ct = record {
  roots = roots "/ibex";
  td = "/tmp/td";
  orig_cmds = [];
  log_opens = true;
  environ = λ var. none;
  resolve = λ p. p;
  show = λ v. "";
}

abbrev csr_run : TestRunResult
csr_run = record TestRunResult.new {
  testtype = some riscvdv;
  dir_test = some "/out/run/tests/riscv_csr_test.7";
}

dv_failure :
    compile_test ct (exited (pos 2)) (λ n cmd. exited (pos 0)) (new "") csr_run
    ≡ err ErrorKind.type_error "'int' object is not iterable"
dv_failure =
    compile_test-dv_failed ct (pos 2) (λ n cmd. exited (pos 0)) (new "") csr_run
      "/out/run/tests/riscv_csr_test.7" refl refl refl refl

abbrev orig : List String
orig = "riscv32-gcc P/asm_test/t_0.S -o P/asm_test/t_0.o" ∷ "" ∷ []

orig_moved :
    move_cmds "P/" (("P/asm_test/t_0.S", "t.S") ∷ ("P/asm_test/t_0.o", "t.o") ∷ []) orig
    ≡ ok (("riscv32-gcc" ∷ "t.S" ∷ "-o" ∷ "t.o" ∷ []) ∷ [])
unfolding move_cmds rewrite_cmd rewrite_word replace_all strip lstrip rstrip shlex_split has replace
orig_moved = refl

cmds-IsMoved :
    All (IsMoved "P/") (("riscv32-gcc" ∷ "t.S" ∷ "-o" ∷ "t.o" ∷ []) ∷ [])
    × (1 ≡ length (keep is_command orig))
cmds-IsMoved =
    move_cmds-IsMoved "P/" (("P/asm_test/t_0.S", "t.S") ∷ ("P/asm_test/t_0.o", "t.o") ∷ []) orig
      (("riscv32-gcc" ∷ "t.S" ∷ "-o" ∷ "t.o" ∷ []) ∷ []) orig_moved

abbrev cov : MergeCov.Outside
cov = record {
  roots = roots "/ibex";
  environ = [];
  glob = λ dir pattern. "/out/run/cov/t/a.ucd" ∷ [];
  parent = λ p. p;
  opens = λ p. true;
  spawn = λ env cmd. exited (pos 0);
}

merge_cov-returns_example :
    is_ok (merge_cov cov (record (new "") { simulator = "xlm" }))
    ≡ has_dbs cov (record (new "") { simulator = "xlm" })
merge_cov-returns_example =
    merge_cov-returns cov (λ path. refl) (record (new "") { simulator = "xlm" })
