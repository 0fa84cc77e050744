-- ===== src/Builds/CompileTb.antt =====
-- compile_tb.py: the commands that build the testbench. `pkg_config` is the program pkg-config,
-- which may fail with a `CalledProcessError`.
use kiemchung_ibex_v.Base.{
  String, ◌<>◌, Bool, true, false, ◌&&◌, List, [], ◌∷◌, Option, none, some, Result, ok, err,
  ErrorKind, ◌>>=◌, ◌>>◌, guard, traverse, map, all, concat_map, if◌then◌else◌, str_eq, starts_with,
  ◌≡◌, ap, sym, ◌∙◌, >>=-eq-ok, ok-injective,
}
use kiemchung_ibex_v.Base.Dict.{Dict, update}
use kiemchung_ibex_v.Base.Int.{ℤ}
use kiemchung_ibex_v.Base.Shlex.{shlex_split, join_quoted, shlex_split-join_quoted}
use kiemchung_ibex_v.Base.Text.{drop, join, split, strip}
use kiemchung_ibex_v.Base.Value.{Value}
use kiemchung_ibex_v.Builds.{Runs, run_all, codes, first_failure, run_all-first_failure}
use kiemchung_ibex_v.IbexCmd.{Completed, get_compile_opts}
use kiemchung_ibex_v.Metadata.{RegressionMetadata}
use kiemchung_ibex_v.SimCommands.{get_tool_cmds}
use kiemchung_ibex_v.TestRunResult.{FilePath, path_join}
use Prim.Native.String.{count}

abbrev rpath_prefix : String
rpath_prefix = "-Wl,-rpath,"

unfoldable pub fixup_xcelium_rpath_token : String → String → String
fixup_xcelium_rpath_token simulator t =
    if str_eq simulator "xlm" && starts_with t rpath_prefix
    then "-Wld,-Xlinker,-rpath,"
      <> join "," (map (λ p. "-Xlinker," <> p) (split b',' (drop (count rpath_prefix) t)))
    else t

abbrev pub spike_iss_pc : List String
spike_iss_pc = "riscv-riscv" ∷ "riscv-disasm" ∷ "riscv-fdt" ∷ "riscv-fesvr" ∷ []

-- The variables for the flags of the ISS, with the calls that give them
abbrev pub iss_pkgconfig : Dict (List String)
iss_pkgconfig =
    ("ISS_CFLAGS", "--cflags" ∷ [])
    ∷ ("ISS_LDFLAGS", "--libs-only-other" ∷ [])
    ∷ ("ISS_LIBS", "--libs-only-l" ∷ "--libs-only-L" ∷ [])
    ∷ []

-- What a build gets from outside
pub record Outside : Type 0 where
  pub root : String
  pub run : List String → Completed
  pub pkg_config : List String → Result String
  pub environ : String → Option String
  pub resolve : FilePath → FilePath
  pub simulator_yaml : List Value

module _ (o : Outside) where
  -- The tokens of one call of pkg-config
  unfoldable pub tokens_of : List String → String → String → Result (List String)
  unfolding fixup_xcelium_rpath_token
  tokens_of iss_pc simulator s = do
    stdout ← o.pkg_config (s ∷ iss_pc)
    tokens ← shlex_split (strip stdout)
    ok (map (fixup_xcelium_rpath_token simulator) tokens)

  abbrev pub concat : List (List String) → List String
  concat xss = concat_map (λ xs. xs) xss

  unfoldable pub get_iss_pkgconfig_flags : List String → List String → String → Result String
  unfolding tokens_of
  get_iss_pkgconfig_flags specifiers iss_pc simulator = do
    tokens ← traverse (tokens_of iss_pc simulator) specifiers
    ok (join_quoted (concat tokens))

  -- Whatever tokens pkg-config prints, and also if they hold blanks or quotes: the flags that are
  -- put into a command are split by a shell into the tokens of all calls, in order, each fixed up.
  pub get_iss_pkgconfig_flags-split :
      (specifiers iss_pc : List String) (simulator flags : String)
      → get_iss_pkgconfig_flags specifiers iss_pc simulator ≡ ok flags
      → (tokens : List (List String)) × (traverse (tokens_of iss_pc simulator) specifiers
          ≡ ok tokens)
        × (shlex_split flags ≡ ok (concat tokens))
  unfolding get_iss_pkgconfig_flags
  get_iss_pkgconfig_flags-split specifiers iss_pc simulator flags h =
      let (tokens, made, done) =
        >>=-eq-ok (traverse (tokens_of iss_pc simulator) specifiers)
          (λ tokens. ok (join_quoted (concat tokens))) h in
      (
        tokens,
        made,
        ap shlex_split (sym (ok-injective done)) ∙ shlex_split-join_quoted (concat tokens),
      )

  -- `{k: _get_iss_pkgconfig_flags(v, …) for k, v in …}`
  iss_vars : String → Dict (List String) → Result (Dict String)
  unfolding get_iss_pkgconfig_flags
  iss_vars simulator [] = ok []
  iss_vars simulator ((k, v) ∷ rest) = do
    flags ← get_iss_pkgconfig_flags v spike_iss_pc simulator
    vars ← iss_vars simulator rest
    ok ((k, flags) ∷ vars)

  -- `subst_vars_dict`, before the flags of the ISS; a path is resolved when it is put in.
  tb_vars : RegressionMetadata → String → Dict String
  tb_vars md compile_opts =
      ("core_ibex", o.resolve md.ibex_dv_root)
      ∷ ("tb_dir", o.resolve md.dir_tb)
      ∷ ("tb_build_log", o.resolve (path_join md.dir_tb "compile_tb.log"))
      ∷ (
        "cmp_opts",
        compile_opts <> " +define+DM_ADDR=1A11_0000 " <> " +define+DM_ADDR_MASK=0000_0FFF"
            <> " +define+BOOT_ADDR=8000_0000 " <> " +define+DEBUG_MODE_HALT_ADDR=8000_0000 "
            <> " +define+DEBUG_MODE_EXCEPTION_ADDR=8000_0008 ",
      )
      ∷ ("dir_shared_cov", if md.cov then o.resolve md.dir_shared_cov else "")
      ∷ ("xlm_cov_cfg_file", md.ot_xcelium_cov_scripts <> "/cover.ccf")
      ∷ ("dut_cov_rtl_path", md.dut_cov_rtl_path)
      ∷ []

  abbrev is_set : String → Bool
  is_set var = elim (o.environ var) [ none ↦ false | some _ ↦ true ]

  -- A `CalledProcessError` of the first call says that packages are missing.
  spike_found : Result (Unit {0})
  spike_found = elim (o.pkg_config ("--exists" ∷ spike_iss_pc)) [
    | ok _ ↦ ok tt
    | err ErrorKind.called_process_error m ↦
        err ErrorKind.runtime_error "Failed to find the pkg-config packages of Spike"
    | err kind m ↦ err kind m
  ]

  -- The part of `_main` with the lock: the metadata that it exports
  pub prepare_tb : RegressionMetadata → Result RegressionMetadata
  unfolding spike_found iss_vars tb_vars
  prepare_tb md = do
    guard (all is_set ("PRJ_DIR" ∷ "LOWRISC_IP_DIR" ∷ [])) ErrorKind.runtime_error
        "The environment variable is not set."
    spike_found
    iss ← iss_vars md.simulator iss_pkgconfig
    compile_opts ← get_compile_opts o.root o.run md.ibex_config md.simulator
    cmds ←
        get_tool_cmds o.environ
          (("cov_opts", md.cov) ∷ ("wave_opts", md.waves) ∷ ("cosim_opts", true) ∷ [])
          (update (tb_vars md compile_opts) iss) o.simulator_yaml md.simulator "compile"
    ok (record md {
      tb_build_log = some (path_join md.dir_tb "compile_tb.log");
      tb_build_stdout = some (path_join md.dir_tb "compile_tb_stdstreams.log");
      tb_build_cmds = some cmds;
    })

abbrev pub or_empty : Option (List (List String)) → List (List String)
or_empty none = []
or_empty (some cmds) = cmds

-- `_main`: the exported metadata and the return code
pub compile_tb : Outside → Runs → RegressionMetadata → Result (RegressionMetadata × ℤ)
compile_tb o spawn md = do
  md ← prepare_tb o md
  retcode ← run_all spawn 0 (or_empty md.tb_build_cmds)
  ok (md, retcode)

-- Once its commands could be prepared, the build always ends, with the return code of the first
-- command that fails, or zero; the metadata hold the commands that it ran.
pub compile_tb-first_failure :
    (o : Outside) (spawn : Runs) (md md' : RegressionMetadata)
    → prepare_tb o md ≡ ok md'
    → compile_tb o spawn md
      ≡ ok (md', first_failure spawn (codes spawn 0 (or_empty md'.tb_build_cmds)))
unfolding compile_tb
compile_tb-first_failure o spawn md md' h =
    ap
      (λ r. r >>= λ md. run_all spawn 0 (or_empty md.tb_build_cmds) >>= λ retcode. ok (md, retcode))
      h
    ∙ ap (λ r. r >>= λ retcode. ok (md', retcode))
        (run_all-first_failure spawn 0 (or_empty md'.tb_build_cmds))
