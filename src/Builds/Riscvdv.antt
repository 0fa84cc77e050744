-- ===== src/Builds/Riscvdv.antt =====
-- get_fcov.py and build_instr_gen.py (dv/uvm/core_ibex/scripts): one command of riscv-dv each, which
-- is kept in the metadata and run. The directory of the generator is emptied before.
use kiemchung_ibex_v.Base.{
  String, Bool, false, List, [], ◌∷◌, ◌++◌, none, some, Result, ok, err, ErrorKind, ◌>>=◌,
  if◌then◌else◌,
}
use kiemchung_ibex_v.Base.Int.{ℤ}
use kiemchung_ibex_v.Builds.{get_run_cmd}
use kiemchung_ibex_v.Metadata.{RegressionMetadata, Roots}
use kiemchung_ibex_v.RunOne.{Spawn, run_one, to_path}
use kiemchung_ibex_v.TestRunResult.{FilePath, path_join}

-- `md.isa_ibex`, which is in a command that is run
isa_of : RegressionMetadata → Result String
isa_of md = elim md.isa_ibex [
  | none ↦ err ErrorKind.type_error "expected str, bytes or os.PathLike object, not NoneType"
  | some isa ↦ ok isa
]

-- `get_cov_cmd` of riscvdv_interface.py
pub get_cov_cmd : Roots → RegressionMetadata → String → List String
get_cov_cmd r md isa =
    ("python3"
      ∷ path_join r.riscv_dv "cov.py"
      ∷ "--core"
      ∷ "ibex"
      ∷ "--dir"
      ∷ md.dir_run
      ∷ "-o"
      ∷ md.dir_fcov
      ∷ "--simulator"
      ∷ md.simulator
      ∷ "--opts"
      ∷ "--gen_timeout 1000"
      ∷ "--isa"
      ∷ isa
      ∷ "--custom_target"
      ∷ md.ibex_riscvdv_customtarget
      ∷ [])
    ++ (if md.verbose then "--verbose" ∷ [] else [])

module _ (r : Roots) (spawn : List String → Spawn) (opens : Bool) where
  -- `_main` of get_fcov.py: the metadata that it exports, and the return code
  pub get_fcov : RegressionMetadata → Result (RegressionMetadata × ℤ)
  unfolding isa_of get_cov_cmd
  get_fcov md = do
    isa ← isa_of md
    let cmd = get_cov_cmd r md isa
    retcode ← run_one (spawn cmd) (to_path opens) false
    ok (
      record md {
        riscvdv_fcov_cmds = some (cmd ∷ []);
        riscvdv_fcov_stdout = some (path_join md.dir_fcov "riscvdv_fcov_stdout.log");
      },
      retcode,
    )

  -- The command that builds the instruction generator; a missing ISA is formatted to an empty text.
  build_cmd : (FilePath → FilePath) → RegressionMetadata → List String
  build_cmd resolve md =
      get_run_cmd r resolve md.verbose
      ++ "--co"
        ∷ "--steps=gen"
        ∷ "--simulator"
        ∷ md.simulator
        ∷ "--output"
        ∷ resolve md.dir_instruction_generator
        ∷ "--isa"
        ∷ (elim md.isa_ibex [ none ↦ "" | some isa ↦ isa ])
        ∷ "--end_signature_addr"
        ∷ md.signature_addr
        ∷ []

  -- `_main` of build_instr_gen.py
  pub build_instr_gen : (FilePath → FilePath) → RegressionMetadata → Result (RegressionMetadata × ℤ)
  unfolding build_cmd
  build_instr_gen resolve md = do
    let cmd = build_cmd resolve md
    retcode ← run_one (spawn cmd) (to_path opens) false
    ok (
      record md {
        riscvdv_build_stdout = some (path_join md.dir_instruction_generator "build_stdout.log");
        riscvdv_build_cmds = some (cmd ∷ []);
      },
      retcode,
    )
