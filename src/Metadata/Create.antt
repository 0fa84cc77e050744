-- ===== src/Metadata/Create.antt =====
-- `_main` of metadata.py: the operation that creates the metadata and the record of each run, and
-- the one that prints the runs. A record that is exported is given to the caller, in order; the
-- files are written from it.
pub mod Labels
pub mod Bounds
pub mod Names
pub mod WellFormed
pub mod Listed
use kiemchung_ibex_v.Base.{
  ℕ, zero, suc, String, ◌<>◌, Bool, true, false, not, List, [], ◌∷◌, ◌++◌, Option, none, some,
  Result, ok, err, ErrorKind, ◌>>=◌, ◌>>◌, guard, traverse, map, concat_map, if◌then◌else◌, str_eq,
}
use kiemchung_ibex_v.Base.Dict.{Dict}
use kiemchung_ibex_v.Base.Int.{ℤ, pos, pos_part, add_ℕ, is_nonzero}
use kiemchung_ibex_v.Base.Shlex.{shlex_split}
use kiemchung_ibex_v.Base.Text.{join, parse_int, split, str_int}
use kiemchung_ibex_v.Base.Value.{Value, str, list, truthy, to_items}
use kiemchung_ibex_v.DirectedTests.{get_or_null}
use kiemchung_ibex_v.Metadata.{RegressionMetadata}
use kiemchung_ibex_v.Metadata.Args.{Given, arg_list_initializer, get_ibex_metadata}
use kiemchung_ibex_v.Metadata.TestList.{TestSources, Counted, get_tests_and_counts}
use kiemchung_ibex_v.SimCommands.{as_text}
use kiemchung_ibex_v.TestRunResult
use kiemchung_ibex_v.TestRunResult.{FilePath, TestRunResult, TestType, riscvdv, directed, path_join}

-- `range(seed, seed + n)`
unfoldable pub seeds_from : ℤ → ℕ → List ℤ
seeds_from seed zero = []
seeds_from seed (suc n) = seed ∷ seeds_from (add_ℕ seed 1) n

-- The seeds of a test that is run `count` times: none if it is negative
abbrev pub seeds : ℤ → ℤ → List ℤ
seeds seed count = seeds_from seed (pos_part count)

-- `f"{test}.{testseed}"`
abbrev pub tds_str : String → ℤ → String
tds_str test testseed = test <> "." <> str_int testseed

-- `shlex.split(obj.get(field) or "")`
unfoldable pub shlex_if_not_empty : Dict Value → String → Result (List String)
shlex_if_not_empty obj fld =
    let v = get_or_null fld obj in
    if truthy v then (as_text v >>= λ text. shlex_split text) else ok []

-- `plusarg, val = opt.split('=')`
unfoldable pub plusarg : String → Result (String × String)
plusarg opt = elim (split b'=' opt) [
  | [] ↦ err ErrorKind.value_error "not enough values to unpack"
  | name ∷ vals ↦ elim vals [
    | [] ↦ err ErrorKind.value_error "not enough values to unpack"
    | val ∷ more ↦ elim more [
      | [] ↦ ok (name, val)
      | _ ∷ _ ↦ err ErrorKind.value_error "too many values to unpack"
    ]
  ]
]

-- The loop over the plusargs, with the value of `is_discrete_debug_module`
unfoldable pub debug_module : Option Bool → List String → Result (Option Bool)
unfolding plusarg
debug_module found [] = ok found
debug_module found (opt ∷ opts) = do
  named ← plusarg opt
  elim (str_eq named.0 "+discrete_debug_module") [
    | false ↦ debug_module found opts
    | true ↦ elim (parse_int named.1) [
      | none ↦ err ErrorKind.value_error "invalid literal for int() with base 10"
      | some z ↦ debug_module (some (is_nonzero z)) opts
    ]
  ]

-- The options of a test of riscv-dv, and whether its debug module is a discrete one
abbrev pub Opts : Type 0
Opts = List String × List String × List String × List String × Option Bool

unfoldable pub riscvdv_opts : Dict Value → Option Bool → Result Opts
unfolding shlex_if_not_empty debug_module
riscvdv_opts obj is_discrete = do
  gen_test ← shlex_if_not_empty obj "gen_test"
  gen_opts ← shlex_if_not_empty obj "gen_opts"
  rtl_test ← shlex_if_not_empty obj "rtl_test"
  sim_opts ← shlex_if_not_empty obj "sim_opts"
  found ← debug_module is_discrete sim_opts
  ok (gen_test, gen_opts, rtl_test, sim_opts, found)

unfoldable pub set_opts : TestRunResult → Opts → TestRunResult
set_opts trr (gen_test, gen_opts, rtl_test, sim_opts, found) = record trr {
  gen_test = some gen_test;
  gen_opts = some gen_opts;
  rtl_test = some (list (to_items (map (λ s. str s) rtl_test)));
  sim_opts = some sim_opts;
  is_discrete_debug_module = found;
}

unfoldable pub riscvdv_fields : Dict Value → TestRunResult → Result TestRunResult
unfolding riscvdv_opts set_opts
riscvdv_fields obj trr = do
  opts ← riscvdv_opts obj trr.is_discrete_debug_module
  ok (set_opts trr opts)

-- The constructor of the record of a run
unfoldable pub new_trr : RegressionMetadata → String → TestType → ℤ → TestRunResult
new_trr md test testtype testseed =
    let tds = tds_str test testseed in
    record TestRunResult.new {
      testtype = some testtype;
      testdotseed = some tds;
      testname = some test;
      seed = some testseed;
      rtl_simulator = some md.simulator;
      iss_cosim = some md.iss;
      dir_test = some (path_join md.dir_tests tds);
      metadata_pickle_file = some md.pickle_file;
      pickle_file = some (path_join md.dir_metadata (tds <> ".pickle"));
      yaml_file = some (path_join (path_join md.dir_tests tds) "trr.yaml");
    }

-- The record of the run of a test with a seed
unfoldable pub make_trr : RegressionMetadata → Counted → ℤ → Result TestRunResult
unfolding new_trr riscvdv_fields
make_trr md ((test, count, testtype), obj) testseed =
    let trr = new_trr md test testtype testseed in
    elim testtype [
      | riscvdv ↦ riscvdv_fields obj trr
      | directed ↦ ok (record trr { directed_data = some obj })
    ]

-- All runs, in the order in which they are made
unfoldable pub runs : RegressionMetadata → List Counted → List (Counted × ℤ)
runs md tests = concat_map (λ t. map (λ testseed. (t, testseed)) (seeds md.seed t.0.1)) tests

-- `tests_pickle_files.append(trr.pickle_file)` for each
abbrev pub pickle_files : List TestRunResult → List FilePath
pickle_files [] = []
pickle_files (trr ∷ trrs) = elim trr.pickle_file [
  | none ↦ pickle_files trrs
  | some p ↦ p ∷ pickle_files trrs
]

-- What is exported: the records of the runs, and then the metadata
pub record Created : Type 0 where
  pub md : RegressionMetadata
  pub trrs : List TestRunResult

abbrev pub has_tests : List Counted → Bool
has_tests [] = false
has_tests (_ ∷ _) = true

unfoldable pub created : RegressionMetadata → List Counted → List TestRunResult → Created
created md tests trrs = record {
  md = record md {
    tests_and_counts = map (λ t. t.0) tests;
    tests_pickle_files = md.tests_pickle_files ++ pickle_files trrs;
  };
  trrs = trrs;
}

unfoldable pub create : Given → TestSources → FilePath → FilePath → String → Result Created
unfolding get_ibex_metadata runs make_trr created
create g s dir_metadata dir_out args_list = do
  md ← arg_list_initializer g dir_metadata dir_out args_list
  md ← get_ibex_metadata g.configs_yaml md
  tests ← get_tests_and_counts s md
  guard (has_tests tests) ErrorKind.runtime_error
      "md.tests_and_counts is empty, cannot get TEST.SEED strings."
  trrs ← traverse (λ r. make_trr md r.0 r.1) (runs md tests)
  ok (created md tests trrs)

-- `--op create_metadata`: metadata that exist are not made again.
unfoldable pub create_metadata :
    Bool → Given → TestSources → FilePath → FilePath → String → Result (Option Created)
unfolding create
create_metadata pickle_exists g s dir_metadata dir_out args_list = elim pickle_exists [
  | true ↦ ok none
  | false ↦ do created ← create g s dir_metadata dir_out args_list; ok (some created)
]

abbrev pub type_eq : TestType → TestType → Bool
type_eq riscvdv riscvdv = true
type_eq directed directed = true
type_eq _ _ = false

-- The list of `--field riscvdv_tds` and of `--field directed_tds`
unfoldable pub tds_list : RegressionMetadata → TestType → List String
tds_list md testtype =
    concat_map (λ t. if type_eq t.2 testtype then map (tds_str t.0) (seeds md.seed t.1) else [])
      md.tests_and_counts

-- What `--op print_field` prints for these two fields
unfoldable pub print_tds : RegressionMetadata → TestType → String
unfolding tds_list
print_tds md testtype = join " " (tds_list md testtype)
