-- ===== src/Metadata/Create/Labels.antt =====
-- The names of the runs that `--op create_metadata` makes.
use kiemchung_ibex_v.Base.{
  String, true, List, [], Option, some, ok, ◌>>=◌, traverse, map, ◌≡◌, refl, sym, ap, ◌∙◌, arith,
  >>=-eq-ok, map-traverse, ok-injective, ◌<>◌, ◌>>◌, guard, ErrorKind,
}
use kiemchung_ibex_v.Base.Dict.{Dict}
use kiemchung_ibex_v.Base.Int.{ℤ}
use kiemchung_ibex_v.Base.Value.{Value}
use kiemchung_ibex_v.Metadata.{RegressionMetadata}
use kiemchung_ibex_v.Metadata.Args.{Given, arg_list_initializer, get_ibex_metadata}
use kiemchung_ibex_v.Metadata.Args.Fresh.{arg_list_initializer_lem}
use kiemchung_ibex_v.Metadata.TestList.{TestSources, Counted, get_tests_and_counts}
use kiemchung_ibex_v.Metadata.Create.{
  Created, create, runs, make_trr, new_trr, riscvdv_fields, riscvdv_opts, set_opts, created,
  has_tests, Opts, tds_str,
}
use kiemchung_ibex_v.TestRunResult.{FilePath, TestRunResult, TestType, riscvdv, directed, path_join}

-- The kind of a run, its name, its file and its seed
abbrev pub Label : Type 0
Label = Option TestType × Option String × Option FilePath × Option ℤ

abbrev pub label_of : TestRunResult → Label
label_of trr = (trr.testtype, trr.testdotseed, trr.pickle_file, trr.seed)

abbrev pub run_label : RegressionMetadata → Counted × ℤ → Label
run_label md r =
    let tds = tds_str r.0.0.0 r.1 in
    (some r.0.0.2, some tds, some (path_join md.dir_metadata (tds <> ".pickle")), some r.1)

-- What the options of a test do not set
module _ {A : Type 0} (of : TestRunResult → A) where
  pub riscvdv_fields_keep :
      (obj : Dict Value) (trr y : TestRunResult)
      → ((opts : Opts) → of (set_opts trr opts) ≡ of trr)
      → riscvdv_fields obj trr ≡ ok y
      → of y ≡ of trr
  unfolding riscvdv_fields
  riscvdv_fields_keep obj trr y kept h =
      let (opts, _, done) =
        >>=-eq-ok (riscvdv_opts obj trr.is_discrete_debug_module) (λ opts. ok (set_opts trr opts))
          h in
      ap of (sym (ok-injective done)) ∙ kept opts

set_opts_label : (trr : TestRunResult) (opts : Opts) → label_of (set_opts trr opts) ≡ label_of trr
unfolding set_opts
set_opts_label trr (gen_test, gen_opts, rtl_test, sim_opts, found) = refl

make_trr_label :
    (md : RegressionMetadata) (r : Counted × ℤ) (y : TestRunResult)
    → make_trr md r.0 r.1 ≡ ok y
    → label_of y ≡ run_label md r
unfolding make_trr new_trr
make_trr_label md (((test, count, riscvdv), obj), s) y h =
    riscvdv_fields_keep label_of obj (new_trr md test riscvdv s) y
      (set_opts_label (new_trr md test riscvdv s)) h
make_trr_label md (((test, count, directed), obj), s) y h = ap label_of (sym (ok-injective h))

-- What has been found out when the exported metadata and records are put together
pub record Creation (g : Given) (s : TestSources) (c : Created) : Type 0 where
  pub before : RegressionMetadata
  pub md : RegressionMetadata
  pub tests : List Counted
  pub trrs : List TestRunResult
  pub fresh : before.tests_pickle_files ≡ []
  pub pickled : before.pickle_file ≡ path_join before.dir_metadata "metadata.pickle"
  pub printed : before.yaml_file ≡ path_join before.dir_metadata "metadata.yaml"
  pub accepted : get_ibex_metadata g.configs_yaml before ≡ ok md
  pub counted : get_tests_and_counts s md ≡ ok tests
  pub some_tests : has_tests tests ≡ true
  pub made : traverse (λ r. make_trr md r.0 r.1) (runs md tests) ≡ ok trrs
  pub labels : map label_of trrs ≡ map (run_label md) (runs md tests)
  pub result : created md tests trrs ≡ c

pub create_lem :
    (g : Given) (s : TestSources) (dir_metadata dir_out : FilePath) (args_list : String)
    (c : Created)
    → create g s dir_metadata dir_out args_list ≡ ok c
    → Creation g s c
unfolding create
create_lem g s dir_metadata dir_out args_list c h =
    let make = λ (md : RegressionMetadata) (tests : List Counted).
      traverse (λ r. make_trr md r.0 r.1) (runs md tests) >>= λ trrs. ok (created md tests trrs) in
    let checked = λ (tests : List Counted).
      guard (has_tests tests) ErrorKind.runtime_error
        "md.tests_and_counts is empty, cannot get TEST.SEED strings." in
    let (md0, initialized, h1) =
      >>=-eq-ok (arg_list_initializer g dir_metadata dir_out args_list)
        (λ md0. get_ibex_metadata g.configs_yaml md0 >>= λ md.
          get_tests_and_counts s md >>= λ tests. checked tests >> make md tests)
        h in
    let (md, accepted, h2) =
      >>=-eq-ok (get_ibex_metadata g.configs_yaml md0)
        (λ md. get_tests_and_counts s md >>= λ tests. checked tests >> make md tests) h1 in
    let (tests, counted, h3) =
      >>=-eq-ok (get_tests_and_counts s md) (λ tests. checked tests >> make md tests) h2 in
    let (_, passed, h4) = >>=-eq-ok (checked tests) (λ _. make md tests) h3 in
    let (trrs, made, done) =
      >>=-eq-ok (traverse (λ r. make_trr md r.0 r.1) (runs md tests))
        (λ trrs. ok (created md tests trrs)) h4 in
    let start = arg_list_initializer_lem g dir_metadata dir_out args_list md0 initialized in
    record {
      before = md0;
      md = md;
      tests = tests;
      trrs = trrs;
      fresh = start.0;
      pickled = start.1;
      printed = start.2;
      accepted = accepted;
      counted = counted;
      some_tests = ground (arith, passed);
      made = made;
      labels =
          map-traverse (run_label md) label_of (λ r. make_trr md r.0 r.1) (runs md tests)
            (make_trr_label md) made;
      result = ok-injective done;
    }
