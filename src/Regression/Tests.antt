-- ===== src/Regression/Tests.antt =====
-- Two tests, of which one passes and one was killed, whose logs are checked and whose results are
-- collected.
use kiemchung_ibex_v.Base.{
  ◌+◌, ◌-◌, ◌*◌, ◌/◌, ℕ, String, ◌<>◌, Bool, true, false, List, [], ◌∷◌, none, some, Result, ok,
  ◌≡◌, ◌≢◌, refl, sym, ap, All, Distinct, map, str_eq,
}
use kiemchung_ibex_v.Base.Int.{pos}
use kiemchung_ibex_v.Base.Text.{has, str_ℕ, join, str_int}
use kiemchung_ibex_v.CheckLogs.{
  scan, is_error, is_passed, is_failed, conclude, check_ibex_uvm_log, compare_test_run,
}
use kiemchung_ibex_v.CheckLogs.Main.{Logs, compare, traced, compare_and_export, main}
use kiemchung_ibex_v.CheckLogs.Recorded.{Judged, Holds, check_all-Judged}
use kiemchung_ibex_v.CheckLogs.Steps.{Run, name_of, HasFiles, check_all}
use kiemchung_ibex_v.Reports.Main.{Outside}
use kiemchung_ibex_v.Reports.Svg.{Shares}
use kiemchung_ibex_v.Metadata.{RegressionMetadata, new as new_metadata}
use kiemchung_ibex_v.TestData.{
  Printing, format_to_printable_dict, asdict, relative_field, format_dict_to_printable_dict,
  printable, format_to_str,
}
use kiemchung_ibex_v.TestData.Files.{
  Files, trr_pickle, write, follow, export_trr, export_object, trr_text, write_text, construct_trr,
  construct_from_pickle,
}
use kiemchung_ibex_v.TestData.Placed.{pickle_of, yaml_of, yaml_of-pickle_of}
use kiemchung_ibex_v.TestRunResult.{FilePath, TestRunResult, new, timeout, path_join}

abbrev printing : Printing
printing = record {
  resolve = λ f. f;
  relative_to = λ f dir. none;
  str_of_list = λ items. "[...]";
  str_of_value = λ v. "{...}";
  str_of_cmd = λ cmd. "[...]";
  str_of_dict = λ d. "{...}";
}

abbrev any : FilePath → Bool
any f = true

abbrev record_of : String → ℕ → TestRunResult
record_of test seed = record new {
  testname = some test;
  seed = some (pos seed);
  dir_test = some "/tests";
  pickle_file = some (pickle_of "/metadata" (test <> "." <> str_ℕ seed));
  yaml_file = some (yaml_of "/tests" (test <> "." <> str_ℕ seed));
}

abbrev runs : List Run
runs =
    (("csr", 1), record_of "csr" 1)
    ∷ (("pmp", 2), record (record_of "pmp" 2) { failure_mode = some timeout })
    ∷ []

abbrev logs : Logs
logs = record {
  processing = λ trr. ok tt;
  trace_csv = λ trr files. files;
  rtl_log = λ trr. ok ("RISC-V UVM TEST PASSED" ∷ []);
  timeout_text = λ trr. "1800";
  rtl_log_name = λ trr. "rtl_sim.log";
}

abbrev files : Files
files = write (pickle_of "/metadata" "csr.1") (trr_pickle (record_of "csr" 1)) (
    write (pickle_of "/metadata" "pmp.2")
      (trr_pickle (record (record_of "pmp" 2) { failure_mode = some timeout })) (λ f. none))

some-injective : {a b : String} → some a ≡ some b → a ≡ b
some-injective h = cc

placed : All (HasFiles any printing (λ md. []) logs "/metadata") runs
unfolding path_join str_ℕ
placed = (
  (refl, refl, λ n same. yaml_of-pickle_of "/metadata" "/tests" "csr.1" n (some-injective same)),
  (
    (refl, refl, λ n same. yaml_of-pickle_of "/metadata" "/tests" "pmp.2" n (some-injective same)),
    tt,
  ),
)

distinct : Distinct (map (λ r. name_of r.0) runs)
unfolding str_ℕ
distinct =
    let differ : ◌≢◌ {A = String} "csr.1" "pmp.2" =
      λ same. let e : str_eq "csr.1" "pmp.2" ≡ true = ap (λ t. str_eq "csr.1" t) (sym same) in cc in
    ((differ, tt), (tt, tt))

held : All (Holds any printing (λ md. []) logs "/metadata" files) runs
unfolding path_join str_ℕ write
held = (refl, (refl, tt))

done : (check_all any printing (λ md. []) logs "/metadata" (map (λ r. r.0) runs) files).1 ≡ ok tt
unfolding path_join str_ℕ write check_ibex_uvm_log scan is_error is_passed is_failed has conclude
    compare_test_run compare traced compare_and_export main follow export_trr export_object trr_text
    write_text construct_trr construct_from_pickle format_to_printable_dict asdict relative_field
    format_dict_to_printable_dict printable format_to_str join str_int
done = refl

abbrev compared : List TestRunResult
compared =
    record (record_of "csr" 1) { passed = some true }
    ∷ record (record_of "pmp" 2) { failure_mode = some timeout; passed = some false }
    ∷ []

check_all-Judged_example :
    All
      (Judged any printing
        (λ md. [])
        logs
        "/metadata"
        (check_all any printing (λ md. []) logs "/metadata" (map (λ r. r.0) runs) files).0)
      runs
check_all-Judged_example =
    check_all-Judged any printing (λ md. []) logs "/metadata" runs files (λ trr fs n. refl) placed
      distinct held (refl, (refl, tt)) done

abbrev relative_to : String → String → Result String
relative_to p dir = ok p

abbrev numbers : Shares ℕ
numbers = record {
  ratio = λ a b. 100 * a / b;
  add = λ a b. a + b;
  sub = λ a b. a - b;
  mul = λ a b. a * b;
  div = λ a b. a;
  less = λ a b. false;
  of_text = λ t. 1;
  truncate = λ a. pos a;
  one_decimal = λ a. str_ℕ a;
}

abbrev outside : Outside (ℕ × ℕ) ℕ
outside = record {
  relative_to = relative_to;
  opens = λ path. true;
  read_report = λ path name. ok "";
  pct = λ n total. "50.00";
  rate = λ n total. (n, total);
  percent = λ a. a;
  floats = record {
    zero_f = 0;
    of_text = λ t. 1;
    add = λ a b. a + b;
    ratio = λ a b. 100 * a / b;
    percent_mean = λ a n. a / n;
  };
  shares = numbers;
  svg_module_present = false;
}

abbrev md : RegressionMetadata
md = record (new_metadata "/out") { simulator = "vcs" }
