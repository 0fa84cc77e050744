-- ===== src/Reports/Main.antt =====
-- `main` of collect_results.py (dv/uvm/core_ibex/scripts), from what loading the records gave to the
-- reports. The libraries that write XML, JSON and pictures get the data that is here.
use kiemchung_ibex_v.Base.{
  ℕ, String, Bool, true, false, List, [], ◌++◌, Option, none, some, Result, ok, ErrorKind, ◌>>=◌,
  ◌>>◌, guard, if◌then◌else◌, str_eq,
}
use kiemchung_ibex_v.Base.Dict.{Dict}
use kiemchung_ibex_v.Metadata.{RegressionMetadata}
use kiemchung_ibex_v.Reports.{
  Summary, Gathered, no_tests, gather, exit_code, gen_summary_line, output_results_text,
  create_test_summary_dict,
}
use kiemchung_ibex_v.Reports.Coverage.{Floats, create_cov_summary_dict}
use kiemchung_ibex_v.Reports.Dvsim.{DvsimReport, create_dvsim_report_dict}
use kiemchung_ibex_v.Reports.Html.{Rendered, output_results_html}
use kiemchung_ibex_v.Reports.Junit.{JunitReports, output_run_results_junit_xml}
use kiemchung_ibex_v.Reports.Svg.{Shares, Picture, output_results_svg}
use kiemchung_ibex_v.TestRunResult.{FilePath, TestRunResult, path_join}

-- What the script gets from outside: the paths, the files that can be opened and read, the numbers of
-- Python with their formats, and whether the svg library is there
pub record Outside (Rate F : Type 0) : Type 0 where
  pub relative_to : FilePath → FilePath → Result String
  pub opens : FilePath → Bool
  pub read_report : FilePath → String → Result String
  pub pct : ℕ → ℕ → String
  pub rate : ℕ → ℕ → Rate
  pub percent : F → F
  pub floats : Floats F
  pub shares : Shares F
  pub svg_module_present : Bool

-- The metadata that are exported, the reports, and the line that is printed
pub record Written (Rate F : Type 0) : Type 0 where
  pub md : RegressionMetadata
  pub junit : JunitReports
  pub regr_log : String
  pub html : Rendered
  pub json : DvsimReport Rate F
  pub svg : Option Picture
  pub summary_line : String

module _ {Rate F : Type 0} (o : Outside Rate F) where
  -- `open(path, 'w')`
  unfoldable pub writable : FilePath → Result (Unit {0})
  writable path = guard (o.opens path) ErrorKind.os_error path

  -- `cov_summary_dict`: the empty dictionary for another simulator than Xcelium
  unfoldable pub cov_summary : RegressionMetadata → Result (Option (Dict (Option F)))
  cov_summary md =
      if str_eq md.simulator "xlm"
      then create_cov_summary_dict o.floats o.read_report md.cov_report_log
      else ok (some [])

  unfoldable pub svg_report :
      RegressionMetadata → Summary → Option (Dict (Option F)) → Result (Option Picture)
  unfolding writable
  svg_report md test_summary_dict cov_summary_dict = elim o.svg_module_present [
    | false ↦ ok none
    | true ↦ do
      writable (path_join md.dir_run "summary.svg")
      picture ← output_results_svg o.shares test_summary_dict cov_summary_dict
      ok (some picture)
  ]

  -- What follows the loop over the tests
  unfoldable pub report_on : RegressionMetadata → Gathered → Result (Written Rate F × ℕ)
  unfolding writable cov_summary svg_report
  report_on md g = do
    let tests = g.passing_tests ++ g.failing_tests
    writable (path_join md.dir_run "regr_junit.xml")
    writable (path_join md.dir_run "regr_junit_merged.xml")
    junit ← output_run_results_junit_xml o.relative_to g.passing_tests g.failing_tests
    writable (path_join md.dir_run "regr.log")
    regr_log ←
        output_results_text o.relative_to o.pct g.passing_tests g.failing_tests g.summary_dict
    let test_summary_dict = create_test_summary_dict tests
    cov_summary_dict ← cov_summary md
    writable (path_join md.dir_run "report.html")
    html ← output_results_html o.shares o.relative_to md tests test_summary_dict cov_summary_dict
    writable (path_join md.dir_run "report.json")
    json ←
        create_dvsim_report_dict o.rate o.percent md.simulator "ibex" "opentitan" test_summary_dict
          cov_summary_dict
    svg ← svg_report md test_summary_dict cov_summary_dict
    summary_line ← gen_summary_line o.pct g.passing_tests g.failing_tests
    ok (
      record {
        md = record md {
          regr_log = some (path_join md.dir_run "regr.log");
          regr_log_junit = some (path_join md.dir_run "regr_junit.xml");
          regr_log_junit_merged = some (path_join md.dir_run "regr_junit_merged.xml");
        };
        junit = junit;
        regr_log = regr_log;
        html = html;
        json = json;
        svg = svg;
        summary_line = summary_line;
      },
      exit_code g.failing_tests,
    )

  -- `main`
  unfoldable pub collect_results :
      RegressionMetadata → List (Result TestRunResult) → Result (Written Rate F × ℕ)
  unfolding report_on
  collect_results md loaded = do g ← gather loaded no_tests; report_on md g
