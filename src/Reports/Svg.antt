-- ===== src/Reports/Svg.antt =====
-- report_lib/svg.py (dv/uvm/core_ibex/scripts): the dashboard, with the elements of the svg library
-- as data. Floating-point numbers and their formats are parameters.
pub mod Layout
use kiemchung_ibex_v.Base.{
  ℕ, ◌+◌, ◌==◌, String, ◌<>◌, Bool, List, [], ◌∷◌, ◌++◌, Option, none, some, Result, ok, err,
  ErrorKind, ◌>>=◌, if◌then◌else◌,
}
use kiemchung_ibex_v.Base.Dict.{Dict, lookup}
use kiemchung_ibex_v.Base.Int.{ℤ, sub_ℕ}
use kiemchung_ibex_v.Base.Text.{str_ℕ, str_int}
use kiemchung_ibex_v.Reports.{Summary}

-- `n / 2`
pub data Half : Type 0 where
  half : ℕ → Half

mutual
  -- What the dashboard uses of `svg.Element`; a group may be moved.
  pub data Element : Type 0 where
    rect : (x y width height : ℕ) → (fill : String) → (stroke_width : ℕ) → Element
    label : (x y : Half) → (class_ : List String) → (shown : String) → Element
    group : Option (ℕ × ℕ) → Elements → Element
    style : String → Element

  pub data Elements : Type 0 where
    nil : Elements
    cons : Element → Elements → Elements

abbrev pub to_elements : List Element → Elements
to_elements [] = nil
to_elements (e ∷ es) = cons e (to_elements es)

abbrev pub svg_dashboard_height : ℕ
svg_dashboard_height = 20

abbrev pub svg_dashboard_gap : ℕ
svg_dashboard_gap = 5

-- `dedent` takes away what the lines share in front: four blanks.
abbrev svg_dashboard_style : String
svg_dashboard_style =
    "\n.text { font: 12px sans-serif;\n        text-anchor: middle;\n        dominant-baseline: middle;}\n"
    <> ".name { fill: white; }\n.value { fill: black; }\n"

abbrev svg_dashboard_value_width : ℕ
svg_dashboard_value_width = 60

abbrev svg_dashboard_name_bg_colour : String
svg_dashboard_name_bg_colour = "#666"

abbrev svg_dashboard_plain_value_bg_colour : String
svg_dashboard_plain_value_bg_colour = "#6cf"

pub record DashboardElement : Type 0 where
  pub name : String
  pub value : String
  pub name_width : ℕ
  pub value_colour : String
  pub value_width : ℕ
  pub height : ℕ

-- The constructor, with its default colour
abbrev pub dashboard_element : String → String → ℕ → DashboardElement
dashboard_element name value name_width = record {
  name = name;
  value = value;
  name_width = name_width;
  value_colour = svg_dashboard_plain_value_bg_colour;
  value_width = svg_dashboard_value_width;
  height = svg_dashboard_height;
}

unfoldable pub create_label_elements : DashboardElement → List Element
create_label_elements d =
    rect 0 0 d.name_width d.height svg_dashboard_name_bg_colour 0
    ∷ label (half d.name_width) (half d.height) ("text" ∷ "name" ∷ []) d.name
    ∷ []

unfoldable pub create_value_elements : DashboardElement → List Element
create_value_elements d =
    rect 0 0 d.value_width d.height d.value_colour 0
    ∷ label (half d.value_width) (half d.height) ("text" ∷ "value" ∷ []) d.value
    ∷ []

-- `DashboardElement.create_svg_elements`
unfoldable pub element_elements : DashboardElement → List Element
unfolding create_label_elements create_value_elements
element_elements d =
    group none (to_elements (create_label_elements d))
    ∷ group (some (d.name_width, 0)) (to_elements (create_value_elements d))
    ∷ []

-- `DashboardElement.calc_total_width`
abbrev pub element_width : DashboardElement → ℕ
element_width d = d.name_width + d.value_width

pub record Dashboard : Type 0 where
  pub dashboard_elements : List DashboardElement
  pub element_gap : ℕ

-- The loop of `create_svg_elements`, at `cur_x`
unfoldable pub elements_from : ℕ → ℕ → List DashboardElement → List Element
unfolding element_elements
elements_from element_gap cur_x [] = []
elements_from element_gap cur_x (d ∷ ds) =
    group (some (cur_x, 0)) (to_elements (element_elements d))
    ∷ elements_from element_gap (cur_x + element_width d + element_gap) ds

-- `Dashboard.create_svg_elements`
unfoldable pub create_svg_elements : Dashboard → List Element
unfolding elements_from
create_svg_elements d = elements_from d.element_gap 0 d.dashboard_elements

-- The `reduce` of `calc_total_width`
unfoldable pub widths_from : ℕ → ℕ → List DashboardElement → ℕ
widths_from element_gap acc [] = acc
widths_from element_gap acc (d ∷ ds) =
    widths_from element_gap (acc + element_width d + element_gap) ds

-- `Dashboard.calc_total_width`, which is negative without elements
unfoldable pub calc_total_width : Dashboard → ℤ
unfolding widths_from
calc_total_width d = sub_ℕ (widths_from d.element_gap 0 d.dashboard_elements) d.element_gap

-- `reduce(lambda acc, test_info: acc + test_info[1]['passing'], summary, acc)`
abbrev pub sum_passing : ℕ → Summary → ℕ
sum_passing acc [] = acc
sum_passing acc ((name, counts) ∷ summary) = sum_passing (acc + counts.passing) summary

abbrev pub sum_failing : ℕ → Summary → ℕ
sum_failing acc [] = acc
sum_failing acc ((name, counts) ∷ summary) = sum_failing (acc + counts.failing) summary

-- Floating-point numbers: the quotient of two counts, the operations, literals, the truncation to a
-- whole number, and the format `.1f`
pub record Shares (F : Type 0) : Type 0 where
  pub ratio : ℕ → ℕ → F
  pub add : F → F → F
  pub sub : F → F → F
  pub mul : F → F → F
  pub div : F → F → F
  pub less : F → F → Bool
  pub of_text : String → F
  pub truncate : F → ℤ
  pub one_decimal : F → String

-- `svg.SVG` with its three arguments
pub record Picture : Type 0 where
  pub width : ℤ
  pub height : ℕ
  pub elements : List Element

module _ {F : Type 0} (s : Shares F) where
  -- `css_red_green_gradient` of report_lib/util.py
  unfoldable pub css_red_green_gradient : F → String
  css_red_green_gradient value =
      let yellow_point = s.of_text "0.7" in
      let one = s.of_text "1.0" in
      let below = s.less value yellow_point in
      let red = if below then one else s.div (s.sub one value) (s.sub one yellow_point) in
      let green = if below then s.div value yellow_point else one in
      let level = λ (x : F). str_int (s.truncate (s.mul x (s.of_text "255"))) in
      "rgb(" <> level red <> "," <> level green <> ",0)"

  -- `f'{pct_val * 100:.1f}%'`
  unfoldable pub pct_str : F → String
  pct_str pct_val = s.one_decimal (s.mul pct_val (s.of_text "100")) <> "%"

  -- `cov_summary_dict[name]`, as a number
  unfoldable pub cov_value : Dict (Option F) → String → Result F
  cov_value cov name = elim (lookup name cov) [
    | none ↦ err ErrorKind.key_error name
    | some none ↦ err ErrorKind.type_error "unsupported operand type(s) for NoneType"
    | some (some v) ↦ ok v
  ]

  -- The elements for the coverage: none for a summary that is not there, or is empty
  unfoldable pub coverage_elements : Option (Dict (Option F)) → Result (List DashboardElement)
  unfolding cov_value css_red_green_gradient pct_str
  coverage_elements none = ok []
  coverage_elements (some []) = ok []
  coverage_elements (some (entry ∷ cov_rest)) = do
    let cov = entry ∷ cov_rest
    block ← cov_value cov "block"
    branch ← cov_value cov "branch"
    statement ← cov_value cov "statement"
    expression ← cov_value cov "expression"
    fsm ← cov_value cov "fsm"
    let code_coverage =
        s.div (s.add (s.add (s.add (s.add block branch) statement) expression) fsm) (s.of_text "5")
    covergroup ← cov_value cov "covergroup"
    ok (
        record (dashboard_element "Functional Coverage" (pct_str covergroup) 150) {
          value_colour = css_red_green_gradient covergroup;
        }
        ∷ record (dashboard_element "Code Coverage" (pct_str code_coverage) 120) {
          value_colour = css_red_green_gradient code_coverage;
        }
        ∷ [])

  -- The elements for the tests; the quotient raises without tests.
  unfoldable pub test_elements : Summary → Result (List DashboardElement)
  unfolding css_red_green_gradient pct_str
  test_elements test_summary_dict =
      let passing_tests = sum_passing 0 test_summary_dict in
      let total_tests = passing_tests + sum_failing 0 test_summary_dict in
      let passing_pct = s.ratio passing_tests total_tests in
      if total_tests == 0
      then err ErrorKind.zero_division_error "division by zero"
      else ok (
          dashboard_element "Total Tests" (str_ℕ total_tests) 120
          ∷ record (dashboard_element "Tests Passing" (pct_str passing_pct) 120) {
            value_colour = css_red_green_gradient passing_pct;
          }
          ∷ [])

  -- `output_results_svg`, up to the text of the picture
  unfoldable pub output_results_svg : Summary → Option (Dict (Option F)) → Result Picture
  unfolding test_elements coverage_elements
  output_results_svg test_summary_dict cov_summary_dict = do
    tests ← test_elements test_summary_dict
    coverage ← coverage_elements cov_summary_dict
    let regression_dashboard : Dashboard = record {
      dashboard_elements = tests ++ coverage;
      element_gap = svg_dashboard_gap;
    }
    ok (record {
      width = calc_total_width regression_dashboard;
      height = svg_dashboard_height;
      elements = style svg_dashboard_style ∷ create_svg_elements regression_dashboard;
    })
