-- ===== src/Reports/Coverage.antt =====
-- The coverage summary of report_lib/util.py (dv/uvm/core_ibex/scripts), from the reports of
-- Xcelium. Floating-point numbers are a parameter, and so is what reading a file gives.

mod Tests
use kiemchung_ibex_v.Base.{
  ℕ, zero, suc, ◌+◌, ◌-◌, String, ◌<>◌, Bool, true, false, not, ◌&&◌, ◌||◌, List, [], ◌∷◌, ◌++◌,
  Option, none, some, Result, ok, err, ErrorKind, ◌>>=◌, if◌then◌else◌, str_eq, ◌==◌, starts_with,
  get_elem?, any,
}
use kiemchung_ibex_v.Base.Dict.{Dict, lookup, insert, has_key}
use kiemchung_ibex_v.Base.Regex.{any_char, many, one, some_of, literal, search}
use kiemchung_ibex_v.Base.Text.{has, is_digit, is_space, join, lines, lower, strip, to_ℕ}
use kiemchung_ibex_v.SimCommands.{is_word_char}
use kiemchung_ibex_v.TestRunResult.{FilePath}
use Prim.Native.Char.{Char, code}
use Prim.Native.String
use Prim.Native.String.{count}

-- `text.split()`
words_from : String → String → List String
words_from cur Prim.Native.String.[] = if str_eq cur "" then [] else cur ∷ []
words_from cur (Prim.Native.String.◌∷◌ c s) =
    let longer = words_from (cur <> (Prim.Native.String.◌∷◌ c "")) s in
    let closed = words_from "" s in
    if is_space c then (if str_eq cur "" then closed else cur ∷ closed) else longer

unfoldable pub words : String → List String
unfolding words_from
words text = words_from "" text

-- A piece that may be there: longest first
optional_of :
    {R : Type 0}
    → ((String → Option R) → String → Option R)
    → (String → Option R)
    → String
    → Option R
optional_of piece k s = elim (piece k s) [ none ↦ k s | some r ↦ some r ]

-- `(\w+)\*?\s+((?:average)|(?:covered))` at the start of a text, with what is left of it
header_here : String → Option ((String × String) × String)
unfolding optional_of
header_here = some_of is_word_char (λ name. optional_of (literal "*") (
    some_of is_space (λ blanks s.
      elim (literal {R = (String × String) × String} "average"
        (λ rest. some ((name, "average"), rest)) s) [
          | none ↦ literal "covered" (λ rest. some ((name, "covered"), rest)) s
          | some r ↦ some r
        ])))

-- `finditer`: what a match covers is skipped, character by character.
headers_from : ℕ → String → List (String × String)
unfolding header_here
headers_from skip Prim.Native.String.[] = []
headers_from (suc skip) (Prim.Native.String.◌∷◌ c s) = headers_from skip s
headers_from zero (Prim.Native.String.◌∷◌ c s) = elim (header_here (Prim.Native.String.◌∷◌ c s)) [
  | none ↦ headers_from zero s
  | some (metric, rest) ↦ metric ∷ headers_from (count s - count rest) s
]

abbrev without_first : List String → List String
without_first [] = []
without_first (w ∷ ws) = ws

-- The metrics that one line names
line_metrics : String → List (String × String)
unfolding headers_from
line_metrics line = headers_from zero (join " " (without_first (words (lower line))))

-- The first loop: all metrics that are named, and the number of the line after the last header and
-- its separator
find_header :
    ℕ → List String → List (String × String) × Option ℕ → List (String × String) × Option ℕ
unfolding line_metrics
find_header line_no [] found = found
find_header line_no (line ∷ rest) (metric_info, start) = find_header (line_no + 1) rest (
    if has "name" line
    then (metric_info ++ line_metrics line, some (line_no + 2))
    else (metric_info, start))

-- Whether blanks and a bracket follow, and how many characters the blanks are
blanks_then_bracket : ℕ → String → Option ℕ
blanks_then_bracket n Prim.Native.String.[] = none
blanks_then_bracket n (Prim.Native.String.◌∷◌ c s) =
    let more = blanks_then_bracket (n + 1) s in
    if is_space c then more else if code c == b'(' && not (n == 0) then some n else none

-- `re.sub(r'%\s+\(', '%(', line)`
join_pct : ℕ → String → String
unfolding blanks_then_bracket
join_pct skip Prim.Native.String.[] = Prim.Native.String.[]
join_pct (suc skip) (Prim.Native.String.◌∷◌ c s) = join_pct skip s
join_pct zero (Prim.Native.String.◌∷◌ c s) = elim (code c == b'%') [
  | false ↦ Prim.Native.String.◌∷◌ c (join_pct zero s)
  | true ↦ elim (blanks_then_bracket 0 s) [
    | none ↦ Prim.Native.String.◌∷◌ c (join_pct zero s)
    | some n ↦ Prim.Native.String.◌∷◌ c (join_pct n s)
  ]
]

-- `\((\d+)/(\d+).*\)`, for a value without line ends
covered_here : String → Option (ℕ × ℕ)
covered_here = literal "(" (
    some_of is_digit (λ a.
      literal "/"
        (some_of is_digit (λ b rest. if has ")" rest then some (to_ℕ 0 a, to_ℕ 0 b) else none))))

-- `(\d+(?:.\d+)?)%`
average_here : String → Option String
average_here = some_of is_digit (λ a s. elim s [
  | Prim.Native.String.[] ↦ none
  | Prim.Native.String.◌∷◌ c rest ↦
      elim (if any_char c
        then some_of is_digit
            (λ b. literal "%" (λ r. some (a <> (Prim.Native.String.◌∷◌ c "") <> b))) rest
        else none) [
          | none ↦ literal "%" (λ r. some a) (Prim.Native.String.◌∷◌ c rest)
          | some g ↦ some g
        ]
])

-- Floating-point numbers
pub record Floats (F : Type 0) : Type 0 where
  pub zero_f : F
  pub of_text : String → F
  pub add : F → F → F
  pub ratio : ℕ → ℕ → F
  pub percent_mean : F → ℕ → F

-- What a module has for a metric
pub data Metric (F : Type 0) : Type 0 where
  covered : (covered total : ℕ) → Metric F
  average : F → Metric F

module _ {F : Type 0} (f : Floats F) where
  abbrev pub Modules : Type 0
  Modules = Dict (Dict (Metric F))

  -- What a value says for a metric, if it says anything
  read_metric : String → String → Option (Metric F)
  unfolding search covered_here average_here
  read_metric metric_type value =
      if str_eq metric_type "covered"
      then elim (search covered_here value) [ none ↦ none | some (a, b) ↦ some (covered a b) ]
      else elim (search average_here value) [ none ↦ none | some t ↦ some (average (f.of_text t)) ]

  -- The values of a line after its module's name, the `i`-th next
  read_values :
      List (String × String) → ℕ → List String → Dict (Metric F) → Result (Dict (Metric F))
  unfolding read_metric
  read_values metric_info i [] metrics = ok metrics
  read_values metric_info i (value ∷ values) metrics = elim (get_elem? metric_info i) [
    | none ↦ err ErrorKind.index_error "list index out of range"
    | some (name, metric_type) ↦
        read_values metric_info (i + 1) values (elim (read_metric metric_type value) [
          | none ↦ metrics
          | some m ↦ insert (name <> "-" <> metric_type) m metrics
        ])
  ]

  read_lines : List (String × String) → List String → Modules → Result Modules
  unfolding join_pct read_values
  read_lines metric_info [] modules = ok modules
  read_lines metric_info (line ∷ rest) modules = elim (words (join_pct zero line)) [
    | [] ↦ read_lines metric_info rest modules
    | module_name ∷ values ↦ do
      metrics ← read_values metric_info 0 values []
      read_lines metric_info rest (insert module_name metrics modules)
  ]

  drop_lines : ℕ → List String → List String
  drop_lines zero ls = ls
  drop_lines (suc n) [] = []
  drop_lines (suc n) (l ∷ ls) = drop_lines n ls

  pub parse_xcelium_cov_report : String → Result Modules
  unfolding find_header read_lines drop_lines
  parse_xcelium_cov_report cov_report =
      let found = find_header 0 (lines cov_report) ([], none) in
      elim found.1 [
        | none ↦ err ErrorKind.runtime_error "Could not read xcelium coverage report"
        | some start ↦ read_lines found.0 (drop_lines start (lines cov_report)) []
      ]

  -- A percentage, or `None`
  abbrev pub CovSummary : Type 0
  CovSummary = Dict (Option F)

  pub add_cov_to_summary : String → Dict (Metric F) → CovSummary → Result CovSummary
  add_cov_to_summary metric_name metric_data summary =
      elim (lookup (metric_name <> "-covered") metric_data) [
        | none ↦ ok summary
        | some (average a) ↦ err ErrorKind.key_error "covered"
        | some (covered done total) ↦
            if total == 0
            then err ErrorKind.zero_division_error "division by zero"
            else ok (insert metric_name (some (f.ratio done total)) summary)
      ]

  abbrev cov_metrics : List String
  cov_metrics =
      "block" ∷ "branch" ∷ "statement" ∷ "expression" ∷ "toggle" ∷ "fsm" ∷ "assertion" ∷ []

  add_all : List String → Dict (Metric F) → CovSummary → Result CovSummary
  unfolding add_cov_to_summary
  add_all [] metric_data summary = ok summary
  add_all (m ∷ ms) metric_data summary = do
    summary' ← add_cov_to_summary m metric_data summary
    add_all ms metric_data summary'

  cg_total : Modules → F → ℕ → Result (F × ℕ)
  cg_total [] sum n = ok (sum, n)
  cg_total ((name, metric_data) ∷ modules) sum n =
      if str_eq name "push_pull_agent_pkg"
      then cg_total modules sum n
      else elim (lookup "covergroup-average" metric_data) [
        | none ↦ cg_total modules sum n
        | some (average a) ↦ cg_total modules (f.add sum a) (n + 1)
        | some (covered done total) ↦ err ErrorKind.key_error "average"
      ]

  pub calc_cg_average : Modules → Result (Option F)
  unfolding cg_total
  calc_cg_average modules = do
    total ← cg_total modules f.zero_f 0
    ok (if total.1 == 0 then none else some (f.percent_mean total.0 total.1))

  -- `create_cov_summary_dict`, from the log of the report; `read_report` reads a file of the directory
  -- of the reports beside it.
  pub create_cov_summary_dict :
      (FilePath → String → Result String) → Option FilePath → Result (Option CovSummary)
  unfolding parse_xcelium_cov_report add_all calc_cg_average
  create_cov_summary_dict read_report none = ok none
  create_cov_summary_dict read_report (some cov_report_log) = do
    cov_text ← read_report cov_report_log "cov_report.txt"
    cov_report ← parse_xcelium_cov_report cov_text
    cg_text ← read_report cov_report_log "cov_report_cg.txt"
    cg_report ← parse_xcelium_cov_report cg_text
    summary ← elim (lookup "ibex_top" cov_report) [
      | none ↦ ok []
      | some metric_data ↦ add_all cov_metrics metric_data []
    ]
    cg ← calc_cg_average cg_report
    ok (some (insert "covergroup" cg summary))
