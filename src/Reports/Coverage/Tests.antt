-- ===== src/Reports/Coverage/Tests.antt =====
-- A report of Xcelium with one module.
use kiemchung_ibex_v.Base.{ℕ, ◌+◌, String, [], ◌∷◌, ok, some, ◌≡◌, refl}
use kiemchung_ibex_v.Base.Dict.{lookup, insert}
use kiemchung_ibex_v.Base.Regex.{some_of, literal, search}
use kiemchung_ibex_v.Base.Text.{has, join, lines, lower, to_ℕ}
use kiemchung_ibex_v.Reports.Coverage.{
  Floats, covered, average, parse_xcelium_cov_report, words, calc_cg_average,
}

-- Ratios as pairs, to run the functions
abbrev pairs : Floats (ℕ × ℕ)
pairs = record {
  zero_f = (0, 1);
  of_text = λ t. (to_ℕ 0 t, 1);
  add = λ a b. (a.0 + b.0, 1);
  ratio = λ a b. (a, b);
  percent_mean = λ a n. (a.0, n);
}

abbrev sample : String
sample = "name      Block* Covered   Covergroup Average\n----\nibex_top  78%  (123/321)   45%\n"

sample_parsed :
    parse_xcelium_cov_report pairs sample
    ≡ ok (
        (
          "ibex_top",
          ("block-covered", covered 123 321) ∷ ("covergroup-average", average (45, 1)) ∷ [],
        )
        ∷ [])
unfolding parse_xcelium_cov_report lines has words join lower some_of literal insert to_ℕ search
sample_parsed = refl

mean_taken :
    calc_cg_average pairs
      (("a", ("covergroup-average", average (45, 1)) ∷ []) ∷ ("push_pull_agent_pkg", []) ∷ [])
    ≡ ok (some (45, 1))
unfolding calc_cg_average lookup
mean_taken = refl
