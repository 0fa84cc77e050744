-- ===== src/Reports/Dvsim.antt =====
-- The whole report of report_lib/dvsim_json.py (dv/uvm/core_ibex/scripts). The percentage of a value
-- of the coverage is a parameter; `json.dumps` is left out.
use kiemchung_ibex_v.Base.{
  ℕ, String, Bool, true, false, List, [], ◌∷◌, Option, none, some, Result, ok, err, is_ok,
  ErrorKind, ◌>>=◌, traverse, if◌then◌else◌, str_eq, ◌≡◌, refl, arith, all,
}
use kiemchung_ibex_v.Base.Dict.{Dict}
use kiemchung_ibex_v.Reports.{Summary, TestInfo, dvsim_test_info}

-- What `create_dvsim_report_dict` returns; `testpoints` is always empty.
pub record DvsimReport (Rate F : Type 0) : Type 0 where
  pub tool : String
  pub block_name : String
  pub block_variant : String
  pub coverage : Dict F
  pub unmapped_tests : List (TestInfo Rate)

module _ {Rate F : Type 0} (rate : ℕ → ℕ → Rate) (percent : F → F) where
  -- One value of the coverage; without coverage groups the value of `covergroup` is `None`.
  unfoldable pub cov_percent : String × Option F → Result (String × F)
  cov_percent (cov_name, none) =
      err ErrorKind.type_error "unsupported operand type(s) for *: 'NoneType' and 'int'"
  cov_percent (cov_name, some cov_value) = ok (cov_name, percent cov_value)

  -- `dvsim_cov_summary_dict`; a summary that is not there is an empty one.
  unfoldable pub dvsim_cov_summary_dict : Option (Dict (Option F)) → Result (Dict F)
  unfolding cov_percent
  dvsim_cov_summary_dict none = ok []
  dvsim_cov_summary_dict (some cov_summary_dict) = traverse cov_percent cov_summary_dict

  unfoldable pub create_dvsim_report_dict :
      String → String → String → Summary → Option (Dict (Option F)) → Result (DvsimReport Rate F)
  unfolding dvsim_cov_summary_dict
  create_dvsim_report_dict tool block_name block_variant test_summary_dict cov_summary_dict = do
    infos ← dvsim_test_info rate test_summary_dict
    cov ← dvsim_cov_summary_dict cov_summary_dict
    ok (record {
      tool = if str_eq tool "xlm" then "xcelium" else tool;
      block_name = block_name;
      block_variant = block_variant;
      coverage = cov;
      unmapped_tests = infos;
    })

  abbrev has_value : String × Option F → Bool
  has_value (cov_name, cov_value) = elim cov_value [ none ↦ false | some _ ↦ true ]

  -- The percentages can be computed exactly if every value of the coverage is there.
  dvsim_cov_summary_dict-has_value :
      (summary : Dict (Option F))
      → is_ok (dvsim_cov_summary_dict (some summary)) ≡ all has_value summary
  unfolding dvsim_cov_summary_dict cov_percent
  dvsim_cov_summary_dict-has_value [] = refl
  dvsim_cov_summary_dict-has_value ((cov_name, none) ∷ summary) = refl
  dvsim_cov_summary_dict-has_value ((cov_name, some v) ∷ summary) =
      ground (arith, dvsim_cov_summary_dict-has_value summary)
