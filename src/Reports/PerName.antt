-- ===== src/Reports/PerName.antt =====
-- The counts that the summary holds for each test name.
use kiemchung_ibex_v.Base.{
  ℕ, ◌+◌, String, Bool, true, false, not, ◌&&◌, List, [], ◌∷◌, Option, none, some, ok, ◌≡◌, ◌↔◌,
  refl, ap, arith, if◌then◌else◌, eq_iff, ◌==◌, length, keep, map,
}
use kiemchung_ibex_v.TestRunResult.{TestRunResult}
use kiemchung_ibex_v.Reports.{
  is_passing, Counts, name_eq, Summary, add_run, count_run, count_runs, create_test_summary_dict,
  TestInfo, test_info, dvsim_test_info,
}

-- The counts of a name, zeros where there is no entry
abbrev pub counts_of : Option String → Summary → Counts
counts_of name [] = record { passing = 0; failing = 0 }
counts_of name ((n, c) ∷ summary) = if name_eq n name then c else counts_of name summary

-- The runs of a test that pass, or that fail
abbrev pub runs : Bool → Option String → List TestRunResult → ℕ
runs passed name tests =
    length
      (keep (λ t. name_eq t.testname name && (if is_passing t then passed else not passed)) tests)

pub name_eq_iff : (a b : Option String) → (name_eq a b ≡ true) ↔ (a ≡ b)
name_eq_iff (some a) (some b) = ground (arith, eq_iff a b)
name_eq_iff (some a) none = ground arith
name_eq_iff none (some b) = ground arith
name_eq_iff none none = ground arith

counts_of-count_run :
    (name other : Option String) (passed : Bool) (summary : Summary)
    → counts_of other (count_run name passed summary) ≡ (
        if name_eq name other
        then add_run passed (counts_of other summary)
        else counts_of other summary)
unfolding count_run
counts_of-count_run name other passed [] = ground arith
counts_of-count_run name other passed ((n, c) ∷ summary) = ground (
  arith,
  counts_of-count_run name other passed summary,
  name_eq_iff n name,
  name_eq_iff n other,
  name_eq_iff name other,
)

counts_of-count_runs :
    (other : Option String) (tests : List TestRunResult) (summary : Summary)
    → ((counts_of other (count_runs tests summary)).passing
        ≡ (counts_of other summary).passing + runs true other tests)
      × ((counts_of other (count_runs tests summary)).failing
          ≡ (counts_of other summary).failing + runs false other tests)
unfolding count_runs
counts_of-count_runs other [] summary = (omega arith, omega arith)
counts_of-count_runs other (t ∷ tests) summary = ground (
  arith,
  counts_of-count_runs other tests (count_run t.testname (is_passing t) summary),
  counts_of-count_run t.testname other (is_passing t) summary,
)

-- For each name the summary counts the runs of that name that pass and those that fail, with zeros
-- for a name that it does not hold.
pub create_test_summary_dict-counts :
    (name : Option String) (tests : List TestRunResult)
    → ((counts_of name (create_test_summary_dict tests)).passing ≡ runs true name tests)
      × ((counts_of name (create_test_summary_dict tests)).failing ≡ runs false name tests)
unfolding create_test_summary_dict
create_test_summary_dict-counts name tests = ground (arith, counts_of-count_runs name tests [])

-- Every entry counts at least one run.
abbrev pub counted : Summary → Bool
counted [] = true
counted ((n, c) ∷ summary) = not (c.passing + c.failing == 0) && counted summary

counted-count_run :
    (name : Option String) (passed : Bool) (summary : Summary)
    → counted summary ≡ true
    → counted (count_run name passed summary) ≡ true
unfolding count_run
counted-count_run name passed [] h = ground arith
counted-count_run name passed ((n, c) ∷ summary) h =
    ground (arith, counted-count_run name passed summary, h)

pub counted-count_runs :
    (tests : List TestRunResult) (summary : Summary)
    → counted summary ≡ true
    → counted (count_runs tests summary) ≡ true
unfolding count_runs
counted-count_runs [] summary h = h
counted-count_runs (t ∷ tests) summary h =
    counted-count_runs tests (count_run t.testname (is_passing t) summary)
      (counted-count_run t.testname (is_passing t) summary h)

module _ {Rate : Type 0} (rate : ℕ → ℕ → Rate) where
  infos-counted :
      (summary : Summary)
      → counted summary ≡ true
      → (infos : List (TestInfo Rate)) × (dvsim_test_info rate summary ≡ ok infos)
        × (map (λ i. i.name) infos ≡ map (λ e. e.0) summary)
  unfolding dvsim_test_info test_info
  infos-counted [] h = ([], refl, refl)
  infos-counted ((n, c) ∷ summary) h =
      let (infos, made, named) = infos-counted summary (ground (arith, h)) in
      let total = c.passing + c.failing in
      let info : TestInfo Rate = record {
        name = n;
        passing_runs = c.passing;
        total_runs = total;
        pass_rate = rate c.passing total;
      } in
      (info ∷ infos, ground (arith, h, made), ap (λ (l : List (Option String)). n ∷ l) named)

  -- The dvsim report of a summary never divides by zero, and lists the names of the summary, in
  -- order.
  pub dvsim_test_info-create_test_summary_dict :
      (tests : List TestRunResult)
      → (infos : List (TestInfo Rate)) × (dvsim_test_info rate (create_test_summary_dict tests)
          ≡ ok infos)
        × (map (λ i. i.name) infos ≡ map (λ e. e.0) (create_test_summary_dict tests))
  unfolding create_test_summary_dict
  dvsim_test_info-create_test_summary_dict tests =
      infos-counted (create_test_summary_dict tests) (counted-count_runs tests [] refl)
