-- ===== src/IbexCmd/Selection.antt =====
-- Which tests `filter_tests_by_config` keeps, and how often.
use kiemchung_ibex_v.Base.{ℕ, suc, String, Bool, true, false, ◌&&◌, List, [], ◌∷◌, ◌++◌, none, some}
use kiemchung_ibex_v.Base.{
  ◌≡◌, refl, ◌∙◌, ap, arith, Result, ok, err, ◌>>=◌, all, keep, concat_map, replicate,
}
use kiemchung_ibex_v.Base.{if◌then◌else◌, append_assoc, append-nil, inl, inr, Option-cases}
use kiemchung_ibex_v.Base.Dict.{Dict, lookup, has_key}
use kiemchung_ibex_v.Base.Value.{Value, null, bool, int, str, list, dict, fields, Fields, field}
use kiemchung_ibex_v.IbexConfig.{Config, get_item}
use kiemchung_ibex_v.IbexCmd.{
  TestEntry, contains, config_value, params_loop, filter_one, filter_loop, filter_tests_by_config,
}

module _ (cfg : Config) where
  -- The test of one parameter: whether it raises nothing, and whether it matches.
  outcome : String × Value → Result Bool
  outcome (p, p_val) = do config_val ← config_value cfg p; contains config_val p_val

  unfoldable pub checks : String × Value → Bool
  unfolding outcome
  checks f = elim (outcome f) [ ok b ↦ true | err k m ↦ false ]

  unfoldable pub matches : String × Value → Bool
  unfolding outcome
  matches f = elim (outcome f) [ ok b ↦ b | err k m ↦ false ]

  -- How many parameters match above the first that does not
  abbrev pub leading : Dict Value → ℕ
  leading [] = 0
  leading (f ∷ fs) = if matches f then suc (leading fs) else 0

  -- A test that raises nothing
  abbrev pub checkable : TestEntry → Bool
  checkable test = elim (lookup "rtl_params" test) [
    | none ↦ true
    | some (dict fs) ↦ all checks (fields fs) && has_key "test" test
    | some _ ↦ false
  ]

  -- How often a test is kept
  unfoldable pub copies : TestEntry → ℕ
  copies test = elim (lookup "rtl_params" test) [
    | none ↦ 1
    | some (dict fs) ↦ leading (fields fs)
    | some _ ↦ 0
  ]

  params_loop-leading :
      (test : TestEntry) (fs : Dict Value) (acc : List TestEntry)
      → all checks fs && has_key "test" test ≡ true
      → params_loop cfg test fs acc ≡ ok (acc ++ replicate (leading fs) test)
  unfolding params_loop checks matches get_item
  params_loop-leading test [] acc h = rw append-nil
  params_loop-leading test (f ∷ fs) acc h = ground (
    arith,
    params_loop-leading test fs (acc ++ test ∷ []),
    append_assoc acc (test ∷ []) (replicate (leading fs) test),
    append-nil acc,
  )

  with_params :
      (test : TestEntry) (acc : List TestEntry) (v : Value)
      → lookup "rtl_params" test ≡ some v
      → checkable test ≡ true
      → filter_one cfg test acc ≡ ok (acc ++ replicate (copies test) test)
  unfolding filter_one copies
  with_params test acc (dict fs) e h = ground (arith, params_loop-leading test (fields fs) acc)
  with_params test acc null e h = ground arith
  with_params test acc (bool b) e h = ground arith
  with_params test acc (int z) e h = ground arith
  with_params test acc (str s) e h = ground arith
  with_params test acc (list vs) e h = ground arith

  filter_one-copies :
      (test : TestEntry) (acc : List TestEntry)
      → checkable test ≡ true
      → filter_one cfg test acc ≡ ok (acc ++ replicate (copies test) test)
  unfolding filter_one copies
  filter_one-copies test acc h = elim (Option-cases (lookup "rtl_params" test)) [
    | inl absent ↦ ground arith
    | inr (v, found) ↦ with_params test acc v found h
  ]

  filter_loop-copies :
      (tests acc : List TestEntry)
      → all checkable tests ≡ true
      → filter_loop cfg tests acc ≡ ok (acc ++ concat_map (λ t. replicate (copies t) t) tests)
  unfolding filter_loop
  filter_loop-copies [] acc h = rw append-nil
  filter_loop-copies (test ∷ tests) acc h = rw (filter_one-copies test acc (ground arith)) (
      filter_loop-copies tests (acc ++ replicate (copies test) test) (ground arith)
      ∙ ap ok (append_assoc acc (replicate (copies test) test) _))

  -- If no test raises, each is kept as often as parameters match above its first that does not: a
  -- test without the key `rtl_params` once.
  pub filter_tests_by_config-copies :
      (tests : List TestEntry)
      → all checkable tests ≡ true
      → filter_tests_by_config cfg tests ≡ ok (concat_map (λ t. replicate (copies t) t) tests)
  unfolding filter_tests_by_config
  filter_tests_by_config-copies tests h = filter_loop-copies tests [] h

  -- What the function is for: the configuration supports a test if all its parameters match.
  unfoldable pub supported : TestEntry → Bool
  supported test = elim (lookup "rtl_params" test) [
    | none ↦ true
    | some (dict fs) ↦ all matches (fields fs)
    | some _ ↦ false
  ]

  abbrev pub single : Dict Value → Bool
  single [] = false
  single (f ∷ []) = true
  single (f ∷ g ∷ fs) = false

  -- A test with no `rtl_params` or with a single one
  abbrev pub simple : TestEntry → Bool
  simple test = elim (lookup "rtl_params" test) [
    | none ↦ true
    | some (dict fs) ↦ single (fields fs)
    | some _ ↦ false
  ]

  leading-single :
      (fs : Dict Value) → single fs ≡ true → leading fs ≡ (if all matches fs then 1 else 0)
  leading-single [] h = cc
  leading-single (f ∷ []) h = ground arith
  leading-single (f ∷ g ∷ fs) h = cc

  simple_value :
      (test : TestEntry) (v : Value)
      → lookup "rtl_params" test ≡ some v
      → simple test ≡ true
      → copies test ≡ (if supported test then 1 else 0)
  unfolding copies supported
  simple_value test (dict fs) e h = ground (arith, leading-single (fields fs))
  simple_value test null e h = ground arith
  simple_value test (bool b) e h = ground arith
  simple_value test (int z) e h = ground arith
  simple_value test (str s) e h = ground arith
  simple_value test (list vs) e h = ground arith

  copies-simple :
      (test : TestEntry) → simple test ≡ true → copies test ≡ (if supported test then 1 else 0)
  unfolding copies supported
  copies-simple test h = elim (Option-cases (lookup "rtl_params" test)) [
    | inl absent ↦ ground arith
    | inr (v, found) ↦ simple_value test v found h
  ]

  copies-keep :
      (tests : List TestEntry)
      → all simple tests ≡ true
      → concat_map (λ t. replicate (copies t) t) tests ≡ keep supported tests
  copies-keep [] h = refl
  copies-keep (test ∷ tests) h = ground (arith, copies-simple test, copies-keep tests)

  -- If no test raises, and each has no `rtl_params` or a single one, the result is the list of the
  -- supported tests, each once and in order.
  pub filter_tests_by_config-keep :
      (tests : List TestEntry)
      → all checkable tests ≡ true
      → all simple tests ≡ true
      → filter_tests_by_config cfg tests ≡ ok (keep supported tests)
  filter_tests_by_config-keep tests h k =
      filter_tests_by_config-copies tests h ∙ ap ok (copies-keep tests k)

  -- A test whose first parameter matches and whose second does not is kept, though the
  -- configuration does not support it.
  pub filter_tests_by_config-unsupported :
      (test : TestEntry) (f g : String × Value) (rest : Fields)
      → lookup "rtl_params" test ≡ some (dict (field f.0 f.1 (field g.0 g.1 rest)))
      → checkable test ≡ true
      → matches f ≡ true
      → matches g ≡ false
      → (filter_tests_by_config cfg (test ∷ []) ≡ ok (test ∷ [])) × (supported test ≡ false)
  unfolding copies supported
  filter_tests_by_config-unsupported test f g rest e h first second = (
    filter_tests_by_config-copies (test ∷ []) (ground arith) ∙ ap ok (ground arith),
    ground arith,
  )
