-- ===== src/DirectedTests/Valid.antt =====
-- What holds of a list of directed tests that could be imported.
use kiemchung_ibex_v.Base.{
  String, Bool, true, List, Option, Result, ok, ErrorKind, ◌≡◌, sym, ap, arith, ◌>>=◌, >>=-eq-ok,
  All-traverse, All-traverse_of, map-traverse, ok-injective, traverse, guard, all, All, keep, subst,
  Result-cases, inl, inr, Bool-cases, ◌<>◌, not, All-and, All-of_all,
}
use kiemchung_ibex_v.Base.Dict.{Dict}
use kiemchung_ibex_v.Base.Int.{is_positive}
use kiemchung_ibex_v.Base.Value.{Value}
use kiemchung_ibex_v.SimCommands.{as_dict}
use kiemchung_ibex_v.TestRunResult.{FilePath}
use kiemchung_ibex_v.DirectedTests.{
  Coercions, DConfig, DTest, Model, contains, config_names, positive_field, validate_config,
  validate_test, existing_path, config_paths, test_paths, check_paths, check_model, validate_model,
  exit_on_invalid, import_model, join_config, is_test, is_selected,
}

module _ (c : Coercions) where
  config_lem :
      (d : Dict Value) (y : DConfig) → validate_config c d ≡ ok y → is_positive y.timeout_s ≡ true
  unfolding validate_config positive_field
  config_lem d y h = ground (arith, h)

  test_lem :
      (d : Dict Value) (y : DTest)
      → validate_test c d ≡ ok y
      → (is_positive y.common.timeout_s ≡ true) × (is_positive y.iterations ≡ true)
  unfolding validate_test positive_field
  test_lem d y h = elim (Result-cases (validate_config c d)) [
    | inl (k, m, e) ↦ ground (arith, h, e)
    | inr (common, e) ↦ ground (arith, h, e, config_lem d common e)
  ]

module _ (exists : FilePath → Bool) where
  -- A configuration that a test can be built with: its timeout is positive and its files exist.
  abbrev pub IsBuildable : DConfig → Type 0
  IsBuildable m =
      (is_positive m.timeout_s ≡ true) × (exists m.ld_script ≡ true) × (exists m.includes ≡ true)

  -- A test that can be built and run with one of the configurations named
  abbrev pub IsRunnable : List String → DTest → Type 0
  IsRunnable names t =
      IsBuildable t.common
      × (contains names t.common.config ≡ true)
      × (is_positive t.iterations ≡ true)
      × (exists t.test_srcs ≡ true)

  module _ (parent : FilePath → FilePath) (yaml : FilePath) where
    config_paths_lem :
        (m y : DConfig)
        → is_positive m.timeout_s ≡ true
        → config_paths exists parent yaml m ≡ ok y
        → IsBuildable y
    unfolding config_paths existing_path
    config_paths_lem m y q h = ground (arith, q, h)

    config_paths_name :
        (m y : DConfig) → config_paths exists parent yaml m ≡ ok y → y.config ≡ m.config
    unfolding config_paths existing_path
    config_paths_name m y h = ground (arith, h)

    test_paths_lem :
        (names : List String) (m y : DTest)
        → (is_positive m.common.timeout_s ≡ true)
          × (is_positive m.iterations ≡ true)
          × (contains names m.common.config ≡ true)
        → test_paths exists parent yaml m ≡ ok y
        → IsRunnable names y
    unfolding test_paths existing_path
    test_paths_lem names m y q h = elim (Result-cases (config_paths exists parent yaml m.common)) [
      | inl (k, e, none_made) ↦ ground (arith, h, none_made)
      | inr (common, made) ↦ ground (
        arith,
        h,
        q,
        made,
        config_paths_lem m.common common q.0 made,
        ap (contains names) (config_paths_name m.common common made),
      )
    ]

    check_paths_lem :
        (configs : List DConfig) (tests : List DTest) (m : Model)
        → All (λ d. is_positive d.timeout_s ≡ true) configs
        → All
            (λ t.
              (is_positive t.common.timeout_s ≡ true)
              × (is_positive t.iterations ≡ true)
              × (contains (config_names configs) t.common.config ≡ true))
            tests
        → check_paths exists parent yaml configs tests ≡ ok m
        → All IsBuildable m.configs × All (IsRunnable (config_names m.configs)) m.tests
    unfolding check_paths
    check_paths_lem configs tests m qc qt h =
        let (configs', made, h1) =
          >>=-eq-ok (traverse (config_paths exists parent yaml) configs)
            (λ configs'. do
              tests' ← traverse (test_paths exists parent yaml) tests
              ok (record { configs = configs'; tests = tests' }))
            h in
        let (tests', made', done) =
          >>=-eq-ok (traverse (test_paths exists parent yaml) tests)
            (λ tests'. ok (record { configs = configs'; tests = tests' })) h1 in
        let names =
          map-traverse (λ c. c.config) (λ c. c.config) (config_paths exists parent yaml) configs
            config_paths_name made in
        subst (λ m. All IsBuildable m.configs × All (IsRunnable (config_names m.configs)) m.tests)
          (ok-injective done)
          (
            All-traverse_of (λ d. is_positive d.timeout_s ≡ true) IsBuildable
                (config_paths exists parent yaml) configs config_paths_lem qc made,
            subst (λ names. All (IsRunnable names) tests') (sym names)
                (All-traverse_of _ (IsRunnable (config_names configs))
                  (test_paths exists parent yaml) tests (test_paths_lem (config_names configs)) qt
                  made'),
          )

    check_model_lem :
        (configs : List DConfig) (tests : List DTest) (m : Model)
        → All (λ d. is_positive d.timeout_s ≡ true) configs
        → All
            (λ t. (is_positive t.common.timeout_s ≡ true) × (is_positive t.iterations ≡ true))
            tests
        → check_model exists parent yaml configs tests ≡ ok m
        → All IsBuildable m.configs × All (IsRunnable (config_names m.configs)) m.tests
    unfolding check_model
    check_model_lem configs tests m qc qt h =
        let known = λ (t : DTest). contains (config_names configs) t.common.config in
        elim (Bool-cases (all known tests)) [
          | inr unknown ↦ ground (arith, h, unknown)
          | inl all_known ↦
              check_paths_lem configs tests m qc
                (All-and
                  (λ t. (is_positive t.common.timeout_s ≡ true) × (is_positive t.iterations ≡ true))
                  (λ t. known t ≡ true) _ tests (λ t q k. (q.0, q.1, k)) qt
                  (All-of_all _ known tests (λ t k. k) all_known))
                (ground (arith, h, all_known))
        ]

    validate_model_lem :
        (c : Coercions) (raw_configs raw_tests : List (Dict Value)) (m : Model)
        → validate_model exists parent yaml c raw_configs raw_tests ≡ ok m
        → All IsBuildable m.configs × All (IsRunnable (config_names m.configs)) m.tests
    unfolding validate_model
    validate_model_lem c raw_configs raw_tests m h =
        let (_, _, h1) =
          >>=-eq-ok
            (guard (exists yaml) ErrorKind.value_error
              ("Path object not found in filesystem : " <> yaml))
            (λ _. do
              configs ← traverse (validate_config c) raw_configs
              tests ← traverse (validate_test c) raw_tests
              check_model exists parent yaml configs tests)
            h in
        let (configs, made, h2) =
          >>=-eq-ok (traverse (validate_config c) raw_configs)
            (λ configs. do
              tests ← traverse (validate_test c) raw_tests
              check_model exists parent yaml configs tests)
            h1 in
        let (tests, made', h3) =
          >>=-eq-ok (traverse (validate_test c) raw_tests)
            (λ tests. check_model exists parent yaml configs tests) h2 in
        check_model_lem configs tests m
          (All-traverse _ (validate_config c) raw_configs (config_lem c) made)
          (All-traverse _ (validate_test c) raw_tests (test_lem c) made') h3

    exit_on_invalid_ok : (r : Result Model) (m : Model) → exit_on_invalid r ≡ ok m → r ≡ ok m
    unfolding exit_on_invalid
    exit_on_invalid_ok r m h = ground (arith, h)

    -- A model that is imported can be built and run: every configuration has a positive timeout
    -- and files that exist, and every test one of these configurations, a positive timeout and files
    -- of its own that exist, and a positive number of iterations.
    pub import_model-IsRunnable :
        (c : Coercions) (yaml_data : List Value) (selected_tests : Option (List String)) (m : Model)
        → import_model c exists parent yaml yaml_data selected_tests ≡ ok m
        → All IsBuildable m.configs × All (IsRunnable (config_names m.configs)) m.tests
    unfolding import_model
    import_model-IsRunnable c yaml_data selected_tests m h =
        let (entries, _, h1) =
          >>=-eq-ok (traverse as_dict yaml_data)
            (λ entries. do
              tests ←
                  traverse (join_config (keep (λ i. not (is_test i)) entries))
                    (keep (is_selected selected_tests) (keep is_test entries))
              exit_on_invalid
                  (validate_model exists parent yaml c (keep (λ i. not (is_test i)) entries) tests))
            h in
        let configs = keep (λ i. not (is_test i)) entries in
        let (tests, _, h2) =
          >>=-eq-ok
            (traverse (join_config configs)
              (keep (is_selected selected_tests) (keep is_test entries)))
            (λ tests. exit_on_invalid (validate_model exists parent yaml c configs tests)) h1 in
        validate_model_lem c configs tests m (exit_on_invalid_ok _ m h2)
