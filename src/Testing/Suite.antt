-- ===== src/Testing/Suite.antt =====
-- testing.rs: a suite of tests and its run.
use Prim.Native.String.{String}
use ruix.Prelude.{
  ℕ, ◌+◌, Bool, Option, some, List, [], ◌∷◌, ◌++◌, length, if◌then◌else◌, ◌==◌, checked_add, ◌>>=◌,
}
use ruix.Testing.{
  TestCase, TestCategory, TestExecutionResult, Clocked, get_current_time, checked_sub,
}
use ruix.Testing

pub record SuiteMetadata : Type 0 where
  pub description : String
  pub category : TestCategory
  pub expected_time_ms : ℕ

pub record TestSuite {ℓ} (W : Type ℓ) : Type ℓ where
  pub name : String
  pub tests : List (TestCase W)
  pub metadata : SuiteMetadata

pub record SuiteResult : Type 0 where
  pub suite_name : String
  pub total_tests : ℕ
  pub passed : ℕ
  pub failed : ℕ
  pub total_time_ms : ℕ
  pub results : List TestExecutionResult

-- The variables of the loop of `run`. The counts are at most the number of tests.
pub record Tally : Type 0 where
  pub results : List TestExecutionResult
  pub passed : ℕ
  pub failed : ℕ

unfoldable pub all_passed : SuiteResult → Bool
all_passed r = r.failed == 0

unfoldable pub count : TestExecutionResult → Tally → Tally
count result t = record {
  results = t.results ++ result ∷ [];
  passed = if result.success then t.passed + 1 else t.passed;
  failed = if result.success then t.failed else t.failed + 1;
}

module _ {ℓ} {W : Type ℓ} where
  unfoldable pub new : String → String → TestCategory → TestSuite W
  new name description category = record {
    name = name;
    tests = [];
    metadata = record { description = description; category = category; expected_time_ms = 0 };
  }

  -- The total expected time can overflow.
  unfoldable add_test : TestSuite W → TestCase W → Option (TestSuite W)
  add_test s test = do
    total ← checked_add s.metadata.expected_time_ms test.metadata.expected_time_ms
    some (record s {
      tests = s.tests ++ test ∷ [];
      metadata = record (s.metadata) { expected_time_ms = total };
    })

  -- The loop over the tests.
  unfoldable pub run_tests : List (TestCase W) → Tally → Clocked W → Option (Tally × Clocked W)
  run_tests [] t m = some (t, m)
  run_tests (test ∷ tests) t m = do
    (result, m1) ← Testing.run test m
    run_tests tests (count result t) m1

  unfoldable pub run : TestSuite W → Clocked W → Option (SuiteResult × Clocked W)
  run s m = do
    (start_time, m1) ← get_current_time m
    (t, m2) ← run_tests s.tests (record { results = []; passed = 0; failed = 0 }) m1
    (now, m3) ← get_current_time m2
    total_time ← checked_sub now start_time
    some (
      record {
        suite_name = s.name;
        total_tests = length (s.tests);
        passed = t.passed;
        failed = t.failed;
        total_time_ms = total_time;
        results = t.results;
      },
      m3,
    )
