-- ===== src/Testing.antt =====
-- testing.rs: a test case with its setup and teardown, and how it is run. A test function is a function
-- on the state: the counter `TIME_COUNTER` of `get_current_time`, which tests read, and the rest of the
-- kernel. `none` is a panic, which halts the kernel. What a run prints is left out.
pub mod Suite
pub mod Registry
pub mod Case
pub mod Counting
pub mod Verdicts
pub mod Boot
pub mod Gate
pub mod Assertions
use Prim.Native.String.{String, ◌++◌}
use mathlib.Core.Option
use ruix.Prelude.{
  ℕ, ◌-◌, Bool, true, false, Option, none, some, List, [], ltb, if◌then◌else◌, checked_add, ◌>>=◌,
}
use ruix.Error.{KernelError, Result, ok, err, is_ok}

pub data TestError : Type 0 where
  assertion_failed : String → TestError
  expected_panic : TestError
  unexpected_panic : String → TestError
  timeout : TestError
  setup_failed : String → TestError
  teardown_failed : String → TestError
  resource_unavailable : String → TestError

abbrev pub TestResult : Type 0
TestResult = Result TestError (Unit {0})

-- `fmt` of `Display`
unfoldable pub display : TestError → String
display (assertion_failed msg) = "Assertion failed: " ++ msg
display expected_panic = "Expected panic but didn't panic"
display (unexpected_panic msg) = "Unexpected panic: " ++ msg
display timeout = "Test timed out"
display (setup_failed msg) = "Setup failed: " ++ msg
display (teardown_failed msg) = "Teardown failed: " ++ msg
display (resource_unavailable msg) = "Resource unavailable: " ++ msg

-- `From<KernelError>`, with the derived `Debug` text of a kernel error as an argument.
unfoldable from_kernel_error : (KernelError → String) → KernelError → TestError
from_kernel_error debug error = assertion_failed ("Kernel error: " ++ debug error)

pub data TestCategory : Type 0 where
  unit integration system performance stress memory process ipc hardware : TestCategory

pub record TestMetadata : Type 0 where
  pub name : String
  pub description : String
  pub category : TestCategory
  pub expected_time_ms : ℕ
  pub requires_setup : Bool
  pub might_panic : Bool

-- The counter of `get_current_time`, and what else the tests read and write.
pub record Clocked {ℓ} (W : Type ℓ) : Type ℓ where
  pub time_counter : ℕ
  pub world : W

abbrev pub TestFunction {ℓ} : Type ℓ → Type ℓ
TestFunction W = Clocked W → Option (TestResult × Clocked W)

pub record TestCase {ℓ} (W : Type ℓ) : Type ℓ where
  pub metadata : TestMetadata
  pub test_fn : TestFunction W
  pub setup_fn : Option (TestFunction W)
  pub teardown_fn : Option (TestFunction W)

pub record TestExecutionResult : Type 0 where
  pub test_name : String
  pub success : Bool
  pub duration_ms : ℕ
  pub error : Option TestError
  pub output : List String

-- `a - b` on u64
abbrev pub checked_sub : ℕ → ℕ → Option ℕ
checked_sub a b = if ltb a b then none else some (a - b)

-- `Result::err`
abbrev pub error_of {ℓ} : {A : Type ℓ} {E : Type 0} → Result E A → Option E
error_of (ok a) = none
error_of (err e) = some e

module _ {ℓ} {W : Type ℓ} where
  unfoldable pub new : String → String → TestCategory → TestFunction W → TestCase W
  new name description category test_fn = record {
    metadata = record {
      name = name;
      description = description;
      category = category;
      expected_time_ms = 1000;
      requires_setup = false;
      might_panic = false;
    };
    test_fn = test_fn;
    setup_fn = none;
    teardown_fn = none;
  }

  unfoldable with_expected_time : TestCase W → ℕ → TestCase W
  with_expected_time c time_ms = record c {
    metadata = record (c.metadata) { expected_time_ms = time_ms };
  }

  unfoldable with_setup : TestCase W → TestFunction W → TestCase W
  with_setup c setup_fn = record c {
    setup_fn = some setup_fn;
    metadata = record (c.metadata) { requires_setup = true };
  }

  unfoldable pub with_teardown : TestCase W → TestFunction W → TestCase W
  with_teardown c teardown_fn = record c { teardown_fn = some teardown_fn }

  unfoldable with_might_panic : TestCase W → TestCase W
  with_might_panic c = record c { metadata = record (c.metadata) { might_panic = true } }

  unfoldable pub get_current_time : Clocked W → Option (ℕ × Clocked W)
  get_current_time m = do
    time ← checked_add m.time_counter 1
    some (time, record m { time_counter = time })

  unfoldable pub run_normal_test : TestCase W → TestFunction W
  run_normal_test c = c.test_fn

  -- Nothing catches a panic here either.
  unfoldable pub run_panic_test : TestCase W → TestFunction W
  run_panic_test c = c.test_fn

  -- `if let Some(f) = ...`: a hook that is not there does nothing.
  unfoldable pub run_hook : Option (TestFunction W) → TestFunction W
  run_hook none m = some (ok tt, m)
  run_hook (some f) m = f m

  -- The result of a run that began at `start_time`.
  unfoldable pub report :
      TestCase W
      → ℕ
      → Bool
      → Option TestError
      → Clocked W
      → Option (TestExecutionResult × Clocked W)
  report c start_time success error m = do
    (now, m1) ← get_current_time m
    duration ← checked_sub now start_time
    some (
      record {
        test_name = c.metadata.name;
        success = success;
        duration_ms = duration;
        error = error;
        output = [];
      },
      m1,
    )

  -- After the setup: the test and the teardown.
  unfoldable pub run_body : TestCase W → ℕ → Clocked W → Option (TestExecutionResult × Clocked W)
  run_body c start_time m = do
    (result, m1) ← (if c.metadata.might_panic then run_panic_test c m else run_normal_test c m)
    (teardown, m2) ← run_hook c.teardown_fn m1
    elim teardown [
      | err e ↦ report c start_time false (some (teardown_failed (display e))) m2
      | ok _ ↦ report c start_time (is_ok result) (error_of result) m2
    ]

  unfoldable pub run : TestCase W → Clocked W → Option (TestExecutionResult × Clocked W)
  run c m = do
    (start_time, m1) ← get_current_time m
    (setup, m2) ← run_hook c.setup_fn m1
    elim setup [
      | err e ↦ report c start_time false (some (setup_failed (display e))) m2
      | ok _ ↦ run_body c start_time m2
    ]
