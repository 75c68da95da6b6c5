-- ===== src/Testing/Registry.antt =====
-- testing.rs: the registry of suites, and the run of all of them. The registry is a global that is made
-- at its first use, so it is an argument that comes back.
use ruix.Prelude.{
  ℕ, ◌-◌, Bool, true, false, Option, none, some, List, [], ◌∷◌, ◌++◌, length, retain, if◌then◌else◌,
  ◌==◌, ◌>>=◌,
}
use ruix.Error.{KernelResult, KernelError, GeneralError, kerror, ok}
use ruix.Testing.{
  TestCategory, unit, integration, system, performance, stress, memory, process, ipc, hardware,
  Clocked,
}
use ruix.Testing.Suite.{TestSuite, SuiteResult, all_passed}
use ruix.Testing.Suite

-- The number of a category, in the order of the declaration, which the derived equality compares.
unfoldable pub discriminant : TestCategory → ℕ
discriminant unit = 0
discriminant integration = 1
discriminant system = 2
discriminant performance = 3
discriminant stress = 4
discriminant memory = 5
discriminant process = 6
discriminant ipc = 7
discriminant hardware = 8

unfoldable pub category_eq : TestCategory → TestCategory → Bool
category_eq a b = discriminant a == discriminant b

pub record TestRegistry {ℓ} (W : Type ℓ) : Type ℓ where
  pub suites : List (TestSuite W)

module _ {ℓ} {W : Type ℓ} where
  unfoldable pub new : TestRegistry W
  new = record { suites = [] }

  unfoldable add_suite : TestRegistry W → TestSuite W → TestRegistry W
  add_suite r suite = record r { suites = r.suites ++ suite ∷ [] }

  -- The loop of `run_all`.
  unfoldable pub run_suites :
      List (TestSuite W) → List SuiteResult → Clocked W → Option (List SuiteResult × Clocked W)
  run_suites [] all_results m = some (all_results, m)
  run_suites (suite ∷ suites) all_results m = do
    (result, m1) ← Suite.run suite m
    run_suites suites (all_results ++ result ∷ []) m1

  unfoldable pub run_all : TestRegistry W → Clocked W → Option (List SuiteResult × Clocked W)
  run_all r m = run_suites r.suites [] m

  -- The loop of `run_category`.
  unfoldable pub run_suites_of :
      TestCategory
      → List (TestSuite W)
      → List SuiteResult
      → Clocked W
      → Option (List SuiteResult × Clocked W)
  run_suites_of category [] results m = some (results, m)
  run_suites_of category (suite ∷ suites) results m =
      elim (category_eq suite.metadata.category category) [
        | true ↦ (do
          (result, m1) ← Suite.run suite m
          run_suites_of category suites (results ++ result ∷ []) m1)
        | false ↦ run_suites_of category suites results m
      ]

  unfoldable pub run_category :
      TestRegistry W → TestCategory → Clocked W → Option (List SuiteResult × Clocked W)
  run_category r category m = run_suites_of category r.suites [] m

  -- `test_registry`: the global after the call, which is there.
  unfoldable pub test_registry : Option (TestRegistry W) → TestRegistry W
  test_registry none = new
  test_registry (some r) = r

  unfoldable pub run_all_tests :
      Option (TestRegistry W)
      → Clocked W
      → Option (KernelResult (Unit {0}) × Option (TestRegistry W) × Clocked W)
  run_all_tests global m = do
    (results, m1) ← run_all (test_registry global) m
    let total_suites = length results
    let total_passed = length (retain all_passed results)
    let total_failed = total_suites - total_passed
    some (
      if total_failed == 0 then ok tt else kerror KernelError.general GeneralError.internal,
      some (test_registry global),
      m1,
    )
