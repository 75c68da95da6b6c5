-- ===== src/Tests/Suites.antt =====
-- Test cases, suites and the boot checks: concrete runs.
use ruix.Prelude.{
  ℕ, ◌+◌, ◌≡◌, refl, ◌↔◌, ◌<◌, Option, none, some, List, [], ◌∷◌, map, u64_mod, arith,
}
use ruix.Error.{ok, err}
use ruix.Testing.{
  TestError, TestCase, Clocked, assertion_failed, unit, new, with_teardown, run_hook, run,
}
use ruix.Testing.Case.{Executes, completed, reported, run_lem}
use ruix.Testing.Counting.{Sequence, done, next, name_of, failures, suite_run_lem}
use ruix.Testing.Suite.{TestSuite, SuiteResult}
use ruix.Testing.Gate.{working}
use ruix.Startup.{Decision, go_on, boot_gate}
use ruix.Startup.Gate.{boot_gate_lem}
use ruix.Testing.Suite

-- The state of the kernel is a number that tests may change.
abbrev at : ℕ → Clocked ℕ
at time = record { time_counter = time; world = 0 }

abbrev good : TestCase ℕ
unfolding new
good = new "good" "ends well" unit (λ m. some (ok tt, m))

abbrev bad : TestCase ℕ
unfolding new with_teardown
bad =
    with_teardown (new "bad" "fails" unit (λ m. some (err (assertion_failed "no"), m)))
      (λ m. some (ok tt, m))

good-Executes : (n : ℕ) → n + 2 < u64_mod → Executes good (at n) none (at (n + 1 + 1))
unfolding new run_hook
good-Executes n h = completed refl refl refl (omega arith) (omega arith) (omega arith)

bad-Executes :
    (n : ℕ) → n + 2 < u64_mod → Executes bad (at n) (some (assertion_failed "no")) (at (n + 1 + 1))
unfolding new with_teardown run_hook
bad-Executes n h = completed refl refl refl (omega arith) (omega arith) (omega arith)

run_example :
    run bad (at 0) ≡ some (reported bad (at 0) (some (assertion_failed "no")) (at 2), at 2)
run_example =
    run_lem bad (at 0) (at 2) (some (assertion_failed "no")) (bad-Executes 0 (omega arith))

abbrev both : TestSuite ℕ
both = record {
  name = "both";
  tests = good ∷ bad ∷ [];
  metadata = record { description = "one of each"; category = unit; expected_time_ms = 2000 };
}

abbrev ends : List (Option TestError)
ends = none ∷ some (assertion_failed "no") ∷ []

both-Sequence :
    (n : ℕ) → n + 4 < u64_mod → Sequence (good ∷ bad ∷ []) (at n) ends (at (n + 1 + 1 + 1 + 1))
both-Sequence n h =
    next (good-Executes n (omega arith)) (next (bad-Executes (n + 1 + 1) (omega arith)) done)

suite_run_example :
    (r : SuiteResult) × (Suite.run both (at 0) ≡ some (r, at 6))
    × (map (λ x. x.error) r.results ≡ ends)
    × (map (λ x. x.test_name) r.results ≡ map name_of (good ∷ bad ∷ []))
    × (r.passed ≡ 1)
    × (r.failed ≡ 1)
    × (r.passed + r.failed ≡ r.total_tests)
suite_run_example =
    suite_run_lem both (at 0) (at 5) ends (omega arith) (both-Sequence 1 (omega arith))

boot_gate_example :
    (d : Decision) × (boot_gate working 1 (both ∷ []) (at 0) ≡ some (d, at 4))
    × ((d ≡ go_on) ↔ (failures ends ≡ 0))
boot_gate_example = boot_gate_lem 1 (both ∷ []) (at 0) (at 4) ends (both-Sequence 0 (omega arith))
