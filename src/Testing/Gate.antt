-- ===== src/Testing/Gate.antt =====
-- testing/boot_check.rs: when the start-up goes on.
use Prim.Native.String.{String}
use mathlib.Core.Path.{fun_ext}
use ruix.Prelude.{
  ℕ, ◌+◌, ◌≡◌, refl, sym, ap, ◌∙◌, ◌↔◌, inl, inr, true, false, not, Option, none, some, List, [],
  ◌∷◌, ◌++◌, length, retain, if◌then◌else◌, arith, ◌>>=◌, Option-cases, le→leb,
}
use ruix.Error.{ok}
use ruix.Testing.{TestError, TestCase, TestExecutionResult, Clocked, run}
use ruix.Testing.Case.{is_none, reported, run_lem}
use ruix.Testing.Counting.{Sequence, done, next, failures}
use ruix.Testing.Suite.{TestSuite}
use ruix.Testing.Boot.{
  BootTestResult, BootChecker, Probes, add_result, all_of, all_passed, get_failed_tests, details_of,
  run_each, run_phases, run_suites, run_comprehensive_tests, run_all_checks, run_boot_checks,
  test_basic_system, test_memory_allocation, test_process_creation, test_syscalls, new, ipc_system,
}

failed_in : List BootTestResult → ℕ
failed_in rs = length (retain (λ r. not r.passed) rs)

all_of-failed_in : (rs : List BootTestResult) → (all_of rs ≡ true) ↔ (failed_in rs ≡ 0)
unfolding all_of failed_in
all_of-failed_in [] = (λ h. refl, λ h. refl)
all_of-failed_in (r ∷ rs) = ground (arith, all_of-failed_in rs)

failed_in-append :
    (rs : List BootTestResult) (r : BootTestResult)
    → failed_in (rs ++ r ∷ []) ≡ failed_in rs + (if r.passed then 0 else 1)
unfolding failed_in
failed_in-append [] r = ground arith
failed_in-append (x ∷ rs) r = ground (arith, failed_in-append rs r)

-- All results are good exactly if none is listed as failed.
all_passed-get_failed_tests :
    (b : BootChecker) → (all_passed b ≡ true) ↔ (length (get_failed_tests b) ≡ 0)
unfolding all_passed get_failed_tests failed_in
all_passed-get_failed_tests b = all_of-failed_in (b.test_results)

failed_after :
    (b : BootChecker) (name details : String) (e : Option TestError) (es : List (Option TestError))
    → failed_in (add_result b name (is_none e) details).test_results + failures es
      ≡ failed_in b.test_results + failures (e ∷ es)
unfolding add_result
failed_after b name details none es =
    let r : BootTestResult = record {
      phase = b.current_phase;
      test_name = name;
      passed = true;
      details = details;
    } in
    omega (arith, failed_in-append (b.test_results) r)
failed_after b name details (some e) es =
    let r : BootTestResult = record {
      phase = b.current_phase;
      test_name = name;
      passed = false;
      details = details;
    } in
    omega (arith, failed_in-append (b.test_results) r)

-- The probes of a working allocator.
abbrev pub working : Probes
working = record { small_allocation = true; vector_allocation = true; string_allocation = true }

run_phases_lem :
    (pid : ℕ)
    → ((run_phases working pid new).0 ≡ ok tt)
      × (failed_in (run_phases working pid new).1.test_results ≡ 0)
unfolding run_phases test_basic_system test_memory_allocation test_process_creation test_syscalls
    add_result failed_in
run_phases_lem pid =
    let e = le→leb 0 pid (omega arith) in (rw (e, test_syscalls) refl, rw (e, test_syscalls) refl)

module _ {ℓ} {W : Type ℓ} where
  -- The tests of all suites, in the order in which they are run.
  abbrev pub all_tests : List (TestSuite W) → List (TestCase W)
  all_tests [] = []
  all_tests (s ∷ ss) = s.tests ++ all_tests ss

  run_each-append :
      (xs ys : List (TestCase W)) (b : BootChecker) (m : Clocked W)
      → run_each (xs ++ ys) b m ≡ (run_each xs b m >>= λ x. run_each ys x.0 x.1)
  unfolding run_each
  run_each-append [] ys b m = refl
  run_each-append (x ∷ xs) ys b m = elim (Option-cases (run x m)) [
    | inl e ↦ rw e refl
    | inr (r, e) ↦
        rw e (run_each-append xs ys (add_result b x.metadata.name r.0.success (details_of r.0)) r.1)
  ]

  run_suites_lem :
      (ss : List (TestSuite W)) (b : BootChecker) (m : Clocked W)
      → run_suites ss b m ≡ run_each (all_tests ss) b m
  unfolding run_suites run_each
  run_suites_lem [] b m = refl
  run_suites_lem (s ∷ ss) b m =
      ap (λ k. run_each (s.tests) b m >>= k) (fun_ext λ x. run_suites_lem ss x.0 x.1)
      ∙ sym (run_each-append (s.tests) (all_tests ss) b m)

  run_each_lem :
      (cs : List (TestCase W)) (b : BootChecker) (m m1 : Clocked W) (es : List (Option TestError))
      → Sequence cs m es m1
      → (b1 : BootChecker) × (run_each cs b m ≡ some (b1, m1))
        × (failed_in b1.test_results ≡ failed_in b.test_results + failures es)
  unfolding run_each
  run_each_lem [] b m m1 es done = (b, refl, omega arith)
  run_each_lem (c ∷ cs) b m m1 es (next {m1 = m0} {e} {es = rest} x seq) =
      let r : TestExecutionResult = reported c m e m0 in
      let text = details_of r in
      let (b1, ran, count) =
        run_each_lem cs (add_result b c.metadata.name r.success text) m0 m1 rest seq in
      (
        b1,
        rw (run_lem c m m0 e x, ◌>>=◌) ran,
        omega (arith, count, failed_after b c.metadata.name text e rest),
      )

  -- The start-up checks whose own probes succeed end without an error, and leave exactly one failed
  -- result for each test of a suite that ended with an error, so that `all_passed`, on which the
  -- start-up goes on, holds exactly if there is no such test. The tests go one after the other.
  pub run_boot_checks_lem :
      (pid : ℕ) (ss : List (TestSuite W)) (m m1 : Clocked W) (es : List (Option TestError))
      → Sequence (all_tests ss) m es m1
      → (b : BootChecker) × (run_boot_checks working pid ss m ≡ some (ok b, m1))
        × (length (get_failed_tests b) ≡ failures es)
        × ((all_passed b ≡ true) ↔ (failures es ≡ 0))
  unfolding run_boot_checks run_all_checks run_comprehensive_tests get_failed_tests failed_in
  run_boot_checks_lem pid ss m m1 es h =
      let b0 : BootChecker = record ((run_phases working pid new).1) {
        current_phase = ipc_system;
      } in
      let (b, ran, count) = run_each_lem (all_tests ss) b0 m m1 es h in
      let (good, none_failed) = run_phases_lem pid in
      let counted = count ∙ ap (λ n. n + failures es) none_failed in
      let listed = all_passed-get_failed_tests b in
      (
        b,
        rw (good, run_suites_lem ss b0 m, ran, ◌>>=◌) refl,
        omega (arith, counted),
        (λ e. omega (arith, counted, listed.0 e), λ e. listed.1 (omega (arith, counted, e))),
      )
