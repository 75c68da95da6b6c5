-- ===== src/Testing/Boot.antt =====
-- testing/boot_check.rs: the checks at start-up. The checks of a phase that fail end the sequence with
-- an error; the tests of the suites only leave results. The suites of `create_all_test_suites` and the
-- current process of `CPU_DATA` are arguments.
use Prim.Native.String.{String}
use ruix.Prelude.{
  ℕ, ◌+◌, Bool, true, not, ◌&&◌, ◌||◌, Option, none, some, List, [], ◌∷◌, ◌++◌, retain, leb,
  if◌then◌else◌, ◌==◌, ◌>>=◌,
}
use ruix.Error.{
  KernelResult, KernelError, AllocError, ProcessError, SyscallError, GeneralError, ok, err,
}
use ruix.Testing.{TestCase, TestExecutionResult, Clocked, display, run}
use ruix.Testing.Suite.{TestSuite}

pub data TestPhase : Type 0 where
  basic_system memory_allocation process_creation syscalls ipc_system : TestPhase

pub record BootTestResult : Type 0 where
  pub phase : TestPhase
  pub test_name : String
  pub passed : Bool
  pub details : String

pub record BootChecker : Type 0 where
  pub test_results : List BootTestResult
  pub current_phase : TestPhase

abbrev pub new : BootChecker
new = record { test_results = []; current_phase = basic_system }

unfoldable pub add_result : BootChecker → String → Bool → String → BootChecker
add_result b test_name passed details = record b {
  test_results =
      b.test_results
      ++ record {
        phase = b.current_phase;
        test_name = test_name;
        passed = passed;
        details = details;
      }
        ∷ [];
}

abbrev is_passed : BootTestResult → Bool
is_passed r = r.passed

-- `iter().all`
unfoldable pub all_of : List BootTestResult → Bool
all_of [] = true
all_of (r ∷ rs) = r.passed && all_of rs

unfoldable pub all_passed : BootChecker → Bool
all_passed b = all_of (b.test_results)

unfoldable pub get_failed_tests : BootChecker → List BootTestResult
get_failed_tests b = retain (λ r. not r.passed) (b.test_results)

-- What the checks of `Vec` and `String` find, which the allocator decides.
pub record Probes : Type 0 where
  pub small_allocation : Bool
  pub vector_allocation : Bool
  pub string_allocation : Bool

abbrev test_scheduler_access : Bool
test_scheduler_access = true

-- `test_pid_system` and `test_current_pid`
abbrev test_current_pid : ℕ → Bool
test_current_pid current_pid = leb 0 current_pid

abbrev test_syscall_init : Bool
test_syscall_init = true

-- The end of a phase, with the error of the phase if one of its checks failed.
abbrev conclude : Bool → KernelError → BootChecker → KernelResult (Unit {0}) × BootChecker
conclude failing error b = (if failing then err error else ok tt, b)

unfoldable pub test_basic_system : Probes → BootChecker → KernelResult (Unit {0}) × BootChecker
test_basic_system probes b =
    let b1 =
      add_result (record b { current_phase = basic_system }) "Basic printing" true
        "Serial output functional" in
    let test_val = 42 + 58 in
    let arithmetic_ok = test_val == 100 in
    let b2 = add_result b1 "Basic arithmetic" arithmetic_ok "42 + 58 = 100" in
    let allocation_ok = probes.small_allocation in
    let b3 = add_result b2 "Small allocation" allocation_ok "Can allocate small structures" in
    conclude (not arithmetic_ok || not allocation_ok) (KernelError.general GeneralError.internal) b3

unfoldable pub test_memory_allocation : Probes → BootChecker → KernelResult (Unit {0}) × BootChecker
test_memory_allocation probes b =
    let vector_ok = probes.vector_allocation in
    let b1 =
      add_result (record b { current_phase = memory_allocation }) "Vector allocation" vector_ok
        "Can allocate and grow vectors" in
    let string_ok = probes.string_allocation in
    let b2 = add_result b1 "String allocation" string_ok "Can allocate and manipulate strings" in
    conclude (not vector_ok || not string_ok) (KernelError.memory AllocError.out_of_memory) b2

unfoldable pub test_process_creation : ℕ → BootChecker → KernelResult (Unit {0}) × BootChecker
test_process_creation current_pid b =
    let scheduler_ok = test_scheduler_access in
    let b1 =
      add_result (record b { current_phase = process_creation }) "Scheduler access" scheduler_ok
        "Can access process scheduler" in
    let pid_ok = test_current_pid current_pid in
    let b2 = add_result b1 "PID system" pid_ok "Process ID system functional" in
    conclude (not scheduler_ok || not pid_ok) (KernelError.process ProcessError.not_found) b2

unfoldable pub test_syscalls : ℕ → BootChecker → KernelResult (Unit {0}) × BootChecker
test_syscalls current_pid b =
    let syscall_ok = test_syscall_init in
    let b1 =
      add_result (record b { current_phase = syscalls }) "Syscall init" syscall_ok
        "System call system initialized" in
    let pid_ok = test_current_pid current_pid in
    let b2 = add_result b1 "Current PID" pid_ok "Can get current process ID" in
    conclude (not syscall_ok || not pid_ok) (KernelError.syscall SyscallError.invalid_args) b2

-- `?` after a phase
abbrev pub and_then :
    KernelResult (Unit {0}) × BootChecker
    → (BootChecker → KernelResult (Unit {0}) × BootChecker)
    → KernelResult (Unit {0}) × BootChecker
and_then (result, b) next = elim result [ err e ↦ (err e, b) | ok _ ↦ next b ]

-- The phases before the test suites.
unfoldable pub run_phases : Probes → ℕ → BootChecker → KernelResult (Unit {0}) × BootChecker
run_phases probes current_pid b =
    and_then
      (and_then (and_then (test_basic_system probes b) (test_memory_allocation probes))
        (test_process_creation current_pid))
      (test_syscalls current_pid)

-- The text that is kept for a test that was run.
abbrev pub details_of : TestExecutionResult → String
details_of result =
    if result.success
    then "Test passed"
    else elim (result.error) [ none ↦ "Test failed" | some e ↦ display e ]

module _ {ℓ} {W : Type ℓ} where
  -- The loop over the tests of a suite.
  unfoldable pub run_each :
      List (TestCase W) → BootChecker → Clocked W → Option (BootChecker × Clocked W)
  run_each [] b m = some (b, m)
  run_each (test ∷ tests) b m = do
    (result, m1) ← run test m
    run_each tests (add_result b test.metadata.name result.success (details_of result)) m1

  -- The loop over the suites.
  unfoldable pub run_suites :
      List (TestSuite W) → BootChecker → Clocked W → Option (BootChecker × Clocked W)
  run_suites [] b m = some (b, m)
  run_suites (suite ∷ suites) b m = do
    (b1, m1) ← run_each (suite.tests) b m
    run_suites suites b1 m1

  unfoldable pub run_comprehensive_tests :
      List (TestSuite W)
      → BootChecker
      → Clocked W
      → Option (KernelResult (Unit {0}) × BootChecker × Clocked W)
  run_comprehensive_tests suites b m = do
    (b1, m1) ← run_suites suites (record b { current_phase = ipc_system }) m
    some (ok tt, b1, m1)

  unfoldable pub run_all_checks :
      Probes
      → ℕ
      → List (TestSuite W)
      → BootChecker
      → Clocked W
      → Option (KernelResult (Unit {0}) × BootChecker × Clocked W)
  run_all_checks probes current_pid suites b m =
      let (checks, b1) = run_phases probes current_pid b in
      elim checks [ err e ↦ some (err e, b1, m) | ok _ ↦ run_comprehensive_tests suites b1 m ]

  unfoldable pub run_boot_checks :
      Probes → ℕ → List (TestSuite W) → Clocked W → Option (KernelResult BootChecker × Clocked W)
  run_boot_checks probes current_pid suites m = do
    (result, checker, m1) ← run_all_checks probes current_pid suites new m
    some (elim result [ err e ↦ err e | ok _ ↦ ok checker ], m1)
