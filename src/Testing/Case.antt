-- ===== src/Testing/Case.antt =====
-- testing.rs: what the run of a test case reports, against a description of how a test goes.
use ruix.Prelude.{
  ℕ, ◌+◌, ◌-◌, ◌*◌, ◌≤◌, ◌<◌, ◌≡◌, refl, Bool, true, false, Option, none, some, [], if◌then◌else◌,
  arith, u64_mod, ◌>>=◌, lt→ltb, le→ltb,
}
use ruix.Error.{ok, err}
use ruix.Testing.{
  TestError, TestResult, setup_failed, teardown_failed, display, TestCase, TestFunction,
  TestExecutionResult, Clocked, checked_sub, get_current_time, run_hook, run_normal_test,
  run_panic_test, report, run_body, run,
}

-- What is reported of a test that was run: a teardown that fails hides the test's own error.
abbrev verdict : TestResult → TestResult → Option TestError
verdict result (err e) = some (teardown_failed (display e))
verdict (err e) (ok _) = some e
verdict (ok _) (ok _) = none

abbrev pub is_none {ℓ} : {A : Type ℓ} → Option A → Bool
is_none none = true
is_none (some _) = false

pub checked_sub_lem : (a b : ℕ) → b ≤ a → checked_sub a b ≡ some (a - b)
checked_sub_lem a b h = rw (le→ltb a b h) refl

module _ {ℓ} {W : Type ℓ} where
  abbrev pub tick : Clocked W → Clocked W
  tick m = record m { time_counter = m.time_counter + 1 }

  -- A test case goes from a state to another one and ends without an error or with one. A setup that
  -- fails ends it; otherwise the test runs, and then the teardown, whatever the test gave. The clock
  -- is read before and after, and does not run back or overflow.
  pub data Executes (c : TestCase W) (m : Clocked W) : Option TestError → Clocked W → Type ℓ where
    aborted :
        {e : TestError} {m1 : Clocked W}
        → run_hook c.setup_fn (tick m) ≡ some (err e, m1)
        → m.time_counter ≤ m1.time_counter
        → m1.time_counter + 1 < u64_mod
        → m.time_counter + 1 < u64_mod
        → Executes c m (some (setup_failed (display e))) (tick m1)
    completed :
        {result teardown : TestResult} {m1 m2 m3 : Clocked W}
        → run_hook c.setup_fn (tick m) ≡ some (ok tt, m1)
        → c.test_fn m1 ≡ some (result, m2)
        → run_hook c.teardown_fn m2 ≡ some (teardown, m3)
        → m.time_counter ≤ m3.time_counter
        → m3.time_counter + 1 < u64_mod
        → m.time_counter + 1 < u64_mod
        → Executes c m (verdict result teardown) (tick m3)

  -- The result of a test case that ended like that.
  abbrev pub reported : TestCase W → Clocked W → Option TestError → Clocked W → TestExecutionResult
  reported c m error m1 = record {
    test_name = c.metadata.name;
    success = is_none error;
    duration_ms = m1.time_counter - (m.time_counter + 1);
    error = error;
    output = [];
  }

  pub get_current_time_lem :
      (m : Clocked W)
      → m.time_counter + 1 < u64_mod
      → get_current_time m ≡ some (m.time_counter + 1, tick m)
  unfolding get_current_time
  get_current_time_lem m h = rw (lt→ltb (m.time_counter + 1) u64_mod h) refl

  report_lem :
      (c : TestCase W) (m m1 : Clocked W) (success : Bool) (error : Option TestError)
      → success ≡ is_none error
      → m.time_counter ≤ m1.time_counter
      → m1.time_counter + 1 < u64_mod
      → report c (m.time_counter + 1) success error m1
        ≡ some (reported c m error (tick m1), tick m1)
  unfolding report
  report_lem c m m1 success error e later bound =
      rw
        (
          get_current_time_lem m1 bound,
          ◌>>=◌,
          checked_sub_lem (m1.time_counter + 1) (m.time_counter + 1) (omega arith),
          ◌>>=◌,
          e,
        )
        refl

  test_lem :
      (c : TestCase W) (m : Clocked W)
      → (if c.metadata.might_panic then run_panic_test c m else run_normal_test c m) ≡ c.test_fn m
  unfolding run_panic_test run_normal_test
  test_lem c m = ground arith

  run_body_lem :
      (c : TestCase W) (m m1 m2 m3 : Clocked W) (result teardown : TestResult)
      → c.test_fn m1 ≡ some (result, m2)
      → run_hook c.teardown_fn m2 ≡ some (teardown, m3)
      → m.time_counter ≤ m3.time_counter
      → m3.time_counter + 1 < u64_mod
      → run_body c (m.time_counter + 1) m1
        ≡ some (reported c m (verdict result teardown) (tick m3), tick m3)
  unfolding run_body
  run_body_lem c m m1 m2 m3 result (err e) tested torn later bound =
      rw (test_lem c m1, tested, ◌>>=◌, torn, ◌>>=◌) (report_lem c m m3 _ _ refl later bound)
  run_body_lem c m m1 m2 m3 (ok s) (ok d) tested torn later bound =
      rw (test_lem c m1, tested, ◌>>=◌, torn, ◌>>=◌) (report_lem c m m3 _ _ refl later bound)
  run_body_lem c m m1 m2 m3 (err e) (ok d) tested torn later bound =
      rw (test_lem c m1, tested, ◌>>=◌, torn, ◌>>=◌) (report_lem c m m3 _ _ refl later bound)

  -- A test case that goes as `Executes` says is reported so: as a success exactly if it ended
  -- without an error, with that error, and with the reads of the clock meanwhile as its duration.
  pub run_lem :
      (c : TestCase W) (m m1 : Clocked W) (error : Option TestError)
      → Executes c m error m1
      → run c m ≡ some (reported c m error m1, m1)
  unfolding run
  run_lem c m m1 error (aborted {e} {m1 = m0} failed later bound start) =
      rw (get_current_time_lem m start, ◌>>=◌, failed, ◌>>=◌)
        (report_lem c m m0 _ _ refl later bound)
  run_lem c m m1 error
        (completed {result} {teardown} {m1 = a} {m2} {m3} h tested torn later bound start) =
      rw (get_current_time_lem m start, ◌>>=◌, h, ◌>>=◌)
        (run_body_lem c m a m2 m3 result teardown tested torn later bound)

  -- A function that does not panic and reads the clock at most `k` times.
  abbrev pub Ticks : ℕ → TestFunction W → Type ℓ
  Ticks k f =
      (m : Clocked W)
      → m.time_counter + k < u64_mod
      → (result : TestResult) × (m1 : Clocked W) × (f m ≡ some (result, m1))
        × (m.time_counter ≤ m1.time_counter)
        × (m1.time_counter ≤ m.time_counter + k)

  -- The three functions of a test case are like that.
  pub record AllTick (k : ℕ) (c : TestCase W) : Type ℓ where
    pub setup : Ticks k (run_hook c.setup_fn)
    pub test : Ticks k c.test_fn
    pub teardown : Ticks k (run_hook c.teardown_fn)

  Ends : ℕ → TestCase W → Clocked W → Type ℓ
  Ends k c m =
      (error : Option TestError) × (m1 : Clocked W) × Executes c m error m1
      × (m.time_counter ≤ m1.time_counter)
      × (m1.time_counter ≤ m.time_counter + (3 * k + 2))

  setup-Ends :
      (k : ℕ) (c : TestCase W) (m m1 : Clocked W) (setup : TestResult)
      → AllTick k c
      → m.time_counter + (3 * k + 2) < u64_mod
      → run_hook c.setup_fn (tick m) ≡ some (setup, m1)
      → m.time_counter + 1 ≤ m1.time_counter
      → m1.time_counter ≤ m.time_counter + 1 + k
      → Ends k c m
  unfolding Ends
  setup-Ends k c m m1 (err e) h bound set later most = (
    some (setup_failed (display e)),
    tick m1,
    aborted set (omega arith) (omega arith) (omega arith),
    omega arith,
    omega arith,
  )
  setup-Ends k c m m1 (ok done) h bound set later most =
      let (result, m2, tested, later2, most2) = h.test m1 (omega arith) in
      let (torn, m3, teardown, later3, most3) = h.teardown m2 (omega arith) in
      (
        verdict result torn,
        tick m3,
        completed set tested teardown (omega arith) (omega arith) (omega arith),
        omega arith,
        omega arith,
      )

  -- Such a test case goes as `Executes` says, within `3 * k + 2` reads of the clock.
  pub AllTick-Executes :
      (k : ℕ) (c : TestCase W) (m : Clocked W)
      → AllTick k c
      → m.time_counter + (3 * k + 2) < u64_mod
      → (error : Option TestError) × (m1 : Clocked W) × Executes c m error m1
        × (m.time_counter ≤ m1.time_counter)
        × (m1.time_counter ≤ m.time_counter + (3 * k + 2))
  unfolding Ends
  AllTick-Executes k c m h bound =
      let (setup, m1, set, later, most) = h.setup (tick m) (omega arith) in
      setup-Ends k c m m1 setup h bound set later most
