-- ===== src/Testing/Counting.antt =====
-- testing.rs: the counts and the results of a suite that is run.
use Prim.Native.String.{String}
use ruix.Prelude.{
  ℕ, ◌+◌, ◌-◌, ◌*◌, ◌≤◌, ◌<◌, ◌≡◌, refl, sym, ap, ◌∙◌, Option, none, some, List, [], ◌∷◌, ◌++◌, map,
  append-nil, append_assoc, length, All, arith, u64_mod, ◌>>=◌,
}
use ruix.Testing.{TestError, TestCase, TestExecutionResult, Clocked}
use ruix.Testing.Case.{
  is_none, tick, Executes, reported, get_current_time_lem, checked_sub_lem, run_lem, AllTick,
  AllTick-Executes,
}
use ruix.Testing.Suite.{TestSuite, SuiteResult, Tally, count, run_tests, run}

-- How many of the tests ended without an error, and with one.
abbrev pub passes : List (Option TestError) → ℕ
passes [] = 0
passes (none ∷ es) = passes es + 1
passes (some e ∷ es) = passes es

abbrev pub failures : List (Option TestError) → ℕ
failures [] = 0
failures (none ∷ es) = failures es
failures (some e ∷ es) = failures es + 1

-- The tally after tests whose results are `rs` and whose errors are `es`.
abbrev Extends : Tally → Tally → List TestExecutionResult → List (Option TestError) → Type 0
Extends t t1 rs es =
    (t1.results ≡ t.results ++ rs)
    × (t1.passed ≡ t.passed + passes es)
    × (t1.failed ≡ t.failed + failures es)

count-Extends :
    (r : TestExecutionResult) (e : Option TestError) (es : List (Option TestError)) (t t1 : Tally)
    (rs : List TestExecutionResult)
    → r.success ≡ is_none e
    → Extends (count r t) t1 rs es
    → Extends t t1 (r ∷ rs) (e ∷ es)
unfolding count
count-Extends r none es t t1 rs s (a, b, c) =
    (a ∙ append_assoc (t.results) (r ∷ []) rs, ground arith, ground arith)
count-Extends r (some e) es t t1 rs s (a, b, c) =
    (a ∙ append_assoc (t.results) (r ∷ []) rs, ground arith, ground arith)

module _ {ℓ} {W : Type ℓ} where
  -- The tests of a list go one after the other, each from the state that the one before left.
  pub data Sequence
      : List (TestCase W) → Clocked W → List (Option TestError) → Clocked W → Type ℓ where
    done : {m : Clocked W} → Sequence [] m [] m
    next :
        {c : TestCase W} {cs : List (TestCase W)} {m m1 m2 : Clocked W} {e : Option TestError}
        {es : List (Option TestError)}
        → Executes c m e m1
        → Sequence cs m1 es m2
        → Sequence (c ∷ cs) m (e ∷ es) m2

  abbrev pub name_of : TestCase W → String
  name_of c = c.metadata.name

  run_tests_lem :
      (cs : List (TestCase W)) (m m1 : Clocked W) (es : List (Option TestError)) (t : Tally)
      → Sequence cs m es m1
      → (t1 : Tally) × (rs : List TestExecutionResult) × (run_tests cs t m ≡ some (t1, m1))
        × Extends t t1 rs es
        × (map (λ r. r.error) rs ≡ es)
        × (map (λ r. r.test_name) rs ≡ map name_of cs)
  unfolding run_tests
  run_tests_lem [] m m1 es t done =
      (t, [], refl, (sym (append-nil (t.results)), omega arith, omega arith), refl, refl)
  run_tests_lem (c ∷ cs) m m1 es t (next {m1 = m0} {e} {es = rest} x seq) =
      let r : TestExecutionResult = reported c m e m0 in
      let (t1, rs, ran, ext, errors, names) = run_tests_lem cs m0 m1 rest (count r t) seq in
      (
        t1,
        r ∷ rs,
        rw (run_lem c m m0 e x, ◌>>=◌) ran,
        count-Extends r e rest t t1 rs refl ext,
        ap (◌∷◌ e) errors,
        ap (◌∷◌ (name_of c)) names,
      )

  Executes-later :
      (c : TestCase W) (m m1 : Clocked W) (e : Option TestError)
      → Executes c m e m1
      → m.time_counter ≤ m1.time_counter
  Executes-later c m m1 e (Executes.aborted a b d f) = omega arith
  Executes-later c m m1 e (Executes.completed a b d f g h) = omega arith

  Sequence-later :
      (cs : List (TestCase W)) (m m1 : Clocked W) (es : List (Option TestError))
      → Sequence cs m es m1
      → m.time_counter ≤ m1.time_counter
  Sequence-later [] m m1 es done = omega arith
  Sequence-later (c ∷ cs) m m1 es (next {m1 = m0} {e} {es = rest} x seq) =
      omega (arith, Executes-later c m m0 e x, Sequence-later cs m0 m1 rest seq)

  Sequence-count :
      (cs : List (TestCase W)) (m m1 : Clocked W) (es : List (Option TestError))
      → Sequence cs m es m1
      → passes es + failures es ≡ length cs
  Sequence-count [] m m1 es done = refl
  Sequence-count (c ∷ cs) m m1 es (next {m1 = m0} {e = none} {es = rest} x seq) =
      omega (arith, Sequence-count cs m0 m1 rest seq)
  Sequence-count (c ∷ cs) m m1 es (next {m1 = m0} {e = some e} {es = rest} x seq) =
      omega (arith, Sequence-count cs m0 m1 rest seq)

  -- The tests of a suite go one after the other. Then the suite reports for each of them, in order,
  -- its name and how it ended, and counts those that ended without an error and those with one; the
  -- counts add up to the number of tests. The clock does not overflow.
  pub suite_run_lem :
      (s : TestSuite W) (m m1 : Clocked W) (es : List (Option TestError))
      → m1.time_counter + 1 < u64_mod
      → Sequence s.tests (tick m) es m1
      → (r : SuiteResult) × (run s m ≡ some (r, tick m1))
        × (map (λ x. x.error) r.results ≡ es)
        × (map (λ x. x.test_name) r.results ≡ map name_of s.tests)
        × (r.passed ≡ passes es)
        × (r.failed ≡ failures es)
        × (r.passed + r.failed ≡ r.total_tests)
  unfolding run
  suite_run_lem s m m1 es bound seq =
      let start : Tally = record { results = []; passed = 0; failed = 0 } in
      let (t, rs, ran, (results, passed, failed), errors, names) =
        run_tests_lem s.tests (tick m) m1 es start seq in
      let later = Sequence-later s.tests (tick m) m1 es seq in
      let total = Sequence-count s.tests (tick m) m1 es seq in
      (
        record {
          suite_name = s.name;
          total_tests = length (s.tests);
          passed = t.passed;
          failed = t.failed;
          total_time_ms = m1.time_counter + 1 - (m.time_counter + 1);
          results = t.results;
        },
        rw
            (
              get_current_time_lem m (omega arith),
              ◌>>=◌,
              ran,
              ◌>>=◌,
              get_current_time_lem m1 bound,
              ◌>>=◌,
              checked_sub_lem (m1.time_counter + 1) (m.time_counter + 1) (omega arith),
              ◌>>=◌,
            )
            refl,
        ap (map (λ x. x.error)) results ∙ errors,
        ap (map (λ x. x.test_name)) results ∙ names,
        omega (arith, passed),
        omega (arith, failed),
        omega arith,
      )

  -- Tests that do not panic and read the clock at most `k` times each go like that.
  AllTick-Sequence :
      (k : ℕ) (cs : List (TestCase W)) (m : Clocked W)
      → All (AllTick k) cs
      → m.time_counter + length cs * (3 * k + 2) < u64_mod
      → (es : List (Option TestError)) × (m1 : Clocked W) × Sequence cs m es m1
        × (m1.time_counter ≤ m.time_counter + length cs * (3 * k + 2))
  AllTick-Sequence k [] m h bound = ([], m, done, omega arith)
  AllTick-Sequence k (c ∷ cs) m (h, hs) bound =
      let (e, m0, x, later, most) = AllTick-Executes k c m h (ground arith) in
      let (es, m1, seq, most2) = AllTick-Sequence k cs m0 hs (ground arith) in
      (e ∷ es, m1, next x seq, ground arith)
