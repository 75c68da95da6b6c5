-- ===== src/Testing/Verdicts.antt =====
-- testing.rs: what the run of all suites, or of those of a category, tells.
use mathlib.Core.Path.{fun_ext}
use ruix.Prelude.{
  ℕ, ◌+◌, ◌-◌, ◌≤◌, ◌<◌, ◌≡◌, refl, sym, ap, subst, ◌∙◌, ◌↔◌, Bool, true, Option, some, List, [],
  ◌∷◌, ◌++◌, map, append_assoc, append-nil, length, retain, All, if◌then◌else◌, ◌==◌, arith,
  u64_mod, ◌>>=◌, Bool-cases, inl, inr,
}
use ruix.Error.{KernelResult, KernelError, GeneralError, kerror, ok}
use ruix.Testing.{TestError, TestCategory, Clocked}
use ruix.Testing.Case.{tick}
use ruix.Testing.Counting.{Sequence, failures, suite_run_lem}
use ruix.Testing.Suite.{TestSuite, SuiteResult, all_passed}
use ruix.Testing.Registry.{
  TestRegistry, run_suites, run_all, run_suites_of, run_category, category_eq, test_registry,
  run_all_tests,
}
use ruix.Testing.Suite

length-retain {ℓ} : {A : Type ℓ} (p : A → Bool) (xs : List A) → length (retain p xs) ≤ length xs
length-retain p [] = omega arith
length-retain p (x ∷ xs) = ground (arith, length-retain p xs)

All-retained {ℓ} :
    {A : Type ℓ} (p : A → Bool) (xs : List A)
    → (length xs - length (retain p xs) ≡ 0) ↔ All (λ x. p x ≡ true) xs
All-retained p [] = (λ h. tt, λ h. omega arith)
All-retained p (x ∷ xs) =
    let most = length-retain p xs in
    let rest = All-retained p xs in
    elim (Bool-cases (p x)) [
      | inl e ↦ (λ h. (e, rest.0 (ground arith)), λ h. ground (arith, rest.1 h.1))
      | inr e ↦ (λ h. ground arith, λ h. ground arith)
    ]

failed_of : SuiteResult → ℕ
failed_of r = r.failed

all_passed-failed_of :
    (rs : List SuiteResult)
    → All (λ r. all_passed r ≡ true) rs ↔ All (λ n. n ≡ 0) (map failed_of rs)
unfolding all_passed failed_of
all_passed-failed_of [] = (λ h. h, λ h. h)
all_passed-failed_of (r ∷ rs) =
    let rest = all_passed-failed_of rs in
    (λ (h, hs). (ground arith, rest.0 hs), λ (h, hs). (ground arith, rest.1 hs))

outcome_iff :
    (d : ℕ)
    → ((if d == 0 then ok tt else kerror {A = Unit {0}} KernelError.general GeneralError.internal)
        ≡ ok tt)
      ↔ (d ≡ 0)
outcome_iff d = ground arith

module _ {ℓ} {W : Type ℓ} where
  -- The suites go one after the other, with a read of the clock before and after each.
  pub data Suites
      : List (TestSuite W) → Clocked W → List (List (Option TestError)) → Clocked W → Type ℓ where
    done : {m : Clocked W} → Suites [] m [] m
    next :
        {s : TestSuite W} {ss : List (TestSuite W)} {m m1 m2 : Clocked W}
        {es : List (Option TestError)} {ess : List (List (Option TestError))}
        → m1.time_counter + 1 < u64_mod
        → Sequence s.tests (tick m) es m1
        → Suites ss (tick m1) ess m2
        → Suites (s ∷ ss) m (es ∷ ess) m2

  run_suites_lem :
      (ss : List (TestSuite W)) (m m1 : Clocked W) (ess : List (List (Option TestError)))
      (acc : List SuiteResult)
      → Suites ss m ess m1
      → (rs : List SuiteResult) × (run_suites ss acc m ≡ some (acc ++ rs, m1))
        × (map failed_of rs ≡ map failures ess)
  unfolding run_suites failed_of
  run_suites_lem [] m m1 ess acc done = ([], rw (append-nil acc) refl, refl)
  run_suites_lem (s ∷ ss) m m1 ess acc (next {m1 = m0} {es} {ess = rest} bound seq others) =
      let (r, ran, _, _, _, failed, _) = suite_run_lem s m m0 es bound seq in
      let (rs, all_ran, fails) = run_suites_lem ss (tick m0) m1 rest (acc ++ r ∷ []) others in
      (
        r ∷ rs,
        rw (ran, ◌>>=◌) (all_ran ∙ ap (λ x. some (x, m1)) (append_assoc acc (r ∷ []) rs)),
        rw (failed, fails) refl,
      )

  -- All registered suites are run, one after the other, also when one of them fails. The run succeeds
  -- exactly if no test of any suite ended with an error; the registry is there afterwards, unchanged.
  run_all_tests_lem :
      (global : Option (TestRegistry W)) (m m1 : Clocked W) (ess : List (List (Option TestError)))
      → Suites (test_registry global).suites m ess m1
      → (result : KernelResult (Unit {0})) × (run_all_tests global m
          ≡ some (result, some (test_registry global), m1))
        × ((result ≡ ok tt) ↔ All (λ n. n ≡ 0) (map failures ess))
  unfolding run_all_tests run_all failed_of
  run_all_tests_lem global m m1 ess h =
      let (rs, ran, fails) = run_suites_lem (test_registry global).suites m m1 ess [] h in
      let passing = all_passed-failed_of rs in
      let counted = All-retained all_passed rs in
      (
        (if length rs - length (retain all_passed rs) == 0
            then ok tt
            else kerror KernelError.general GeneralError.internal),
        rw (ran, ◌>>=◌) refl,
        (
          λ e. subst (All (λ n. n ≡ 0)) fails (
              passing.0
                (counted.0 ((outcome_iff (length rs - length (retain all_passed rs))).0 e))),
          λ e.
              (outcome_iff (length rs - length (retain all_passed rs))).1
                (counted.1 (passing.1 (subst (All (λ n. n ≡ 0)) (sym fails) e))),
        ),
      )

  run_suites_of_lem :
      (category : TestCategory) (ss : List (TestSuite W)) (acc : List SuiteResult) (m : Clocked W)
      → run_suites_of category ss acc m
        ≡ run_suites (retain (λ s. category_eq s.metadata.category category) ss) acc m
  unfolding run_suites_of run_suites
  run_suites_of_lem category [] acc m = refl
  run_suites_of_lem category (s ∷ ss) acc m =
      elim (Bool-cases (category_eq s.metadata.category category)) [
        | inl e ↦
            rw (e, run_suites_of)
              (ap (λ k. Suite.run s m >>= k)
                (fun_ext λ x. run_suites_of_lem category ss (acc ++ x.0 ∷ []) x.1))
        | inr e ↦ rw (e, run_suites_of) (run_suites_of_lem category ss acc m)
      ]

  -- The run of a category is the run of the registry that holds only the suites of that category.
  run_category-run_all :
      (r : TestRegistry W) (category : TestCategory) (m : Clocked W)
      → run_category r category m
        ≡ run_all
            (record { suites = retain (λ s. category_eq s.metadata.category category) r.suites })
            m
  unfolding run_category run_all
  run_category-run_all r category m = run_suites_of_lem category r.suites [] m
