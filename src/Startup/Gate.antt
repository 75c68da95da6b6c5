-- ===== src/Startup/Gate.antt =====
-- main.rs: when the start-up goes on.
use ruix.Prelude.{ℕ, ◌≡◌, refl, ◌↔◌, inl, inr, Option, some, List, ◌>>=◌, Bool-cases, if◌then◌else◌}
use ruix.Testing.{TestError, Clocked}
use ruix.Testing.Counting.{Sequence, failures}
use ruix.Testing.Suite.{TestSuite}
use ruix.Testing.Boot.{all_passed}
use ruix.Testing.Gate.{all_tests, working, run_boot_checks_lem}
use ruix.Startup.{Decision, halt, go_on, boot_gate}

-- The kernel goes on exactly if no test of any suite ended with an error; otherwise it halts. The
-- start-up's own probes of the allocator succeed, and the tests go one after the other.
pub boot_gate_lem {ℓ} :
    {W : Type ℓ} (pid : ℕ) (ss : List (TestSuite W)) (m m1 : Clocked W)
    (es : List (Option TestError))
    → Sequence (all_tests ss) m es m1
    → (d : Decision) × (boot_gate working pid ss m ≡ some (d, m1))
      × ((d ≡ go_on) ↔ (failures es ≡ 0))
unfolding boot_gate
boot_gate_lem pid ss m m1 es h =
    let (b, ran, _, (to, from)) = run_boot_checks_lem pid ss m m1 es h in
    (
      (if all_passed b then go_on else halt),
      rw (ran, ◌>>=◌) refl,
      elim (Bool-cases (all_passed b)) [
        | inl e ↦ rw e (λ x. to e, λ x. refl)
        | inr e ↦ rw e (λ x. cc, λ x. cc (from x))
      ],
    )
