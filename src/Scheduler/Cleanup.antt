-- ===== src/Scheduler/Cleanup.antt =====
-- process/scheduler.rs: the periodic clean-up of zombies.
use ruix.Prelude.{
  ℕ, ◌+◌, ◌≡◌, refl, ◌∙◌, Bool, true, false, not, none, some, List, [], ◌∷◌, arith, ◌==◌, ==_refl,
  without, without-nil, without-cons, without-retain, contains-retain, Distinct-retain, All,
  contains, retain, find?, length, Distinct, Bool-cases, inl, inr, sym, ap,
}
use ruix.Error.{ok}
use ruix.Process.{Process, is_zombie}
use ruix.Scheduler.Exit.Lookup.{ids}
use ruix.Scheduler.{
  Scheduler, has_id, forget, cleanup_terminated_process, cleanup_each, cleanup_all_zombies,
}

abbrev pub zombies : List Process → List Process
zombies = retain (λ p. is_zombie p.state)

abbrev pub living : List Process → List Process
living = retain (λ p. not (is_zombie p.state))

-- The process that is found for the id is a zombie.
abbrev zombie_at : ℕ → List Process → Bool
zombie_at z ps = elim (find? (has_id z) ps) [ none ↦ false | some p ↦ is_zombie p.state ]

zombie_at-retain :
    (z y : ℕ) (ps : List Process)
    → (y == z) ≡ false
    → zombie_at z (retain (λ p. not (has_id y p)) ps) ≡ zombie_at z ps
zombie_at-retain z y [] h = refl
zombie_at-retain z y (p ∷ ps) h = ground (arith, zombie_at-retain z y ps h)

length-ids : (ps : List Process) → 0 + length (ids ps) ≡ length ps
length-ids [] = refl
length-ids (p ∷ ps) = omega (arith, length-ids ps)

zombies_left :
    (y : ℕ) (zs : List ℕ) (ps : List Process)
    → contains y zs ≡ false
    → All (λ z. zombie_at z ps ≡ true) zs
    → All (λ z. zombie_at z (retain (λ p. not (has_id y p)) ps) ≡ true) zs
zombies_left y [] ps h a = tt
zombies_left y (z ∷ zs) ps h a =
    (zombie_at-retain z y ps (ground arith) ∙ a.0, zombies_left y zs ps (ground arith) a.1)

cleaned_one :
    (s : Scheduler) (z : ℕ)
    → zombie_at z s.processes ≡ true
    → cleanup_terminated_process s z ≡ (ok tt, forget s z)
unfolding cleanup_terminated_process
cleaned_one s z h = ground arith

cleaned_each :
    (zs : List ℕ) (s : Scheduler) (n : ℕ)
    → Distinct zs
    → All (λ z. zombie_at z s.processes ≡ true) zs
    → let (count, s') = cleanup_each s n zs in
      (count ≡ n + length zs) × (s'.processes ≡ without (λ p. p.id) zs s.processes)
unfolding cleanup_each forget
cleaned_each [] s n d a = (omega arith, sym (without-nil (λ p. p.id) s.processes))
cleaned_each (z ∷ zs) s n d a =
    let (counted, kept) =
      cleaned_each zs (forget s z) (n + 1) d.1 (zombies_left z zs s.processes d.0 a.1) in
    rw (cleaned_one s z a.0, cleanup_each)
      (omega arith, kept ∙ without-cons (λ p. p.id) z zs s.processes)

-- Each of the ids is found at a zombie, also with one more process that has none of them.
found_behind :
    (p : Process) (zs : List ℕ) (ps : List Process)
    → contains p.id zs ≡ false
    → All (λ z. zombie_at z ps ≡ true) zs
    → All (λ z. zombie_at z (p ∷ ps) ≡ true) zs
found_behind p [] ps h a = tt
found_behind p (z ∷ zs) ps h a = (ground arith, found_behind p zs ps (ground arith) a.1)

zombies-found :
    (ps : List Process) → Distinct (ids ps) → All (λ z. zombie_at z ps ≡ true) (ids (zombies ps))
zombies-found [] d = tt
zombies-found (p ∷ ps) d =
    let rest =
      found_behind p (ids (zombies ps)) ps
        (contains-retain (λ q. q.id) (λ q. is_zombie q.state) p.id ps d.0) (zombies-found ps d.1) in
    elim (Bool-cases (is_zombie p.state)) [
      | inl e ↦ rw e (ground (arith, ==_refl p.id), rest)
      | inr e ↦ rw e rest
    ]

-- While no two processes share an id, the clean-up takes every zombie and nothing else out of the
-- queue, keeps the others in their order, and counts the zombies.
cleanup_all_zombies_lem :
    (s : Scheduler)
    → Distinct (ids s.processes)
    → let (result, s') = cleanup_all_zombies s in
      (result ≡ ok (length (zombies s.processes))) × (s'.processes ≡ living s.processes)
unfolding cleanup_all_zombies
cleanup_all_zombies_lem s d =
    let zs = ids (zombies s.processes) in
    let (counted, kept) =
      cleaned_each zs s 0 (Distinct-retain (λ p. p.id) (λ p. is_zombie p.state) s.processes d)
        (zombies-found s.processes d) in
    (
      ap ok (counted ∙ length-ids (zombies s.processes)),
      kept ∙ without-retain (λ p. p.id) (λ p. is_zombie p.state) s.processes d,
    )
