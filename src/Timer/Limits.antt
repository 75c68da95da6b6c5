-- ===== src/Timer/Limits.antt =====
-- timer.rs: setting the limit of a process, and forgetting a process.
use ruix.Prelude.{
  ℕ, ◌≡◌, ◌≢◌, refl, true, false, not, none, some, List, [], ◌∷◌, ◌++◌, arith, find?, update_first,
  retain, any, Bool-cases, inl, inr,
}
use ruix.Timer.{
  ProcessTimeout, TimeoutManager, has_pid, new, register_process, unregister_process,
  set_timeout_limit, get_status,
}
use ruix.Timer.Budget.{limit_of}

find?-limit :
    (pid q limit : ℕ) (ps : List ProcessTimeout)
    → q ≢ pid
    → find? (has_pid q) (update_first (has_pid pid) (λ p. record p { limit = limit }) ps)
      ≡ find? (has_pid q) ps
find?-limit pid q limit [] ne = refl
find?-limit pid q limit (p ∷ ps) ne = ground (arith, find?-limit pid q limit ps ne)

find?-new :
    (q limit pid : ℕ) (ps : List ProcessTimeout)
    → q ≢ pid
    → find? (has_pid q) (ps ++ new pid limit ∷ []) ≡ find? (has_pid q) ps
find?-new q limit pid [] ne = ground arith
find?-new q limit pid (p ∷ ps) ne = ground (arith, find?-new q limit pid ps ne)

limit-set :
    (pid limit : ℕ) (ps : List ProcessTimeout)
    → any (has_pid pid) ps ≡ true
    → (elim (find? (has_pid pid) (update_first (has_pid pid) (λ p. record p { limit = limit }) ps))
        as (λ _. ℕ) [ none ↦ 30 | some p ↦ p.limit ])
      ≡ limit
limit-set pid limit [] h = absurd (ground arith)
limit-set pid limit (p ∷ ps) h = ground (arith, limit-set pid limit ps)

limit-new :
    (pid limit : ℕ) (ps : List ProcessTimeout)
    → any (has_pid pid) ps ≡ false
    → (elim (find? (has_pid pid) (ps ++ new pid limit ∷ [])) as (λ _. ℕ) [
      | none ↦ 30
      | some p ↦ p.limit
    ])
      ≡ limit
limit-new pid limit [] h = ground arith
limit-new pid limit (p ∷ ps) h = ground (arith, limit-new pid limit ps)

-- After a limit is set for a process, registered before or not, that limit applies when it starts user
-- mode, and the status of every other process is as before.
limit_of-set_timeout_limit :
    (m : TimeoutManager) (pid limit q : ℕ)
    → q ≢ pid
    → (limit_of pid (set_timeout_limit m pid limit) ≡ limit)
      × (get_status (set_timeout_limit m pid limit) q ≡ get_status m q)
unfolding set_timeout_limit register_process get_status
limit_of-set_timeout_limit m pid limit q ne = elim (Bool-cases (any (has_pid pid) m.processes)) [
  | inl known ↦ rw known (
    limit-set pid limit m.processes known,
    rw (get_status, find?-limit pid q limit m.processes ne) refl,
  )
  | inr unknown ↦ rw unknown (
    limit-new pid limit m.processes unknown,
    rw (get_status, find?-new q limit pid m.processes ne) refl,
  )
]

retain-gone :
    (pid : ℕ) (ps : List ProcessTimeout)
    → find? (has_pid pid) (retain (λ p. not (has_pid pid p)) ps) ≡ none
retain-gone pid [] = refl
retain-gone pid (p ∷ ps) = ground (arith, retain-gone pid ps)

retain-others :
    (pid q : ℕ) (ps : List ProcessTimeout)
    → q ≢ pid
    → find? (has_pid q) (retain (λ p. not (has_pid pid p)) ps) ≡ find? (has_pid q) ps
retain-others pid q [] ne = refl
retain-others pid q (p ∷ ps) ne = ground (arith, retain-others pid q ps ne)

-- A process that is unregistered, however often it was registered, has no status any more, and the
-- status of every other process is as before.
get_status-unregister_process :
    (m : TimeoutManager) (pid q : ℕ)
    → q ≢ pid
    → (get_status (unregister_process m pid) pid ≡ none)
      × (get_status (unregister_process m pid) q ≡ get_status m q)
unfolding unregister_process get_status
get_status-unregister_process m pid q ne = (
  rw (get_status, retain-gone pid m.processes) refl,
  rw (get_status, retain-others pid q m.processes ne) refl,
)
