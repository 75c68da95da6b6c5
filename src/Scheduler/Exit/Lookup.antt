-- ===== src/Scheduler/Exit/Lookup.antt =====
-- process/scheduler.rs: the state of the process that a loop over the queue finds for an id.
use mathlib.Core.Option
use ruix.Prelude.{
  Bool, false, ◌||◌, u64_max, ℕ, ◌≡◌, refl, Option, none, some, List, [], ◌∷◌, arith, ◌==◌,
  if◌then◌else◌, find?, update_first, any, map, ℤ,
}
use ruix.Process.{
  Process, ProcessState, running, ready, waiting, zombie, stopped, child, ipc_receive, ipc_send,
  sleep, async_poll,
}
use ruix.Scheduler.{has_id, wake_waiting}

abbrev pub state_in : ℕ → List Process → Option ProcessState
state_in q ps = Option.map (λ p. p.state) (find? (has_id q) ps)

-- 0 if no process has the id.
abbrev pub parent_in : ℕ → List Process → ℕ
parent_in q ps = elim (find? (has_id q) ps) [ none ↦ 0 | some p ↦ p.parent_id ]

abbrev pub code_in : ℕ → List Process → Option ℤ
code_in q ps = Option.map (λ p. p.exit_code) (find? (has_id q) ps)

abbrev pub ids : List Process → List ℕ
ids ps = map (λ p. p.id) ps

module _ (f : Process → Process) (same : (p : Process) → (f p).id ≡ p.id) where
  pub find?-update_first :
      (q r : ℕ) (ps : List Process)
      → find? (has_id q) (update_first (has_id r) f ps)
        ≡ (if r == q then Option.map f (find? (has_id q) ps) else find? (has_id q) ps)
  find?-update_first q r [] = ground arith
  find?-update_first q r (p ∷ ps) = ground (arith, same p, find?-update_first q r ps)

  pub state_in-update_first :
      (g : ProcessState → ProcessState) (q r : ℕ) (ps : List Process)
      → ((p : Process) → (f p).state ≡ g p.state)
      → state_in q (update_first (has_id r) f ps)
        ≡ (if r == q then Option.map g (state_in q ps) else state_in q ps)
  state_in-update_first g q r [] to = ground arith
  state_in-update_first g q r (p ∷ ps) to =
      ground (arith, same p, to p, state_in-update_first g q r ps to)

  pub state_in-keep :
      (q r : ℕ) (ps : List Process)
      → ((p : Process) → (f p).state ≡ p.state)
      → state_in q (update_first (has_id r) f ps) ≡ state_in q ps
  state_in-keep q r [] to = refl
  state_in-keep q r (p ∷ ps) to = ground (arith, same p, to p, state_in-keep q r ps to)

  pub parent_in-keep :
      (q r : ℕ) (ps : List Process)
      → ((p : Process) → (f p).parent_id ≡ p.parent_id)
      → parent_in q (update_first (has_id r) f ps) ≡ parent_in q ps
  parent_in-keep q r [] to = refl
  parent_in-keep q r (p ∷ ps) to = ground (arith, same p, to p, parent_in-keep q r ps to)

  pub any-update_first :
      (q r : ℕ) (ps : List Process)
      → any (has_id q) (update_first (has_id r) f ps) ≡ any (has_id q) ps
  any-update_first q r [] = refl
  any-update_first q r (p ∷ ps) = ground (arith, same p, any-update_first q r ps)

  pub ids-update_first :
      (r : ℕ) (ps : List Process)
      → map (λ p. p.id) (update_first (has_id r) f ps) ≡ map (λ p. p.id) ps
  ids-update_first r [] = refl
  ids-update_first r (p ∷ ps) = ground (arith, same p, ids-update_first r ps)

  pub code_in-keep :
      (q r : ℕ) (ps : List Process)
      → ((p : Process) → (f p).exit_code ≡ p.exit_code)
      → code_in q (update_first (has_id r) f ps) ≡ code_in q ps
  code_in-keep q r [] to = refl
  code_in-keep q r (p ∷ ps) to = ground (arith, same p, to p, code_in-keep q r ps to)

-- A process in this state waits for `pid` to exit, or for any child.
abbrev waits_for : ℕ → ProcessState → Bool
waits_for pid (waiting (child waited)) = waited == pid || waited == u64_max
waits_for pid _ = false

-- Who waits for `pid` becomes ready.
abbrev pub woken_by : ℕ → ProcessState → ProcessState
woken_by pid state = if waits_for pid state then ready else state

wake_waiting_lem : (pid : ℕ) (state : ProcessState) → wake_waiting pid state ≡ woken_by pid state
unfolding wake_waiting
wake_waiting_lem pid running = refl
wake_waiting_lem pid ready = refl
wake_waiting_lem pid zombie = refl
wake_waiting_lem pid stopped = refl
wake_waiting_lem pid (waiting (child waited)) = refl
wake_waiting_lem pid (waiting (ipc_receive c)) = refl
wake_waiting_lem pid (waiting (ipc_send c)) = refl
wake_waiting_lem pid (waiting (sleep t)) = refl
wake_waiting_lem pid (waiting async_poll) = refl

pub wake_waiting-woken_by : (pid : ℕ) → wake_waiting pid ≡ woken_by pid
wake_waiting-woken_by pid = λ i state. wake_waiting_lem pid state i
