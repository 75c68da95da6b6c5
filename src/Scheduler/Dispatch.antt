-- ===== src/Scheduler/Dispatch.antt =====
-- process/scheduler.rs: which process `schedule` runs next, and what it does to the others.
use mathlib.Core.Option
use mathlib.Core.List.{Perm, perm_append_singleton, map-append}
use mathlib.Core.List.Perm
use ruix.Prelude.{
  ℕ, ◌≡◌, ◌≢◌, refl, ap, true, false, Option, none, some, List, [], ◌∷◌, arith, ==_refl, find?,
  Option-cases, inl, inr, Bool-cases, subst, Distinct, contains, ==_ne, remove_first,
}
use ruix.Process.{Process, running, is_schedulable}
use ruix.Scheduler.Exit.Lookup.{ids}
use ruix.Scheduler.{
  Scheduler, Cpu, has_id, pull, suspend_front, rotate, round_robin, schedule, switch_to_front,
  dispatch, get_next_process_by_priority,
}

-- The ids in the queue are those of the process pulled out and of the others.
abbrev PullsFrom : List ℕ → Option (Process × List Process) → Type 0
PullsFrom names none = Unit
PullsFrom names (some (p, rest)) = Perm (p.id ∷ ids rest) names

PullsFrom-cons :
    (q : Process) (names : List ℕ) (o : Option (Process × List Process))
    → PullsFrom names o
    → PullsFrom (q.id ∷ names) (Option.map (λ (p, rest). (p, q ∷ rest)) o)
PullsFrom-cons q names none h = tt
PullsFrom-cons q names (some (p, rest)) h =
    Perm.trans (Perm.swap q.id p.id (ids rest)) (Perm.cons q.id h)

pull-PullsFrom : (pid : ℕ) (ps : List Process) → PullsFrom (ids ps) (pull pid ps)
unfolding pull
pull-PullsFrom pid [] = tt
pull-PullsFrom pid (q ∷ qs) = elim (Bool-cases (has_id pid q)) [
  | inl e ↦ rw e (Perm.refl _)
  | inr e ↦ rw e (PullsFrom-cons q (ids qs) (pull pid qs) (pull-PullsFrom pid qs))
]

suspend_front-ids : (context : ℕ) (ps : List Process) → ids (suspend_front context ps) ≡ ids ps
suspend_front-ids context [] = refl
suspend_front-ids context (p ∷ ps) = refl

rotate-ids : (context : ℕ) (ps : List Process) → Perm (ids (rotate context ps)) (ids ps)
rotate-ids context [] = Perm.refl []
rotate-ids context (p ∷ ps) =
    rw map-append (Perm.trans (perm_append_singleton p.id (ids ps)) (Perm.refl _))

dispatch-perm :
    (s : Scheduler) (cpu : Cpu) (context : ℕ) (o : Option (Process × List Process))
    → PullsFrom (ids s.processes) o
    → Perm (ids (dispatch s cpu context o).0.processes) (ids s.processes)
unfolding dispatch
dispatch-perm s cpu context none h = rotate-ids context s.processes
dispatch-perm s cpu context (some (p, rest)) h = rw (suspend_front-ids context rest) h

-- `schedule` keeps every process: the ids in the queue are the same, as often, in another order.
schedule-perm :
    (s : Scheduler) (cpu : Cpu) (context : ℕ)
    → Perm (ids (schedule s cpu context).0.processes) (ids s.processes)
unfolding schedule round_robin
schedule-perm s cpu context = elim (Option-cases (get_next_process_by_priority s)) [
  | inl e ↦ rw (e, schedule) (rotate-ids context s.processes)
  | inr (pid, e) ↦
      rw (e, schedule)
        (dispatch-perm s cpu context (pull pid s.processes) (pull-PullsFrom pid s.processes))
]

find?-contains :
    (ps : List Process) (p : Process)
    → find? (λ q. is_schedulable q.state) ps ≡ some p
    → contains p.id (ids ps) ≡ true
find?-contains [] p e = cc
find?-contains (q ∷ qs) p e = ground (arith, find?-contains qs p, ==_refl p.id)

pull-first :
    (ps : List Process) (p : Process)
    → find? (λ q. is_schedulable q.state) ps ≡ some p
    → Distinct (ids ps)
    → pull p.id ps ≡ some (p, remove_first (has_id p.id) ps)
unfolding pull
pull-first [] p e d = cc
pull-first (q ∷ qs) p e d = elim (Bool-cases (is_schedulable q.state)) [
  | inl here ↦
      let same : q ≡ p = ground arith in
      rw (ap (λ (r : Process). r.id) same, ==_refl p.id) (ground arith)
  | inr later ↦
      let found : find? (λ r. is_schedulable r.state) qs ≡ some p = ground arith in
      let other : q.id ≢ p.id =
        λ h. cc (subst (λ i. contains i (ids qs) ≡ false) h d.0, find?-contains qs p found) in
      ground (arith, pull-first qs p found d.1, ==_ne q.id p.id other)
]

-- While no two processes share an id, the first process in the queue that is ready or running is
-- run: it moves to the front as running, the processor gets its id and its page table, and its
-- saved context is the one to restore. The process that is then second gets the context that was
-- passed in, and is no longer running.
pub schedule_first :
    (s : Scheduler) (cpu : Cpu) (context : ℕ) (p : Process)
    → find? (λ q. is_schedulable q.state) s.processes ≡ some p
    → Distinct (ids s.processes)
    → schedule s cpu context ≡ (
      record s {
        processes =
            record p { state = running }
            ∷ suspend_front context (remove_first (has_id p.id) s.processes);
        current_priority = p.priority;
      },
      record { current_process_id = p.id; cr3 = p.page_table_frame },
      p.context_ptr,
    )
unfolding schedule
schedule_first s cpu context p e d = rw (e, schedule) (rw (pull-first s.processes p e d) refl)

-- Without a process that is ready or running, the queue is rotated, and whoever comes to the front
-- is run although it is neither; with an empty queue the processor idles.
schedule_rotates :
    (s : Scheduler) (cpu : Cpu) (context : ℕ)
    → find? (λ q. is_schedulable q.state) s.processes ≡ none
    → let ps = rotate context s.processes in
      schedule s cpu context ≡ (
        let (cpu', next) = switch_to_front cpu context ps in
        (record s { processes = ps }, cpu', next))
unfolding schedule round_robin
schedule_rotates s cpu context e = rw (e, schedule)
