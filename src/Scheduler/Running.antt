-- ===== src/Scheduler/Running.antt =====
-- process/scheduler.rs: at most one process is running, and it stands in front.
use mathlib.Core.Option
use ruix.Prelude.{
  ℕ, ◌≡◌, refl, Bool, true, false, Option, none, some, List, [], ◌∷◌, All, All-append, Option-cases,
  Bool-cases, inl, inr,
}
use ruix.Process.{Process, ProcessState, running}
use ruix.Scheduler.Starvation.{schedule_front}
use ruix.Scheduler.{
  Scheduler, Cpu, has_id, pull, suspend_front, suspended, rotate, round_robin, schedule, dispatch,
  get_next_process_by_priority,
}

abbrev is_running : ProcessState → Bool
is_running running = true
is_running _ = false

abbrev Idle : Process → Type 0
Idle p = is_running p.state ≡ false

-- Behind the front of the queue no process is running.
abbrev OnlyFrontRuns : List Process → Type 0
OnlyFrontRuns [] = Unit
OnlyFrontRuns (p ∷ ps) = All Idle ps

suspend_front-Idle :
    (context : ℕ) (ps : List Process) → All Idle ps → All Idle (suspend_front context ps)
suspend_front-Idle context [] h = tt
suspend_front-Idle context (p ∷ ps) h = (suspended-idle p.state, h.1)
  where
    suspended-idle : (state : ProcessState) → is_running (suspended state) ≡ false
    suspended-idle running = refl
    suspended-idle _ = refl

rotate-OnlyFrontRuns :
    (context : ℕ) (ps : List Process) → All Idle ps → OnlyFrontRuns (rotate context ps)
rotate-OnlyFrontRuns context [] h = tt
rotate-OnlyFrontRuns context (p ∷ []) h = tt
rotate-OnlyFrontRuns context (p ∷ q ∷ ps) h =
    All-append Idle ps (record p { context_ptr = context } ∷ []) h.1.1 (h.0, tt)

-- Pulling a process out of idle ones leaves idle ones.
abbrev LeavesIdle : Option (Process × List Process) → Type 0
LeavesIdle none = Unit
LeavesIdle (some (p, rest)) = All Idle rest

LeavesIdle-cons :
    (q : Process) (o : Option (Process × List Process))
    → Idle q
    → LeavesIdle o
    → LeavesIdle (Option.map (λ (p, rest). (p, q ∷ rest)) o)
LeavesIdle-cons q none i h = tt
LeavesIdle-cons q (some (p, rest)) i h = (i, h)

pull-LeavesIdle : (pid : ℕ) (ps : List Process) → All Idle ps → LeavesIdle (pull pid ps)
unfolding pull
pull-LeavesIdle pid [] h = tt
pull-LeavesIdle pid (q ∷ qs) h = elim (Bool-cases (has_id pid q)) [
  | inl e ↦ rw e h.1
  | inr e ↦ rw e (LeavesIdle-cons q (pull pid qs) h.0 (pull-LeavesIdle pid qs h.1))
]

dispatch-OnlyFrontRuns :
    (s : Scheduler) (cpu : Cpu) (context : ℕ) (o : Option (Process × List Process))
    → All Idle s.processes
    → LeavesIdle o
    → OnlyFrontRuns (dispatch s cpu context o).0.processes
unfolding dispatch
dispatch-OnlyFrontRuns s cpu context none h k = rotate-OnlyFrontRuns context s.processes h
dispatch-OnlyFrontRuns s cpu context (some (p, rest)) h k = suspend_front-Idle context rest k

from_Idle :
    (s : Scheduler) (cpu : Cpu) (context : ℕ)
    → All Idle s.processes
    → OnlyFrontRuns (schedule s cpu context).0.processes
unfolding schedule round_robin
from_Idle s cpu context h = elim (Option-cases (get_next_process_by_priority s)) [
  | inl e ↦ rw (e, schedule) (rotate-OnlyFrontRuns context s.processes h)
  | inr (pid, e) ↦
      rw (e, schedule)
        (dispatch-OnlyFrontRuns s cpu context (pull pid s.processes) h
          (pull-LeavesIdle pid s.processes h))
]

from_running :
    (s : Scheduler) (cpu : Cpu) (context : ℕ) (p : Process) (ps : List Process)
    → s.processes ≡ p ∷ ps
    → p.state ≡ running
    → All Idle ps
    → OnlyFrontRuns (schedule s cpu context).0.processes
from_running s cpu context p ps e now h =
    rw ((schedule_front s cpu context p ps e (rw now)).0) (suspend_front-Idle context ps h)

-- `schedule` keeps it so that no process but the one in front is running.
schedule-OnlyFrontRuns :
    (s : Scheduler) (cpu : Cpu) (context : ℕ)
    → OnlyFrontRuns s.processes
    → OnlyFrontRuns (schedule s cpu context).0.processes
schedule-OnlyFrontRuns s cpu context h = by_front s.processes refl h
  where
    by_front :
        (ps : List Process)
        → s.processes ≡ ps
        → OnlyFrontRuns ps
        → OnlyFrontRuns (schedule s cpu context).0.processes
    by_front [] e k = from_Idle s cpu context (rw e tt)
    by_front (p ∷ ps) e k = by_state p.state refl
      where
        by_state :
            (state : ProcessState)
            → p.state ≡ state
            → OnlyFrontRuns (schedule s cpu context).0.processes
        by_state running now = from_running s cpu context p ps e now k
        by_state other now = from_Idle s cpu context (rw e (rw now refl, k))
