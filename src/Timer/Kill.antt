-- ===== src/Timer/Kill.antt =====
-- timer.rs: what the end of a process by its time limit does to the processes of the scheduler.
use mathlib.Core.Option
use ruix.Prelude.{
  ap, ◌∙◌, ℕ, ◌≡◌, refl, List, [], ◌∷◌, arith, ◌==◌, if◌then◌else◌, map, find?, update_first,
  negsuc, Option-cases, inl, inr,
}
use ruix.Process.{Process, ProcessState, zombie}
use ruix.Scheduler.Exit.Lookup.{woken_by, wake_waiting-woken_by}
use ruix.Scheduler.{Scheduler, wake_waiting}
use ruix.Scheduler
use ruix.Timer.{kill_process, end_by_timeout, wake_waiter}

find?-wake :
    (pid q : ℕ) (ps : List Process)
    → find? (Scheduler.has_id q) (map (wake_waiter pid) ps)
      ≡ Option.map (wake_waiter pid) (find? (Scheduler.has_id q) ps)
find?-wake pid q [] = refl
find?-wake pid q (p ∷ ps) = ground (arith, find?-wake pid q ps)

find?-end :
    (pid q : ℕ) (ps : List Process)
    → find? (Scheduler.has_id q) (update_first (Scheduler.has_id pid) end_by_timeout ps) ≡ (
        if pid == q
        then Option.map end_by_timeout (find? (Scheduler.has_id q) ps)
        else find? (Scheduler.has_id q) ps)
find?-end pid q [] = ground arith
find?-end pid q (p ∷ ps) = ground (arith, find?-end pid q ps)

killed_with : (ProcessState → ProcessState) → ℕ → ℕ → Process → Process
killed_with wake pid q p =
    if pid == q
    then record p { state = zombie; exit_code = negsuc 0 }
    else record p { state = wake p.state }

-- What becomes of the process found for `q` when the timer kills `pid`.
abbrev pub after_kill : ℕ → ℕ → Process → Process
after_kill pid q p =
    if pid == q
    then record p { state = zombie; exit_code = negsuc 0 }
    else record p { state = woken_by pid p.state }

kill_process-with :
    (s : Scheduler) (pid q : ℕ)
    → find? (Scheduler.has_id q) (kill_process s pid).processes
      ≡ Option.map (killed_with (wake_waiting pid) pid q) (find? (Scheduler.has_id q) s.processes)
unfolding kill_process wake_waiting killed_with
kill_process-with s pid q =
    rw
      (
        find?-wake pid q (update_first (Scheduler.has_id pid) end_by_timeout s.processes),
        find?-end pid q s.processes,
      )
      (elim (Option-cases (find? (Scheduler.has_id q) s.processes)) [
        | inl e ↦ ground arith
        | inr (p, e) ↦ ground arith
      ])

-- A process killed by the timer is a zombie with exit code -1. Each other process that waited for it
-- to exit, or for any child, is ready and keeps the rest, and every other process is as before.
pub kill_process_lem :
    (s : Scheduler) (pid q : ℕ)
    → find? (Scheduler.has_id q) (kill_process s pid).processes
      ≡ Option.map (after_kill pid q) (find? (Scheduler.has_id q) s.processes)
unfolding killed_with
kill_process_lem s pid q =
    kill_process-with s pid q
    ∙ ap (λ wake. Option.map (killed_with wake pid q) (find? (Scheduler.has_id q) s.processes))
        (wake_waiting-woken_by pid)
