-- ===== src/Process/Tasks.antt =====
-- process/mod.rs: an asynchronous task, and the `TaskBehavior` that it shares with a process.
-- The future that a task runs is not modelled: `poll_task` does not poll it.
use ruix.Prelude.{
  ℕ, Bool, true, false, ltb, if◌then◌else◌, ◌≡◌, refl, ◌≢◌, ◌↔◌, arith, wrapping_add,
}
use ruix.Error.{KernelError, KernelResult, kerror, ok, ProcessError}
use ruix.Process.{
  Process, ProcessState, running, ready, waiting, zombie, stopped, default_priority, is_schedulable,
  woken,
}
use ruix.Process

pub data TaskType : Type 0 where
  process async : TaskType

pub record AsyncTask : Type 0 where
  pub id : ℕ
  pub state : ProcessState
  pub priority : ℕ

abbrev pub is_ready : ProcessState → Bool
is_ready ready = true
is_ready _ = false

-- `AsyncTask::new`, with the counter of `TaskId::new` and its value after the call.
unfoldable pub new : ℕ → AsyncTask × ℕ
new next_id =
    (record { id = next_id; state = ready; priority = default_priority }, wrapping_add next_id 1)

unfoldable pub can_schedule : AsyncTask → Bool
can_schedule t = is_ready t.state

unfoldable pub set_priority : AsyncTask → ℕ → KernelResult (Unit {0}) × AsyncTask
set_priority t priority =
    if ltb 31 priority
    then (kerror KernelError.process ProcessError.invalid_state, t)
    else (ok tt, record t { priority = priority })

unfoldable pub wake_task : AsyncTask → AsyncTask
wake_task t = record t { state = ready }

woken_schedulable :
    (state : ProcessState)
    → (is_schedulable (woken state) ≡ true) ↔ ((state ≢ zombie) × (state ≢ stopped))
woken_schedulable running = ground arith
woken_schedulable ready = ground arith
woken_schedulable (waiting reason) = ground arith
woken_schedulable zombie = ground arith
woken_schedulable stopped = ground arith

-- Waking an asynchronous task makes it schedulable whatever its state. Waking a process does so
-- exactly if it was not a zombie and not stopped.
wake_task_lem :
    (t : AsyncTask) (p : Process)
    → (can_schedule (wake_task t) ≡ true)
      × ((Process.can_schedule (Process.wake_task p) ≡ true)
          ↔ ((p.state ≢ zombie) × (p.state ≢ stopped)))
unfolding can_schedule wake_task Process.can_schedule Process.wake_task
wake_task_lem t p = (refl, woken_schedulable p.state)
