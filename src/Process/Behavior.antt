-- ===== src/Process/Behavior.antt =====
-- process/mod.rs: the trait `TaskBehavior`, and how processes and asynchronous tasks implement it.
use ruix.Prelude.{ℕ, ◌≡◌, ◌≤◌, ◌<◌, refl, Bool, true, if◌then◌else◌, arith}
use ruix.Error.{KernelError, KernelResult, ProcessError, kerror, ok}
use ruix.Process.{Process, ProcessState, running, ready, waiting, zombie, stopped}
use ruix.Process.Tasks.{TaskType, process, async, AsyncTask, is_ready}
use ruix.Process
use ruix.Process.Tasks

-- `Poll<()>`
pub data Poll : Type 0 where
  poll_ready pending : Poll

-- The methods; those that take `&mut self` give back the task.
pub record TaskBehavior (T : Type 0) : Type 0 where
  pub get_id : T → ℕ
  pub get_task_type : T → TaskType
  pub get_state : T → ProcessState
  pub set_state : T → ProcessState → T
  pub get_priority : T → ℕ
  pub set_priority : T → ℕ → KernelResult (Unit {0}) × T
  pub can_schedule : T → Bool
  pub poll_task : T → Poll × T
  pub wake_task : T → T

-- What a task promises: its id and its kind never change; the state is the one that was set; a
-- priority is taken exactly up to 31, and refused without an effect; a task that can be scheduled
-- is ready when it is polled; neither a poll nor a wake-up touches the priority.
pub record IsTask {T : Type 0} (ops : TaskBehavior T) : Type 0 where
  pub get_state-set_state : (t : T) (s : ProcessState) → ops.get_state (ops.set_state t s) ≡ s
  pub get_id-set_state : (t : T) (s : ProcessState) → ops.get_id (ops.set_state t s) ≡ ops.get_id t
  pub accepts :
      (t : T) (p : ℕ)
      → p ≤ 31
      → ((ops.set_priority t p).0 ≡ ok tt) × (ops.get_priority (ops.set_priority t p).1 ≡ p)
  pub refuses :
      (t : T) (p : ℕ)
      → 31 < p
      → ops.set_priority t p ≡ (kerror KernelError.process ProcessError.invalid_state, t)
  pub get_id-set_priority : (t : T) (p : ℕ) → ops.get_id (ops.set_priority t p).1 ≡ ops.get_id t
  pub polls : (t : T) → ops.can_schedule t ≡ true → (ops.poll_task t).0 ≡ poll_ready
  pub get_priority-poll_task : (t : T) → ops.get_priority (ops.poll_task t).1 ≡ ops.get_priority t
  pub get_priority-wake_task : (t : T) → ops.get_priority (ops.wake_task t) ≡ ops.get_priority t
  pub get_id-wake_task : (t : T) → ops.get_id (ops.wake_task t) ≡ ops.get_id t
  pub get_task_type-wake_task : (t : T) → ops.get_task_type (ops.wake_task t) ≡ ops.get_task_type t

-- `impl TaskBehavior for Process`
unfoldable process_behavior : TaskBehavior Process
process_behavior = record {
  get_id = λ p. p.id;
  get_task_type = λ p. process;
  get_state = λ p. p.state;
  set_state = λ p s. record p { state = s };
  get_priority = λ p. p.priority;
  set_priority = Process.set_priority;
  can_schedule = Process.can_schedule;
  poll_task = λ p. (poll_ready, p);
  wake_task = Process.wake_task;
}

unfoldable poll_task : AsyncTask → Poll × AsyncTask
poll_task t = (if is_ready t.state then poll_ready else pending, t)

-- `impl TaskBehavior for AsyncTask`
unfoldable async_behavior : TaskBehavior AsyncTask
async_behavior = record {
  get_id = λ t. t.id;
  get_task_type = λ t. async;
  get_state = λ t. t.state;
  set_state = λ t s. record t { state = s };
  get_priority = λ t. t.priority;
  set_priority = Tasks.set_priority;
  can_schedule = Tasks.can_schedule;
  poll_task = poll_task;
  wake_task = Tasks.wake_task;
}

process-IsTask : IsTask process_behavior
unfolding process_behavior Process.set_priority Process.can_schedule Process.wake_task
process-IsTask = record {
  get_state-set_state = λ t s. refl;
  get_id-set_state = λ t s. refl;
  accepts = λ t p h. ground arith;
  refuses = λ t p h. ground arith;
  get_id-set_priority = λ t p. ground arith;
  polls = λ t h. refl;
  get_priority-poll_task = λ t. refl;
  get_priority-wake_task = λ t. refl;
  get_id-wake_task = λ t. refl;
  get_task_type-wake_task = λ t. refl;
}

async-IsTask : IsTask async_behavior
unfolding async_behavior poll_task Tasks.set_priority Tasks.can_schedule Tasks.wake_task
async-IsTask = record {
  get_state-set_state = λ t s. refl;
  get_id-set_state = λ t s. refl;
  accepts = λ t p h. ground arith;
  refuses = λ t p h. ground arith;
  get_id-set_priority = λ t p. ground arith;
  polls = λ t h. ground arith;
  get_priority-poll_task = λ t. refl;
  get_priority-wake_task = λ t. refl;
  get_id-wake_task = λ t. refl;
  get_task_type-wake_task = λ t. refl;
}

-- A process and an asynchronous task both keep the promises of a task.
behaviors-IsTask : IsTask process_behavior × IsTask async_behavior
behaviors-IsTask = (process-IsTask, async-IsTask)
