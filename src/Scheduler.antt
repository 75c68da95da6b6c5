-- ===== src/Scheduler.antt =====
-- process/scheduler.rs: the scheduler's queues, the process tree, exits, reaping, clean-up and the
-- choice of the next process. `CPU_DATA.current_process_id` and the register CR3 are the fields of
-- `Cpu`. `none` is a panic by arithmetic overflow.
pub mod Tree
pub mod Exit
pub mod Orphans
pub mod Reaping
pub mod ExitCode
pub mod Cleanup
pub mod Totals
pub mod Dispatch
pub mod Starvation
pub mod Running
use mathlib.Core.Option
use ruix.Prelude.{
  ℕ, ◌+◌, ◌*◌, Bool, true, false, ◌&&◌, ◌||◌, not, Option, none, some, List, [], ◌∷◌, ◌++◌, map,
  ltb, leb, ◌==◌, if◌then◌else◌, find?, update_first, remove_first, retain, any, contains, length,
  checked_add, u64_max, ℤ, pos,
}
use ruix.Error.{Result, KernelResult, ok, err, kerror, process, ProcessError, is_ok}
use ruix.Process.{
  Process, ProcessState, WaitReason, running, ready, waiting, zombie, child, is_zombie,
  is_schedulable, exit, add_child, remove_child, make_orphan, default_priority,
}
use ruix.Process.Tasks.{AsyncTask, TaskType, async}
use ruix.Process.Tasks
use Tree.{ProcessTree, insert, remove, get, children_of}

pub record Scheduler : Type 0 where
  pub processes : List Process
  pub async_tasks : List AsyncTask
  pub process_tree : ProcessTree
  pub orphans : List ℕ
  pub current_priority : ℕ
  pub task_queue : List ℕ

pub record Cpu : Type 0 where
  pub current_process_id : ℕ
  pub cr3 : ℕ

-- The scheduler behind `SCHEDULER` at boot.
abbrev pub empty : Scheduler
empty = record {
  processes = [];
  async_tasks = [];
  process_tree = [];
  orphans = [];
  current_priority = default_priority;
  task_queue = [];
}

abbrev pub has_id : ℕ → Process → Bool
has_id pid p = p.id == pid

unfoldable pub add_process : Scheduler → Process → Scheduler
add_process s p = record s {
  process_tree = insert p.id p.parent_id s.process_tree;
  orphans = if p.parent_id == 0 && not (p.id == 0) then s.orphans ++ p.id ∷ [] else s.orphans;
  processes = s.processes ++ p ∷ [];
}

unfoldable add_async_task : Scheduler → AsyncTask → Scheduler
add_async_task s t = record s {
  task_queue = s.task_queue ++ t.id ∷ [];
  async_tasks = s.async_tasks ++ t ∷ [];
}

unfoldable pub get_next_process_by_priority : Scheduler → Option ℕ
get_next_process_by_priority s =
    Option.map (λ p. p.id) (find? (λ p. is_schedulable p.state) s.processes)

unfoldable get_next_async_task : Scheduler → Option ℕ
unfolding Tasks.can_schedule
get_next_async_task s = Option.map (λ t. t.id) (find? Tasks.can_schedule s.async_tasks)

unfoldable get_next_task : Scheduler → Option (ℕ × TaskType)
unfolding get_next_process_by_priority get_next_async_task
get_next_task s = elim (get_next_process_by_priority s) [
  | some pid ↦ some (pid, TaskType.process)
  | none ↦ Option.map (λ id. (id, async)) (get_next_async_task s)
]

-- A loop over the processes that calls a fallible method on the first one with the id, and breaks.
unfoldable pub try_first :
    {A : Type 0}
    → (Process → KernelResult A × Process)
    → A
    → ℕ
    → List Process
    → KernelResult A × List Process
try_first method missing pid [] = (ok missing, [])
try_first method missing pid (p ∷ ps) =
    let (result, rest) = try_first method missing pid ps in
    let (done, q) = method p in if has_id pid p then (done, q ∷ ps) else (result, p ∷ rest)

-- On failure the tree keeps the new entry, and the orphans are left alone.
unfoldable pub register_child : Scheduler → ℕ → ℕ → KernelResult (Unit {0}) × Scheduler
unfolding try_first
register_child s parent_pid child_pid =
    let tree = insert child_pid parent_pid s.process_tree in
    let (result, ps) = try_first (λ p. add_child p child_pid) tt parent_pid s.processes in
    elim result [
      | err e ↦ (err e, record s { process_tree = tree; processes = ps })
      | ok _ ↦ (
        ok tt,
        record s {
          process_tree = tree;
          processes = ps;
          orphans = remove_first (λ pid. pid == child_pid) s.orphans;
        },
      )
    ]

-- The first loop of `handle_process_exit`: it ends the process, and gives its parent.
unfoldable pub exit_and_parent : ℤ → Process → KernelResult ℕ × Process
exit_and_parent code p =
    let (result, q) = exit p code in (elim result [ ok _ ↦ ok q.parent_id | err e ↦ err e ], q)

-- One round of the loop that makes the children orphans.
unfoldable pub orphan_child : Scheduler → ℕ → Scheduler
orphan_child s child_pid = record s {
  process_tree = insert child_pid 0 s.process_tree;
  processes = update_first (has_id child_pid) make_orphan s.processes;
  orphans = if any (has_id child_pid) s.processes then s.orphans ++ child_pid ∷ [] else s.orphans;
}

unfoldable pub orphan_children : Scheduler → List ℕ → Scheduler
orphan_children s [] = s
orphan_children s (c ∷ cs) = orphan_children (orphan_child s c) cs

-- Who waits for `pid`, or for any child, becomes ready.
unfoldable pub wake_waiting : ℕ → ProcessState → ProcessState
wake_waiting pid (waiting (child waited)) =
    if waited == pid || waited == u64_max then ready else waiting (child waited)
wake_waiting pid state = state

-- The parts of `handle_process_exit` behind the first loop.
unfoldable pub detach : Scheduler → ℕ → ℕ → Scheduler
detach s parent_pid pid = if parent_pid == 0 then s else record s {
  processes = update_first (has_id parent_pid) (λ p. (remove_child p pid).1) s.processes;
}

unfoldable pub wake_parent : Scheduler → ℕ → ℕ → Scheduler
wake_parent s parent_pid pid = if parent_pid == 0 then s else record s {
  processes =
      update_first (has_id parent_pid) (λ p. record p { state = wake_waiting pid p.state })
        s.processes;
}

unfoldable pub after_exit : Scheduler → ℕ → ℕ → Scheduler
unfolding detach wake_parent
after_exit s parent_pid pid =
    let detached = detach s parent_pid pid in
    let orphaned = orphan_children detached (children_of pid detached.process_tree) in
    wake_parent orphaned parent_pid pid

unfoldable pub handle_process_exit : Scheduler → ℕ → ℤ → KernelResult (Unit {0}) × Scheduler
unfolding try_first exit_and_parent after_exit detach wake_parent
handle_process_exit s pid code =
    let (result, ps) = try_first (exit_and_parent code) 0 pid s.processes in
    let ended = record s { processes = ps } in
    elim result [
      | err e ↦ (err e, ended)
      | ok parent_pid ↦ (ok tt, after_exit ended parent_pid pid)
    ]

unfoldable pub find_zombie_children : Scheduler → ℕ → List ℕ
find_zombie_children s parent_pid =
    map (λ p. p.id) (retain (λ p. p.parent_id == parent_pid && is_zombie p.state) s.processes)

abbrev pub is_zombie_child : ℕ → ℕ → Process → Bool
is_zombie_child parent_pid child_pid p =
    p.id == child_pid && p.parent_id == parent_pid && is_zombie p.state

-- The exit code of the last process that `retain` drops, and the processes that it keeps.
unfoldable pub take_zombies : ℕ → ℕ → Option ℤ → List Process → Option ℤ × List Process
take_zombies parent_pid child_pid found [] = (found, [])
take_zombies parent_pid child_pid found (p ∷ ps) =
    let hit = is_zombie_child parent_pid child_pid p in
    let (code, kept) =
      take_zombies parent_pid child_pid (if hit then some p.exit_code else found) ps in
    (code, if hit then kept else p ∷ kept)

unfoldable pub reap_zombie_child : Scheduler → ℕ → ℕ → KernelResult ℤ × Scheduler
unfolding take_zombies
reap_zombie_child s parent_pid child_pid =
    let (found, kept) = take_zombies parent_pid child_pid none s.processes in
    elim found [
      | none ↦ (kerror process ProcessError.not_found, record s { processes = kept })
      | some code ↦ (
        ok code,
        record s {
          processes = update_first (has_id parent_pid) (λ p. (remove_child p child_pid).1) kept;
          process_tree = remove child_pid s.process_tree;
        },
      )
    ]

unfoldable pub is_orphan : Scheduler → ℕ → Bool
is_orphan s pid = contains pid s.orphans

unfoldable get_process_hierarchy : Scheduler → ℕ → Option (ℕ × List ℕ)
get_process_hierarchy s pid =
    Option.map (λ parent. (parent, children_of pid s.process_tree)) (get pid s.process_tree)

-- The process is gone from the queue, the tree and the orphans.
forget : Scheduler → ℕ → Scheduler
forget s pid = record s {
  processes = retain (λ p. not (has_id pid p)) s.processes;
  process_tree = remove pid s.process_tree;
  orphans = remove_first (λ o. o == pid) s.orphans;
}

unfoldable pub cleanup_terminated_process : Scheduler → ℕ → KernelResult (Unit {0}) × Scheduler
unfolding forget
cleanup_terminated_process s pid = elim (find? (has_id pid) s.processes) [
  | none ↦ (kerror process ProcessError.not_found, s)
  | some p ↦
      if is_zombie p.state
      then (ok tt, forget s pid)
      else (kerror process ProcessError.invalid_state, s)
]

-- The second loop of `cleanup_all_zombies`, with the count so far.
cleanup_each : Scheduler → ℕ → List ℕ → ℕ × Scheduler
cleanup_each s count [] = (count, s)
cleanup_each s count (pid ∷ pids) =
    let (result, s') = cleanup_terminated_process s pid in
    cleanup_each s' (if is_ok result then count + 1 else count) pids

unfoldable pub cleanup_all_zombies : Scheduler → KernelResult ℕ × Scheduler
unfolding cleanup_each
cleanup_all_zombies s =
    let zombies = map (λ p. p.id) (retain (λ p. is_zombie p.state) s.processes) in
    let (count, s') = cleanup_each s 0 zombies in (ok count, s')

-- The loop of `get_memory_stats`. The count would overflow only with 2 ^ 32 processes.
add_stats : ℕ → ℕ → List Process → Option (ℕ × ℕ)
add_stats memory count [] = some (memory, count)
add_stats memory count (p ∷ ps) = elim (is_zombie p.state) [
  | true ↦ add_stats memory count ps
  | false ↦ elim (checked_add memory p.stats.memory_used) [
    | none ↦ none
    | some total ↦ add_stats total (count + 1) ps
  ]
]

unfoldable pub get_memory_stats : Scheduler → Option (ℕ × ℕ)
unfolding add_stats
get_memory_stats s = add_stats 0 0 s.processes

unfoldable pub check_system_limits : Scheduler → Option Bool
unfolding get_memory_stats
check_system_limits s =
    Option.map (λ (memory, count). not (ltb 1000 count) && not (ltb (1024 * 1024 * 1024) memory))
      (get_memory_stats s)

-- `position` by the id, and `remove` at that position.
unfoldable pub pull : ℕ → List Process → Option (Process × List Process)
pull pid [] = none
pull pid (p ∷ ps) =
    let later = Option.map (λ (q, qs). (q, p ∷ qs)) (pull pid ps) in
    if has_id pid p then some (p, ps) else later

abbrev suspended : ProcessState → ProcessState
suspended running = ready
suspended state = state

-- `front_mut` gets the saved context, and is no longer running.
abbrev pub suspend_front : ℕ → List Process → List Process
suspend_front context [] = []
suspend_front context (p ∷ ps) = record p { context_ptr = context; state = suspended p.state } ∷ ps

-- The front process goes to the back with the saved context.
abbrev pub rotate : ℕ → List Process → List Process
rotate context [] = []
rotate context (p ∷ ps) = ps ++ record p { context_ptr = context } ∷ []

-- The processor runs the front process, or idles.
unfoldable pub switch_to_front : Cpu → ℕ → List Process → Cpu × ℕ
switch_to_front cpu context [] = (record cpu { current_process_id = 0 }, context)
switch_to_front cpu context (p ∷ ps) =
    (record { current_process_id = p.id; cr3 = p.page_table_frame }, p.context_ptr)

round_robin : Scheduler → Cpu → ℕ → Scheduler × Cpu × ℕ
unfolding switch_to_front
round_robin s cpu context =
    let ps = rotate context s.processes in
    let (cpu', next) = switch_to_front cpu context ps in (record s { processes = ps }, cpu', next)

-- The next process runs from the front of the queue.
run_next : Scheduler → Process → List Process → ℕ → Scheduler × Cpu × ℕ
run_next s next others context = (
  record s {
    processes = record next { state = running } ∷ suspend_front context others;
    current_priority = next.priority;
  },
  record { current_process_id = next.id; cr3 = next.page_table_frame },
  next.context_ptr,
)

-- The process found at the position of the id, if there is one, runs next.
dispatch : Scheduler → Cpu → ℕ → Option (Process × List Process) → Scheduler × Cpu × ℕ
unfolding round_robin run_next
dispatch s cpu context none = round_robin s cpu context
dispatch s cpu context (some (next, others)) = run_next s next others context

-- The scheduler and the processor after the call, and the context to restore.
unfoldable pub schedule : Scheduler → Cpu → ℕ → Scheduler × Cpu × ℕ
unfolding get_next_process_by_priority pull dispatch
schedule s cpu context = elim (get_next_process_by_priority s) [
  | none ↦ round_robin s cpu context
  | some pid ↦ dispatch s cpu context (pull pid s.processes)
]
