-- ===== src/Process.antt =====
-- process/mod.rs: a process, its state, its limits and statistics, and the methods on it.
-- A method on `&mut self` returns its result and the process after it; `none` is a panic by
-- arithmetic overflow. The counters behind `allocate_pgid` and `allocate_sid` are arguments, and
-- come back in the result. A page table frame is the number that identifies it.
pub mod Family
pub mod Validity
pub mod Tasks
pub mod Context
pub mod Creation
pub mod Keyboard
pub mod Behavior
pub mod Waker
pub mod Apart
pub mod Forking
use mathlib.Core.Option
use ruix.Prelude.{
  ℕ, ◌+◌, ◌-◌, ◌*◌, Bool, true, false, ◌&&◌, ◌||◌, not, Option, none, some, List, [], ◌∷◌, ◌++◌,
  ltb, leb, ◌==◌, if◌then◌else◌, any, remove_first, contains, checked_add, u64_max, ℤ, pos, negsuc,
  ltb_ℤ,
}
use ruix.Error.{KernelResult, kerror, ok, process, ProcessError}

pub data WaitReason : Type 0 where
  child ipc_receive ipc_send sleep : ℕ → WaitReason
  async_poll : WaitReason

pub data ProcessState : Type 0 where
  running ready : ProcessState
  waiting : WaitReason → ProcessState
  zombie stopped : ProcessState

pub record ResourceLimits : Type 0 where
  pub max_memory : ℕ
  pub max_cpu_time : ℕ
  pub max_processes : ℕ
  pub max_files : ℕ

pub record ProcessStats : Type 0 where
  pub cpu_time_used : ℕ
  pub memory_used : ℕ
  pub children_count : ℕ
  pub files_opened : ℕ

pub record Process : Type 0 where
  pub id : ℕ
  pub context_ptr : ℕ
  pub page_table_frame : ℕ
  pub state : ProcessState
  pub parent_id : ℕ
  pub children : List ℕ
  pub exit_code : ℤ
  pub priority : ℕ
  pub resource_limits : ResourceLimits
  pub stats : ProcessStats
  pub process_group_id : ℕ
  pub session_id : ℕ
  pub creation_time : ℕ

abbrev pub default_priority : ℕ
default_priority = 10

abbrev pub default_limits : ResourceLimits
default_limits = record {
  max_memory = 64 * 1024 * 1024;
  max_cpu_time = 30 * 1000;
  max_processes = 32;
  max_files = 16;
}

abbrev pub default_stats : ProcessStats
default_stats = record { cpu_time_used = 0; memory_used = 0; children_count = 0; files_opened = 0 }

-- The number that a counter gives, and the counter after it.
unfoldable pub allocate_pid : ℕ → Option (ℕ × ℕ)
allocate_pid next = Option.map (λ after. (next, after)) (checked_add next 1)

unfoldable allocate_pgid : ℕ → Option (ℕ × ℕ)
allocate_pgid next = Option.map (λ after. (next, after)) (checked_add next 1)

unfoldable allocate_sid : ℕ → Option (ℕ × ℕ)
allocate_sid next = Option.map (λ after. (next, after)) (checked_add next 1)

-- The time read, which is also the counter after the read.
unfoldable pub get_current_time : ℕ → Option ℕ
get_current_time counter = checked_add counter 1

abbrev pub is_zombie : ProcessState → Bool
is_zombie zombie = true
is_zombie _ = false

abbrev pub is_schedulable : ProcessState → Bool
is_schedulable running = true
is_schedulable ready = true
is_schedulable _ = false

-- What a method leaves behind: its result and the process.
abbrev pub Outcome {ℓ} : Type ℓ → Type ℓ
Outcome A = KernelResult A × Process

unfoldable pub exit : Process → ℤ → Outcome (Unit {0})
exit p code =
    if ltb_ℤ code (negsuc 254) || ltb_ℤ (pos 255) code
    then (kerror process ProcessError.invalid_state, p)
    else (ok tt, record p { state = zombie; exit_code = code })

unfoldable wait : Process → ℕ → KernelResult ℤ
wait p child_pid = elim p.children [
  | [] ↦ kerror process ProcessError.not_found
  | id ∷ ids ↦
      if any (λ c. child_pid == u64_max || c == child_pid) (id ∷ ids)
      then ok (pos 0)
      else kerror process ProcessError.not_found
]

unfoldable pub join : Process → ℕ → Outcome ℤ
join p target =
    if is_zombie p.state && p.id == target
    then (ok p.exit_code, p)
    else (ok p.exit_code, record p { state = waiting (child target) })

abbrev terminable : ProcessState → Bool
terminable running = true
terminable ready = true
terminable (waiting _) = true
terminable _ = false

unfoldable can_terminate : Process → Bool
can_terminate p = terminable p.state

unfoldable pub set_priority : Process → ℕ → Outcome (Unit {0})
set_priority p priority =
    if ltb 31 priority
    then (kerror process ProcessError.invalid_state, p)
    else (ok tt, record p { priority = priority })

unfoldable pub set_resource_limits : Process → ResourceLimits → Outcome (Unit {0})
set_resource_limits p limits =
    if limits.max_memory == 0 || limits.max_cpu_time == 0
    then (kerror process ProcessError.invalid_state, p)
    else (ok tt, record p { resource_limits = limits })

unfoldable pub check_resource_limits : Process → Bool
check_resource_limits p =
    leb p.stats.memory_used p.resource_limits.max_memory
    && leb p.stats.cpu_time_used p.resource_limits.max_cpu_time
    && leb p.stats.children_count p.resource_limits.max_processes
    && leb p.stats.files_opened p.resource_limits.max_files

-- The count is below `max_processes`, a u32, so the sum does not overflow.
unfoldable pub add_child : Process → ℕ → Outcome (Unit {0})
add_child p child_pid =
    if leb p.resource_limits.max_processes p.stats.children_count
    then (kerror process ProcessError.invalid_state, p)
    else (
      ok tt,
      record p {
        children = p.children ++ child_pid ∷ [];
        stats = record (p.stats) { children_count = p.stats.children_count + 1 };
      },
    )

unfoldable pub remove_child : Process → ℕ → Bool × Process
remove_child p child_pid =
    if contains child_pid p.children
    then (
      true,
      record p {
        children = remove_first (λ c. c == child_pid) p.children;
        stats = record (p.stats) { children_count = p.stats.children_count - 1 };
      },
    )
    else (false, p)

unfoldable pub make_orphan : Process → Process
make_orphan p = record p { parent_id = 0 }

unfoldable pub is_orphan : Process → Bool
is_orphan p = p.parent_id == 0 && not (p.id == 0)

-- The age, and the time counter after the read.
unfoldable get_age : Process → ℕ → Option (ℕ × ℕ)
get_age p counter = Option.map (λ now. (now - p.creation_time, now)) (get_current_time counter)

unfoldable pub update_cpu_usage : Process → ℕ → Option Process
update_cpu_usage p cpu_time =
    Option.map (λ used. record p { stats = record (p.stats) { cpu_time_used = used } })
      (checked_add p.stats.cpu_time_used cpu_time)

unfoldable pub update_memory_usage : Process → ℕ → Process
update_memory_usage p memory_used = record p {
  stats = record (p.stats) { memory_used = memory_used };
}

unfoldable pub increment_file_count : Process → Outcome (Unit {0})
increment_file_count p =
    if leb p.resource_limits.max_files p.stats.files_opened
    then (kerror process ProcessError.invalid_state, p)
    else (ok tt, record p { stats = record (p.stats) { files_opened = p.stats.files_opened + 1 } })

unfoldable pub decrement_file_count : Process → Process
decrement_file_count p = record p {
  stats = record (p.stats) { files_opened = p.stats.files_opened - 1 };
}

unfoldable pub create_process_group : Process → ℕ → Option (Outcome ℕ × ℕ)
unfolding allocate_pgid
create_process_group p next_pgid =
    Option.map (λ (pgid, after). ((ok pgid, record p { process_group_id = pgid }), after))
      (allocate_pgid next_pgid)

unfoldable pub join_process_group : Process → ℕ → Outcome (Unit {0})
join_process_group p pgid =
    if pgid == 0
    then (kerror process ProcessError.invalid_pid, p)
    else (ok tt, record p { process_group_id = pgid })

unfoldable pub create_session : Process → ℕ → Option (Outcome ℕ × ℕ)
unfolding allocate_sid
create_session p next_sid =
    if p.process_group_id == p.id
    then Option.map (λ (sid, after). ((ok sid, record p { session_id = sid }), after))
        (allocate_sid next_sid)
    else some ((kerror process ProcessError.invalid_state, p), next_sid)

-- `TaskBehavior` for a process.
abbrev woken : ProcessState → ProcessState
woken (waiting _) = ready
woken state = state

unfoldable pub can_schedule : Process → Bool
can_schedule p = is_schedulable p.state

unfoldable pub wake_task : Process → Process
wake_task p = record p { state = woken p.state }
