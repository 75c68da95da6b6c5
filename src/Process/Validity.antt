-- ===== src/Process/Validity.antt =====
-- process/mod.rs: what every method keeps true of a process.
use mathlib.Core.Option
use ruix.Prelude.{
  ℕ, ◌≤◌, ◌≡◌, Option, some, [], ◌∷◌, arith, ℤ, length, length-append, length-remove_first, ◌==◌,
}
use ruix.Process.{
  Process, ResourceLimits, exit, join, set_priority, set_resource_limits, add_child, remove_child,
  make_orphan, update_cpu_usage, update_memory_usage, increment_file_count, decrement_file_count,
  create_process_group, join_process_group, create_session, wake_task,
}

-- The priority is in its range, and the statistics count the children list.
pub record IsValid (p : Process) : Type 0 where
  pub in_range : p.priority ≤ 31
  pub counted : p.stats.children_count ≡ length p.children

-- The calls that change a process, with their arguments and the counters that they read.
pub data Call : Type 0 where
  exits : ℤ → Call
  joins sets_priority adds_child removes_child uses_cpu uses_memory : ℕ → Call
  creates_group joins_group creates_session : ℕ → Call
  sets_limits : ResourceLimits → Call
  becomes_orphan opens_file closes_file wakes : Call

-- The process after a call; `none` is a panic.
unfoldable pub after : Call → Process → Option Process
after (exits code) p = some (exit p code).1
after (joins target) p = some (join p target).1
after (sets_priority priority) p = some (set_priority p priority).1
after (adds_child pid) p = some (add_child p pid).1
after (removes_child pid) p = some (remove_child p pid).1
after (uses_cpu time) p = update_cpu_usage p time
after (uses_memory bytes) p = some (update_memory_usage p bytes)
after (creates_group next) p = Option.map (λ r. r.0.1) (create_process_group p next)
after (joins_group pgid) p = some (join_process_group p pgid).1
after (creates_session next) p = Option.map (λ r. r.0.1) (create_session p next)
after (sets_limits limits) p = some (set_resource_limits p limits).1
after becomes_orphan p = some (make_orphan p)
after opens_file p = some (increment_file_count p).1
after closes_file p = some (decrement_file_count p)
after wakes p = some (wake_task p)

add_child-IsValid : (p : Process) (pid : ℕ) → IsValid p → IsValid (add_child p pid).1
unfolding add_child
add_child-IsValid p pid v = ground (arith, length-append p.children (pid ∷ []))

remove_child-IsValid : (p : Process) (pid : ℕ) → IsValid p → IsValid (remove_child p pid).1
unfolding remove_child
remove_child-IsValid p pid v = ground (arith, length-remove_first (λ c. c == pid) p.children)

-- Whatever call is made on a valid process, the process after it is valid.
pub after-IsValid : (c : Call) (p q : Process) → IsValid p → after c p ≡ some q → IsValid q
unfolding after
after-IsValid (adds_child pid) p q v e = ground (arith, add_child-IsValid p pid v)
after-IsValid (removes_child pid) p q v e = ground (arith, remove_child-IsValid p pid v)
after-IsValid (exits code) p q v e = unfold exit in ground arith
after-IsValid (joins target) p q v e = unfold join in ground arith
after-IsValid (sets_priority priority) p q v e = unfold set_priority in ground arith
after-IsValid (uses_cpu time) p q v e = unfold update_cpu_usage in ground arith
after-IsValid (uses_memory bytes) p q v e = unfold update_memory_usage in ground arith
after-IsValid (creates_group next) p q v e = unfold create_process_group in ground arith
after-IsValid (joins_group pgid) p q v e = unfold join_process_group in ground arith
after-IsValid (creates_session next) p q v e = unfold create_session in ground arith
after-IsValid (sets_limits limits) p q v e = unfold set_resource_limits in ground arith
after-IsValid becomes_orphan p q v e = unfold make_orphan in ground arith
after-IsValid opens_file p q v e = unfold increment_file_count in ground arith
after-IsValid closes_file p q v e = unfold decrement_file_count in ground arith
after-IsValid wakes p q v e = unfold wake_task in ground arith
