-- ===== src/Tests.antt =====
-- Two processes in a scheduler, which the tests of the other parts run on.
pub mod Switching
pub mod Creation
pub mod Heap
pub mod Managed
pub mod Keys
pub mod Devices
pub mod Suites
pub mod Boot
pub mod Users
pub mod Handovers
pub mod Selecting
pub mod Queue
pub mod Channels
pub mod Handles
pub mod Ticks
pub mod Calls
use ruix.Prelude.{ℕ, ◌+◌, List, [], ◌∷◌, pos}
use ruix.Process.{
  Process, ProcessState, running, ready, waiting, zombie, child, default_limits, default_stats,
}
use ruix.Scheduler.{Scheduler, Cpu}
use ruix.Scheduler

abbrev pub process_of : ℕ → ℕ → ProcessState → List ℕ → Process
process_of id parent state children = record {
  id = id;
  context_ptr = 100 + id;
  page_table_frame = 200 + id;
  state = state;
  parent_id = parent;
  children = children;
  exit_code = pos 0;
  priority = 16;
  resource_limits = default_limits;
  stats = default_stats;
  process_group_id = id;
  session_id = id;
  creation_time = 1;
}

abbrev pub parent : Process
parent = process_of 1 0 (waiting (child 2)) (2 ∷ [])

abbrev pub offspring : Process
offspring = process_of 2 1 running []

-- The offspring runs, and its parent waits for it.
abbrev pub family : Scheduler
family = record Scheduler.empty {
  processes = offspring ∷ parent ∷ [];
  process_tree = (1, 0) ∷ (2, 1) ∷ [];
}

abbrev pub cpu : Cpu
cpu = record { current_process_id = 2; cr3 = 202 }
