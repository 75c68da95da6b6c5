-- ===== src/Startup.antt =====
-- main.rs: the start-up of the kernel, as far as it does not talk to devices: the boot checks that decide
-- whether it goes on, the memory for user mode, the first two processes, and the start of the time limit.
-- The code that is written into the user pages is left out. `none` is a panic.
pub mod Gate
pub mod Tasks
use mathlib.Core.Option
use ruix.Prelude.{ℕ, ◌+◌, Bool, true, false, Option, none, some, List, if◌then◌else◌, ◌>>=◌}
use ruix.Error.{KernelResult, ok, err}
use ruix.Process.{Process}
use ruix.Process.Context.{Words}
use ruix.Process.Creation.{Mapper, new}
use ruix.Scheduler.{Scheduler, add_process}
use ruix.Memory.{BootInfoFrameAllocator, allocate_frame}
use ruix.Memory.Pages.{EntryOps, MapTo, map_user_page}
use ruix.Timer.{TimeoutManager, register_process, start_user_mode}
use ruix.Testing.{Clocked}
use ruix.Testing.Suite.{TestSuite}
use ruix.Testing.Boot.{BootChecker, Probes, all_passed, run_boot_checks}

-- `hlt_loop`, or the rest of `kernel_main`.
pub data Decision : Type 0 where
  halt go_on : Decision

abbrev decide : KernelResult BootChecker → Decision
decide (err e) = halt
decide (ok boot_checker) = if all_passed boot_checker then go_on else halt

-- The boot checks, and what `kernel_main` makes of them.
unfoldable pub boot_gate {ℓ} :
    {W : Type ℓ} → Probes → ℕ → List (TestSuite W) → Clocked W → Option (Decision × Clocked W)
boot_gate probes current_pid suites m = do
  (result, m1) ← run_boot_checks probes current_pid suites m
  some (decide result, m1)

-- One user page: a frame for it, which must be there, and its mapping.
abbrev user_page :
    EntryOps
    → MapTo BootInfoFrameAllocator
    → (ℕ → ℕ × ℕ × ℕ)
    → (ℕ → ℕ)
    → Mapper
    → ℕ
    → BootInfoFrameAllocator
    → Words
    → Option (BootInfoFrameAllocator × Words)
user_page ops map_to indexes containing_address mapper page allocator mem = do
  (found, allocator1) ← allocate_frame containing_address allocator
  frame ← found
  map_user_page ops map_to indexes page frame mapper allocator1 mem

-- The pages of the user's code and of its stack.
unfoldable map_user_memory :
    EntryOps
    → MapTo BootInfoFrameAllocator
    → (ℕ → ℕ × ℕ × ℕ)
    → (ℕ → ℕ)
    → Mapper
    → BootInfoFrameAllocator
    → Words
    → Option (BootInfoFrameAllocator × Words)
map_user_memory ops map_to indexes containing_address mapper allocator mem = do
  let map_page = user_page ops map_to indexes containing_address mapper
  (allocator1, mem1) ← map_page 0x400000 allocator mem
  map_page 0x600000 allocator1 mem1

-- The page of the second program.
unfoldable map_second_program :
    EntryOps
    → MapTo BootInfoFrameAllocator
    → (ℕ → ℕ × ℕ × ℕ)
    → (ℕ → ℕ)
    → Mapper
    → BootInfoFrameAllocator
    → Words
    → Option (BootInfoFrameAllocator × Words)
map_second_program ops map_to indexes containing_address mapper =
    user_page ops map_to indexes containing_address mapper 0x500000

-- The two processes, with the addresses of `STACK1` and `STACK2`.
unfoldable pub init_tasks :
    (ℕ → ℕ)
    → ℕ
    → ℕ
    → Scheduler
    → Mapper
    → BootInfoFrameAllocator
    → ℕ
    → Words
    → Option (Scheduler × BootInfoFrameAllocator × ℕ × Words)
init_tasks containing_address stack1 stack2 sched mapper allocator time mem = do
  (frame1, allocator1) ← allocate_frame containing_address allocator
  (proc1, mem1, time1) ← new 1 0x400000 (stack1 + 4096) mapper frame1 time mem
  (frame2, allocator2) ← allocate_frame containing_address allocator1
  (proc2, mem2, time2) ← new 2 0x500000 (stack2 + 4096) mapper frame2 time1 mem1
  some (add_process (add_process sched proc1) proc2, allocator2, time2, mem2)

-- The limit of process 1, which is taken to run in user mode from now on.
unfoldable start_timeout : TimeoutManager → TimeoutManager
start_timeout timer = start_user_mode (register_process timer 1 (some 30)) 1
