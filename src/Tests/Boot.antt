-- ===== src/Tests/Boot.antt =====
-- The first two processes: a concrete run.
use ruix.Prelude.{ℕ, ◌+◌, ◌≡◌, refl, inr, true, some, [], ◌∷◌, arith}
use ruix.Process.Context.{Words, load_context}
use ruix.Process.Creation.{Mapper, initial_context, fresh}
use ruix.Scheduler.{Scheduler, empty}
use ruix.Memory.{
  BootInfoFrameAllocator, allocate_frame, usable_frames, usable_addresses, steps, nth,
}
use ruix.Startup.{init_tasks}
use ruix.Startup.Tasks.{init_tasks_lem}

-- The allocator after some calls, on four usable pages.
abbrev frames : ℕ → BootInfoFrameAllocator
frames next = record {
  memory_map = record { usable = true; start_addr = 0x1000; end_addr = 0x5000 } ∷ [];
  next = next;
}

abbrev mapper : Mapper
mapper = record { phys_offset = 0x100000; level_4_table = 0x150000 }

init_tasks_example :
    (sched : Scheduler) × (after : Words) × (init_tasks
        (λ a. a)
        0x10000
        0x20000
        empty
        mapper
        (frames 0)
        3
        (λ a. 0)
      ≡ some (sched, frames 2, 3 + 2, after))
    × (sched.processes ≡ fresh 1 0x10f60 0x1000 4 ∷ fresh 2 0x20f60 0x2000 5 ∷ [])
    × (load_context 0x10f60 after ≡ initial_context 0x400000 0x11000)
    × (load_context 0x20f60 after ≡ initial_context 0x500000 0x21000)
unfolding allocate_frame usable_frames usable_addresses steps nth
init_tasks_example =
    init_tasks_lem (λ a. a) 0x10000 0x20000 0x1000 0x2000 3 mapper (frames 0) (frames 1) (frames 2)
      (λ a. 0) refl refl (omega arith) (inr (omega arith)) (inr (omega arith))
