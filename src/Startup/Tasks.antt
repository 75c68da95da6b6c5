-- ===== src/Startup/Tasks.antt =====
-- main.rs: the first two processes.
use ruix.Prelude.{ℕ, ◌+◌, ◌-◌, ◌≡◌, refl, ap, ◌∙◌, some, [], ◌∷◌, arith, ◌<◌, u64_mod, ◌>>=◌}
use ruix.Process.Context.{Words, store_context, load_context, load_context-store_context}
use ruix.Process.Creation.{Mapper, copy_entries, initial_context, fresh, new}
use ruix.Process.Apart.{Apart, store_context-Apart, copy_context-Apart}
use ruix.Process.Forking.{new_made}
use ruix.Scheduler.{Scheduler, empty, add_process}
use ruix.Memory.{BootInfoFrameAllocator, allocate_frame}
use ruix.Startup.{init_tasks}

-- A process with its stack in a page of the kernel's own memory.
new_on_stack :
    (id entry_point stack : ℕ) (mapper : Mapper) (frame time later : ℕ) (mem : Words)
    → time + 1 ≡ later
    → later < u64_mod
    → new id entry_point (stack + 4096) mapper (some frame) time mem
      ≡ some (
        fresh id (stack + 3936) frame later,
        store_context
            (stack + 3936)
            (initial_context entry_point (stack + 4096))
            (copy_entries 512 0 (mapper.phys_offset + frame) mapper.level_4_table mem),
        later,
      )
new_on_stack id entry_point stack mapper frame time later mem e bound =
    let copied = copy_entries 512 0 (mapper.phys_offset + frame) mapper.level_4_table mem in
    let ctx = initial_context entry_point (stack + 4096) in
    let slot : stack + 4096 - 160 ≡ stack + 3936 = omega arith in
    new_made id entry_point (stack + 4096) mapper frame time mem (omega arith)
      (omega (arith, e, bound))
    ∙ ap (λ k. some (fresh id k frame (time + 1), store_context k ctx copied, time + 1)) slot
    ∙ ap (λ k. some (fresh id (stack + 3936) frame k, store_context (stack + 3936) ctx copied, k)) e

-- The start-up leaves two processes in the queue of an empty scheduler, 1 before 2, both ready. Their
-- contexts are saved at the ends of their stacks, and start at 0x400000 and 0x500000 with those ends as
-- stack pointers; making the second process does not disturb the context of the first. There are two
-- frames, the stacks and the tables in those frames do not overlap, and the time counter does not
-- overflow.
pub init_tasks_lem :
    (containing_address : ℕ → ℕ) (stack1 stack2 frame1 frame2 time : ℕ) (mapper : Mapper)
    (allocator allocator1 allocator2 : BootInfoFrameAllocator) (mem : Words)
    → allocate_frame containing_address allocator ≡ some (some frame1, allocator1)
    → allocate_frame containing_address allocator1 ≡ some (some frame2, allocator2)
    → time + 2 < u64_mod
    → Apart (stack2 + 3936) 160 (stack1 + 3936) 160
    → Apart (mapper.phys_offset + frame2) 4096 (stack1 + 3936) 160
    → (sched : Scheduler) × (after : Words) × (init_tasks containing_address stack1 stack2 empty
          mapper allocator time mem
        ≡ some (sched, allocator2, time + 2, after))
      × (sched.processes
          ≡ fresh 1 (stack1 + 3936) frame1 (time + 1)
            ∷ fresh 2 (stack2 + 3936) frame2 (time + 2)
            ∷ [])
      × (load_context (stack1 + 3936) after ≡ initial_context 0x400000 (stack1 + 4096))
      × (load_context (stack2 + 3936) after ≡ initial_context 0x500000 (stack2 + 4096))
unfolding init_tasks add_process
init_tasks_lem containing_address stack1 stack2 frame1 frame2 time mapper allocator allocator1
      allocator2 mem first second clock stacks table =
    let table1 = mapper.phys_offset + frame1 in
    let table2 = mapper.phys_offset + frame2 in
    let p1 = fresh 1 (stack1 + 3936) frame1 (time + 1) in
    let p2 = fresh 2 (stack2 + 3936) frame2 (time + 2) in
    let c1 = initial_context 0x400000 (stack1 + 4096) in
    let c2 = initial_context 0x500000 (stack2 + 4096) in
    let mem1 =
      store_context (stack1 + 3936) c1 (copy_entries 512 0 table1 mapper.level_4_table mem) in
    let copied = copy_entries 512 0 table2 mapper.level_4_table mem1 in
    let made1 =
      new_on_stack 1 0x400000 stack1 mapper frame1 time (time + 1) mem refl (omega arith) in
    let made2 =
      new_on_stack 2 0x500000 stack2 mapper frame2 (time + 1) (time + 2) mem1 (omega arith)
        (omega arith) in
    (
      add_process (add_process empty p1) p2,
      store_context (stack2 + 3936) c2 copied,
      rw (first, ◌>>=◌, made1, ◌>>=◌, second, ◌>>=◌, made2, ◌>>=◌) refl,
      refl,
      store_context-Apart (stack2 + 3936) (stack1 + 3936) c2 copied stacks
          ∙ copy_context-Apart table2 mapper.level_4_table (stack1 + 3936) mem1 table
          ∙ load_context-store_context (stack1 + 3936) c1 _,
      load_context-store_context (stack2 + 3936) c2 copied,
    )
