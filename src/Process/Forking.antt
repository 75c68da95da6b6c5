-- ===== src/Process/Forking.antt =====
-- process/mod.rs: the context of a new process, of a forked one and of its parent.
use ruix.Prelude.{
  ℕ, ◌+◌, ◌-◌, ◌*◌, ◌≡◌, refl, sym, ap, ◌∙◌, inl, inr, subst, some, arith, ◌<◌, ◌≤◌, le→ltb, lt→ltb,
  u64_mod,
}
use ruix.Process.{Process, ready, allocate_pid, get_current_time}
use ruix.Process.Context.{
  Words, ProcessContext, store_context, load_context, load_context-store_context,
}
use ruix.Process.Creation.{
  Mapper, copy_entries, create_process_page_table_with_user_mappings, initial_context, fresh, new,
  fork,
}
use ruix.Process.Apart.{
  Apart, copy_entries_copied, store_context-Apart, store_context_elsewhere, copy_context-Apart,
}

-- `new` in full, where it does not panic.
pub new_made :
    (id entry_point stack_top : ℕ) (mapper : Mapper) (frame time : ℕ) (mem : Words)
    → 160 ≤ stack_top
    → time + 1 < u64_mod
    → new id entry_point stack_top mapper (some frame) time mem
      ≡ some (
        fresh id (stack_top - 160) frame (time + 1),
        store_context
            (stack_top - 160)
            (initial_context entry_point stack_top)
            (copy_entries 512 0 (mapper.phys_offset + frame) mapper.level_4_table mem),
        time + 1,
      )
unfolding new get_current_time create_process_page_table_with_user_mappings
new_made id entry_point stack_top mapper frame time mem h b =
    rw (le→ltb stack_top 160 h, lt→ltb (time + 1) u64_mod b)

-- What `fork` leaves behind: the child's context is stored over what `new` stored for it.
fork_made :
    (p : Process) (mapper : Mapper) (frame next_pid time : ℕ) (mem : Words)
    → 160 ≤ (load_context p.context_ptr mem).rsp
    → next_pid + 1 < u64_mod
    → time + 1 < u64_mod
    → let ctx = load_context p.context_ptr mem in
      let created =
        store_context
          (ctx.rsp - 160)
          (initial_context ctx.rip ctx.rsp)
          (copy_entries 512 0 (mapper.phys_offset + frame) mapper.level_4_table mem) in
      fork p mapper (some frame) next_pid time mem
      ≡ some (
        record (fresh next_pid (ctx.rsp - 160) frame (time + 1)) {
          parent_id = p.id;
          process_group_id = p.process_group_id;
          session_id = p.session_id;
          priority = p.priority;
          resource_limits = p.resource_limits;
        },
        store_context
            (ctx.rsp - 160)
            (record (load_context p.context_ptr created) { rax = 0 })
            created,
        next_pid + 1,
        time + 1,
      )
unfolding fork allocate_pid fresh
fork_made p mapper frame next_pid time mem h b b2 =
    let ctx = load_context p.context_ptr mem in
    rw (
      lt→ltb (next_pid + 1) u64_mod b,
      new_made next_pid ctx.rip ctx.rsp mapper frame time mem h b2,
    )

-- A new process has a context below the top of its stack that starts at the entry point in user mode
-- with interrupts on and all general registers zero, is ready, and leads its own group and session. Its
-- page table has in each of its 512 entries the word of the table that was active: user and kernel
-- memory are shared. The stack has room for a context, the time counter does not overflow, the two
-- tables have no byte in common, and neither has the context and the new table.
new_lem :
    (id entry_point stack_top : ℕ) (mapper : Mapper) (frame time : ℕ) (mem : Words)
    → 160 ≤ stack_top
    → time + 1 < u64_mod
    → Apart (mapper.phys_offset + frame) 4096 mapper.level_4_table 4096
    → Apart (mapper.phys_offset + frame) 4096 (stack_top - 160) 160
    → (p : Process) × (after : Words) × (new id entry_point stack_top mapper (some frame) time mem
        ≡ some (p, after, time + 1))
      × (load_context p.context_ptr after ≡ initial_context entry_point stack_top)
      × (p.page_table_frame ≡ frame)
      × (p.state ≡ ready)
      × (p.process_group_id ≡ id)
      × (p.session_id ≡ id)
      × ((k : ℕ)
          → k < 512
          → after (mapper.phys_offset + frame + 8 * k) ≡ mem (mapper.level_4_table + 8 * k))
unfolding fresh
new_lem id entry_point stack_top mapper frame time mem h b tables stack =
    let table = mapper.phys_offset + frame in
    let copied = copy_entries 512 0 table mapper.level_4_table mem in
    let ctx = initial_context entry_point stack_top in
    (
      fresh id (stack_top - 160) frame (time + 1),
      store_context (stack_top - 160) ctx copied,
      new_made id entry_point stack_top mapper frame time mem h b,
      load_context-store_context (stack_top - 160) ctx copied,
      refl,
      refl,
      refl,
      refl,
      λ k hk.
          store_context_elsewhere (stack_top - 160) ctx copied (table + 8 * k)
            (elim stack [ inl e ↦ inl (omega (arith, e, hk)) | inr e ↦ inr (omega (arith, e)) ])
          ∙ copy_entries_copied 512 0 table mapper.level_4_table mem k (omega arith) hk
              (omega arith) tables,
    )

-- Where the stack pointer of the parent's context leaves room for another context, apart from the
-- parent's and from the new page table, `fork` gives the child a copy of the parent's context in which
-- `rax` is zero, and leaves the parent's as it was. The child has the next id, is ready, and inherits
-- group, session, priority and limits; its parent is the process. The counters do not overflow.
pub fork_lem :
    (p : Process) (mapper : Mapper) (frame next_pid time : ℕ) (mem : Words)
    → 160 ≤ (load_context p.context_ptr mem).rsp
    → next_pid + 1 < u64_mod
    → time + 1 < u64_mod
    → Apart (mapper.phys_offset + frame) 4096 p.context_ptr 160
    → Apart ((load_context p.context_ptr mem).rsp - 160) 160 p.context_ptr 160
    → (child : Process) × (after : Words) × (fork p mapper (some frame) next_pid time mem
        ≡ some (child, after, next_pid + 1, time + 1))
      × (load_context child.context_ptr after ≡ record (load_context p.context_ptr mem) { rax = 0 })
      × (load_context p.context_ptr after ≡ load_context p.context_ptr mem)
      × (child.id ≡ next_pid)
      × (child.parent_id ≡ p.id)
      × (child.state ≡ ready)
      × (child.process_group_id ≡ p.process_group_id)
      × (child.session_id ≡ p.session_id)
      × (child.priority ≡ p.priority)
      × (child.resource_limits ≡ p.resource_limits)
unfolding fresh
fork_lem p mapper frame next_pid time mem h b b2 table stack =
    let ctx = load_context p.context_ptr mem in
    let copied = copy_entries 512 0 (mapper.phys_offset + frame) mapper.level_4_table mem in
    let created = store_context (ctx.rsp - 160) (initial_context ctx.rip ctx.rsp) copied in
    let kept =
      store_context-Apart (ctx.rsp - 160) p.context_ptr (initial_context ctx.rip ctx.rsp) copied
        stack
      ∙ copy_context-Apart (mapper.phys_offset + frame) mapper.level_4_table p.context_ptr mem
          table in
    let copy = record (load_context p.context_ptr created) { rax = 0 } in
    (
      _,
      _,
      fork_made p mapper frame next_pid time mem h b b2,
      load_context-store_context (ctx.rsp - 160) copy created
          ∙ ap (λ (c : ProcessContext). record c { rax = 0 }) kept,
      store_context-Apart (ctx.rsp - 160) p.context_ptr copy created stack ∙ kept,
      refl,
      refl,
      refl,
      refl,
      refl,
      refl,
      refl,
    )

-- A process that is forked before it was interrupted once shares its context with the child: `fork`
-- stores the child's at the address of the parent's. The stack has room for a context and the counters
-- do not overflow.
fork-new :
    (id entry_point stack_top : ℕ) (mapper : Mapper) (frame frame2 next_pid time : ℕ) (mem : Words)
    → 160 ≤ stack_top
    → next_pid + 1 < u64_mod
    → time + 1 + 1 < u64_mod
    → (p child : Process) × (made after : Words) × (new id entry_point stack_top mapper
          (some frame)
          time
          mem
        ≡ some (p, made, time + 1))
      × (fork p mapper (some frame2) next_pid (time + 1) made
          ≡ some (child, after, next_pid + 1, time + 1 + 1))
      × (child.context_ptr ≡ p.context_ptr)
unfolding fresh initial_context
fork-new id entry_point stack_top mapper frame frame2 next_pid time mem h b b2 =
    let ctx = initial_context entry_point stack_top in
    let copied = copy_entries 512 0 (mapper.phys_offset + frame) mapper.level_4_table mem in
    let rsp≡ =
      ap (λ (c : ProcessContext). c.rsp)
        (load_context-store_context (stack_top - 160) ctx copied) in
    (
      fresh id (stack_top - 160) frame (time + 1),
      _,
      store_context (stack_top - 160) ctx copied,
      _,
      new_made id entry_point stack_top mapper frame time mem h (omega (arith, b2)),
      fork_made (fresh id (stack_top - 160) frame (time + 1)) mapper frame2 next_pid (time + 1)
          (store_context (stack_top - 160) ctx copied) (subst (λ s. 160 ≤ s) (sym rsp≡) h) b b2,
      ap (λ s. s - 160) rsp≡,
    )
