-- ===== src/Process/Creation.antt =====
-- process/mod.rs: how a process comes into being, `Process::new` and `Process::fork`, with the page table
-- that `create_process_page_table_with_user_mappings` makes. Memory is the kernel's view of it, by
-- virtual address. The frame that the frame allocator hands out and the counters of `allocate_pid` and
-- `get_current_time` are arguments; `none` is a panic.
use mathlib.Core.Option
use ruix.Prelude.{
  ℕ, zero, suc, ◌+◌, ◌-◌, ◌*◌, Option, none, some, [], pos, ltb, if◌then◌else◌, ◌>>=◌,
}
use ruix.Process.{
  Process, ready, default_priority, default_limits, default_stats, allocate_pid, get_current_time,
}
use ruix.Process.Context.{Words, write, ProcessContext, store_context, load_context}

-- `OffsetPageTable`: where physical memory is mapped, and the address of the active table.
pub record Mapper : Type 0 where
  pub phys_offset : ℕ
  pub level_4_table : ℕ

-- The loop over the entries, `n` of them from entry `i` on.
unfoldable pub copy_entries : ℕ → ℕ → ℕ → ℕ → Words → Words
copy_entries zero i new_table current_table mem = mem
copy_entries (suc n) i new_table current_table mem =
    copy_entries n (suc i) new_table current_table
      (write (new_table + 8 * i) (mem (current_table + 8 * i)) mem)

-- The sum of the offset and the frame panics only past the canonical addresses, where no frame of
-- physical memory is mapped; it is taken as it is.
unfoldable pub create_process_page_table_with_user_mappings :
    Mapper → Option ℕ → Words → Option (ℕ × Words)
create_process_page_table_with_user_mappings mapper frame mem =
    Option.map
      (λ page_table_frame. (
        page_table_frame,
        copy_entries 512 0 (mapper.phys_offset + page_table_frame) mapper.level_4_table mem,
      ))
      frame

unfoldable pub initial_context : ℕ → ℕ → ProcessContext
initial_context entry_point stack_top = record {
  r15 = 0;
  r14 = 0;
  r13 = 0;
  r12 = 0;
  rbp = 0;
  rbx = 0;
  r11 = 0;
  r10 = 0;
  r9 = 0;
  r8 = 0;
  rdi = 0;
  rsi = 0;
  rdx = 0;
  rcx = 0;
  rax = 0;
  rip = entry_point;
  cs = 0x23;
  rflags = 0x202;
  rsp = stack_top;
  ss = 0x1b;
}

unfoldable pub fresh : ℕ → ℕ → ℕ → ℕ → Process
fresh id context_ptr page_table_frame now = record {
  id = id;
  context_ptr = context_ptr;
  page_table_frame = page_table_frame;
  state = ready;
  parent_id = 0;
  children = [];
  exit_code = pos 0;
  priority = default_priority;
  resource_limits = default_limits;
  stats = default_stats;
  process_group_id = id;
  session_id = id;
  creation_time = now;
}

-- The process, the memory, and the time counter after the read.
unfoldable pub new : ℕ → ℕ → ℕ → Mapper → Option ℕ → ℕ → Words → Option (Process × Words × ℕ)
new id entry_point stack_top mapper frame time mem = if ltb stack_top 160 then none else do
  (page_table_frame, copied) ← create_process_page_table_with_user_mappings mapper frame mem
  now ← get_current_time time
  some (
    fresh id (stack_top - 160) page_table_frame now,
    store_context (stack_top - 160) (initial_context entry_point stack_top) copied,
    now,
  )

-- The child, the memory, and the counters. The reference to the parent's context reads the memory as it
-- is when it is used.
unfoldable pub fork : Process → Mapper → Option ℕ → ℕ → ℕ → Words → Option (Process × Words × ℕ × ℕ)
fork p mapper frame next_pid time mem = do
  (child_pid, after_pid) ← allocate_pid next_pid
  (child, created, now) ←
      new child_pid (load_context p.context_ptr mem).rip (load_context p.context_ptr mem).rsp mapper
        frame time mem
  some (
    record child {
      parent_id = p.id;
      process_group_id = p.process_group_id;
      session_id = p.session_id;
      priority = p.priority;
      resource_limits = p.resource_limits;
    },
    store_context child.context_ptr (record (load_context p.context_ptr created) { rax = 0 })
        created,
    after_pid,
    now,
  )
