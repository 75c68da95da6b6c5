-- ===== src/Interrupts/Handover.antt =====
-- interrupts.rs, gdt.rs and process/mod.rs together: a timer interrupt in user mode, from the stack that
-- the processor switches to, to the scheduler that `handle_switch` asks.
use ruix.Prelude.{
  ℕ, ◌+◌, ◌-◌, ◌%◌, ◌*◌, ◌≡◌, ap, sym, ◌∙◌, some, ◌⊎◌, inl, inr, [], ◌∷◌, arith, ◌<◌, ◌≤◌, u64_mod,
  find?, Distinct, remove_first,
}
use ruix.Process.{Process, ProcessState, is_schedulable}
use ruix.Process.Context.{
  store_words, load_context, store_words-below, store_words-above, load_context_agree,
}
use ruix.Process.Apart.{Apart}
use ruix.Scheduler.{Scheduler, Cpu, has_id, suspend_front, schedule}
use ruix.Scheduler.Exit.Lookup.{ids}
use ruix.Scheduler.Dispatch.{schedule_first}
use ruix.Interrupts.{Machine, Calls, rdi}
use ruix.Interrupts.Stack.{pushed}
use ruix.Interrupts.Switch.{saved, interrupted, running, entered, entry, prologue, timer_entry}

-- `privilege_stack_table[0]`: the end of the one stack for entries from user mode, given its start.
abbrev privilege_stack_top : ℕ → ℕ
privilege_stack_top stack_start = stack_start + 4096 * 5

-- The processor takes an interrupt in user mode: it aligns the stack pointer that it finds in the task
-- state segment and pushes its five words there. Where it goes on is left out.
unfoldable pub interrupt : ℕ → Machine → Machine
interrupt top m =
    let aligned = top - top % 16 in
    record m {
      rsp = aligned - 40;
      memory = store_words (m.rip ∷ m.cs ∷ m.rflags ∷ m.rsp ∷ m.ss ∷ []) (aligned - 40) m.memory;
    }

-- `handle_switch`: the scheduler and the processor after it, and the context to restore.
unfoldable pub handle_switch : Scheduler → Cpu → ℕ → Scheduler × Cpu × ℕ
handle_switch sched cpu current_context_ptr = schedule sched cpu current_context_ptr

-- Where the context of a program that is interrupted in user mode is saved.
abbrev pub save_area : ℕ → ℕ
save_area top = top - top % 16 - 160

interrupt-interrupted :
    (top : ℕ) (m : Machine) → 160 ≤ top - top % 16 → interrupted (interrupt top m) ≡ running m
unfolding interrupt store_words
interrupt-interrupted top m h = ground arith

beside : (p q a : ℕ) → Apart p 160 q 160 → p ≤ a → a < p + 160 → (a < q) ⊎ (q + 160 ≤ a)
beside p q a (inl h) lo hi = inl (omega arith)
beside p q a (inr h) lo hi = inr (omega arith)

outside :
    (top : ℕ) (m : Machine) (a : ℕ)
    → 168 ≤ top - top % 16
    → (a < save_area top) ⊎ (save_area top + 160 ≤ a)
    → (entry (interrupt top m)).memory a ≡ m.memory a
unfolding interrupt pushed
outside top m a h (inl below) =
    store_words-below (pushed saved m.regs []) (top - top % 16 - 40 - 120) (interrupt top m).memory
      a (omega (arith, h, below))
    ∙ store_words-below (m.rip ∷ m.cs ∷ m.rflags ∷ m.rsp ∷ m.ss ∷ []) (top - top % 16 - 40) m.memory
        a (omega (arith, h, below))
outside top m a h (inr above) =
    store_words-above (pushed saved m.regs []) (top - top % 16 - 40 - 120) (interrupt top m).memory
      a (omega (arith, h, above))
    ∙ store_words-above (m.rip ∷ m.cs ∷ m.rflags ∷ m.rsp ∷ m.ss ∷ []) (top - top % 16 - 40) m.memory
        a (omega (arith, h, above))

-- A timer interrupt in user mode, up to what `handle_switch` does. It gets the same address whoever is
-- interrupted, `save_area top`, and finds there the program that is interrupted now, all its registers and
-- the five words of `iretq`; a context that lies apart from these 160 bytes is as before. The scheduler
-- moves the first process in the queue that is ready or running to the front as running, the processor
-- gets its id and its page table, and its saved context is the one to restore; the process that is then
-- second gets `save_area top` as the address of its context, and is no longer running. No two processes
-- share an id, and the privilege stack has room.
pub handle_switch-entered :
    (calls : Calls) (m : Machine) (top : ℕ) (sched : Scheduler) (cpu : Cpu) (p : Process) (q : ℕ)
    → find? (λ r. is_schedulable r.state) sched.processes ≡ some p
    → Distinct (ids sched.processes)
    → 168 ≤ top - top % 16
    → top < u64_mod
    → Apart q 160 (save_area top) 160
    → let n = entered calls (interrupt top m) in
      (load_context (save_area top) n.memory ≡ running m)
      × (load_context q n.memory ≡ load_context q m.memory)
      × (handle_switch sched cpu (n.regs rdi) ≡ (
        record sched {
          processes =
              record p { state = ProcessState.running }
              ∷ suspend_front (save_area top) (remove_first (has_id p.id) sched.processes);
          current_priority = p.priority;
        },
        record { current_process_id = p.id; cr3 = p.page_table_frame },
        p.context_ptr,
      ))
unfolding interrupt handle_switch
handle_switch-entered calls m top sched cpu p q first distinct room small apart =
    let slot : (interrupt top m).rsp - 120 ≡ save_area top = omega (arith, room) in
    let before = timer_entry calls (interrupt top m) (omega (arith, room)) (omega (arith, small)) in
    (
      ap (λ a. load_context a (entered calls (interrupt top m)).memory) (sym slot)
          ∙ before.1
          ∙ interrupt-interrupted top m (omega (arith, room)),
      ap (λ n. load_context q n.memory)
            (prologue calls (interrupt top m) (omega (arith, room)) (omega (arith, small)))
          ∙ load_context_agree q (entry (interrupt top m)).memory m.memory
              (λ a lo hi. outside top m a room (beside q (save_area top) a apart lo hi)),
      ap (schedule sched cpu) (before.0 ∙ slot)
          ∙ schedule_first sched cpu (save_area top) p first distinct,
    )
