-- ===== src/Tests/Handovers.antt =====
-- Interrupts in user mode with the scheduler behind them, and the instruction `syscall`: concrete runs.
use ruix.Prelude.{◌≡◌, ◌-◌, refl, inl, [], ◌∷◌, arith, ℕ}
use ruix.Process.{Process, running, waiting, child}
use ruix.Process.Context.{load_context}
use ruix.Scheduler.{Scheduler, Cpu}
use ruix.Interrupts.{rax, rdi, Machine, Calls, set}
use ruix.Interrupts.Switch.{entered}
use ruix.Interrupts.Switch
use ruix.Interrupts.Handover.{interrupt, save_area, handle_switch, handle_switch-entered}
use ruix.Syscall.Assembly.{Core, Handler, entry, asm_syscall_handler, syscall}
use ruix.Syscall.Assembly
use ruix.Syscall.Returning.{Keeps, syscall_resumes}
use ruix.Tests.{process_of, cpu}
use ruix.Scheduler

-- A program in user mode.
abbrev machine : Machine
machine = record {
  regs = λ r. 7;
  rsp = 0x601000;
  rip = 0x400000;
  cs = 35;
  rflags = 0x202;
  ss = 27;
  memory = λ a. a;
}

-- Process 2 is ready, with its context at an address.
abbrev second : ℕ → Process
second context_ptr = record (process_of 2 1 running []) { context_ptr = context_ptr }

abbrev queue : ℕ → Scheduler
queue context_ptr = record Scheduler.empty {
  processes = process_of 1 0 (waiting (child 2)) [] ∷ second context_ptr ∷ [];
}

-- Functions that change nothing.
abbrev calls : Calls
calls f m = m

handle_switch-entered_example :
    let n = entered calls (interrupt 0x20000 machine) in
    (load_context (save_area 0x20000) n.memory ≡ Switch.running machine)
    × (load_context 0x9000 n.memory ≡ load_context 0x9000 machine.memory)
    × (handle_switch (queue 0x9000) cpu (n.regs rdi) ≡ (
      record (queue 0x9000) {
        processes =
            second 0x9000
            ∷ record (process_of 1 0 (waiting (child 2)) []) { context_ptr = save_area 0x20000 }
            ∷ [];
        current_priority = (second 0x9000).priority;
      },
      record { current_process_id = 2; cr3 = 202 },
      0x9000,
    ))
handle_switch-entered_example =
    handle_switch-entered calls machine 0x20000 (queue 0x9000) cpu (second 0x9000) 0x9000 refl
      (refl, (refl, tt)) (omega arith) (omega arith) (inl (omega arith))

-- The data of the processor lies at 0x8000, and every word of memory holds the end of the kernel's stack.
abbrev core : Core
core = record {
  machine = record machine { memory = λ a. 0x20000 };
  gs_base = 5;
  kernel_gs_base = 0x8000;
}

abbrev handler : Handler
handler c = record c { machine = record (c.machine) { regs = set rax 9 c.machine.regs } }

keeps : (c : Core) → Keeps handler 0x8000 0x20000 c
keeps c = record {
  rsp = refl;
  gs_base = refl;
  kernel_gs_base = refl;
  flags_word = refl;
  return_word = refl;
  stack_word = refl;
}

syscall_resumes_example :
    let before = Assembly.run handler entry (syscall core) in
    let left = asm_syscall_handler handler (syscall core) in
    (before.machine.regs rdi ≡ 0x20000 - 24)
    × (before.machine.rsp ≡ 0x20000 - 24)
    × (left.machine.rip ≡ 0x400000)
    × (left.machine.rflags ≡ 0x202)
    × (left.machine.rsp ≡ 0x601000)
    × (left.gs_base ≡ 5)
    × (left.kernel_gs_base ≡ 0x8000)
    × (left.machine.regs rax ≡ (handler before).machine.regs rax)
syscall_resumes_example =
    syscall_resumes handler core 0x8000 0x20000 refl refl (omega arith) (omega arith)
      (inl (omega arith)) (keeps (Assembly.run handler entry (syscall core)))
