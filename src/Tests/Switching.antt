-- ===== src/Tests/Switching.antt =====
-- Interrupts and the jump to user mode: concrete runs.
use ruix.Prelude.{◌+◌, ◌*◌, ◌/◌, ◌≡◌, ◌⊎◌, refl, none, some, arith}
use ruix.Process.Context.{load_context}
use ruix.Interrupts.{
  rax, Machine, Calls, handle_switch, increment_tick, rust_syscall_handler, set, run,
  timer_interrupt_handler, syscall_interrupt_handler,
}
use ruix.Interrupts.Switch.{running, after_calls, timer_resumes}
use ruix.Interrupts.Return.{syscall_returns}
use ruix.Timer.{start_user_mode}
use ruix.Timer
use ruix.Gdt.{jump_to_user_mode}
use ruix.Gdt.Jump.{InUserRange, jump_to_user_mode_lem}

-- Every register holds 7, and a word of memory its own address.
abbrev machine : Machine
machine = record {
  regs = λ r. 7;
  rsp = 1000;
  rip = 0;
  cs = 8;
  rflags = 2;
  ss = 16;
  memory = λ a. a;
}

-- The tick leaves an address in `rax`, and the other functions change nothing.
abbrev calls : Calls
calls handle_switch m = m
calls increment_tick m = record m { regs = set rax 880 m.regs }
calls rust_syscall_handler m = m

timer_resumes_example :
    running (run calls timer_interrupt_handler machine)
    ≡ load_context 880 (after_calls calls machine).memory
timer_resumes_example = timer_resumes calls machine (omega arith)

syscall_returns_example :
    let left = run calls syscall_interrupt_handler machine in
    (left.rip ≡ 7) × (left.cs ≡ 1000) × (left.rflags ≡ 1008) × (left.rsp ≡ 1016) × (left.ss ≡ 1024)
syscall_returns_example =
    syscall_returns calls machine (omega arith) (omega arith) refl (λ a h. refl)

jump_to_user_mode_example :
    let jumped = jump_to_user_mode 32 24 5 0x400000 0x601000 Timer.empty machine in
    ((¬ InUserRange 0x400000 0x601000) × (jumped ≡ none))
    ⊎ (InUserRange 0x400000 0x601000
        × ((v : Machine) × (jumped ≡ some (start_user_mode Timer.empty 5, v))
            × (v.rip ≡ 0x400000)
            × (v.rsp ≡ 0x601000)
            × (v.cs ≡ 32 / 4 * 4 + 3)
            × (v.ss ≡ 24 / 4 * 4 + 3)
            × (v.rflags ≡ 0x203)))
jump_to_user_mode_example =
    jump_to_user_mode_lem 32 24 5 0x400000 0x601000 Timer.empty machine (omega arith) (omega arith)
