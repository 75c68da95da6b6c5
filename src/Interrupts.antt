-- ===== src/Interrupts.antt =====
-- interrupts.rs: the entry points of the timer interrupt and of `int 0x80`, which are written in
-- assembly, as lists of instructions on a machine with the fifteen general registers, the stack
-- pointer, the words that `iretq` loads, and memory. What the functions they call do to the machine is
-- an argument. `iretq` loads its five words without the processor's checks.

pub mod Stack
pub mod Switch
pub mod Return
pub mod Handover
pub mod Table
use ruix.Prelude.{
  ℕ, ◌+◌, ◌-◌, ◌%◌, List, [], ◌∷◌, ◌==◌, if◌then◌else◌, u64_mod, wrapping_add, wrapping_sub,
}
use ruix.Process.Context.{Words, write, ProcessContext}

pub data Reg : Type 0 where
  rax rcx rdx rsi rdi r8 r9 r10 r11 rbx rbp r12 r13 r14 r15 : Reg

abbrev pub code : Reg → ℕ
code rax = 0
code rcx = 1
code rdx = 2
code rsi = 3
code rdi = 4
code r8 = 5
code r9 = 6
code r10 = 7
code r11 = 8
code rbx = 9
code rbp = 10
code r12 = 11
code r13 = 12
code r14 = 13
code r15 = 14

pub record Machine : Type 0 where
  pub regs : Reg → ℕ
  pub rsp : ℕ
  pub rip : ℕ
  pub cs : ℕ
  pub rflags : ℕ
  pub ss : ℕ
  pub memory : Words

abbrev pub set : Reg → ℕ → (Reg → ℕ) → Reg → ℕ
set r v regs = λ q. if code q == code r then v else regs q

pub data Callee : Type 0 where
  handle_switch increment_tick rust_syscall_handler : Callee

pub data Instr : Type 0 where
  push pop : Reg → Instr
  sub_rsp add_rsp add_rdi : ℕ → Instr
  mov_rdi_rsp mov_rsp_rax iretq : Instr
  call : Callee → Instr

-- What a called function does to the machine, up to its return.
abbrev pub Calls : Type 0
Calls = Callee → Machine → Machine

unfoldable pub step : Calls → Instr → Machine → Machine
step calls (push r) m = record m {
  rsp = wrapping_sub m.rsp 8;
  memory = write (wrapping_sub m.rsp 8) (m.regs r) m.memory;
}
step calls (pop r) m = record m { regs = set r (m.memory m.rsp) m.regs; rsp = wrapping_add m.rsp 8 }
step calls (sub_rsp n) m = record m { rsp = wrapping_sub m.rsp n }
step calls (add_rsp n) m = record m { rsp = wrapping_add m.rsp n }
step calls (add_rdi n) m = record m { regs = set rdi (wrapping_add (m.regs rdi) n) m.regs }
step calls mov_rdi_rsp m = record m { regs = set rdi m.rsp m.regs }
step calls mov_rsp_rax m = record m { rsp = m.regs rax }
step calls iretq m = record m {
  rip = m.memory m.rsp;
  cs = m.memory (m.rsp + 8);
  rflags = m.memory (m.rsp + 16);
  rsp = m.memory (m.rsp + 24);
  ss = m.memory (m.rsp + 32);
}
step calls (call f) m = calls f m

unfoldable pub run : Calls → List Instr → Machine → Machine
unfolding step
run calls [] m = m
run calls (i ∷ is) m = run calls is (step calls i m)

abbrev pub timer_interrupt_handler : List Instr
timer_interrupt_handler =
    push rax
    ∷ push rcx
    ∷ push rdx
    ∷ push rsi
    ∷ push rdi
    ∷ push r8
    ∷ push r9
    ∷ push r10
    ∷ push r11
    ∷ push rbx
    ∷ push rbp
    ∷ push r12
    ∷ push r13
    ∷ push r14
    ∷ push r15
    ∷ sub_rsp 8
    ∷ mov_rdi_rsp
    ∷ add_rdi 8
    ∷ call handle_switch
    ∷ add_rsp 8
    ∷ call increment_tick
    ∷ mov_rsp_rax
    ∷ pop r15
    ∷ pop r14
    ∷ pop r13
    ∷ pop r12
    ∷ pop rbp
    ∷ pop rbx
    ∷ pop r11
    ∷ pop r10
    ∷ pop r9
    ∷ pop r8
    ∷ pop rdi
    ∷ pop rsi
    ∷ pop rdx
    ∷ pop rcx
    ∷ pop rax
    ∷ iretq
    ∷ []

abbrev pub syscall_interrupt_handler : List Instr
syscall_interrupt_handler =
    push rax
    ∷ push rcx
    ∷ push rdx
    ∷ push rsi
    ∷ push rdi
    ∷ push r8
    ∷ push r9
    ∷ push r10
    ∷ push r11
    ∷ push rbx
    ∷ push rbp
    ∷ push r12
    ∷ push r13
    ∷ push r14
    ∷ push r15
    ∷ sub_rsp 8
    ∷ mov_rdi_rsp
    ∷ add_rdi 8
    ∷ call rust_syscall_handler
    ∷ add_rsp 8
    ∷ pop r15
    ∷ pop r14
    ∷ pop r13
    ∷ pop r12
    ∷ pop rbp
    ∷ pop rbx
    ∷ pop r11
    ∷ pop r10
    ∷ pop r9
    ∷ pop r8
    ∷ pop rdi
    ∷ pop rsi
    ∷ pop rdx
    ∷ pop rcx
    ∷ iretq
    ∷ []
