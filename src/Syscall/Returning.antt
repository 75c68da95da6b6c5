-- ===== src/Syscall/Returning.antt =====
-- syscall.rs: what a program finds after a system call.
use ruix.Prelude.{ℕ, ◌+◌, ◌-◌, ◌≡◌, ap, ◌∙◌, arith, ◌<◌, ◌≤◌, u64_mod, inl, inr}
use ruix.Process.Context.{Words, write}
use ruix.Process.Apart.{Apart}
use ruix.Interrupts.{rax, rcx, rdi, r11, set}
use ruix.Syscall.Assembly.{Core, Handler, run, step, entry, leave, asm_syscall_handler, syscall}

-- The core when the handler is called, for a kernel stack that ends at `top`.
abbrev called : ℕ → ℕ → Core → Core
called cpu_data top c =
    let saved : Words = write cpu_data c.machine.rsp c.machine.memory in
    record c {
      gs_base = cpu_data;
      kernel_gs_base = c.gs_base;
      machine = record (c.machine) {
        regs = set rdi (top - 24) c.machine.regs;
        rsp = top - 24;
        memory = write (top - 16) (c.machine.regs rcx) (write (top - 8) (c.machine.regs r11) saved);
      };
    }

entry_lem :
    (handler : Handler) (c : Core) (cpu_data top : ℕ)
    → c.kernel_gs_base ≡ cpu_data
    → c.machine.memory (cpu_data + 8) ≡ top
    → 24 ≤ top
    → top < u64_mod
    → run handler entry c ≡ called cpu_data top c
unfolding run step
entry_lem handler c cpu_data top base stack room small = ground arith

saved_rsp :
    (rsp cpu_data top rip flags : ℕ) (mem : Words)
    → 24 ≤ top
    → Apart cpu_data 16 (top - 24) 24
    → write (top - 16) rip (write (top - 8) flags (write cpu_data rsp mem)) cpu_data ≡ rsp
saved_rsp rsp cpu_data top rip flags mem room (inl h) = ground arith
saved_rsp rsp cpu_data top rip flags mem room (inr h) = ground arith

left : Core → Core
left d = record d {
  gs_base = d.kernel_gs_base;
  kernel_gs_base = d.gs_base;
  machine = record (d.machine) {
    regs =
        set r11 (d.machine.memory (d.machine.rsp + 16))
          (set rcx (d.machine.memory (d.machine.rsp + 8)) d.machine.regs);
    rsp = d.machine.memory d.gs_base;
    rip = d.machine.memory (d.machine.rsp + 8);
    rflags = d.machine.memory (d.machine.rsp + 16);
  };
}

leave_lem :
    (handler : Handler) (d : Core) → d.machine.rsp + 24 < u64_mod → run handler leave d ≡ left d
unfolding run step left
leave_lem handler d small = ground arith

-- What the called function keeps: the stack pointer, the bases of GS, the two words on the stack, and
-- the word of the processor's data that holds the program's stack pointer.
pub record Keeps (handler : Handler) (cpu_data top : ℕ) (c : Core) : Type 0 where
  pub rsp : (handler c).machine.rsp ≡ c.machine.rsp
  pub gs_base : (handler c).gs_base ≡ c.gs_base
  pub kernel_gs_base : (handler c).kernel_gs_base ≡ c.kernel_gs_base
  pub flags_word : (handler c).machine.memory (top - 8) ≡ c.machine.memory (top - 8)
  pub return_word : (handler c).machine.memory (top - 16) ≡ c.machine.memory (top - 16)
  pub stack_word : (handler c).machine.memory cpu_data ≡ c.machine.memory cpu_data

-- A program that executes `syscall` goes on behind it, with its flags, its stack pointer and its base of
-- GS, and finds in `rax` what the called function left there. The function is called with the address of
-- a free word in `rdi`, below the saved `rcx` and `r11`, on the kernel's stack, and keeps what it must.
-- The kernel's stack has room for three words and lies apart from the processor's data.
pub syscall_resumes :
    (handler : Handler) (c : Core) (cpu_data top : ℕ)
    → c.kernel_gs_base ≡ cpu_data
    → c.machine.memory (cpu_data + 8) ≡ top
    → 24 ≤ top
    → top < u64_mod
    → Apart cpu_data 16 (top - 24) 24
    → Keeps handler cpu_data top (run handler entry (syscall c))
    → let before = run handler entry (syscall c) in
      let after = asm_syscall_handler handler (syscall c) in
      (before.machine.regs rdi ≡ top - 24)
      × (before.machine.rsp ≡ top - 24)
      × (after.machine.rip ≡ c.machine.rip)
      × (after.machine.rflags ≡ c.machine.rflags)
      × (after.machine.rsp ≡ c.machine.rsp)
      × (after.gs_base ≡ c.gs_base)
      × (after.kernel_gs_base ≡ cpu_data)
      × (after.machine.regs rax ≡ (handler before).machine.regs rax)
unfolding asm_syscall_handler left
syscall_resumes handler c cpu_data top base stack room small apart keeps =
    let before = run handler entry (syscall c) in
    let d = handler before in
    let entered = entry_lem handler (syscall c) cpu_data top base stack room small in
    let rsp : before.machine.rsp ≡ top - 24 = ap (λ x. x.machine.rsp) entered in
    let word = λ (a : ℕ). ap (λ x. x.machine.memory a) entered in
    let at = λ (k a : ℕ) (e : top - 24 + k ≡ a).
      ap (λ x. d.machine.memory (x + k)) (keeps.rsp ∙ rsp) ∙ ap d.machine.memory e in
    let gone = leave_lem handler d (omega (arith, keeps.rsp, rsp, small, room)) in
    (
      ap (λ x. x.machine.regs rdi) entered,
      rsp,
      ap (λ x. x.machine.rip) gone
          ∙ at 8 (top - 16) (omega (arith, room))
          ∙ keeps.return_word
          ∙ word (top - 16)
          ∙ ground (arith, room),
      ap (λ x. x.machine.rflags) gone
          ∙ at 16 (top - 8) (omega (arith, room))
          ∙ keeps.flags_word
          ∙ word (top - 8)
          ∙ ground (arith, room),
      ap (λ x. x.machine.rsp) gone
          ∙ ap d.machine.memory (keeps.gs_base ∙ ap (λ x. x.gs_base) entered)
          ∙ keeps.stack_word
          ∙ word cpu_data
          ∙ saved_rsp c.machine.rsp cpu_data top (c.machine.rip) c.machine.rflags c.machine.memory
              room apart,
      ap (λ x. x.gs_base) gone ∙ keeps.kernel_gs_base ∙ ap (λ x. x.kernel_gs_base) entered,
      ap (λ x. x.kernel_gs_base) gone ∙ keeps.gs_base ∙ ap (λ x. x.gs_base) entered,
      ap (λ x. x.machine.regs rax) gone,
    )
