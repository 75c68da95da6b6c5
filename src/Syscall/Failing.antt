-- ===== src/Syscall/Failing.antt =====
-- syscall.rs: what a program gets from a system call, from the instruction to the instruction behind it.
use ruix.Prelude.{ℕ, ◌+◌, ◌-◌, ◌≡◌, ◌≤◌, ◌<◌, ◌∙◌, Bool, some, List, arith, u64_mod, u64_max}
use ruix.Process.Apart.{Apart}
use ruix.Interrupts.{rax, rdi}
use ruix.Syscall.Calls.{Kernel}
use ruix.Syscall.Messages.{rust_syscall_handler}
use ruix.Syscall.Entry.{rust_syscall_handler_fails}
use ruix.Syscall.Assembly.{Core, Handler, run, entry, asm_syscall_handler, syscall}
use ruix.Syscall.Returning.{Keeps, syscall_resumes}

module _ (utf8_ok : List ℕ → Bool) (virt_ok phys_ok : ℕ → Bool) where
  -- The called function is `rust_syscall_handler`: its argument comes in `rdi`, its result in `rax`.
  pub record Answers (handler : Handler) (k : Kernel) (c : Core) : Type 0 where
    pub answer :
        (r : ℕ) (k1 : Kernel)
        → rust_syscall_handler utf8_ok virt_ok phys_ok k (c.machine.regs rdi) ≡ some (r, k1)
        → (handler c).machine.regs rax ≡ r

  -- Whatever system call a program makes, by whatever registers, it goes on behind the instruction with
  -- its flags and its stack, -1 in `rax`, and the kernel as it was: no system call is served. The
  -- called function is the handler of system calls, keeps what it must, and has room on its stack.
  pub syscall_fails :
      (handler : Handler) (k : Kernel) (c : Core) (cpu_data top : ℕ)
      → c.kernel_gs_base ≡ cpu_data
      → c.machine.memory (cpu_data + 8) ≡ top
      → 24 ≤ top
      → top < u64_mod
      → Apart cpu_data 16 (top - 24) 24
      → Keeps handler cpu_data top (run handler entry (syscall c))
      → Answers handler k (run handler entry (syscall c))
      → let before = run handler entry (syscall c) in
        let after = asm_syscall_handler handler (syscall c) in
        (rust_syscall_handler utf8_ok virt_ok phys_ok k (before.machine.regs rdi)
          ≡ some (u64_max, k))
        × (after.machine.rip ≡ c.machine.rip)
        × (after.machine.rflags ≡ c.machine.rflags)
        × (after.machine.rsp ≡ c.machine.rsp)
        × (after.machine.regs rax ≡ u64_max)
  syscall_fails handler k c cpu_data top base stack room small apart keeps answers =
      let (arg, _, rip, rflags, rsp, _, _, result) =
        syscall_resumes handler c cpu_data top base stack room small apart keeps in
      let before = run handler entry (syscall c) in
      let failed =
        rust_syscall_handler_fails utf8_ok virt_ok phys_ok k (before.machine.regs rdi)
          (omega (arith, arg, small)) in
      (failed, rip, rflags, rsp, result ∙ answers.answer u64_max k failed)
