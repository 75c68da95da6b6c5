-- ===== src/Syscall/Entry.antt =====
-- syscall.rs: what becomes of every system call.
use ruix.Prelude.{ℕ, ◌^◌, ◌<◌, ◌≡◌, refl, Bool, some, List, u64_max}
use ruix.Syscall.Parse.{safe_parse_fails}
use ruix.Syscall.Calls.{Kernel}
use ruix.Syscall.Messages.{rust_syscall_handler}

module _ (utf8_ok : List ℕ → Bool) (virt_ok phys_ok : ℕ → Bool) where
  -- On every 64-bit stack pointer and in every state of the kernel, the handler of system calls returns
  -- -1 and changes nothing: no system call is served.
  pub rust_syscall_handler_fails :
      (k : Kernel) (stack_ptr : ℕ)
      → stack_ptr < 2 ^ 64
      → rust_syscall_handler utf8_ok virt_ok phys_ok k stack_ptr ≡ some (u64_max, k)
  unfolding rust_syscall_handler
  rust_syscall_handler_fails k stack_ptr word =
      rw (rust_syscall_handler, safe_parse_fails k.memory stack_ptr word) refl
