-- ===== src/Syscall/Confinement.antt =====
-- syscall.rs: which memory the system calls leave alone.
use ruix.Prelude.{
  ap, ℕ, ◌≤◌, ◌≡◌, refl, Bool, true, false, Option, none, some, List, arith, if◌then◌else◌,
  Bool-cases, inl, inr, take, min, ◌==◌,
}
use ruix.Error.{Result, IpcError, ok, err}
use ruix.Ipc.Message.{Message}
use ruix.Ipc.Channel.Calls.{receive_message}
use ruix.Syscall.{SyscallArgs}
use ruix.Syscall.Calls.{
  Kernel, Reply, fails, sys_getpid, sys_fork, sys_wait4, sys_sched_yield, sys_exit, target_child,
}
use ruix.Syscall.Messages.{
  sys_write, deliver, sys_create_channel, sys_send_message, sys_receive_message,
  sys_create_memory_handle, sys_transfer_memory, sys_receive_memory_handle, serve,
}
use ruix.Syscall.Stores.{
  Protected, refused, store-checked, length-take_le, reap-memory, block-memory,
}

sys_wait4-memory :
    (k : Kernel) (args : SyscallArgs) (a : ℕ)
    → Protected a
    → (sys_wait4 k args).1.memory a ≡ k.memory a
unfolding sys_wait4
sys_wait4-memory k args a p =
    let pid = target_child k.sched k.cpu.current_process_id args.arg1 in
    elim (Bool-cases (refused args.arg2 4)) [
      | inl bad ↦ ground arith
      | inr fine ↦ ground (
        arith,
        reap-memory k pid args.arg2 a p fine,
        ap (λ mem. mem a) (block-memory k args.arg1),
      )
    ]

deliver-memory :
    (k : Kernel) (ptr size : ℕ) (result : Result IpcError (Option Message)) (a : ℕ)
    → Protected a
    → size ≤ 256
    → refused ptr size ≡ false
    → (deliver k ptr size result).1.memory a ≡ k.memory a
unfolding deliver
deliver-memory k ptr size (err e) a p small fine = refl
deliver-memory k ptr size (ok none) a p small fine = refl
deliver-memory k ptr size (ok (some m)) a p small fine =
    let short = length-take_le (min m.data_len size) m.bytes in
    store-checked (take (min m.data_len size) m.bytes) ptr size k.memory a p (omega arith) small
      fine

sys_receive_message-memory :
    (k : Kernel) (args : SyscallArgs) (a : ℕ)
    → Protected a
    → (sys_receive_message k args).1.memory a ≡ k.memory a
unfolding sys_receive_message
sys_receive_message-memory k args a p =
    let (result, channels) = receive_message k.channels k.cpu.current_process_id args.arg1 in
    elim (Bool-cases (refused args.arg2 args.arg3)) [
      | inl bad ↦ ground arith
      | inr fine ↦
          ground (
            arith,
            deliver-memory (record k { channels = channels }) args.arg2 args.arg3 result a p,
          )
    ]

-- The other system calls leave memory alone.
abbrev Unwritten : Kernel → Option Reply → Type 0
Unwritten k reply = (r : ℕ) (k' : Kernel) → reply ≡ some (r, k') → k'.memory ≡ k.memory

sys_fork-memory : (k : Kernel) → Unwritten k (sys_fork k)
unfolding sys_fork
sys_fork-memory k r k' e = ground arith

sys_exit-memory : (k : Kernel) (args : SyscallArgs) → (sys_exit k args).1.memory ≡ k.memory
unfolding sys_exit
sys_exit-memory k args = ground arith

sys_write-memory :
    (utf8_ok : List ℕ → Bool) (k : Kernel) (args : SyscallArgs)
    → (sys_write utf8_ok k args).1.memory ≡ k.memory
unfolding sys_write
sys_write-memory utf8_ok k args = ground arith

sys_create_channel-memory :
    (k : Kernel) (args : SyscallArgs) → Unwritten k (sys_create_channel k args)
unfolding sys_create_channel
sys_create_channel-memory k args r k' e = ground arith

sys_send_message-memory :
    (k : Kernel) (args : SyscallArgs) → (sys_send_message k args).1.memory ≡ k.memory
unfolding sys_send_message
sys_send_message-memory k args = ground arith

module _ (virt_ok phys_ok : ℕ → Bool) (k : Kernel) (args : SyscallArgs) where
  sys_create_memory_handle-memory : Unwritten k (sys_create_memory_handle virt_ok phys_ok k args)
  unfolding sys_create_memory_handle
  sys_create_memory_handle-memory r k' e = ground arith

  sys_transfer_memory-memory : Unwritten k (sys_transfer_memory virt_ok phys_ok k args)
  unfolding sys_transfer_memory
  sys_transfer_memory-memory r k' e = ground arith

  sys_receive_memory_handle-memory : Unwritten k (sys_receive_memory_handle virt_ok phys_ok k args)
  unfolding sys_receive_memory_handle
  sys_receive_memory_handle-memory r k' e = ground arith

-- The address keeps its byte.
abbrev Kept : Kernel → ℕ → Option Reply → Type 0
Kept k a reply = (r : ℕ) (k' : Kernel) → reply ≡ some (r, k') → k'.memory a ≡ k.memory a

Kept-if :
    (k : Kernel) (a : ℕ) (b : Bool) (x y : Option Reply)
    → Kept k a x
    → Kept k a y
    → Kept k a (if b then x else y)
Kept-if k a true x y left right = left
Kept-if k a false x y left right = right

Kept-some :
    (k : Kernel) (a : ℕ) (reply : Reply) → reply.1.memory a ≡ k.memory a → Kept k a (some reply)
Kept-some k a reply same r k' e = ground arith

Kept-Unwritten : (k : Kernel) (a : ℕ) (reply : Option Reply) → Unwritten k reply → Kept k a reply
Kept-Unwritten k a reply same r k' e = ap (λ mem. mem a) (same r k' e)

Kept-memory :
    (k : Kernel) (a : ℕ) (reply : Reply) → reply.1.memory ≡ k.memory → Kept k a (some reply)
Kept-memory k a reply same = Kept-some k a reply (ap (λ mem. mem a) same)

module _ (utf8_ok : List ℕ → Bool) (virt_ok phys_ok : ℕ → Bool) where
  -- A system call that does not panic leaves each byte of memory as it is that lies outside the user's
  -- addresses 0x400000 to 0x7FFFFFFF and not in the first 256 bytes.
  pub serve-memory :
      (k : Kernel) (args : SyscallArgs) (r : ℕ) (k' : Kernel) (a : ℕ)
      → Protected a
      → serve utf8_ok virt_ok phys_ok k args ≡ some (r, k')
      → k'.memory a ≡ k.memory a
  unfolding serve sys_getpid sys_sched_yield
  serve-memory k args r k' a p e = kept r k' e
    where
      n : ℕ
      n = args.syscall_number

      kept : Kept k a (serve utf8_ok virt_ok phys_ok k args)
      kept = Kept-if k a (n == 39) _ _ (Kept-some k a (sys_getpid k) refl) (
          Kept-if k a (n == 57) _ _ (Kept-Unwritten k a (sys_fork k) (sys_fork-memory k)) (
            Kept-if k a (n == 61) _ _
              (Kept-some k a (sys_wait4 k args) (sys_wait4-memory k args a p))
              (Kept-if k a (n == 24) _ _ (Kept-some k a (sys_sched_yield k) refl) (
                Kept-if k a (n == 0) _ _
                  (Kept-memory k a (sys_exit k args) (sys_exit-memory k args))
                  (Kept-if k a (n == 1) _ _
                    (Kept-memory k a (sys_write utf8_ok k args) (sys_write-memory utf8_ok k args))
                    (Kept-if k a (n == 2) _ _
                      (Kept-Unwritten k a (sys_create_channel k args)
                        (sys_create_channel-memory k args))
                      (Kept-if k a (n == 3) _ _
                        (Kept-memory k a (sys_send_message k args) (sys_send_message-memory k args))
                        (Kept-if k a (n == 4) _ _
                          (Kept-some k a (sys_receive_message k args)
                            (sys_receive_message-memory k args a p))
                          (Kept-if k a (n == 5) _ _
                            (Kept-Unwritten k a (sys_create_memory_handle virt_ok phys_ok k args)
                              (sys_create_memory_handle-memory virt_ok phys_ok k args))
                            (Kept-if k a (n == 6) _ _
                              (Kept-Unwritten k a (sys_transfer_memory virt_ok phys_ok k args)
                                (sys_transfer_memory-memory virt_ok phys_ok k args))
                              (Kept-if k a (n == 7) _ _
                                (Kept-Unwritten k a
                                  (sys_receive_memory_handle virt_ok phys_ok k args)
                                  (sys_receive_memory_handle-memory virt_ok phys_ok k args))
                                (Kept-some k a (fails k) refl))))))))))))
