-- ===== src/Syscall/Waiting.antt =====
-- syscall.rs: a parent that waits for the child it has just forked.
use ruix.Prelude.{ℕ, ◌+◌, ◌<◌, ◌≡◌, ◌≢◌, ◌⊎◌, inl, inr, some, List, [], ◌∷◌, arith, u64_max, refl}
use ruix.Process.{Process, allocate_pid}
use ruix.Scheduler.{register_child}
use ruix.Error.{Result-cases}
use ruix.Syscall.{SyscallArgs}
use ruix.Syscall.Calls.{Kernel, register_fork, fork_from, sys_fork, sys_wait4}

register_fork-pid :
    (k : Kernel) (child_pid next_pid : ℕ)
    → ((register_fork k child_pid next_pid).0 ≡ child_pid)
      ⊎ ((register_fork k child_pid next_pid).0 ≡ u64_max)
unfolding register_fork
register_fork-pid k child_pid next_pid =
    elim (Result-cases (register_child k.sched k.cpu.current_process_id child_pid).0) [
      | inl (e, refused) ↦ inr (rw (register_fork, refused) refl)
      | inr (x, added) ↦ inl (rw (register_fork, added) refl)
    ]

fork_from-pid :
    (k : Kernel) (ps : List Process) (r : ℕ) (k' : Kernel)
    → fork_from k ps ≡ some (r, k')
    → (r ≡ k.next_pid) ⊎ (r ≡ u64_max)
unfolding fork_from allocate_pid
fork_from-pid k [] r k' e = inr (ground arith)
fork_from-pid k (p ∷ ps) r k' e = ground (arith, register_fork-pid k k.next_pid (k.next_pid + 1))

-- While fewer than a thousand ids were handed out, a parent that forks and waits for that child gets
-- -1 from `wait4`, which changes nothing.
pub sys_wait4-sys_fork :
    (k : Kernel) (args : SyscallArgs) (k' : Kernel)
    → k.next_pid < 1000
    → sys_fork k ≡ some (args.arg1, k')
    → args.arg1 ≢ u64_max
    → sys_wait4 k' args ≡ (u64_max, k')
unfolding sys_fork sys_wait4
sys_wait4-sys_fork k args k' few forked succeeded =
    elim (fork_from-pid k k.sched.processes args.arg1 k' forked) [
      | inl fresh ↦ ground arith
      | inr failed ↦ absurd (succeeded failed)
    ]
