-- ===== src/Error/Recovery.antt =====
-- error.rs: which errors are retried, and which stop the kernel.
use ruix.Prelude.{◌≡◌, ◌≢◌, ◌↔◌, arith}
use ruix.Error.{
  KernelError, memory, process, syscall, ipc, hardware, general, AllocError, HardwareError,
  GeneralError, retry, reboot, panic, get_recovery_strategy,
}

-- The errors of memory, IPC and hardware, less those for which there is nothing to try again.
abbrev IsTransient : KernelError → Type 0
IsTransient (memory e) = e ≢ AllocError.out_of_memory
IsTransient (ipc e) = Unit
IsTransient (hardware e) = e ≢ HardwareError.device_not_found
IsTransient _ = ⊥

-- An error is retried exactly when it is transient, only an internal error panics, and no error
-- reboots the machine.
get_recovery_strategy_lem :
    (e : KernelError)
    → ((get_recovery_strategy e ≡ retry) ↔ IsTransient e)
      × ((get_recovery_strategy e ≡ panic) ↔ (e ≡ general GeneralError.internal))
      × (get_recovery_strategy e ≢ reboot)
unfolding get_recovery_strategy
get_recovery_strategy_lem (memory AllocError.out_of_memory) = ground arith
get_recovery_strategy_lem (memory _) = ground arith
get_recovery_strategy_lem (process e) = ground arith
get_recovery_strategy_lem (syscall e) = ground arith
get_recovery_strategy_lem (ipc e) = ground arith
get_recovery_strategy_lem (hardware HardwareError.device_not_found) = ground arith
get_recovery_strategy_lem (hardware _) = ground arith
get_recovery_strategy_lem (general GeneralError.internal) = ground arith
get_recovery_strategy_lem (general _) = ground arith
