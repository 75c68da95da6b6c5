-- ===== src/Error.antt =====
-- error.rs: the kernel's error types, the result of a kernel operation, the conversion of each
-- subsystem's errors (`From`, which `kerror!` calls), the texts of `Display`, and the recovery
-- strategies. The theorems stand in the modules below.
pub mod Display
pub mod Recovery
use Prim.Native.String.{String, ◌++◌}
use ruix.Prelude.{Bool, true, false, ◌≡◌, ◌⊎◌, inl, inr, refl}

pub data AllocError : Type 0 where
  out_of_memory bad_alignment already_in_use invalid_address permission_denied : AllocError

pub data ProcessError : Type 0 where
  invalid_pid not_found already_exists invalid_state : ProcessError
  stack_allocation_failed context_switch_failed : ProcessError

pub data SyscallError : Type 0 where
  invalid_number invalid_args permission_denied resource_unavailable : SyscallError
  not_supported buffer_too_small : SyscallError

pub data IpcError : Type 0 where
  channel_not_found channel_exists message_too_large no_message invalid_channel_id : IpcError
  connection_refused invalid_sender channel_full handle_not_found invalid_range : IpcError
  access_denied transfer_failed mapping_failed unmapping_failed invalid_address : IpcError
  invalid_process circular_transfer : IpcError

pub data HardwareError : Type 0 where
  device_not_found device_busy io_failed invalid_port timeout : HardwareError

pub data GeneralError : Type 0 where
  invalid_operation not_implemented internal invalid_state : GeneralError

pub data KernelError : Type 0 where
  memory : AllocError → KernelError
  process : ProcessError → KernelError
  syscall : SyscallError → KernelError
  ipc : IpcError → KernelError
  hardware : HardwareError → KernelError
  general : GeneralError → KernelError

-- Rust's `Result`, with the error type of each operation.
pub data Result {ℓ} (E : Type 0) (A : Type ℓ) : Type ℓ where
  ok : A → Result E A
  err : E → Result E A

abbrev pub KernelResult {ℓ} : Type ℓ → Type ℓ
KernelResult A = Result KernelError A

-- `is_ok`
abbrev pub is_ok {ℓ} : {E : Type 0} {A : Type ℓ} → Result E A → Bool
is_ok (ok a) = true
is_ok (err e) = false

pub Result-cases {ℓ} :
    {E : Type 0} {A : Type ℓ} (r : Result E A) → ((e : E) × (r ≡ err e)) ⊎ ((x : A) × (r ≡ ok x))
Result-cases (ok x) = inr (x, refl)
Result-cases (err e) = inl (e, refl)

-- `kerror!`: the error goes through the `From` of its subsystem, a constructor of `KernelError`.
abbrev pub kerror {ℓ κ} : {A : Type ℓ} {E : Type κ} → (E → KernelError) → E → KernelResult A
kerror from e = err (from e)

-- `fmt` of each `Display`.
display_alloc : AllocError → String
display_alloc AllocError.out_of_memory = "Out of memory"
display_alloc AllocError.bad_alignment = "Bad memory alignment"
display_alloc AllocError.already_in_use = "Memory region already in use"
display_alloc AllocError.invalid_address = "Invalid memory address"
display_alloc AllocError.permission_denied = "Permission denied"

display_process : ProcessError → String
display_process ProcessError.invalid_pid = "Invalid process ID"
display_process ProcessError.not_found = "Process not found"
display_process ProcessError.already_exists = "Process already exists"
display_process ProcessError.invalid_state = "Invalid process state"
display_process ProcessError.stack_allocation_failed = "Stack allocation failed"
display_process ProcessError.context_switch_failed = "Context switch failed"

display_syscall : SyscallError → String
display_syscall SyscallError.invalid_number = "Invalid system call number"
display_syscall SyscallError.invalid_args = "Invalid arguments"
display_syscall SyscallError.permission_denied = "Permission denied"
display_syscall SyscallError.resource_unavailable = "Resource unavailable"
display_syscall SyscallError.not_supported = "Operation not supported"
display_syscall SyscallError.buffer_too_small = "Buffer too small"

display_ipc : IpcError → String
display_ipc IpcError.channel_not_found = "Channel not found"
display_ipc IpcError.channel_exists = "Channel already exists"
display_ipc IpcError.message_too_large = "Message too large"
display_ipc IpcError.no_message = "No message available"
display_ipc IpcError.invalid_channel_id = "Invalid channel ID"
display_ipc IpcError.connection_refused = "Connection refused"
display_ipc IpcError.invalid_sender = "Invalid sender"
display_ipc IpcError.channel_full = "Channel full"
display_ipc IpcError.handle_not_found = "Handle not found"
display_ipc IpcError.invalid_range = "Invalid memory range"
display_ipc IpcError.access_denied = "Access denied"
display_ipc IpcError.transfer_failed = "Transfer failed"
display_ipc IpcError.mapping_failed = "Mapping failed"
display_ipc IpcError.unmapping_failed = "Unmapping failed"
display_ipc IpcError.invalid_address = "Invalid address"
display_ipc IpcError.invalid_process = "Invalid process"
display_ipc IpcError.circular_transfer = "Circular transfer detected"

display_hardware : HardwareError → String
display_hardware HardwareError.device_not_found = "Device not found"
display_hardware HardwareError.device_busy = "Device busy"
display_hardware HardwareError.io_failed = "IO operation failed"
display_hardware HardwareError.invalid_port = "Invalid port"
display_hardware HardwareError.timeout = "Timeout"

display_general : GeneralError → String
display_general GeneralError.invalid_operation = "Invalid operation"
display_general GeneralError.not_implemented = "Not implemented"
display_general GeneralError.internal = "Internal error"
display_general GeneralError.invalid_state = "Invalid state"

pub display : KernelError → String
unfolding display_alloc display_process display_syscall display_ipc display_hardware display_general
display (memory e) = "Memory error: " ++ display_alloc e
display (process e) = "Process error: " ++ display_process e
display (syscall e) = "Syscall error: " ++ display_syscall e
display (ipc e) = "IPC error: " ++ display_ipc e
display (hardware e) = "Hardware error: " ++ display_hardware e
display (general e) = "General error: " ++ display_general e

pub data RecoveryStrategy : Type 0 where
  retry skip abort reboot panic : RecoveryStrategy

pub get_recovery_strategy : KernelError → RecoveryStrategy
get_recovery_strategy (memory AllocError.out_of_memory) = abort
get_recovery_strategy (memory _) = retry
get_recovery_strategy (process _) = abort
get_recovery_strategy (syscall _) = skip
get_recovery_strategy (ipc _) = retry
get_recovery_strategy (hardware HardwareError.device_not_found) = abort
get_recovery_strategy (hardware _) = retry
get_recovery_strategy (general GeneralError.internal) = panic
get_recovery_strategy (general _) = abort
