-- ===== src/Error/Display.antt =====
-- error.rs: the text that is logged for an error tells the error.
use Prim.Native.String.{String}
use text.Mathlib.Text.{◌==◌ as str_eq}
use ruix.Prelude.{◌≡◌, refl, sym, ap, ◌∙◌, Option, some, some-inj, List, [], ◌∷◌, find?}
use ruix.Error.{
  KernelError, memory, process, syscall, ipc, hardware, general, AllocError, ProcessError,
  SyscallError, IpcError, HardwareError, GeneralError, display,
}

abbrev every_error : List KernelError
every_error =
    memory AllocError.out_of_memory
    ∷ memory AllocError.bad_alignment
    ∷ memory AllocError.already_in_use
    ∷ memory AllocError.invalid_address
    ∷ memory AllocError.permission_denied
    ∷ process ProcessError.invalid_pid
    ∷ process ProcessError.not_found
    ∷ process ProcessError.already_exists
    ∷ process ProcessError.invalid_state
    ∷ process ProcessError.stack_allocation_failed
    ∷ process ProcessError.context_switch_failed
    ∷ syscall SyscallError.invalid_number
    ∷ syscall SyscallError.invalid_args
    ∷ syscall SyscallError.permission_denied
    ∷ syscall SyscallError.resource_unavailable
    ∷ syscall SyscallError.not_supported
    ∷ syscall SyscallError.buffer_too_small
    ∷ ipc IpcError.channel_not_found
    ∷ ipc IpcError.channel_exists
    ∷ ipc IpcError.message_too_large
    ∷ ipc IpcError.no_message
    ∷ ipc IpcError.invalid_channel_id
    ∷ ipc IpcError.connection_refused
    ∷ ipc IpcError.invalid_sender
    ∷ ipc IpcError.channel_full
    ∷ ipc IpcError.handle_not_found
    ∷ ipc IpcError.invalid_range
    ∷ ipc IpcError.access_denied
    ∷ ipc IpcError.transfer_failed
    ∷ ipc IpcError.mapping_failed
    ∷ ipc IpcError.unmapping_failed
    ∷ ipc IpcError.invalid_address
    ∷ ipc IpcError.invalid_process
    ∷ ipc IpcError.circular_transfer
    ∷ hardware HardwareError.device_not_found
    ∷ hardware HardwareError.device_busy
    ∷ hardware HardwareError.io_failed
    ∷ hardware HardwareError.invalid_port
    ∷ hardware HardwareError.timeout
    ∷ general GeneralError.invalid_operation
    ∷ general GeneralError.not_implemented
    ∷ general GeneralError.internal
    ∷ general GeneralError.invalid_state
    ∷ []

read_back : String → Option KernelError
unfolding display
read_back s = find? (λ e. str_eq (display e) s) every_error

read_back-display : (e : KernelError) → read_back (display e) ≡ some e
unfolding read_back display
read_back-display (memory AllocError.out_of_memory) = refl
read_back-display (memory AllocError.bad_alignment) = refl
read_back-display (memory AllocError.already_in_use) = refl
read_back-display (memory AllocError.invalid_address) = refl
read_back-display (memory AllocError.permission_denied) = refl
read_back-display (process ProcessError.invalid_pid) = refl
read_back-display (process ProcessError.not_found) = refl
read_back-display (process ProcessError.already_exists) = refl
read_back-display (process ProcessError.invalid_state) = refl
read_back-display (process ProcessError.stack_allocation_failed) = refl
read_back-display (process ProcessError.context_switch_failed) = refl
read_back-display (syscall SyscallError.invalid_number) = refl
read_back-display (syscall SyscallError.invalid_args) = refl
read_back-display (syscall SyscallError.permission_denied) = refl
read_back-display (syscall SyscallError.resource_unavailable) = refl
read_back-display (syscall SyscallError.not_supported) = refl
read_back-display (syscall SyscallError.buffer_too_small) = refl
read_back-display (ipc IpcError.channel_not_found) = refl
read_back-display (ipc IpcError.channel_exists) = refl
read_back-display (ipc IpcError.message_too_large) = refl
read_back-display (ipc IpcError.no_message) = refl
read_back-display (ipc IpcError.invalid_channel_id) = refl
read_back-display (ipc IpcError.connection_refused) = refl
read_back-display (ipc IpcError.invalid_sender) = refl
read_back-display (ipc IpcError.channel_full) = refl
read_back-display (ipc IpcError.handle_not_found) = refl
read_back-display (ipc IpcError.invalid_range) = refl
read_back-display (ipc IpcError.access_denied) = refl
read_back-display (ipc IpcError.transfer_failed) = refl
read_back-display (ipc IpcError.mapping_failed) = refl
read_back-display (ipc IpcError.unmapping_failed) = refl
read_back-display (ipc IpcError.invalid_address) = refl
read_back-display (ipc IpcError.invalid_process) = refl
read_back-display (ipc IpcError.circular_transfer) = refl
read_back-display (hardware HardwareError.device_not_found) = refl
read_back-display (hardware HardwareError.device_busy) = refl
read_back-display (hardware HardwareError.io_failed) = refl
read_back-display (hardware HardwareError.invalid_port) = refl
read_back-display (hardware HardwareError.timeout) = refl
read_back-display (general GeneralError.invalid_operation) = refl
read_back-display (general GeneralError.not_implemented) = refl
read_back-display (general GeneralError.internal) = refl
read_back-display (general GeneralError.invalid_state) = refl

-- Two kernel errors with the same text are the same error, across all subsystems.
display_injective : (e f : KernelError) → display e ≡ display f → e ≡ f
display_injective e f h =
    some-inj (sym (read_back-display e) ∙ ap read_back h ∙ read_back-display f)
