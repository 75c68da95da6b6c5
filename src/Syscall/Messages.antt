-- ===== src/Syscall/Messages.antt =====
-- syscall.rs: the branches of `rust_syscall_handler` for output, channels and memory handles, and the
-- handler. `from_utf8` and the constructors of an address belong to other crates: the parameters say
-- which bytes are UTF-8, and on which numbers `VirtAddr::new` and `PhysAddr::new` do not panic.
use ruix.Prelude.{
  ℕ, ◌-◌, ◌%◌, Bool, ◌&&◌, ◌||◌, not, Option, none, some, List, ◌++◌, ltb, ◌==◌, if◌then◌else◌,
  take, min, u32_mod, u64_max,
}
use ruix.Error.{Result, IpcError, ok, err, is_ok}
use ruix.Ipc.Message.{Message}
use ruix.Ipc.Channel.Calls.{create, send_message, receive_message}
use ruix.Ipc.Handle.{
  AccessRights, TransferMode, read_only, read_write, execute, ownership, shared, exclusive,
}
use ruix.Ipc.Handle.Calls.{create_memory_handle, transfer_memory, receive_memory_handle, address_ok}
use ruix.Syscall.{SyscallArgs, validate_user_pointer, safe_parse}
use ruix.Syscall.Calls.{
  Kernel, Reply, fails, store, slice, sys_getpid, sys_fork, sys_wait4, sys_sched_yield, sys_exit,
}

module _ (utf8_ok : List ℕ → Bool) where
  unfoldable pub sys_write : Kernel → SyscallArgs → Reply
  unfolding validate_user_pointer slice
  sys_write k args =
      let fd = args.arg1 in
      let buf = args.arg2 in
      let count = args.arg3 in
      if ltb 2 fd
      then fails k
      else if ltb 4096 count
      then fails k
      else if not (is_ok (validate_user_pointer buf count))
      then fails k
      else if not (fd == 1)
      then fails k
      else let bytes = slice count buf k.memory in
        if utf8_ok bytes then (count, record k { console = k.console ++ bytes }) else fails k

unfoldable pub sys_create_channel : Kernel → SyscallArgs → Option Reply
unfolding create
sys_create_channel k args =
    let target = args.arg1 in
    if target == 0 || ltb 10000 target
    then some (fails k)
    else elim (create k.channels k.cpu.current_process_id target) [
      | none ↦ none
      | some (ok id, channels) ↦ some (id, record k { channels = channels })
      | some (err _, channels) ↦ some (fails (record k { channels = channels }))
    ]

-- A null data pointer is not checked.
unfoldable pub sys_send_message : Kernel → SyscallArgs → Reply
unfolding validate_user_pointer slice send_message
sys_send_message k args =
    let id = args.arg1 in
    let data_ptr = args.arg3 in
    let data_len = args.arg4 in
    if id == 0 || ltb 1000 id
    then fails k
    else if ltb 256 data_len
    then fails k
    else if not (data_ptr == 0) && not (is_ok (validate_user_pointer data_ptr data_len))
    then fails k
    else let bytes = slice data_len data_ptr k.memory in
      let (result, channels) =
        send_message k.channels k.cpu.current_process_id id (args.arg2 % u32_mod) bytes in
      let k' = record k { channels = channels } in elim result [ ok _ ↦ (0, k') | err _ ↦ fails k' ]

-- What `sys_receive_message` does with the result; -2 says that there is no message.
unfoldable pub deliver : Kernel → ℕ → ℕ → Result IpcError (Option Message) → Reply
deliver k buffer_ptr buffer_size (err _) = fails k
deliver k buffer_ptr buffer_size (ok none) = (u64_max - 1, k)
deliver k buffer_ptr buffer_size (ok (some message)) =
    let copy_len = min message.data_len buffer_size in
    (copy_len, record k { memory = store (take copy_len message.bytes) buffer_ptr k.memory })

-- A null buffer pointer is not checked either.
unfoldable pub sys_receive_message : Kernel → SyscallArgs → Reply
unfolding validate_user_pointer receive_message deliver
sys_receive_message k args =
    let id = args.arg1 in
    let buffer_ptr = args.arg2 in
    let buffer_size = args.arg3 in
    if id == 0 || ltb 1000 id
    then fails k
    else if ltb 256 buffer_size
    then fails k
    else if not (buffer_ptr == 0) && not (is_ok (validate_user_pointer buffer_ptr buffer_size))
    then fails k
    else let (result, channels) = receive_message k.channels k.cpu.current_process_id id in
      deliver (record k { channels = channels }) buffer_ptr buffer_size result

unfoldable parse_rights : ℕ → Option AccessRights
parse_rights n =
    if n == 0
    then some read_only
    else if n == 1
    then some read_write
    else if n == 2
    then some execute
    else none

unfoldable parse_mode : ℕ → Option TransferMode
parse_mode n =
    if n == 0
    then some ownership
    else if n == 1
    then some shared
    else if n == 2
    then some exclusive
    else none

module _ (virt_ok phys_ok : ℕ → Bool) where
  unfoldable pub sys_create_memory_handle : Kernel → SyscallArgs → Option Reply
  unfolding parse_rights parse_mode validate_user_pointer create_memory_handle
  sys_create_memory_handle k args =
      if not (virt_ok args.arg1) then none else elim (parse_rights args.arg3) [
        | none ↦ some (fails k)
        | some rights ↦ elim (parse_mode args.arg4) [
          | none ↦ some (fails k)
          | some mode ↦
              if not (is_ok (validate_user_pointer args.arg1 args.arg2))
              then some (fails k)
              else let (result, handles, next) =
                  create_memory_handle k.handles k.next_handle_id k.cpu.current_process_id args.arg1
                    args.arg2 rights mode in
                let k' = record k { handles = handles; next_handle_id = next } in
                elim result [ ok id ↦ some (id, k') | err _ ↦ some (fails k') ]
        ]
      ]

  unfoldable pub sys_transfer_memory : Kernel → SyscallArgs → Option Reply
  unfolding transfer_memory
  sys_transfer_memory k args =
      if args.arg1 == 0
      then some (fails k)
      else if args.arg2 == 0 || ltb 10000 args.arg2
      then some (fails k)
      else elim (transfer_memory virt_ok phys_ok k.handles k.cpu.current_process_id args.arg1
          args.arg2) [
            | none ↦ none
            | some (ok _, handles) ↦ some (0, record k { handles = handles })
            | some (err _, handles) ↦ some (fails (record k { handles = handles }))
          ]

  -- The end of the range is computed to print it, which panics if it is no address.
  unfoldable pub sys_receive_memory_handle : Kernel → SyscallArgs → Option Reply
  unfolding receive_memory_handle
  sys_receive_memory_handle k args =
      if args.arg1 == 0
      then some (fails k)
      else elim (receive_memory_handle virt_ok phys_ok k.handles k.cpu.current_process_id
          args.arg1) [
            | none ↦ none
            | some (err _, handles) ↦ some (fails (record k { handles = handles }))
            | some (ok range, handles) ↦
                if address_ok virt_ok range.start_addr range.size
                then some (0, record k { handles = handles })
                else none
          ]

module _ (utf8_ok : List ℕ → Bool) (virt_ok phys_ok : ℕ → Bool) where
  -- The `match` on the number of the system call.
  unfoldable pub serve : Kernel → SyscallArgs → Option Reply
  unfolding sys_getpid sys_fork sys_wait4 sys_sched_yield sys_exit sys_write sys_create_channel
      sys_send_message sys_receive_message sys_create_memory_handle sys_transfer_memory
      sys_receive_memory_handle
  serve k args =
      let n = args.syscall_number in
      if n == 39
      then some (sys_getpid k)
      else if n == 57
      then sys_fork k
      else if n == 61
      then some (sys_wait4 k args)
      else if n == 24
      then some (sys_sched_yield k)
      else if n == 0
      then some (sys_exit k args)
      else if n == 1
      then some (sys_write utf8_ok k args)
      else if n == 2
      then sys_create_channel k args
      else if n == 3
      then some (sys_send_message k args)
      else if n == 4
      then some (sys_receive_message k args)
      else if n == 5
      then sys_create_memory_handle virt_ok phys_ok k args
      else if n == 6
      then sys_transfer_memory virt_ok phys_ok k args
      else if n == 7
      then sys_receive_memory_handle virt_ok phys_ok k args
      else some (fails k)

  unfoldable pub rust_syscall_handler : Kernel → ℕ → Option Reply
  unfolding safe_parse serve
  rust_syscall_handler k stack_ptr = elim (safe_parse k.memory stack_ptr) [
    | none ↦ none
    | some (err _) ↦ some (fails k)
    | some (ok args) ↦ serve k args
  ]
