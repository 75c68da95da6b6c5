-- ===== src/Syscall/Calls.antt =====
-- syscall.rs: the branches of `rust_syscall_handler`, one for each system call, for the process
-- `CPU_DATA.current_process_id`. A result is a 64-bit word, -1 is `u64_max`, and `none` is a panic.
-- Printed messages are left out, but for what `sys_write` prints.
use ruix.Prelude.{
  ℕ, zero, suc, ◌+◌, ◌/◌, ◌%◌, ◌&&◌, ◌||◌, not, Option, none, some, List, [], ◌∷◌, ◌++◌, ltb, leb,
  ◌==◌, if◌then◌else◌, find?, u64_max, ℤ, pos, negsuc, ltb_ℤ, as_signed, as_unsigned,
}
use ruix.Error.{ok, err, is_ok}
use ruix.Process.{Process, ready, waiting, child, check_resource_limits, allocate_pid}
use ruix.Scheduler.{
  Scheduler, Cpu, register_child, find_zombie_children, reap_zombie_child, handle_process_exit,
}
use ruix.Ipc.Channel.{ChannelRegistry}
use ruix.Ipc.Handle.{Registry}
use ruix.Syscall.{Memory, SyscallArgs, validate_user_pointer}

-- What the system calls read and change: the globals of the kernel, memory, and the console's bytes.
pub record Kernel : Type 0 where
  pub sched : Scheduler
  pub cpu : Cpu
  pub channels : ChannelRegistry
  pub handles : Registry
  pub next_handle_id : ℕ
  pub next_pid : ℕ
  pub memory : Memory
  pub console : List ℕ

abbrev pub Reply : Type 0
Reply = ℕ × Kernel

abbrev pub fails : Kernel → Reply
fails k = (u64_max, k)

abbrev pub store : List ℕ → ℕ → Memory → Memory
store [] addr mem = mem
store (b ∷ bs) addr mem = λ a. if a == addr then b else store bs (addr + 1) mem a

-- `from_raw_parts`: the bytes of a buffer.
unfoldable pub slice : ℕ → ℕ → Memory → List ℕ
slice zero addr mem = []
slice (suc n) addr mem = mem addr ∷ slice n (addr + 1) mem

-- The bytes of an i32, the lowest first.
abbrev pub i32_bytes : ℤ → List ℕ
i32_bytes code =
    let w = as_unsigned 32 code in w % 256 ∷ w / 256 % 256 ∷ w / 65536 % 256 ∷ w / 16777216 ∷ []

unfoldable pub sys_getpid : Kernel → Reply
sys_getpid k = (k.cpu.current_process_id, k)

-- `fork` once the parent has passed the checks.
unfoldable pub register_fork : Kernel → ℕ → ℕ → Reply
register_fork k child_pid next_pid =
    let (result, sched) = register_child k.sched k.cpu.current_process_id child_pid in
    let k' = record k { sched = sched; next_pid = next_pid } in
    elim result [ err _ ↦ fails k' | ok _ ↦ (child_pid, k') ]

-- `fork` on a queue, whose front is the process that forks.
unfoldable pub fork_from : Kernel → List Process → Option Reply
unfolding check_resource_limits allocate_pid register_fork
fork_from k [] = some (fails k)
fork_from k (parent ∷ _) =
    if not (parent.id == k.cpu.current_process_id)
    then some (fails k)
    else if not (check_resource_limits parent)
    then some (fails k)
    else if leb parent.resource_limits.max_processes parent.stats.children_count
    then some (fails k)
    else elim (allocate_pid k.next_pid) [
      | none ↦ none
      | some (child_pid, next_pid) ↦ some (register_fork k child_pid next_pid)
    ]

unfoldable pub sys_fork : Kernel → Option Reply
unfolding fork_from
sys_fork k = fork_from k k.sched.processes

-- The zombie child to reap, 0 if there is none.
unfoldable pub target_child : Scheduler → ℕ → ℕ → ℕ
unfolding find_zombie_children
target_child s current target =
    let found : ℕ = elim (find_zombie_children s current) [ [] ↦ 0 | pid ∷ _ ↦ pid ] in
    let named : ℕ = elim (find? (λ pid. pid == target) (find_zombie_children s current)) [
      | none ↦ 0
      | some pid ↦ pid
    ] in
    if target == u64_max then found else named

-- The processor switches to the front process of a queue.
unfoldable pub run_front : Kernel → List Process → Reply
run_front k [] = fails k
run_front k (p ∷ ps) = (
  p.context_ptr,
  record k {
    sched = record k.sched { processes = p ∷ ps };
    cpu = record { current_process_id = p.id; cr3 = p.page_table_frame };
  },
)

-- The current process waits, at the back of the queue, and the next one runs.
unfoldable pub block_front : Kernel → ℕ → List Process → Reply
unfolding run_front
block_front k target [] = fails k
block_front k target (p ∷ ps) =
    if not (p.id == k.cpu.current_process_id)
    then fails k
    else run_front k (ps ++ record p { state = waiting (child target) } ∷ [])

unfoldable pub block : Kernel → ℕ → Reply
unfolding block_front
block k target = block_front k target k.sched.processes

unfoldable pub reap : Kernel → ℕ → ℕ → Reply
unfolding reap_zombie_child
reap k pid status_ptr =
    let (result, sched) = reap_zombie_child k.sched k.cpu.current_process_id pid in
    elim result [
      | err _ ↦ fails (record k { sched = sched })
      | ok code ↦ (
        pid,
        record k {
          sched = sched;
          memory = if status_ptr == 0 then k.memory else store (i32_bytes code) status_ptr k.memory;
        },
      )
    ]

unfoldable pub sys_wait4 : Kernel → SyscallArgs → Reply
unfolding validate_user_pointer target_child reap block
sys_wait4 k args =
    let target = args.arg1 in
    let status_ptr = args.arg2 in
    if not (target == u64_max) && (ltb target 1000 || ltb 10000 target)
    then fails k
    else if not (status_ptr == 0) && not (is_ok (validate_user_pointer status_ptr 4))
    then fails k
    else if not (args.arg3 == 0)
    then fails k
    else let pid = target_child k.sched k.cpu.current_process_id target in
      if not (pid == 0) then reap k pid status_ptr else block k target

-- `front_mut`, if it is the current process, becomes ready.
abbrev yielded : ℕ → List Process → List Process
yielded current [] = []
yielded current (p ∷ ps) = (if p.id == current then record p { state = ready } else p) ∷ ps

unfoldable pub sys_sched_yield : Kernel → Reply
sys_sched_yield k = (
  0,
  record k {
    sched = record k.sched { processes = yielded k.cpu.current_process_id k.sched.processes };
  },
)

unfoldable pub sys_exit : Kernel → SyscallArgs → Reply
unfolding handle_process_exit
sys_exit k args =
    let code = as_signed 32 args.arg1 in
    if ltb_ℤ code (negsuc 254) || ltb_ℤ (pos 255) code
    then fails k
    else let (result, sched) = handle_process_exit k.sched k.cpu.current_process_id code in
      let k' = record k { sched = sched } in
      elim result [
        | err _ ↦ fails k'
        | ok _ ↦ (0, record k' { cpu = record k.cpu { current_process_id = 0 } })
      ]
