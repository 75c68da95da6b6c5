-- ===== src/Tests/Calls.antt =====
-- System calls: concrete runs, in a kernel whose memory is zero.
use ruix.Prelude.{
  ℕ, ◌^◌, ◌<◌, ◌≡◌, sym, ◌∙◌, Option, refl, Bool, true, some, List, [], ◌∷◌, arith, u64_max, inl,
}
use ruix.Ipc.Channel.{ChannelRegistry, get_channel, receive}
use ruix.Ipc.Channel.Calls.{receive_message}
use ruix.Syscall.{SyscallArgs}
use ruix.Syscall.Calls.{sys_wait4, sys_fork, fork_from, register_fork, Kernel}
use ruix.Syscall.Messages.{serve, rust_syscall_handler, sys_receive_message, deliver}
use ruix.Syscall.Confinement.{serve-memory}
use ruix.Syscall.Waiting.{sys_wait4-sys_fork}
use ruix.Process.{allocate_pid, check_resource_limits, add_child}
use ruix.Scheduler.{register_child, try_first}
use ruix.Syscall.Entry.{rust_syscall_handler_fails}
use ruix.Syscall.Assembly.{Core, Handler, run, step, entry, asm_syscall_handler, syscall}
use ruix.Syscall.Returning.{Keeps}
use ruix.Syscall.Failing.{Answers, syscall_fails}
use ruix.Interrupts.{rax, rdi, set}
use ruix.Tests.{family, cpu}

abbrev any_address : ℕ → Bool
any_address a = true

abbrev any_text : List ℕ → Bool
any_text bytes = true

-- A channel from process 1 to process 2, with one message in it.
abbrev channels : ChannelRegistry
channels = record {
  channels =
      record {
        id = 1;
        endpoint1 = 1;
        endpoint2 = 2;
        queue1_to_2 = record { sender_pid = 1; msg_type = 0; bytes = 104 ∷ []; data_len = 1 } ∷ [];
        queue2_to_1 = [];
      }
      ∷ [];
  next_id = 2;
}

abbrev kernel : Kernel
kernel = record {
  sched = family;
  cpu = cpu;
  channels = channels;
  handles = [];
  next_handle_id = 1;
  next_pid = 3;
  memory = λ a. 0;
  console = [];
}

abbrev getpid : SyscallArgs
getpid = record { syscall_number = 39; arg1 = 0; arg2 = 0; arg3 = 0; arg4 = 0; arg5 = 0; arg6 = 0 }

-- Process 2 receives from the channel into a buffer of 256 bytes at address 0.
abbrev receive_to_null : SyscallArgs
receive_to_null = record getpid { syscall_number = 4; arg1 = 1; arg3 = 256 }

-- The null buffer is written to.
receive_to_null_writes : (sys_receive_message kernel receive_to_null).1.memory 0 ≡ 104
unfolding sys_receive_message receive_message get_channel receive deliver
receive_to_null_writes = refl

-- A program executes `syscall`; every word of memory holds the end of the kernel's stack.
abbrev core : Core
core = record {
  machine = record {
    regs = λ r. 39;
    rsp = 0x601000;
    rip = 0x400000;
    cs = 35;
    rflags = 0x202;
    ss = 27;
    memory = λ a. 0x20000;
  };
  gs_base = 5;
  kernel_gs_base = 0x8000;
}

abbrev handler : Handler
handler c = record c { machine = record (c.machine) { regs = set rax u64_max c.machine.regs } }

keeps : (c : Core) → Keeps handler 0x8000 0x20000 c
keeps c = record {
  rsp = refl;
  gs_base = refl;
  kernel_gs_base = refl;
  flags_word = refl;
  return_word = refl;
  stack_word = refl;
}

first_of :
    {A B : Type 0} {a c : A} {b d : B}
    → ◌≡◌ {A = Option (A × B)} (some (a, b)) (some (c, d))
    → a ≡ c
first_of e = cc

answers :
    (c : Core)
    → c.machine.regs rdi < 2 ^ 64
    → Answers any_text any_address any_address handler kernel c
answers c word = record {
  answer = λ r k1 e. first_of (
      sym (
        rust_syscall_handler_fails any_text any_address any_address kernel (c.machine.regs rdi)
          word)
      ∙ e);
}

syscall_fails_example :
    let before = run handler entry (syscall core) in
    let left = asm_syscall_handler handler (syscall core) in
    (rust_syscall_handler any_text any_address any_address kernel (before.machine.regs rdi)
      ≡ some (u64_max, kernel))
    × (left.machine.rip ≡ 0x400000)
    × (left.machine.rflags ≡ 0x202)
    × (left.machine.rsp ≡ 0x601000)
    × (left.machine.regs rax ≡ u64_max)
unfolding run step
syscall_fails_example =
    syscall_fails any_text any_address any_address handler kernel core 0x8000 0x20000 refl refl
      (omega arith) (omega arith) (inl (omega arith)) (keeps (run handler entry (syscall core)))
      (answers (run handler entry (syscall core)) (omega arith))

serve-memory_example : (sys_receive_message kernel receive_to_null).1.memory 300 ≡ 0
unfolding serve
serve-memory_example =
    serve-memory any_text any_address any_address kernel receive_to_null 1
      (sys_receive_message kernel receive_to_null).1 300 (omega arith, inl (omega arith)) refl

-- Process 2 forks, and waits for its child 3.
abbrev wait_for_child : SyscallArgs
wait_for_child = record getpid { syscall_number = 61; arg1 = 3 }

sys_wait4-sys_fork_example :
    sys_wait4 (register_fork kernel 3 4).1 wait_for_child ≡ (u64_max, (register_fork kernel 3 4).1)
unfolding sys_fork fork_from allocate_pid check_resource_limits register_fork register_child
    try_first add_child
sys_wait4-sys_fork_example =
    sys_wait4-sys_fork kernel wait_for_child (register_fork kernel 3 4).1 (omega arith) refl
      (omega arith)
