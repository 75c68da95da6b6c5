-- ===== src/Cpu.antt =====
-- cpu.rs: the data of each CPU, the CPU manager, and the performance counters. A call on a CPU through the
-- manager's mutable reference is a change of the manager. Atomic counters wrap around. The load average,
-- a float that nothing reads or changes, is left out. `none` is a panic.
pub mod Manager
pub mod Nesting
use mathlib.Core.Option
use ruix.Prelude.{
  ℕ, zero, suc, ◌+◌, ◌-◌, ◌*◌, ◌%◌, Bool, true, false, not, Option, none, some, List, [], ◌∷◌, ltb,
  leb, if◌then◌else◌, ◌==◌, checked_add, wrapping_add, wrapping_sub, u64_mod, replicate, length,
  ◌>>=◌,
}
use ruix.Error.{
  KernelError, KernelResult, Result, ok, err, kerror, general, memory, GeneralError, AllocError,
}

abbrev pub max_cpus : ℕ
max_cpus = 64

pub record CpuLocalStorage : Type 0 where
  pub current_task : Option ℕ
  pub flags : ℕ
  pub perf_counters : List ℕ
  pub last_error : Option KernelError

pub record CpuSchedulerState : Type 0 where
  pub is_scheduling : Bool
  pub next_task : Option ℕ
  pub quantum_remaining : ℕ

pub record CpuData : Type 0 where
  pub cpu_id : ℕ
  pub current_process_id : ℕ
  pub user_rsp : ℕ
  pub kernel_stack_top : ℕ
  pub tss_ptr : ℕ
  pub local_storage : CpuLocalStorage
  pub interrupt_depth : ℕ
  pub scheduler_state : CpuSchedulerState

unfoldable pub new : ℕ → ℕ → CpuData
new cpu_id kernel_stack_top = record {
  cpu_id = cpu_id;
  current_process_id = 0;
  user_rsp = 0;
  kernel_stack_top = kernel_stack_top;
  tss_ptr = 0;
  local_storage = record {
    current_task = none;
    flags = 0;
    perf_counters = 0 ∷ 0 ∷ 0 ∷ 0 ∷ [];
    last_error = none;
  };
  interrupt_depth = 0;
  scheduler_state = record { is_scheduling = false; next_task = none; quantum_remaining = 0 };
}

unfoldable set_current_process_id : ℕ → CpuData → CpuData
set_current_process_id pid c = record c { current_process_id = pid }

unfoldable set_user_rsp : ℕ → CpuData → CpuData
set_user_rsp rsp c = record c { user_rsp = rsp }

unfoldable pub enter_interrupt : CpuData → CpuData
enter_interrupt c = record c { interrupt_depth = wrapping_add c.interrupt_depth 1 }

-- The branch for the last level has no code.
unfoldable pub exit_interrupt : CpuData → CpuData
exit_interrupt c = record c { interrupt_depth = wrapping_sub c.interrupt_depth 1 }

unfoldable pub in_interrupt : CpuData → Bool
in_interrupt c = ltb 0 c.interrupt_depth

-- `flags & CPU_FLAG_PENDING_WORK` is the lowest bit.
abbrev pub pending : CpuData → Bool
pending c = not (c.local_storage.flags % 2 == 0)

unfoldable process_pending_work : CpuData → CpuData
process_pending_work c = record c {
  local_storage = record (c.local_storage) {
    flags = c.local_storage.flags - c.local_storage.flags % 2;
  };
}

unfoldable handle_interrupt_exit : CpuData → CpuData
handle_interrupt_exit c = if pending c then process_pending_work c else c

unfoldable set_last_error : KernelError → CpuData → CpuData
set_last_error error c = record c {
  local_storage = record (c.local_storage) { last_error = some error };
}

unfoldable take_last_error : CpuData → Option KernelError × CpuData
take_last_error c = (
  c.local_storage.last_error,
  record c { local_storage = record (c.local_storage) { last_error = none } },
)

pub record CpuManager : Type 0 where
  pub cpus : List (Option CpuData)
  pub cpu_count : ℕ
  pub current_cpu : ℕ

abbrev pub new_manager : CpuManager
new_manager = record { cpus = replicate 64 none; cpu_count = 0; current_cpu = 0 }

-- `cpus[i]`, for an index in range.
unfoldable pub slot : ℕ → List (Option CpuData) → Option CpuData
slot i [] = none
slot zero (c ∷ cs) = c
slot (suc i) (c ∷ cs) = slot i cs

unfoldable pub set_slot : ℕ → CpuData → List (Option CpuData) → List (Option CpuData)
set_slot i d [] = []
set_slot zero d (c ∷ cs) = some d ∷ cs
set_slot (suc i) d (c ∷ cs) = c ∷ set_slot i d cs

abbrev fill : ℕ → ℕ → CpuManager → Option CpuData → KernelResult (Unit {0}) × CpuManager
fill cpu_id kernel_stack_top m (some c) = (kerror general GeneralError.invalid_state, m)
fill cpu_id kernel_stack_top m none = (
  ok tt,
  record m {
    cpus = set_slot cpu_id (new cpu_id kernel_stack_top) m.cpus;
    cpu_count = wrapping_add m.cpu_count 1;
  },
)

unfoldable pub init_cpu : ℕ → ℕ → CpuManager → KernelResult (Unit {0}) × CpuManager
init_cpu cpu_id kernel_stack_top m =
    if leb max_cpus cpu_id
    then (kerror general GeneralError.invalid_operation, m)
    else fill cpu_id kernel_stack_top m (slot cpu_id m.cpus)

abbrev pub or_invalid_state : Option CpuData → KernelResult CpuData
or_invalid_state none = kerror general GeneralError.invalid_state
or_invalid_state (some c) = ok c

unfoldable pub get_cpu : CpuManager → ℕ → KernelResult CpuData
get_cpu m cpu_id =
    if leb max_cpus cpu_id
    then kerror general GeneralError.invalid_operation
    else or_invalid_state (slot cpu_id m.cpus)

unfoldable get_current_cpu : CpuManager → KernelResult CpuData
get_current_cpu m = get_cpu m m.current_cpu

abbrev stored :
    ℕ
    → (CpuData → CpuData)
    → CpuManager
    → KernelResult CpuData
    → KernelResult (Unit {0}) × CpuManager
stored cpu_id f m (ok c) = (ok tt, record m { cpus = set_slot cpu_id (f c) m.cpus })
stored cpu_id f m (err e) = (err e, m)

-- `get_cpu_mut` with what is done through the reference.
unfoldable get_cpu_mut : CpuManager → ℕ → (CpuData → CpuData) → KernelResult (Unit {0}) × CpuManager
get_cpu_mut m cpu_id f = stored cpu_id f m (get_cpu m cpu_id)

unfoldable get_current_cpu_mut :
    CpuManager → (CpuData → CpuData) → KernelResult (Unit {0}) × CpuManager
get_current_cpu_mut m f = get_cpu_mut m m.current_cpu f

unfoldable pub set_current_cpu : ℕ → CpuManager → CpuManager
set_current_cpu cpu_id m = record m { current_cpu = cpu_id }

-- `iter_cpus`
unfoldable pub iter_cpus : List (Option CpuData) → List CpuData
iter_cpus [] = []
iter_cpus (none ∷ cs) = iter_cpus cs
iter_cpus (some c ∷ cs) = c ∷ iter_cpus cs

abbrev pub kernel_stack_size : ℕ
kernel_stack_size = 16 * 1024

abbrev pub kernel_stack_base : ℕ
kernel_stack_base = 0xFFFF800000000000

abbrev checked_mul : ℕ → ℕ → Option ℕ
checked_mul a b = if ltb (a * b) u64_mod then some (a * b) else none

unfoldable pub get_kernel_stack_for_cpu : ℕ → Option (KernelResult ℕ)
get_kernel_stack_for_cpu cpu_id = do
  offset ← checked_mul cpu_id kernel_stack_size
  stack_base ← checked_add kernel_stack_base offset
  if not (stack_base % 16 == 0)
      then some (kerror memory AllocError.bad_alignment)
      else Option.map (λ top. ok top) (checked_add stack_base kernel_stack_size)

abbrev selected : KernelResult (Unit {0}) × CpuManager → KernelResult (Unit {0}) × CpuManager
selected (ok u, m) = (ok tt, set_current_cpu 0 m)
selected (err e, m) = (err e, m)

abbrev with_stack : CpuManager → KernelResult ℕ → KernelResult (Unit {0}) × CpuManager
with_stack m (err e) = (err e, m)
with_stack m (ok top) = selected (init_cpu 0 top m)

unfoldable pub init : CpuManager → Option (KernelResult (Unit {0}) × CpuManager)
init m = Option.map (with_stack m) (get_kernel_stack_for_cpu 0)

pub record PerfMonitor : Type 0 where
  pub context_switches : ℕ
  pub interrupts_handled : ℕ
  pub syscalls_handled : ℕ

unfoldable increment_context_switches : PerfMonitor → PerfMonitor
increment_context_switches p = record p { context_switches = wrapping_add p.context_switches 1 }

unfoldable increment_interrupts : PerfMonitor → PerfMonitor
increment_interrupts p = record p { interrupts_handled = wrapping_add p.interrupts_handled 1 }

unfoldable increment_syscalls : PerfMonitor → PerfMonitor
increment_syscalls p = record p { syscalls_handled = wrapping_add p.syscalls_handled 1 }

unfoldable get_stats : PerfMonitor → ℕ × ℕ × ℕ
get_stats p = (p.context_switches, p.interrupts_handled, p.syscalls_handled)
