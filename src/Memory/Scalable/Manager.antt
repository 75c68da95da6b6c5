-- ===== src/Memory/Scalable/Manager.antt =====
-- memory/scalable.rs: `GlobalMemoryManager`, the statics behind it and the functions of the module. The
-- heap comes back from a call that uses it. `manager.init` does not fail.
use mathlib.Core.Option
use ruix.Prelude.{
  ℕ, zero, suc, true, Option, none, some, List, [], ◌∷◌, if◌then◌else◌, checked_add, ◌>>=◌, ◌==◌,
  replicate,
}
use ruix.Error.{KernelResult, ok, err, kerror, memory, AllocError}
use ruix.Memory.Scalable.{
  AllocFlags, default_flags, AllocatorStats, no_stats, PerCpuAllocator, empty_frame_allocator,
  boxed, GlobalMemoryManager, System, HeapOps,
}

-- `unwrap_or(8)`
abbrev align_or_8 : Option ℕ → ℕ
align_or_8 none = 8
align_or_8 (some a) = a

abbrev pub new_per_cpu : ℕ → PerCpuAllocator
new_per_cpu cpu_id = record {
  cpu_id = cpu_id;
  small_free_list = [];
  large_allocations = [];
  stats = no_stats;
}

-- `new` of the manager, and the loop of its `init` over the ids of CPUs from `i` on.
unfoldable pub new_manager : (F : Type 0) → GlobalMemoryManager F
new_manager F = record {
  per_cpu_allocators = replicate 64 none;
  global_free_list = [];
  regions_by_type = [] ∷ [] ∷ [] ∷ [] ∷ [];
  frame_allocator = empty_frame_allocator;
}

unfoldable pub each_cpu : ℕ → ℕ → List (Option PerCpuAllocator)
each_cpu zero i = []
each_cpu (suc n) i = some (new_per_cpu i) ∷ each_cpu n (suc i)

unfoldable pub init_manager : {F : Type 0} → F → GlobalMemoryManager F → GlobalMemoryManager F
init_manager frame_allocator m = record m {
  frame_allocator = boxed frame_allocator;
  per_cpu_allocators = each_cpu 64 0;
}

unfoldable pub global_memory_manager :
    {F : Type 0} → System F → KernelResult (GlobalMemoryManager F)
global_memory_manager s =
    if s.memory_manager_init
    then (elim s.global_memory_manager [
      | none ↦ kerror memory AllocError.out_of_memory
      | some m ↦ ok m
    ])
    else kerror memory AllocError.out_of_memory

unfoldable pub init : {F : Type 0} → F → System F → KernelResult (Unit {0}) × System F
init {F} frame_allocator s = if s.memory_manager_init then (ok tt, s) else (
  ok tt,
  record {
    global_memory_manager = some (init_manager frame_allocator (new_manager F));
    memory_manager_init = true;
  },
)

-- What the pointer that the heap gave becomes.
abbrev located : {H : Type 0} → HeapOps H → ℕ × H → Option (KernelResult ℕ × H)
located ops (ptr, h) =
    if ptr == 0
    then some (kerror memory AllocError.out_of_memory, h)
    else Option.map (λ addr. (ok addr, h)) (ops.virt_addr ptr)

-- The manager's `allocate` and `free`, which read nothing of the manager.
unfoldable pub allocate_global :
    {H : Type 0} → HeapOps H → ℕ → AllocFlags → H → Option (KernelResult ℕ × H)
allocate_global ops size flags h =
    if ops.is_layout size (align_or_8 flags.align)
    then located ops (ops.alloc size (align_or_8 flags.align) h)
    else some (kerror memory AllocError.out_of_memory, h)

unfoldable pub free_global : {H : Type 0} → HeapOps H → ℕ → ℕ → H → KernelResult (Unit {0}) × H
free_global ops addr size h =
    if ops.is_layout size 8
    then (ok tt, ops.dealloc addr size 8 h)
    else (kerror memory AllocError.out_of_memory, h)

-- Without a manager, `allocate` and `free` go to the heap in the same way.
unfoldable pub allocate :
    {F H : Type 0} → System F → HeapOps H → ℕ → AllocFlags → H → Option (KernelResult ℕ × H)
allocate s ops size flags h = elim (global_memory_manager s) [
  | ok m ↦ allocate_global ops size flags h
  | err e ↦
      if ops.is_layout size (align_or_8 flags.align)
      then located ops (ops.alloc size (align_or_8 flags.align) h)
      else some (kerror memory AllocError.out_of_memory, h)
]

unfoldable allocate_simple :
    {F H : Type 0} → System F → HeapOps H → ℕ → H → Option (KernelResult ℕ × H)
allocate_simple s ops size h = allocate s ops size default_flags h

unfoldable pub free :
    {F H : Type 0} → System F → HeapOps H → ℕ → ℕ → H → KernelResult (Unit {0}) × H
free s ops addr size h = elim (global_memory_manager s) [
  | ok m ↦ free_global ops addr size h
  | err e ↦
      if ops.is_layout size 8
      then (ok tt, ops.dealloc addr size 8 h)
      else (kerror memory AllocError.out_of_memory, h)
]

-- Neither reads the page, the frame or the flags.
abbrev map_page : {F : Type 0} → GlobalMemoryManager F → KernelResult (Unit {0})
map_page m = kerror memory AllocError.invalid_address

unfoldable pub map_user_page : {F : Type 0} → System F → ℕ → ℕ → KernelResult (Unit {0})
map_user_page s page frame = elim (global_memory_manager s) [
  | ok m ↦ map_page m
  | err e ↦ kerror memory AllocError.out_of_memory
]

abbrev unmap_manager_page : {F : Type 0} → GlobalMemoryManager F → KernelResult (Unit {0})
unmap_manager_page m = kerror memory AllocError.invalid_address

unfoldable pub unmap_page : {F : Type 0} → System F → ℕ → KernelResult (Unit {0})
unmap_page s page = elim (global_memory_manager s) [
  | ok m ↦ unmap_manager_page m
  | err e ↦ kerror memory AllocError.out_of_memory
]

pub record GlobalMemoryStats : Type 0 where
  pub total_allocated : ℕ
  pub total_freed : ℕ
  pub current_usage : ℕ
  pub peak_usage : ℕ
  pub allocation_count : ℕ
  pub free_count : ℕ
  pub cpu_count : ℕ

abbrev pub zero_stats : GlobalMemoryStats
zero_stats = record {
  total_allocated = 0;
  total_freed = 0;
  current_usage = 0;
  peak_usage = 0;
  allocation_count = 0;
  free_count = 0;
  cpu_count = 0;
}

-- The checked sums over the allocators that exist.
unfoldable pub sum_stats : List (Option PerCpuAllocator) → AllocatorStats → Option AllocatorStats
sum_stats [] acc = some acc
sum_stats (none ∷ rest) acc = sum_stats rest acc
sum_stats (some a ∷ rest) acc = do
  total_allocated ← checked_add acc.total_allocated a.stats.total_allocated
  total_freed ← checked_add acc.total_freed a.stats.total_freed
  current_usage ← checked_add acc.current_usage a.stats.current_usage
  peak_usage ← checked_add acc.peak_usage a.stats.peak_usage
  allocation_count ← checked_add acc.allocation_count a.stats.allocation_count
  free_count ← checked_add acc.free_count a.stats.free_count
  sum_stats rest (record {
    total_allocated = total_allocated;
    total_freed = total_freed;
    current_usage = current_usage;
    peak_usage = peak_usage;
    allocation_count = allocation_count;
    free_count = free_count;
  })

-- The count of CPUs is that of the CPU manager.
unfoldable pub get_global_stats :
    {F : Type 0} → GlobalMemoryManager F → ℕ → Option GlobalMemoryStats
get_global_stats m cpu_count =
    Option.map
      (λ s. record {
        total_allocated = s.total_allocated;
        total_freed = s.total_freed;
        current_usage = s.current_usage;
        peak_usage = s.peak_usage;
        allocation_count = s.allocation_count;
        free_count = s.free_count;
        cpu_count = cpu_count;
      })
      (sum_stats m.per_cpu_allocators no_stats)

unfoldable pub get_memory_stats : {F : Type 0} → System F → ℕ → Option GlobalMemoryStats
get_memory_stats s cpu_count = elim (global_memory_manager s) [
  | ok m ↦ get_global_stats m cpu_count
  | err e ↦ some zero_stats
]
