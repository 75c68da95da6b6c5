-- ===== src/Tests/Managed.antt =====
-- The memory manager: concrete runs.
use ruix.Prelude.{◌≡◌, wrapping_add, List, ℕ, ◌+◌, refl, true, false, Option, none, some, [], ◌∷◌}
use ruix.Memory.Scalable.{
  MemoryType, default_flags, MemoryRegion, new, overlaps, PerCpuAllocator, System, HeapOps,
}
use ruix.Memory.Scalable as Region
use ruix.Memory.Scalable.Manager.{
  init_manager, new_manager, new_per_cpu, global_memory_manager, allocate_global,
}
use ruix.Memory.Scalable.PerCpu.{
  try_local_allocate, allocate, free, global_allocate, position, swap_remove, pop_last,
}
use ruix.Memory.Scalable.Pages.{MapperOps}
use ruix.Memory.Scalable.Counting.{Call, allocation, release, run, served_bytes, run_counts}

-- A heap that hands out one block after the other.
abbrev heap : HeapOps ℕ
heap = record {
  is_layout = λ size align. true;
  alloc = λ size align next. (next, next + size);
  dealloc = λ ptr size align next. next;
  virt_addr = λ a. some a;
  write_bytes = λ a v n next. next;
}

abbrev before : System ℕ
before = record { global_memory_manager = none; memory_manager_init = false }

abbrev managed : System ℕ
managed = record {
  global_memory_manager = some (init_manager 5 (new_manager ℕ));
  memory_manager_init = true;
}

abbrev region : MemoryRegion
region = new 4096 64 MemoryType.kernel

-- The allocator and the heap that a run ends with.
abbrev left_by : Option (PerCpuAllocator × ℕ) → PerCpuAllocator × ℕ
left_by none = (new_per_cpu 0, 0)
left_by (some ends) = ends

abbrev ends : PerCpuAllocator × ℕ
ends = left_by (
    run managed heap
      (allocation false 5000 default_flags
        ∷ release 8192 100
        ∷ allocation false 64 default_flags
        ∷ [])
      (new_per_cpu 0) 4096)

abbrev calls : List Call
calls =
    allocation false 5000 default_flags ∷ release 8192 100 ∷ allocation false 64 default_flags ∷ []

run_counts_example :
    (ends.0.stats.total_allocated ≡ 64)
    × (ends.0.stats.total_freed ≡ 100)
    × (ends.0.stats.allocation_count ≡ 2)
    × (ends.0.stats.free_count ≡ 1)
    × (wrapping_add ends.0.stats.current_usage ends.0.stats.total_freed
        ≡ ends.0.stats.total_allocated)
unfolding run allocate free global_allocate allocate_global global_memory_manager try_local_allocate
    position swap_remove pop_last new Region.allocate served_bytes
run_counts_example = run_counts managed heap calls 0 ends.0 4096 ends.1 refl

-- Tables in which every page of table `a` is in frame `a + 1`, and a mapping is counted.
abbrev mapper : MapperOps ℕ
mapper = record {
  virt_add = λ a n. some (a + n);
  containing_address = λ a. a;
  cr3 = 4096;
  map_to = λ table page frame flags t. some (t + 1);
  translate_page = λ table page t. some (table + 1);
}

abbrev untouched : ℕ
untouched = 0
