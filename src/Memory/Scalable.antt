-- ===== src/Memory/Scalable.antt =====
-- memory/scalable.rs: the types of the memory management system, regions, and the calls of the crates
-- `alloc`, `core` and `x86_64`, which are arguments. `none` is a panic.
pub mod Manager
pub mod PerCpu
pub mod Pages
pub mod Overlap
pub mod Local
pub mod Counting
pub mod Usage
pub mod Unused
use ruix.Prelude.{
  ℕ, zero, suc, ◌+◌, ◌-◌, Bool, true, false, ◌&&◌, Option, none, some, List, [], ◌∷◌, ltb,
  if◌then◌else◌, ◌==◌, checked_add, wrapping_add, wrapping_sub, ◌>>=◌,
}
use ruix.Error.{KernelResult}

pub data MemoryType : Type 0 where
  kernel user device dma : MemoryType

pub record AllocFlags : Type 0 where
  pub zeroed : Bool
  pub contiguous : Bool
  pub align : Option ℕ
  pub mem_type : MemoryType

abbrev pub default_flags : AllocFlags
default_flags = record {
  zeroed = false;
  contiguous = false;
  align = none;
  mem_type = MemoryType.kernel;
}

pub record MemoryRegion : Type 0 where
  pub virt_start : ℕ
  pub phys_start : Option ℕ
  pub size : ℕ
  pub mem_type : MemoryType
  pub allocated : Bool
  pub ref_count : ℕ

unfoldable pub new : ℕ → ℕ → MemoryType → MemoryRegion
new virt_start size mem_type = record {
  virt_start = virt_start;
  phys_start = none;
  size = size;
  mem_type = mem_type;
  allocated = false;
  ref_count = 0;
}

abbrev pub is_allocated : MemoryRegion → Bool
is_allocated r = r.allocated

-- `compare_exchange_weak` may fail although the value is the expected one; then `spurious` is true.
unfoldable pub allocate : Bool → MemoryRegion → Bool × MemoryRegion
allocate true r = (false, r)
allocate false r = if r.allocated then (false, r) else (true, record r { allocated = true })

unfoldable pub deallocate : MemoryRegion → MemoryRegion
deallocate r = record r { allocated = false }

-- The sum and the difference after the atomic operation are checked, the operation itself wraps around.
unfoldable pub inc_ref : MemoryRegion → Option ℕ × MemoryRegion
inc_ref r = (checked_add r.ref_count 1, record r { ref_count = wrapping_add r.ref_count 1 })

unfoldable pub dec_ref : MemoryRegion → Option ℕ × MemoryRegion
dec_ref r = (
  if r.ref_count == 0 then none else some (r.ref_count - 1),
  record r { ref_count = wrapping_sub r.ref_count 1 },
)

-- The addition of a `VirtAddr` and a number is the crate's.
unfoldable pub overlaps : (ℕ → ℕ → Option ℕ) → MemoryRegion → MemoryRegion → Option Bool
overlaps virt_add r other = do
  self_end ← virt_add r.virt_start r.size
  other_end ← virt_add other.virt_start other.size
  some (ltb r.virt_start other_end && ltb other.virt_start self_end)

pub record AllocatorStats : Type 0 where
  pub total_allocated : ℕ
  pub total_freed : ℕ
  pub current_usage : ℕ
  pub peak_usage : ℕ
  pub allocation_count : ℕ
  pub free_count : ℕ

abbrev pub no_stats : AllocatorStats
no_stats = record {
  total_allocated = 0;
  total_freed = 0;
  current_usage = 0;
  peak_usage = 0;
  allocation_count = 0;
  free_count = 0;
}

pub record PerCpuAllocator : Type 0 where
  pub cpu_id : ℕ
  pub small_free_list : List MemoryRegion
  pub large_allocations : List MemoryRegion
  pub stats : AllocatorStats

-- `Box<dyn FrameAllocator>`: the empty one, or one that `init` was given.
pub data FrameAllocator (F : Type 0) : Type 0 where
  empty_frame_allocator : FrameAllocator F
  boxed : F → FrameAllocator F

pub record GlobalMemoryManager (F : Type 0) : Type 0 where
  pub per_cpu_allocators : List (Option PerCpuAllocator)
  pub global_free_list : List MemoryRegion
  pub regions_by_type : List (List MemoryRegion)
  pub frame_allocator : FrameAllocator F

-- The two statics.
pub record System (F : Type 0) : Type 0 where
  pub global_memory_manager : Option (GlobalMemoryManager F)
  pub memory_manager_init : Bool

-- The kernel's heap and memory: whether `Layout::from_size_align` accepts a size and an alignment, the
-- global allocator on such a layout (0 is null), `VirtAddr::new`, and `write_bytes` with a value.
pub record HeapOps (H : Type 0) : Type 0 where
  pub is_layout : ℕ → ℕ → Bool
  pub alloc : ℕ → ℕ → H → ℕ × H
  pub dealloc : ℕ → ℕ → ℕ → H → H
  pub virt_addr : ℕ → Option ℕ
  pub write_bytes : ℕ → ℕ → ℕ → H → H
