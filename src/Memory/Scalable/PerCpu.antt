-- ===== src/Memory/Scalable/PerCpu.antt =====
-- memory/scalable.rs: `PerCpuAllocator`, the allocator of one CPU.
use ruix.Prelude.{
  ℕ, zero, suc, Bool, not, ◌&&◌, Option, none, some, List, [], ◌∷◌, ◌++◌, ltb, leb, if◌then◌else◌,
  wrapping_add, wrapping_sub, ◌>>=◌,
}
use mathlib.Core.Option
use ruix.Error.{KernelResult, ok, err, kerror, memory, AllocError}
use ruix.Memory.Scalable.{
  MemoryType, AllocFlags, MemoryRegion, new, is_allocated, AllocatorStats, PerCpuAllocator, System,
  HeapOps,
}
use ruix.Memory.Scalable as Region
use ruix.Memory.Scalable.Manager.{global_memory_manager, allocate_global, free_global}

abbrev pub small_alloc_threshold : ℕ
small_alloc_threshold = 4096

unfoldable pub position {ℓ} : {A : Type ℓ} → (A → Bool) → List A → Option ℕ
position p [] = none
position p (x ∷ xs) = let rest = position p xs in if p x then some 0 else Option.map suc rest

abbrev pub in_front {ℓ} : {A : Type ℓ} → A → Option (A × List A) → A × List A
in_front x none = (x, [])
in_front x (some (last, init)) = (last, x ∷ init)

-- The last element, and those before it.
unfoldable pub pop_last {ℓ} : {A : Type ℓ} → List A → Option (A × List A)
pop_last [] = none
pop_last (x ∷ xs) = some (in_front x (pop_last xs))

abbrev pub replaced {ℓ} : {A : Type ℓ} → A → Option (A × List A) → A × List A
replaced x none = (x, [])
replaced x (some (last, init)) = (x, last ∷ init)

-- `Vec::swap_remove`: the last element takes the place of the one that is removed; `none` is the panic on
-- a position out of range.
unfoldable pub swap_remove {ℓ} : {A : Type ℓ} → ℕ → List A → Option (A × List A)
swap_remove n [] = none
swap_remove zero (x ∷ xs) = some (replaced x (pop_last xs))
swap_remove (suc n) (x ∷ xs) = Option.map (λ (y, rest). (y, x ∷ rest)) (swap_remove n xs)

abbrev pub suitable : ℕ → MemoryRegion → Bool
suitable size r = not (is_allocated r) && leb size r.size

-- A region that was found, after it was removed from the list. The result of `try_local_allocate` is
-- always an `Ok`, of this option.
abbrev pub take_region :
    {H : Type 0} → HeapOps H → Bool → ℕ → AllocFlags → MemoryRegion → H → Option MemoryRegion × H
take_region ops spurious size flags r h =
    let (taken, region) = Region.allocate spurious r in
    if taken
    then (some region, if flags.zeroed then ops.write_bytes region.virt_start 0 size h else h)
    else (none, h)

-- The region, the free list and the heap; `none` is a panic.
unfoldable pub try_local_allocate :
    {H : Type 0}
    → HeapOps H
    → Bool
    → ℕ
    → AllocFlags
    → List MemoryRegion
    → H
    → Option (Option MemoryRegion × List MemoryRegion × H)
try_local_allocate ops spurious size flags free_list h = elim (position (suitable size) free_list) [
  | none ↦ some (none, free_list, h)
  | some pos ↦ do
    (region, rest) ← swap_remove pos free_list
    let (found, h2) = take_region ops spurious size flags region h
    some (found, rest, h2)
]

unfoldable pub count_allocated : ℕ → AllocatorStats → AllocatorStats
count_allocated size s =
    let current = wrapping_add s.current_usage size in
    record s {
      total_allocated = wrapping_add s.total_allocated size;
      current_usage = current;
      peak_usage = if ltb s.peak_usage current then current else s.peak_usage;
    }

unfoldable pub global_allocate :
    {F H : Type 0} → System F → HeapOps H → ℕ → AllocFlags → H → Option (KernelResult ℕ × H)
global_allocate s ops size flags h = elim (global_memory_manager s) [
  | ok m ↦ allocate_global ops size flags h
  | err e ↦ some (kerror memory AllocError.out_of_memory, h)
]

abbrev pub with_global :
    {F H : Type 0}
    → System F
    → HeapOps H
    → ℕ
    → AllocFlags
    → PerCpuAllocator
    → H
    → Option (KernelResult ℕ × PerCpuAllocator × H)
with_global s ops size flags a h = do
  (result, h2) ← global_allocate s ops size flags h
  some (result, a, h2)

unfoldable pub allocate :
    {F H : Type 0}
    → System F
    → HeapOps H
    → Bool
    → ℕ
    → AllocFlags
    → PerCpuAllocator
    → H
    → Option (KernelResult ℕ × PerCpuAllocator × H)
allocate s ops spurious size flags a h =
    let counted = record a {
      stats = record (a.stats) { allocation_count = wrapping_add a.stats.allocation_count 1 };
    } in
    if leb size small_alloc_threshold
    then (do
      (found, free_list, h2) ← try_local_allocate ops spurious size flags counted.small_free_list h
      let left = record counted { small_free_list = free_list }
      elim found [
        | some region ↦
            some (ok region.virt_start, record left { stats = count_allocated size left.stats }, h2)
        | none ↦ with_global s ops size flags left h2
      ])
    else with_global s ops size flags counted h

unfoldable pub count_freed : ℕ → AllocatorStats → AllocatorStats
count_freed size s = record s {
  free_count = wrapping_add s.free_count 1;
  total_freed = wrapping_add s.total_freed size;
  current_usage = wrapping_sub s.current_usage size;
}

unfoldable pub free :
    {F H : Type 0}
    → System F
    → HeapOps H
    → ℕ
    → ℕ
    → PerCpuAllocator
    → H
    → KernelResult (Unit {0}) × PerCpuAllocator × H
free s ops addr size a h =
    let counted = record a { stats = count_freed size a.stats } in
    if leb size small_alloc_threshold
    then (
      ok tt,
      record counted {
        small_free_list = counted.small_free_list ++ new addr size MemoryType.kernel ∷ [];
      },
      h,
    )
    else elim (global_memory_manager s) [
      | ok m ↦ let (result, h2) = free_global ops addr size h in (result, counted, h2)
      | err e ↦ (kerror memory AllocError.out_of_memory, counted, h)
    ]
