-- ===== src/Memory/Scalable/Usage.antt =====
-- memory/scalable.rs: freed memory that is used again, and the statistics of a CPU's allocator.
use ruix.Prelude.{
  ℕ, ◌≡◌, refl, sym, ap, ◌∙◌, subst, Bool, true, false, some, List, [], ◌∷◌, ◌++◌, arith, ◌<◌, ◌≤◌,
  lt→leb, le→leb, any, wrapping_add, wrapping_sub,
}
use ruix.Error.{KernelResult, ok}
use ruix.Memory.Scalable.{
  MemoryType, AllocFlags, default_flags, MemoryRegion, new, PerCpuAllocator, System, HeapOps,
}
use ruix.Memory.Scalable.PerCpu.{
  suitable, try_local_allocate, allocate, free, count_allocated, count_freed, global_allocate,
}
use ruix.Memory.Scalable.Local.{last_removed, taken_region}
use ruix.Memory.Scalable.Counting.{Leaves, keep_allocator, free-stats}

try_local_allocate_last :
    {H : Type 0} (ops : HeapOps H) (n addr size : ℕ) (free_list : List MemoryRegion) (h : H)
    → n ≤ size
    → any (suitable n) free_list ≡ false
    → try_local_allocate ops false n default_flags
        (free_list ++ new addr size MemoryType.kernel ∷ [])
        h
      ≡ some (some (record (new addr size MemoryType.kernel) { allocated = true }), free_list, h)
unfolding try_local_allocate new
try_local_allocate_last ops n addr size free_list h le e =
    let r = new addr size MemoryType.kernel in
    let (at, taken) = last_removed (suitable n) free_list r e (le→leb n size le) in
    rw (at, try_local_allocate, taken)
      (ap (λ o. some (o.0, free_list, o.1))
        (taken_region ops n default_flags r h (le→leb n size le)))

-- What is freed is used again: after a region of at most 4096 bytes is freed, an allocation of at most
-- its size gets its address, and the free list is as before, where no other region in the list is large
-- enough. Neither call touches the heap.
allocate-free :
    {F H : Type 0} (s : System F) (ops : HeapOps H) (addr size n : ℕ) (a : PerCpuAllocator) (h : H)
    → size ≤ 4096
    → n ≤ size
    → any (suitable n) a.small_free_list ≡ false
    → (freed left : PerCpuAllocator) × (free s ops addr size a h ≡ (ok tt, freed, h))
      × (allocate s ops false n default_flags freed h ≡ some (ok addr, left, h))
      × (left.small_free_list ≡ a.small_free_list)
unfolding free allocate new
allocate-free s ops addr size n a h small le e =
    let freed = record a {
      stats = count_freed size a.stats;
      small_free_list = a.small_free_list ++ new addr size MemoryType.kernel ∷ [];
    } in
    (
      freed,
      record freed {
        stats = count_allocated n (record (freed.stats) {
          allocation_count = wrapping_add freed.stats.allocation_count 1;
        });
        small_free_list = a.small_free_list;
      },
      rw (le→leb size 4096 small) refl,
      rw
          (
            le→leb n 4096 (omega (arith, small, le)),
            try_local_allocate_last ops n addr size a.small_free_list h le e,
          )
          refl,
      refl,
    )

-- An allocation of more than 4096 bytes is not counted, but its release is: after both, the bytes in use
-- are fewer by the size than before, wrapping around below zero.
large_usage :
    {F H : Type 0} (s : System F) (ops : HeapOps H) (spurious : Bool) (addr size : ℕ)
    (flags : AllocFlags) (a left : PerCpuAllocator) (result : KernelResult ℕ) (h end : H)
    → 4096 < size
    → allocate s ops spurious size flags a h ≡ some (result, left, end)
    → (free s ops addr size left end).1.stats.current_usage
      ≡ wrapping_sub a.stats.current_usage size
unfolding count_freed Leaves allocate
large_usage s ops spurious addr size flags a left result h end large e =
    ap (λ t. t.current_usage) (free-stats s ops addr size left end)
    ∙ ap (λ u. wrapping_sub u size)
        (subst (Leaves (λ t. t.current_usage ≡ a.stats.current_usage))
          (sym (rw (lt→leb size 4096 large) refl) ∙ e)
          (keep_allocator (λ t. t.current_usage ≡ a.stats.current_usage)
            (record a {
              stats = record (a.stats) {
                allocation_count = wrapping_add a.stats.allocation_count 1;
              };
            })
            (global_allocate s ops size flags h) refl))
