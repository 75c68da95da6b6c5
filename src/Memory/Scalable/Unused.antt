-- ===== src/Memory/Scalable/Unused.antt =====
-- memory/scalable.rs: what the initialisation of the memory manager changes for its callers.
use ruix.Prelude.{ℕ, ◌≡◌, refl, sym, ◌∙◌, false, some}
use ruix.Error.{KernelResult, ok, err, kerror, memory, AllocError}
use ruix.Memory.Scalable.{AllocFlags, System, HeapOps}
use ruix.Memory.Scalable.Manager.{
  new_manager, init_manager, each_cpu, global_memory_manager, init, allocate_global, free_global,
  allocate, free, map_user_page, unmap_page, sum_stats, get_global_stats, get_memory_stats,
  zero_stats,
}

-- Initialising the memory manager makes it available, and a second time changes nothing. From then on
-- the statistics are zero but for the count of CPUs, whatever is allocated and freed, since the
-- functions that do so leave the manager as it is, and no page can be mapped or unmapped. The manager
-- was not there before.
pub init_lem :
    {F : Type 0} (frame_allocator other : F) (s : System F) (page frame cpu_count : ℕ)
    → s.memory_manager_init ≡ false
    → let ready = (init frame_allocator s).1 in
      (global_memory_manager ready ≡ ok (init_manager frame_allocator (new_manager F)))
      × (init other ready ≡ (ok tt, ready))
      × (get_memory_stats ready cpu_count ≡ some (record zero_stats { cpu_count = cpu_count }))
      × (map_user_page ready page frame ≡ kerror memory AllocError.invalid_address)
      × (unmap_page ready page ≡ kerror memory AllocError.invalid_address)
unfolding init global_memory_manager get_memory_stats get_global_stats init_manager each_cpu
    sum_stats map_user_page unmap_page
init_lem frame_allocator other s page frame cpu_count e = rw e (refl, refl, refl, refl, refl)

same_either : {A M : Type 0} (m : KernelResult M) (x : A) → (elim m [ ok a ↦ x | err e ↦ x ]) ≡ x
same_either (ok a) x = refl
same_either (err e) x = refl

-- `allocate` and `free` do the same whether or not the memory manager was initialised: the heap answers
-- in both cases.
allocate_unmanaged :
    {F H : Type 0} (s before : System F) (ops : HeapOps H) (size addr : ℕ) (flags : AllocFlags)
    (h : H)
    → (allocate s ops size flags h ≡ allocate before ops size flags h)
      × (free s ops addr size h ≡ free before ops addr size h)
unfolding allocate free allocate_global free_global
allocate_unmanaged s before ops size addr flags h = (
  same_either (global_memory_manager s) (allocate_global ops size flags h)
      ∙ sym (same_either (global_memory_manager before) (allocate_global ops size flags h)),
  same_either (global_memory_manager s) (free_global ops addr size h)
      ∙ sym (same_either (global_memory_manager before) (free_global ops addr size h)),
)
