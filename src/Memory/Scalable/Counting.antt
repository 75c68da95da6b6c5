-- ===== src/Memory/Scalable/Counting.antt =====
-- memory/scalable.rs: what the statistics of a CPU's allocator count.
use ruix.Prelude.{
  ◌+◌, if◌then◌else◌, Option-cases, ℕ, ◌%◌, ◌≡◌, refl, sym, ap, subst, ◌⊎◌, inl, inr, Bool, Option,
  none, some, List, [], ◌∷◌, arith, ◌<◌, leb, Bool-cases, u64_mod, wrapping_add, ◌>>=◌,
}
use ruix.Error.{KernelError, KernelResult, ok, err}
use ruix.Memory.Scalable.{
  AllocFlags, MemoryRegion, AllocatorStats, PerCpuAllocator, System, HeapOps,
}
use ruix.Memory.Scalable.Manager.{global_memory_manager, new_per_cpu}
use ruix.Memory.Scalable.PerCpu.{
  try_local_allocate, allocate, free, count_allocated, count_freed, small_alloc_threshold,
  with_global, global_allocate,
}

-- What was allocated is in use or was freed, up to a multiple of 2 ^ 64.
abbrev Balanced : AllocatorStats → Type 0
Balanced s = wrapping_add s.current_usage s.total_freed ≡ s.total_allocated

count_allocated-Balanced :
    (size : ℕ) (s : AllocatorStats) → Balanced s → Balanced (count_allocated size s)
unfolding count_allocated
count_allocated-Balanced size s h = omega (arith, h)

count_freed-Balanced :
    (size : ℕ) (s : AllocatorStats) → size < u64_mod → Balanced s → Balanced (count_freed size s)
unfolding count_freed
count_freed-Balanced size s b h = omega (arith, h, b)

-- The statistics that a call leaves behind, if it does not panic.
unfoldable pub Leaves :
    {A H : Type 0} → (AllocatorStats → Type 0) → Option (A × PerCpuAllocator × H) → Type 0
Leaves P none = Unit
Leaves P (some (result, a, h)) = P a.stats

pub keep_allocator :
    {A H : Type 0} (P : AllocatorStats → Type 0) (a : PerCpuAllocator) (o : Option (A × H))
    → P a.stats
    → Leaves P (o >>= λ (result, h). some (result, a, h))
unfolding Leaves
keep_allocator P a none p = tt
keep_allocator P a (some (result, h)) p = p

-- The statistics of a CPU's allocator after calls: the bytes counted as allocated and as freed and the
-- numbers of allocations and of releases, up to multiples of 2 ^ 64, and the bytes in use.
record Counts (bytes freed allocations releases : ℕ) (s : AllocatorStats) : Type 0 where
  allocated_bytes : s.total_allocated ≡ bytes % u64_mod
  freed_bytes : s.total_freed ≡ freed % u64_mod
  allocation_calls : s.allocation_count ≡ allocations % u64_mod
  release_calls : s.free_count ≡ releases % u64_mod
  balanced : Balanced s

count_allocated-Counts :
    (size x y z w : ℕ) (s : AllocatorStats)
    → Counts x y z w s
    → Counts (x + size) y z w (count_allocated size s)
unfolding count_allocated
count_allocated-Counts size x y z w s c = record {
  allocated_bytes = omega (arith, c.allocated_bytes);
  freed_bytes = c.freed_bytes;
  allocation_calls = c.allocation_calls;
  release_calls = c.release_calls;
  balanced = unfold count_allocated in count_allocated-Balanced size s c.balanced;
}

count_freed-Counts :
    (size x y z w : ℕ) (s : AllocatorStats)
    → size < u64_mod
    → Counts x y z w s
    → Counts x (y + size) z (w + 1) (count_freed size s)
unfolding count_freed
count_freed-Counts size x y z w s b c = record {
  allocated_bytes = c.allocated_bytes;
  freed_bytes = omega (arith, c.freed_bytes);
  allocation_calls = c.allocation_calls;
  release_calls = omega (arith, c.release_calls);
  balanced = unfold count_freed in count_freed-Balanced size s b c.balanced;
}

plus_zero : (x y z w : ℕ) (s : AllocatorStats) → Counts x y z w s → Counts (x + 0) y z w s
plus_zero x y z w s c = let same : x + 0 ≡ x = omega arith in rw same c

-- What is counted when the free list was searched: the size, if a region was found.
abbrev taken : {H : Type 0} → ℕ → Option (Option MemoryRegion × List MemoryRegion × H) → ℕ
taken size none = 0
taken size (some (none, free_list, h)) = 0
taken size (some (some region, free_list, h)) = size

-- The bytes that an allocation adds to the total: those of a small one that the free list serves.
abbrev served : {H : Type 0} → HeapOps H → Bool → ℕ → AllocFlags → List MemoryRegion → H → ℕ
served ops spurious size flags free_list h =
    if leb size small_alloc_threshold
    then taken size (try_local_allocate ops spurious size flags free_list h)
    else 0

-- The end of `allocate` on a region that was found in the free list, or not.
found_or_global :
    {F H : Type 0} (s : System F) (ops : HeapOps H) (size x y z w : ℕ) (flags : AllocFlags)
    (a : PerCpuAllocator)
    → Counts x y z w a.stats
    → (o : Option (Option MemoryRegion × List MemoryRegion × H))
    → Leaves (Counts (x + taken size o) y z w) (
        o >>= λ (found, free_list, h2). elim found [
          | some region ↦ some (
            ok region.virt_start,
            record a { small_free_list = free_list; stats = count_allocated size a.stats },
            h2,
          )
          | none ↦ with_global s ops size flags (record a { small_free_list = free_list }) h2
        ])
unfolding Leaves
found_or_global s ops size x y z w flags a c none = tt
found_or_global s ops size x y z w flags a c (some (some region, free_list, h2)) =
    count_allocated-Counts size x y z w a.stats c
found_or_global s ops size x y z w flags a c (some (none, free_list, h2)) =
    keep_allocator (Counts (x + 0) y z w) (record a { small_free_list = free_list })
      (global_allocate s ops size flags h2) (plus_zero x y z w a.stats c)

allocate-Counts :
    {F H : Type 0} (s : System F) (ops : HeapOps H) (spurious : Bool) (size x y z w : ℕ)
    (flags : AllocFlags) (a : PerCpuAllocator) (h : H)
    → Counts x y z w a.stats
    → Leaves
        (Counts (x + served ops spurious size flags a.small_free_list h) y (z + 1) w)
        (allocate s ops spurious size flags a h)
unfolding allocate
allocate-Counts s ops spurious size x y z w flags a h c =
    let counted = record a {
      stats = record (a.stats) { allocation_count = wrapping_add a.stats.allocation_count 1 };
    } in
    let called : Counts x y (z + 1) w counted.stats = record {
      allocated_bytes = c.allocated_bytes;
      freed_bytes = c.freed_bytes;
      allocation_calls = omega (arith, c.allocation_calls);
      release_calls = c.release_calls;
      balanced = c.balanced;
    } in
    elim (Bool-cases (leb size small_alloc_threshold)) [
      | inl e ↦
          rw (e, allocate)
            (found_or_global s ops size x y (z + 1) w flags counted called
              (try_local_allocate ops spurious size flags a.small_free_list h))
      | inr e ↦
          rw (e, allocate)
            (keep_allocator (Counts (x + 0) y (z + 1) w) counted
              (global_allocate s ops size flags h) (plus_zero x y (z + 1) w counted.stats called))
    ]

manager-cases :
    {M : Type 0} (m : KernelResult M) → ((a : M) × (m ≡ ok a)) ⊎ ((e : KernelError) × (m ≡ err e))
manager-cases (ok a) = inl (a, refl)
manager-cases (err e) = inr (e, refl)

pub free-stats :
    {F H : Type 0} (s : System F) (ops : HeapOps H) (addr size : ℕ) (a : PerCpuAllocator) (h : H)
    → (free s ops addr size a h).1.stats ≡ count_freed size a.stats
unfolding free
free-stats s ops addr size a h = elim (Bool-cases (leb size small_alloc_threshold)) [
  | inl e ↦ rw (e, free) refl
  | inr e ↦ elim (manager-cases (global_memory_manager s)) [
    | inl (m, found) ↦ rw (e, free, found) refl
    | inr (k, found) ↦ rw (e, free, found) refl
  ]
]

same_allocator :
    {H : Type 0} {a b : PerCpuAllocator} {h k : H}
    → Path (Option (PerCpuAllocator × H)) (some (a, h)) (some (b, k))
    → a ≡ b
same_allocator e = cc

-- A call on the allocator of a CPU.
pub data Call : Type 0 where
  allocation : Bool → ℕ → AllocFlags → Call
  release : ℕ → ℕ → Call

-- The allocator and the heap after some calls, or `none` after a panic.
unfoldable pub run :
    {F H : Type 0}
    → System F
    → HeapOps H
    → List Call
    → PerCpuAllocator
    → H
    → Option (PerCpuAllocator × H)
run s ops [] a h = some (a, h)
run s ops (allocation spurious size flags ∷ calls) a h = do
  (result, a2, h2) ← allocate s ops spurious size flags a h
  run s ops calls a2 h2
run s ops (release addr size ∷ calls) a h =
    let (result, a2, h2) = free s ops addr (size % u64_mod) a h in run s ops calls a2 h2

-- The bytes that calls add to the total of allocations, each in the state that the ones before it left.
unfoldable pub served_bytes :
    {F H : Type 0} → System F → HeapOps H → List Call → PerCpuAllocator → H → ℕ
served_bytes s ops [] a h = 0
served_bytes s ops (allocation spurious size flags ∷ calls) a h =
    served ops spurious size flags a.small_free_list h
    + elim (allocate s ops spurious size flags a h) [
      | none ↦ 0
      | some (result, a2, h2) ↦ served_bytes s ops calls a2 h2
    ]
served_bytes s ops (release addr size ∷ calls) a h =
    let (result, a2, h2) = free s ops addr (size % u64_mod) a h in served_bytes s ops calls a2 h2

-- The bytes released, and the numbers of allocations and releases.
abbrev released_bytes : List Call → ℕ
released_bytes [] = 0
released_bytes (allocation spurious size flags ∷ calls) = released_bytes calls
released_bytes (release addr size ∷ calls) = size % u64_mod + released_bytes calls

abbrev allocations : List Call → ℕ
allocations [] = 0
allocations (allocation spurious size flags ∷ calls) = 1 + allocations calls
allocations (release addr size ∷ calls) = allocations calls

abbrev releases : List Call → ℕ
releases [] = 0
releases (allocation spurious size flags ∷ calls) = releases calls
releases (release addr size ∷ calls) = 1 + releases calls

Counts-add :
    (x y z w x' y' z' w' : ℕ) (s : AllocatorStats)
    → x ≡ x'
    → y ≡ y'
    → z ≡ z'
    → w ≡ w'
    → Counts x y z w s
    → Counts x' y' z' w' s
Counts-add x y z w x' y' z' w' s ex ey ez ew c = rw (← ex, ← ey, ← ez, ← ew) c

run_from :
    {F H : Type 0} (s : System F) (ops : HeapOps H) (calls : List Call) (x y z w : ℕ)
    (a left : PerCpuAllocator) (h end : H)
    → Counts x y z w a.stats
    → run s ops calls a h ≡ some (left, end)
    → Counts
        (x + served_bytes s ops calls a h)
        (y + released_bytes calls)
        (z + allocations calls)
        (w + releases calls)
        left.stats
unfolding run served_bytes Leaves
run_from s ops [] x y z w a left h end c e =
    Counts-add x y z w (x + 0) (y + 0) (z + 0) (w + 0) left.stats (omega arith) (omega arith)
      (omega arith) (omega arith)
      (subst (Counts x y z w) (ap (λ (p : PerCpuAllocator). p.stats) (same_allocator e)) c)
run_from s ops (allocation spurious size flags ∷ calls) x y z w a left h end c e =
    let k = served ops spurious size flags a.small_free_list h in
    elim (Option-cases (allocate s ops spurious size flags a h)) [
      | inl panics ↦ absurd (ground (arith, panics, e))
      | inr ((result, a2, h2), ran) ↦
          let counted : Counts (x + k) y (z + 1) w a2.stats =
            subst (Leaves (Counts (x + k) y (z + 1) w)) ran
              (allocate-Counts s ops spurious size x y z w flags a h c) in
          rw ran (
            Counts-add _ _ _ _ _ _ _ _ left.stats (omega arith) refl (omega arith) refl (
              run_from s ops calls (x + k) y (z + 1) w a2 left h2 end counted
                (rw (ran, ◌>>=◌) at e)))
    ]
run_from s ops (release addr size ∷ calls) x y z w a left h end c e =
    let counted =
      subst (Counts x (y + size % u64_mod) z (w + 1))
        (sym (free-stats s ops addr (size % u64_mod) a h))
        (count_freed-Counts (size % u64_mod) x y z w a.stats (omega arith) c) in
    Counts-add _ _ _ _ _ _ _ _ left.stats refl (omega arith) refl (omega arith) (
      run_from s ops calls x (y + size % u64_mod) z (w + 1) (free s ops addr (size % u64_mod) a h).1
        left (free s ops addr (size % u64_mod) a h).2 end counted e)

-- The statistics of a CPU's allocator that was just made, after any calls on it, none of which panics:
-- the bytes allocated are those of the allocations of at most 4096 bytes that the free list of the CPU
-- served, and no others; the bytes freed are those of all releases; the two counts are those of all
-- allocations, failed ones included, and all releases; and the bytes in use are those allocated less
-- those freed. All are words, up to multiples of 2 ^ 64; the sizes freed are words.
pub run_counts :
    {F H : Type 0} (s : System F) (ops : HeapOps H) (calls : List Call) (cpu_id : ℕ)
    (left : PerCpuAllocator) (h end : H)
    → run s ops calls (new_per_cpu cpu_id) h ≡ some (left, end)
    → (left.stats.total_allocated ≡ served_bytes s ops calls (new_per_cpu cpu_id) h % u64_mod)
      × (left.stats.total_freed ≡ released_bytes calls % u64_mod)
      × (left.stats.allocation_count ≡ allocations calls % u64_mod)
      × (left.stats.free_count ≡ releases calls % u64_mod)
      × (wrapping_add left.stats.current_usage left.stats.total_freed ≡ left.stats.total_allocated)
run_counts s ops calls cpu_id left h end e =
    let start : Counts 0 0 0 0 (new_per_cpu cpu_id).stats = record {
      allocated_bytes = refl;
      freed_bytes = refl;
      allocation_calls = refl;
      release_calls = refl;
      balanced = refl;
    } in
    let c = run_from s ops calls 0 0 0 0 (new_per_cpu cpu_id) left h end start e in
    (
      omega (arith, c.allocated_bytes),
      omega (arith, c.freed_bytes),
      omega (arith, c.allocation_calls),
      omega (arith, c.release_calls),
      c.balanced,
    )
