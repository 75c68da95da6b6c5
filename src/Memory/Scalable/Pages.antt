-- ===== src/Memory/Scalable/Pages.antt =====
-- memory/scalable.rs: `IpcPageTableOps` of the memory manager, which maps pages for a process. The mapper
-- of the crate `x86_64`, which works on the tables and the frame allocator, `t`, is an argument; `none` as the
-- result of an operation is a panic. The physical memory offset is the constant of the source.
use ruix.Prelude.{
  ℕ, zero, suc, ◌+◌, ◌*◌, ◌≡◌, refl, ap, true, Option, none, some, List, [], ◌∷◌, ◌==◌,
  if◌then◌else◌, any, ◌>>=◌, arith,
}
use ruix.Error.{KernelResult, ok, err, kerror, memory, process, AllocError, ProcessError}
use ruix.Scheduler.{Scheduler}

-- The sum of an address and a number, the page that contains an address, the frame in `Cr3`, and on the
-- table at an address: to map a page to a frame with flags, and the frame of a page.
pub record MapperOps (T : Type 0) : Type 0 where
  pub virt_add : ℕ → ℕ → Option ℕ
  pub containing_address : ℕ → ℕ
  pub cr3 : ℕ
  pub map_to : ℕ → ℕ → ℕ → ℕ → T → Option T
  pub translate_page : ℕ → ℕ → T → Option ℕ

abbrev physical_offset : ℕ
physical_offset = 0xffff800000000000

-- The address of the active table, if there is a process with the id.
unfoldable get_process_page_table :
    {T : Type 0} → MapperOps T → Scheduler → ℕ → Option (KernelResult ℕ)
get_process_page_table ops sched pid =
    if any (λ p. p.id == pid) sched.processes
    then ops.virt_add physical_offset ops.cr3 >>= (λ table. some (ok table))
    else some (kerror process ProcessError.not_found)

-- The loop over the frames, from the one with number `i` on.
unfoldable map_frames :
    {T : Type 0} → MapperOps T → ℕ → ℕ → ℕ → ℕ → List ℕ → T → Option (KernelResult (Unit {0}) × T)
map_frames ops table virt_addr flags i [] t = some (ok tt, t)
map_frames ops table virt_addr flags i (frame ∷ frames) t = do
  addr ← ops.virt_add virt_addr (i * 4096)
  elim (ops.map_to table (ops.containing_address addr) frame flags t) [
    | none ↦ some (kerror memory AllocError.invalid_address, t)
    | some mapped ↦ map_frames ops table virt_addr flags (i + 1) frames mapped
  ]

abbrev on_table :
    {T : Type 0}
    → (ℕ → Option (KernelResult (Unit {0}) × T))
    → T
    → KernelResult ℕ
    → Option (KernelResult (Unit {0}) × T)
on_table f t (ok table) = f table
on_table f t (err e) = some (err e, t)

unfoldable map_memory :
    {T : Type 0}
    → MapperOps T
    → Scheduler
    → ℕ
    → ℕ
    → List ℕ
    → ℕ
    → T
    → Option (KernelResult (Unit {0}) × T)
map_memory ops sched target_pid virt_addr phys_frames flags t = do
  table ← get_process_page_table ops sched target_pid
  on_table (λ a. map_frames ops a virt_addr flags 0 phys_frames t) t table

-- The loop flushes the addresses from the processor's cache of translations, `n` of them, and leaves the
-- tables as they are.
unfoldable flush_pages : {T : Type 0} → MapperOps T → ℕ → ℕ → ℕ → Option (Unit {0})
flush_pages ops virt_addr i zero = some tt
flush_pages ops virt_addr i (suc n) = do
  addr ← ops.virt_add virt_addr (i * 4096)
  flush_pages ops virt_addr (i + 1) n

unfoldable unmap_memory :
    {T : Type 0} → MapperOps T → Scheduler → ℕ → ℕ → ℕ → T → Option (KernelResult (Unit {0}) × T)
unmap_memory ops sched target_pid virt_addr page_count t = do
  table ← get_process_page_table ops sched target_pid
  on_table (λ a. flush_pages ops virt_addr 0 page_count >>= λ done. some (ok tt, t)) t table

abbrev frame_or_invalid : Option ℕ → KernelResult ℕ
frame_or_invalid none = kerror memory AllocError.invalid_address
frame_or_invalid (some frame) = ok frame

abbrev owned_in : {T : Type 0} → MapperOps T → ℕ → T → KernelResult ℕ → KernelResult ℕ
owned_in ops virt_addr t (ok table) =
    frame_or_invalid (ops.translate_page table (ops.containing_address virt_addr) t)
owned_in ops virt_addr t (err e) = err e

-- The address of the frame.
unfoldable verify_ownership :
    {T : Type 0} → MapperOps T → Scheduler → ℕ → ℕ → T → Option (KernelResult ℕ)
verify_ownership ops sched pid virt_addr t = do
  table ← get_process_page_table ops sched pid
  some (owned_in ops virt_addr t table)

same_table :
    {T : Type 0} (ops : MapperOps T) (sched : Scheduler) (pid other : ℕ)
    → any (λ p. p.id == pid) sched.processes ≡ true
    → any (λ p. p.id == other) sched.processes ≡ true
    → get_process_page_table ops sched pid ≡ get_process_page_table ops sched other
unfolding get_process_page_table
same_table ops sched pid other h k = rw (h, k) refl

same_tables :
    {A T : Type 0} {a b : A} {t s : T} → Path (Option (A × T)) (some (a, t)) (some (b, s)) → s ≡ t
same_tables e = cc

flushed :
    {A T : Type 0} (a b : A) {t s : T} (o : Option (Unit {0}))
    → Path (Option (A × T)) (o >>= λ done. some (a, t)) (some (b, s))
    → s ≡ t
flushed a b none e = ground arith
flushed a b (some done) e = same_tables e

unmapped :
    {T : Type 0} (ops : MapperOps T) (virt_addr page_count : ℕ) (t after : T)
    (result : KernelResult (Unit {0})) (table : Option (KernelResult ℕ))
    → (table
        >>= on_table (λ a. flush_pages ops virt_addr 0 page_count >>= λ done. some (ok tt, t)) t)
      ≡ some (result, after)
    → after ≡ t
unmapped ops virt_addr page_count t after result none e = ground arith
unmapped ops virt_addr page_count t after result (some (err k)) e = same_tables e
unmapped ops virt_addr page_count t after result (some (ok a)) e =
    flushed (ok tt) result (flush_pages ops virt_addr 0 page_count) e

-- The process that pages are mapped for makes no difference: for any two processes in the queue, mapping
-- frames and verifying an address do the same, on the table that is active. And unmapping pages leaves
-- every table as it is, so that what was mapped stays mapped.
map_memory_anywhere :
    {T : Type 0} (ops : MapperOps T) (sched : Scheduler) (pid other virt_addr flags page_count : ℕ)
    (frames : List ℕ) (t after : T) (result : KernelResult (Unit {0}))
    → any (λ p. p.id == pid) sched.processes ≡ true
    → any (λ p. p.id == other) sched.processes ≡ true
    → unmap_memory ops sched pid virt_addr page_count t ≡ some (result, after)
    → (map_memory ops sched pid virt_addr frames flags t
        ≡ map_memory ops sched other virt_addr frames flags t)
      × (verify_ownership ops sched pid virt_addr t ≡ verify_ownership ops sched other virt_addr t)
      × (after ≡ t)
unfolding map_memory verify_ownership unmap_memory
map_memory_anywhere ops sched pid other virt_addr flags page_count frames t after result h k e =
    let same = same_table ops sched pid other h k in
    (
      ap (λ o. o >>= on_table (λ a. map_frames ops a virt_addr flags 0 frames t) t) same,
      ap (λ o. o >>= λ table. some (owned_in ops virt_addr t table)) same,
      unmapped ops virt_addr page_count t after result (get_process_page_table ops sched pid) e,
    )
