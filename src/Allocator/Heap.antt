-- ===== src/Allocator/Heap.antt =====
-- allocator.rs: the pages of the kernel's heap, mapped at start-up one after the other. The mapper, the
-- allocator of frames and the fallback allocator are the crates', as arguments.
use ruix.Prelude.{
  ◌≤◌, ◌%◌, ℕ, zero, suc, ◌+◌, ◌-◌, ◌*◌, ◌/◌, ◌<◌, ◌≡◌, ◌⊎◌, inl, inr, refl, sym, ◌∙◌, subst,
  Option-cases, true, false, Option, none, some, arith,
}
use ruix.Error.{Result-cases, Result, ok, err}
use ruix.Process.Context.{Words}
use ruix.Memory.Pages.{MapTo, MapToError, frame_allocation_failed, Flags}
use ruix.Allocator.{FixedSizeBlockAllocator}

abbrev pub heap_start : ℕ
heap_start = 0x444444440000

abbrev pub heap_size : ℕ
heap_size = 100 * 1024

abbrev heap_flags : Flags
heap_flags = record { present = true; writable = true; user_accessible = false }

-- `FixedSizeBlockAllocator::init`, with that of the fallback allocator.
unfoldable pub init :
    {H : Type 0} → (ℕ → ℕ → H → H) → ℕ → ℕ → FixedSizeBlockAllocator H → FixedSizeBlockAllocator H
init fallback_init start size h = record h {
  fallback_allocator = fallback_init start size h.fallback_allocator;
}

as_tuple : {E A B : Type 0} {a : A} (x : Result E A × B × Words) → x.0 ≡ ok a → x ≡ (ok a, x.1, x.2)
as_tuple x e = rw (sym e) refl

module _ {A : Type 0} (allocate_frame : A → Option ℕ × A) (map_to : MapTo A) where
  -- The loop over `n` pages from one on.
  unfoldable pub map_pages : ℕ → ℕ → A → Words → Result MapToError (Unit {0}) × A × Words
  map_pages zero page a mem = (ok tt, a, mem)
  map_pages (suc n) page a mem =
      let (found, a1) = allocate_frame a in
      elim found [
        | none ↦ (err frame_allocation_failed, a1, mem)
        | some frame ↦
            let (result, a2, mem2) = map_to page frame heap_flags a1 mem in
            elim result [ err e ↦ (err e, a2, mem2) | ok _ ↦ map_pages n (page + 4096) a2 mem2 ]
      ]

  -- `Page::range_inclusive` from the page of the first byte to that of the last one, given what the
  -- crate takes an address to.
  unfoldable pub init_heap :
      {H : Type 0}
      → (ℕ → ℕ)
      → (ℕ → ℕ → H → H)
      → FixedSizeBlockAllocator H
      → A
      → Words
      → Result MapToError (Unit {0}) × FixedSizeBlockAllocator H × A × Words
  init_heap containing_address fallback_init heap a mem =
      let start_page = containing_address heap_start in
      let end_page = containing_address (heap_start + heap_size - 1) in
      let (result, a1, mem1) = map_pages ((end_page - start_page) / 4096 + 1) start_page a mem in
      elim result [
        | err e ↦ (err e, heap, a1, mem1)
        | ok _ ↦ (ok tt, init fallback_init heap_start heap_size heap, a1, mem1)
      ]

  -- What `map_to` does to the frames of pages, read off memory: one that succeeds maps its page, and
  -- no other.
  pub record IsLawful (lookup : Words → ℕ → Option ℕ) : Type 0 where
    pub maps :
        (page frame : ℕ) (a a1 : A) (mem mem1 : Words)
        → map_to page frame heap_flags a mem ≡ (ok tt, a1, mem1)
        → lookup mem1 page ≡ some frame
    pub keeps :
        (page frame : ℕ) (a a1 : A) (mem mem1 : Words) (q : ℕ)
        → map_to page frame heap_flags a mem ≡ (ok tt, a1, mem1)
        → ¬ (q ≡ page)
        → lookup mem1 q ≡ lookup mem q

  module _ (lookup : Words → ℕ → Option ℕ) (L : IsLawful lookup) where
    abbrev IsMapped : Words → ℕ → Type 0
    IsMapped mem page = (frame : ℕ) × (lookup mem page ≡ some frame)

    -- The loop that ends without an error has mapped every page, and no other page lost its frame.
    Outcome : ℕ → ℕ → Words → Result MapToError (Unit {0}) → Words → Type 0
    Outcome n page mem (err e) mem1 = Unit
    Outcome n page mem (ok done) mem1 =
        ((i : ℕ) → i < n → IsMapped mem1 (page + 4096 * i))
        × ((q : ℕ) → q < page → lookup mem1 q ≡ lookup mem q)

    every :
        (n page : ℕ) (mem : Words)
        → IsMapped mem page
        → ((i : ℕ) → i < n → IsMapped mem (page + 4096 + 4096 * i))
        → (i : ℕ) → i < suc n
        → IsMapped mem (page + 4096 * i)
    every n page mem first others zero lt = subst (IsMapped mem) (omega arith) first
    every n page mem first others (suc i) lt =
        subst (IsMapped mem) (omega arith) (others i (omega arith))

    Outcome-next :
        (n page frame : ℕ) (a1 a2 : A) (mem mem2 mem3 : Words) (r : Result MapToError (Unit {0}))
        → map_to page frame heap_flags a1 mem ≡ (ok tt, a2, mem2)
        → Outcome n (page + 4096) mem2 r mem3
        → Outcome (suc n) page mem r mem3
    unfolding Outcome
    Outcome-next n page frame a1 a2 mem mem2 mem3 (err e) mapped h = tt
    Outcome-next n page frame a1 a2 mem mem2 mem3 (ok done) mapped (pages, others) = (
      every n page mem3 (frame, others page (omega arith) ∙ L.maps page frame a1 a2 mem mem2 mapped)
          pages,
      λ q lt.
          others q (omega arith)
          ∙ L.keeps page frame a1 a2 mem mem2 q mapped (λ e. omega (arith, e, lt)),
    )

    map_pages-Outcome :
        (n page : ℕ) (a : A) (mem : Words)
        → Outcome n page mem (map_pages n page a mem).0 (map_pages n page a mem).2
    unfolding map_pages Outcome
    map_pages-Outcome zero page a mem = (λ i lt. absurd (omega arith), λ q lt. refl)
    map_pages-Outcome (suc n) page a mem = elim (Option-cases (allocate_frame a).0) [
      | inl e ↦ rw (map_pages, e) tt
      | inr (frame, e) ↦
          let x = map_to page frame heap_flags (allocate_frame a).1 mem in
          elim (Result-cases x.0) [
            | inl (e2, failed) ↦ rw (map_pages, e, failed) tt
            | inr (done, passed) ↦
                rw (map_pages, e, passed)
                  (Outcome-next n page frame (allocate_frame a).1 x.1 mem x.2
                    (map_pages n (page + 4096) x.1 x.2).2 (map_pages n (page + 4096) x.1 x.2).0
                    (as_tuple x passed) (map_pages-Outcome n (page + 4096) x.1 x.2))
          ]
    ]

    covered :
        (n start : ℕ) (mem mem1 : Words) (r : Result MapToError (Unit {0}))
        → start ≡ heap_start
        → Outcome n start mem r mem1
        → r ≡ ok tt
        → (a : ℕ) → heap_start ≤ a
        → a < heap_start + 4096 * n
        → IsMapped mem1 (a - a % 4096)
    unfolding Outcome
    covered n start mem mem1 (err e) s h done a lo hi = cc
    covered n start mem mem1 (ok x) s h done a lo hi =
        subst (IsMapped mem1) (omega (arith, lo, s))
          (h.0 ((a - heap_start) / 4096) (omega (arith, lo, hi)))

    -- `init_heap` either ends without an error, and then every byte of the heap, from 0x444444440000 on
    -- and 100 KiB long, lies in a page that is mapped to a frame, and the fallback allocator is given
    -- exactly this region; or it ends with an error and leaves the allocator as it was. The crate
    -- takes an address to the start of its page, and `map_to` maps the page it is given and no other.
    pub init_heap_lem :
        {H : Type 0} (containing_address : ℕ → ℕ) (fallback_init : ℕ → ℕ → H → H)
        (heap : FixedSizeBlockAllocator H) (a : A) (mem : Words)
        → ((x : ℕ) → containing_address x ≡ x - x % 4096)
        → let (result, heap1, a1, mem1) = init_heap containing_address fallback_init heap a mem in
          ((result ≡ ok tt)
            × (heap1 ≡ record heap {
              fallback_allocator = fallback_init heap_start heap_size heap.fallback_allocator;
            })
            × ((x : ℕ)
                → heap_start ≤ x
                → x < heap_start + heap_size
                → IsMapped mem1 (x - x % 4096)))
          ⊎ ((e : MapToError) × (result ≡ err e) × (heap1 ≡ heap))
    unfolding init_heap init
    init_heap_lem containing_address fallback_init heap a mem rounds =
        let start = containing_address heap_start in
        let n = (containing_address (heap_start + heap_size - 1) - start) / 4096 + 1 in
        let pages = map_pages n start a mem in
        let count : n ≡ 25 =
          omega (arith, rounds (heap_start + heap_size - 1), rounds heap_start) in
        elim (Result-cases pages.0) [
          | inl (e, failed) ↦ rw (init_heap, failed) (inr (e, refl, refl))
          | inr (done, passed) ↦
              rw (init_heap, passed)
                (inl (
                  refl,
                  refl,
                  λ x lo hi.
                      covered n start mem pages.2 pages.0 (omega (arith, rounds heap_start))
                        (map_pages-Outcome n start a mem) passed x lo (omega (arith, count, hi)),
                ))
        ]
