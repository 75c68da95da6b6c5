-- ===== src/Tests/Heap.antt =====
-- Frames and the free lists: concrete runs.
use ruix.Prelude.{
  ◌%◌, ℕ, ◌+◌, ◌≡◌, ◌≢◌, ◌≤◌, refl, inl, inr, true, false, none, some, List, [], ◌∷◌, ◌==◌,
  if◌then◌else◌, arith, Bool-cases,
}
use ruix.Process.Context.{Words}
use ruix.Memory.{Region, usable_addresses, usable_frames, steps, nth, allocate_frame}
use ruix.Memory.Frames.{Ascending, allocate_frame_once}
use ruix.Allocator.Classes.{FirstFit, list_index-FirstFit}
use ruix.Allocator.{
  block_sizes, FallbackOps, FixedSizeBlockAllocator, Layout, list_index, position_from, alloc,
  dealloc,
}
use ruix.Allocator.FreeList.{
  Seg, Represents, Separate, NotFree, set_stack, alloc_refines, dealloc_refines,
}

-- Three pages are usable, the third one behind a hole.
abbrev regions : List Region
regions =
    record { usable = true; start_addr = 0; end_addr = 8192 }
    ∷ record { usable = false; start_addr = 8192; end_addr = 12288 }
    ∷ record { usable = true; start_addr = 12288; end_addr = 16384 }
    ∷ []

allocate_frame_once_example : (4096 % 4096 ≡ 0) × (12288 % 4096 ≡ 0) × (4096 + 4096 ≤ 12288)
unfolding Ascending allocate_frame usable_frames usable_addresses steps nth
allocate_frame_once_example =
    allocate_frame_once (λ a. a) regions 1 2 4096 12288 (λ a h. refl)
      (
        omega arith,
        omega arith,
        refl,
        refl,
        (omega arith, omega arith, refl, refl, (omega arith, omega arith, refl, refl, tt)),
      )
      (omega arith) (omega arith) refl refl

-- A fallback allocator that hands out one block after the other.
abbrev fallback : FallbackOps ℕ
fallback = record {
  is_layout = λ size align. true;
  allocate_first_fit = λ size align next. (some next, next + size);
  deallocate = λ ptr size align next. next;
}

abbrev layout : Layout
layout = record { size = 12; align = 4 }

list_index-FirstFit_example : FirstFit 12 block_sizes (list_index layout)
list_index-FirstFit_example = list_index-FirstFit layout

-- Two free blocks of 16 bytes, the first one at 256.
abbrev blocks : ℕ → List ℕ
blocks i = if i == 1 then 256 ∷ 512 ∷ [] else []

abbrev allocator : FixedSizeBlockAllocator ℕ
allocator = record {
  list_heads = λ i. if i == 1 then some 256 else none;
  fallback_allocator = 4096;
}

abbrev words : Words
words a = if a == 256 then 512 else 0

represented : Represents allocator words blocks
unfolding Seg
represented i = elim (Bool-cases (i == 1)) [
  | inl e ↦ rw e (refl, (λ z. ground arith), (refl, (λ z. ground arith), refl))
  | inr e ↦ rw e refl
]

separate : Separate blocks
separate = (
  λ i. elim (Bool-cases (i == 1)) [ inl e ↦ rw e (refl, (refl, tt)) | inr e ↦ rw e tt ],
  λ i j ne p h. elim (Bool-cases (j == 1)) [
    | inr e ↦ rw e refl
    | inl e ↦ elim (Bool-cases (i == 1)) [
      | inl c ↦ ground arith
      | inr c ↦ ground (arith, rw c at h)
    ]
  ],
)

alloc_refines_example :
    (b : FixedSizeBlockAllocator ℕ) × (after : Words) × (alloc fallback layout allocator words
      ≡ some (256, b, after))
    × Represents b after (set_stack 1 (512 ∷ []) blocks)
    × Separate (set_stack 1 (512 ∷ []) blocks)
    × NotFree 256 (set_stack 1 (512 ∷ []) blocks)
    × ((q : ℕ) → q ≢ 256 → after q ≡ words q)
unfolding list_index position_from
alloc_refines_example =
    alloc_refines fallback layout allocator words blocks 1 256 (512 ∷ []) refl refl represented
      separate

dealloc_refines_example :
    (b : FixedSizeBlockAllocator ℕ) × (after : Words) × (dealloc fallback 768 layout allocator words
      ≡ some (b, after))
    × Represents b after (set_stack 1 (768 ∷ 256 ∷ 512 ∷ []) blocks)
    × Separate (set_stack 1 (768 ∷ 256 ∷ 512 ∷ []) blocks)
    × ((q : ℕ) → q ≢ 768 → after q ≡ words q)
unfolding list_index position_from
dealloc_refines_example =
    dealloc_refines fallback 768 layout allocator words blocks 1 refl (λ z. ground arith)
      (λ i. elim (Bool-cases (i == 1)) [ inl e ↦ rw e refl | inr e ↦ rw e refl ]) represented
      separate
