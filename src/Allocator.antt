-- ===== src/Allocator.antt =====
-- allocator/fixed_size_block.rs: the kernel's heap, nine free lists of blocks of fixed sizes over a
-- fallback allocator. The free lists are linked through memory: the first word of a free block is the
-- address of the next one, or zero. The crate `linked_list_allocator` and `Layout` of the crate `alloc`
-- are arguments. `none` is a panic.
pub mod FreeList
pub mod Classes
pub mod Heap
use mathlib.Core.Option
use ruix.Prelude.{
  ℕ, zero, suc, Bool, true, false, Option, none, some, List, [], ◌∷◌, leb, if◌then◌else◌, ◌==◌,
  ◌>>=◌,
}
use ruix.Process.Context.{Words, write}

-- What the allocator uses of the crates: `Layout::from_size_align`, and the fallback allocator `h`, which
-- finds a block for a size and an alignment or not.
pub record FallbackOps (H : Type 0) : Type 0 where
  pub is_layout : ℕ → ℕ → Bool
  pub allocate_first_fit : ℕ → ℕ → H → Option ℕ × H
  pub deallocate : ℕ → ℕ → ℕ → H → H

pub record Layout : Type 0 where
  pub size : ℕ
  pub align : ℕ

-- The heads of the lists, by index.
pub record FixedSizeBlockAllocator (H : Type 0) : Type 0 where
  pub list_heads : ℕ → Option ℕ
  pub fallback_allocator : H

abbrev pub block_sizes : List ℕ
block_sizes = 8 ∷ 16 ∷ 32 ∷ 64 ∷ 128 ∷ 256 ∷ 512 ∷ 1024 ∷ 2048 ∷ []

unfoldable pub new : {H : Type 0} → H → FixedSizeBlockAllocator H
new empty = record { list_heads = λ i. none; fallback_allocator = empty }

-- `max`
abbrev pub max : ℕ → ℕ → ℕ
max a b = if leb a b then b else a

-- `iter().position(|&s| s >= required)`
unfoldable pub position_from : ℕ → List ℕ → Option ℕ
position_from required [] = none
position_from required (s ∷ sizes) =
    let rest = position_from required sizes in
    if leb required s then some 0 else Option.map suc rest

unfoldable pub list_index : Layout → Option ℕ
list_index layout = position_from (max layout.size layout.align) block_sizes

-- `BLOCK_SIZES[index]`, for an index in range.
unfoldable pub size_at : ℕ → List ℕ → ℕ
size_at n [] = 0
size_at zero (s ∷ sizes) = s
size_at (suc n) (s ∷ sizes) = size_at n sizes

abbrev pub block_size : ℕ → ℕ
block_size index = size_at index block_sizes

-- `Option<&mut ListNode>` as a word.
abbrev pub as_word : Option ℕ → ℕ
as_word none = 0
as_word (some p) = p

abbrev pub from_word : ℕ → Option ℕ
from_word w = if w == 0 then none else some w

abbrev pub set_head : ℕ → Option ℕ → (ℕ → Option ℕ) → ℕ → Option ℕ
set_head index head heads = λ i. if i == index then head else heads i

-- The pointer, zero if there is none, and the allocator after it.
abbrev pointer :
    {H : Type 0} → FixedSizeBlockAllocator H → Option ℕ × H → ℕ × FixedSizeBlockAllocator H
pointer a (found, h) = (as_word found, record a { fallback_allocator = h })

unfoldable pub fallback_alloc :
    {H : Type 0} → FallbackOps H → ℕ → ℕ → FixedSizeBlockAllocator H → ℕ × FixedSizeBlockAllocator H
fallback_alloc ops size align a = pointer a (ops.allocate_first_fit size align a.fallback_allocator)

abbrev with_memory :
    {H : Type 0} → Words → ℕ × FixedSizeBlockAllocator H → ℕ × FixedSizeBlockAllocator H × Words
with_memory mem (ptr, a) = (ptr, a, mem)

-- A block of the class at `index`, with the head of its list.
unfoldable pub alloc_block :
    {H : Type 0}
    → FallbackOps H
    → ℕ
    → Option ℕ
    → FixedSizeBlockAllocator H
    → Words
    → Option (ℕ × FixedSizeBlockAllocator H × Words)
alloc_block ops index (some node) a mem = some (
  node,
  record a { list_heads = set_head index (from_word (mem node)) a.list_heads },
  write node 0 mem,
)
alloc_block ops index none a mem =
    if ops.is_layout (block_size index) (block_size index)
    then some (with_memory mem (fallback_alloc ops (block_size index) (block_size index) a))
    else none

unfoldable pub alloc :
    {H : Type 0}
    → FallbackOps H
    → Layout
    → FixedSizeBlockAllocator H
    → Words
    → Option (ℕ × FixedSizeBlockAllocator H × Words)
alloc ops layout a mem = elim (list_index layout) [
  | some index ↦ alloc_block ops index (a.list_heads index) a mem
  | none ↦ some (with_memory mem (fallback_alloc ops layout.size layout.align a))
]

-- A `ListNode` takes one word, aligned to 8 bytes.
unfoldable pub dealloc :
    {H : Type 0}
    → FallbackOps H
    → ℕ
    → Layout
    → FixedSizeBlockAllocator H
    → Words
    → Option (FixedSizeBlockAllocator H × Words)
dealloc ops ptr layout a mem = elim (list_index layout) [
  | some index ↦
      if leb 8 (block_size index)
      then some (
        record a { list_heads = set_head index (some ptr) a.list_heads },
        write ptr (as_word (a.list_heads index)) mem,
      )
      else none
  | none ↦
      if ptr == 0
      then none
      else some (
        record a {
          fallback_allocator = ops.deallocate ptr layout.size layout.align a.fallback_allocator;
        },
        mem,
      )
]
