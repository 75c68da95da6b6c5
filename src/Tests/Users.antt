-- ===== src/Tests/Users.antt =====
-- Pages for user mode and the pages of the heap: concrete runs.
use ruix.Prelude.{
  ℕ, ◌+◌, ◌-◌, ◌*◌, ◌/◌, ◌%◌, ◌≤◌, ◌<◌, ◌≡◌, ◌⊎◌, refl, sym, ap, ◌∙◌, Bool, Option, none, some,
  List, [], ◌∷◌, ◌==◌, if◌then◌else◌, arith, ==_refl, ==_ne,
}
use ruix.Error.{ok, err}
use ruix.Process.Context.{Words, write}
use ruix.Process.Creation.{Mapper}
use ruix.Memory.{frame, follow, walk}
use ruix.Memory.Pages.{EntryOps, MapTo, MapToError, map_user_page}
use ruix.Memory.User.{IsLawful, AllUser, map_user_page_lem}
use ruix.Allocator.{FixedSizeBlockAllocator}
use ruix.Allocator.Heap.{heap_start, heap_size, init_heap, init_heap_lem}
use ruix.Allocator
use ruix.Allocator.Heap

-- An entry is twice its frame, and one more for user mode.
abbrev ops : EntryOps
ops = record { entry_frame = λ w. frame (w / 2); with_user = λ w. w / 2 * 2 + 1 }

abbrev is_user : ℕ → Bool
is_user w = w % 2 == 1

lawful : IsLawful ops is_user
lawful = record { keeps_frame = λ w. ap frame (omega arith); sets_user = λ w. ground arith }

abbrev mapper : Mapper
mapper = record { phys_offset = 0; level_4_table = 0x1000 }

-- The page is mapped by entries that all lead to the frame at 0x2000.
abbrev map_to : MapTo ℕ
map_to page user_frame flags a mem = (ok tt, a, λ b. 0x4000)

map_user_page_example :
    (mem2 : Words) × (map_user_page ops map_to (λ p. (1, 2, 3)) 0x400000 0x2000 mapper 7 (λ b. 0)
      ≡ some (7, mem2))
    × (walk ops.entry_frame 0 mem2 (1 ∷ 2 ∷ 3 ∷ 4 ∷ []) 0x1000 ≡ some (some 0x2000))
    × AllUser ops is_user 0 mem2 (1 ∷ 2 ∷ 3 ∷ []) 0x1000
    × ((is : List ℕ) (f : ℕ)
        → walk ops.entry_frame 0 mem2 is f ≡ walk ops.entry_frame 0 (λ b. 0x4000) is f)
unfolding walk follow
map_user_page_example =
    map_user_page_lem ops is_user lawful map_to (λ p. (1, 2, 3)) 0x400000 0x2000 0x1000 1 2 3 4
      mapper 7 7 (λ b. 0) (λ b. 0x4000) refl refl refl refl

-- Frames one after the other, and a mapper that stores the frame of a page, plus one, at its address.
abbrev next_frame : ℕ → Option ℕ × ℕ
next_frame a = (some a, a + 4096)

abbrev store_page : MapTo ℕ
store_page page user_frame flags a mem = (ok tt, a, write page (user_frame + 1) mem)

abbrev lookup : Words → ℕ → Option ℕ
lookup mem page = if mem page == 0 then none else some (mem page - 1)

abbrev empty_heap : FixedSizeBlockAllocator ℕ
unfolding Allocator.new
empty_heap = Allocator.new 0

stored : Heap.IsLawful next_frame store_page lookup
stored = record {
  maps = λ page user_frame a a1 mem mem1 e.
      ap (λ x. lookup x.2 page) (sym e) ∙ ground (arith, ==_refl page);
  keeps = λ page user_frame a a1 mem mem1 q e ne.
      ap (λ x. lookup x.2 q) (sym e) ∙ rw (==_ne q page ne) refl;
}

init_heap_example :
    let (result, heap1, a1, mem1) =
      init_heap next_frame store_page (λ x. x - x % 4096) (λ s n h. n) empty_heap 0x8000 (λ b. 0) in
    ((result ≡ ok tt)
      × (heap1 ≡ record empty_heap { fallback_allocator = heap_size })
      × ((x : ℕ)
          → heap_start ≤ x
          → x < heap_start + heap_size
          → (f : ℕ) × (lookup mem1 (x - x % 4096) ≡ some f)))
    ⊎ ((e : MapToError) × (result ≡ err e) × (heap1 ≡ empty_heap))
init_heap_example =
    init_heap_lem next_frame store_page lookup stored (λ x. x - x % 4096) (λ s n h. n) empty_heap
      0x8000 (λ b. 0) (λ x. refl)
