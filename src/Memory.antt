-- ===== src/Memory.antt =====
-- memory.rs: the frame allocator over the boot loader's memory map, and the translation of addresses.
-- The types of the crates `bootloader` and `x86_64` are not in the repository: a region of the map is its
-- range and whether its type is `Usable`, and what the crates compute (the frame that contains an
-- address, the frame and the flags of an entry, the indexes of an address) are arguments.
pub mod Frames
pub mod Translation
pub mod Pages
pub mod User
pub mod Scalable
use mathlib.Core.Option
use ruix.Prelude.{
  ℕ, zero, suc, ◌+◌, ◌-◌, ◌*◌, ◌/◌, Bool, true, false, Option, none, some, List, [], ◌∷◌, ◌++◌, map,
  if◌then◌else◌, checked_add, ◌>>=◌,
}
use ruix.Process.Context.{Words}

pub record Region : Type 0 where
  pub usable : Bool
  pub start_addr : ℕ
  pub end_addr : ℕ

pub record BootInfoFrameAllocator : Type 0 where
  pub memory_map : List Region
  pub next : ℕ

unfoldable pub init : List Region → BootInfoFrameAllocator
init memory_map = record { memory_map = memory_map; next = 0 }

-- The first `n` addresses of `step_by(4096)`.
unfoldable pub steps : ℕ → ℕ → List ℕ
steps zero a = []
steps (suc n) a = a ∷ steps n (a + 4096)

-- `(start..end).step_by(4096)`
abbrev pub step_by : Region → List ℕ
step_by r = steps ((r.end_addr - r.start_addr + 4095) / 4096) r.start_addr

unfoldable pub usable_addresses : List Region → List ℕ
usable_addresses [] = []
usable_addresses (r ∷ rs) =
    let rest = usable_addresses rs in if r.usable then step_by r ++ rest else rest

unfoldable pub usable_frames : (ℕ → ℕ) → BootInfoFrameAllocator → List ℕ
usable_frames containing_address allocator =
    map containing_address (usable_addresses allocator.memory_map)

unfoldable pub nth {ℓ} : {A : Type ℓ} → ℕ → List A → Option A
nth n [] = none
nth zero (x ∷ xs) = some x
nth (suc n) (x ∷ xs) = nth n xs

-- The frame and the allocator after it; `none` is a panic by overflow of the count.
unfoldable pub allocate_frame :
    (ℕ → ℕ) → BootInfoFrameAllocator → Option (Option ℕ × BootInfoFrameAllocator)
allocate_frame containing_address allocator =
    Option.map
      (λ next. (
        nth allocator.next (usable_frames containing_address allocator),
        record allocator { next = next },
      ))
      (checked_add allocator.next 1)

-- What the crate's `PageTableEntry::frame` answers.
pub data EntryFrame : Type 0 where
  frame : ℕ → EntryFrame
  frame_not_present huge_frame : EntryFrame

-- The match on the frame of an entry.
unfoldable pub follow : EntryFrame → (ℕ → Option (Option ℕ)) → Option (Option ℕ)
follow (frame g) next = next g
follow frame_not_present next = some none
follow huge_frame next = none

-- The way down the tables: `none` is the panic on a huge page, `some none` an address that is not mapped.
-- The address of a table is the offset plus that of its frame; the sum panics only past the canonical
-- addresses, where no frame of physical memory is mapped, so it is taken as it is.
unfoldable pub walk : (ℕ → EntryFrame) → ℕ → Words → List ℕ → ℕ → Option (Option ℕ)
walk entry_frame physical_memory_offset mem [] f = some (some f)
walk entry_frame physical_memory_offset mem (index ∷ indexes) f =
    follow (entry_frame (mem (physical_memory_offset + f + 8 * index)))
      (λ g. walk entry_frame physical_memory_offset mem indexes g)

-- `translate_addr`, with the frame in `Cr3` and the four indexes and the page offset of the address.
unfoldable pub translate_addr_inner :
    (ℕ → EntryFrame) → ℕ → Words → ℕ → List ℕ → ℕ → Option (Option ℕ)
translate_addr_inner entry_frame physical_memory_offset mem level_4_table_frame table_indexes
      page_offset =
    Option.map (Option.map (λ f. f + page_offset))
      (walk entry_frame physical_memory_offset mem table_indexes level_4_table_frame)
