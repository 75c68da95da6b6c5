-- ===== src/Memory/Pages.antt =====
-- memory.rs: the mapping of a page for user mode. The mapper of the crate `x86_64` is an argument, with
-- the allocator of frames that it asks as a state; memory is the kernel's view of it, by address.
use ruix.Prelude.{ℕ, ◌+◌, ◌*◌, Bool, true, false, Option, none, some, List, [], ◌∷◌, ◌>>=◌}
use ruix.Error.{Result, ok, err}
use ruix.Process.Context.{Words, write}
use ruix.Process.Creation.{Mapper}
use ruix.Memory.{EntryFrame, frame, frame_not_present, huge_frame}

-- What the crate computes: the frame of an entry, and the entry after `set_flags` with the flag
-- `USER_ACCESSIBLE` added to its flags.
pub record EntryOps : Type 0 where
  pub entry_frame : ℕ → EntryFrame
  pub with_user : ℕ → ℕ

pub data MapToError : Type 0 where
  frame_allocation_failed parent_entry_huge_page page_already_mapped : MapToError

-- The flags in use.
pub record Flags : Type 0 where
  pub present : Bool
  pub writable : Bool
  pub user_accessible : Bool

-- `map_to`: page, frame and flags.
abbrev pub MapTo : Type 0 → Type 0
MapTo A = ℕ → ℕ → Flags → A → Words → Result MapToError (Unit {0}) × A × Words

-- `entry.frame().unwrap()`
abbrev pub unwrap_frame : EntryFrame → Option ℕ
unwrap_frame (frame g) = some g
unwrap_frame frame_not_present = none
unwrap_frame huge_frame = none

-- The loop over the indexes, from the table at an address. Like in `walk`, the sum of the offset and a
-- frame is taken as it is.
unfoldable pub set_user_bits : EntryOps → ℕ → List ℕ → ℕ → Words → Option Words
set_user_bits ops phys_offset [] table mem = some mem
set_user_bits ops phys_offset (index ∷ indexes) table mem =
    let entry = table + 8 * index in
    let after = write entry (ops.with_user (mem entry)) mem in
    do
      next ← unwrap_frame (ops.entry_frame (after entry))
      set_user_bits ops phys_offset indexes (phys_offset + next) after

-- The indexes are `p4_index`, `p3_index` and `p2_index` of the address.
unfoldable pub set_user_bit_for_parents : EntryOps → Mapper → ℕ → ℕ → ℕ → Words → Option Words
set_user_bit_for_parents ops mapper p4_index p3_index p2_index mem =
    set_user_bits ops mapper.phys_offset (p4_index ∷ p3_index ∷ p2_index ∷ []) mapper.level_4_table
      mem

abbrev pub user_flags : Flags
user_flags = record { present = true; writable = true; user_accessible = true }

-- `none` is a panic: `map_to` failed, or an entry on the way has no frame.
unfoldable pub map_user_page :
    {A : Type 0}
    → EntryOps
    → MapTo A
    → (ℕ → ℕ × ℕ × ℕ)
    → ℕ
    → ℕ
    → Mapper
    → A
    → Words
    → Option (A × Words)
map_user_page ops map_to indexes page user_frame mapper a mem =
    let (result, a1, mem1) = map_to page user_frame user_flags a mem in
    elim result [
      | err e ↦ none
      | ok _ ↦
          let (p4, p3, p2) = indexes page in
          do mem2 ← set_user_bit_for_parents ops mapper p4 p3 p2 mem1; some (a1, mem2)
    ]

-- The frame of the screen's text buffer, given what the crate takes an address to.
unfoldable create_example_mapping :
    {A : Type 0} → MapTo A → (ℕ → ℕ) → ℕ → A → Words → Option (A × Words)
create_example_mapping map_to containing_address page a mem =
    let flags : Flags = record { present = true; writable = true; user_accessible = false } in
    let (result, a1, mem1) = map_to page (containing_address 0xb8000) flags a mem in
    elim result [ err e ↦ none | ok _ ↦ some (a1, mem1) ]

-- `EmptyFrameAllocator`
abbrev allocate_no_frame : Option ℕ
allocate_no_frame = none
