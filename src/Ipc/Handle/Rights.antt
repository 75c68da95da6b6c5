-- ===== src/Ipc/Handle/Rights.antt =====
-- ipc.rs: the rights of a handle as flags of a page table.
use ruix.Prelude.{◌≡◌, ◌↔◌, ◌≢◌, Bool, true, false, arith}
use ruix.Ipc.Handle.{MemoryHandle, AccessRights, read_only, read_write, execute, no_access, revoke}

-- The flags of the crate `x86_64` that are used.
pub record PageTableFlags : Type 0 where
  pub present : Bool
  pub writable : Bool
  pub user_accessible : Bool
  pub no_execute : Bool

-- `PRESENT | USER_ACCESSIBLE`
abbrev base_flags : PageTableFlags
base_flags = record { present = true; writable = false; user_accessible = true; no_execute = false }

-- `PageTableFlags::empty()`
abbrev no_flags : PageTableFlags
no_flags = record { present = false; writable = false; user_accessible = false; no_execute = false }

-- The match on the rights.
unfoldable flags_of : AccessRights → PageTableFlags
flags_of read_only = base_flags
flags_of read_write = record base_flags { writable = true }
flags_of execute = record base_flags { no_execute = false }
flags_of no_access = no_flags

unfoldable access_to_flags : MemoryHandle → PageTableFlags
access_to_flags h = flags_of h.rights

-- The flags let a process in exactly if the handle has rights, and let it write exactly with the right
-- to write; a handle that was revoked gives no flag. Code can be executed with every right, as the
-- flag against it is never set.
access_to_flags_lem :
    (h : MemoryHandle)
    → (((access_to_flags h).user_accessible ≡ true) ↔ (h.rights ≢ no_access))
      × (((access_to_flags h).writable ≡ true) ↔ (h.rights ≡ read_write))
      × ((access_to_flags h).no_execute ≡ false)
      × (access_to_flags (revoke h) ≡ no_flags)
unfolding access_to_flags flags_of revoke
access_to_flags_lem h = by_rights h.rights
  where
    by_rights :
        (r : AccessRights)
        → (((flags_of r).user_accessible ≡ true) ↔ (r ≢ no_access))
          × (((flags_of r).writable ≡ true) ↔ (r ≡ read_write))
          × ((flags_of r).no_execute ≡ false)
          × (flags_of no_access ≡ no_flags)
    by_rights read_only = ground arith
    by_rights read_write = ground arith
    by_rights execute = ground arith
    by_rights no_access = ground arith
