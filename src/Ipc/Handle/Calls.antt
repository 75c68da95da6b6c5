-- ===== src/Ipc/Handle/Calls.antt =====
-- ipc.rs, `syscalls`: the calls on memory handles, for the process `current`. `VirtAddr::new` and
-- `PhysAddr::new` belong to the x86_64 crate: they panic on some numbers, and the parameters say on
-- which they do not. `none` is such a panic, or one by arithmetic overflow.
use ruix.Prelude.{
  ℕ, zero, suc, ◌+◌, ◌*◌, Bool, true, false, ◌&&◌, not, Option, none, some, ◌==◌, if◌then◌else◌,
  update_first, checked_add, length,
}
use ruix.Error.{Result, ok, err, IpcError}
use ruix.Ipc.Handle.{
  AccessRights, TransferMode, PageRange, MemoryHandle, Registry, has_id, get_handle, create_handle,
  page_count, validate, revoke, mark_mapped, mark_unmapped, cleanup_loop,
}

unfoldable pub create_memory_handle :
    Registry → ℕ → ℕ → ℕ → ℕ → AccessRights → TransferMode → Result IpcError ℕ × Registry × ℕ
unfolding create_handle
create_memory_handle r next current start_addr size rights mode =
    create_handle r next current (record { start_addr = start_addr; size = size }) rights mode

-- A sum on u64 whose overflow panics, and the constructor of an address.
abbrev pub address_ok : (ℕ → Bool) → ℕ → ℕ → Bool
address_ok accepts base offset = elim (checked_add base offset) [
  | none ↦ false
  | some addr ↦ accepts addr
]

module _ (virt_ok phys_ok : ℕ → Bool) where
  -- The loop over the pages from index `i`. The offset is at most the size, so it does not overflow.
  unfoldable pub visit_pages : ℕ → ℕ → ℕ → Option (Unit {0})
  visit_pages zero i start = some tt
  visit_pages (suc n) i start = elim (address_ok virt_ok start (i * 4096)) [
    | false ↦ none
    | true ↦ visit_pages n (i + 1) start
  ]

  -- The same loop, which also makes up a physical frame for each page.
  unfoldable pub simulate_frames : ℕ → ℕ → ℕ → Option (Unit {0})
  simulate_frames zero i start = some tt
  simulate_frames (suc n) i start =
      elim (address_ok virt_ok start (i * 4096) && address_ok phys_ok 0x100000 (i * 4096)) [
        | false ↦ none
        | true ↦ simulate_frames n (i + 1) start
      ]

  -- The body of `transfer_memory` for the handle found.
  unfoldable pub transfer_found :
      ℕ → ℕ → MemoryHandle → Option (Result IpcError (Unit {0}) × MemoryHandle)
  unfolding simulate_frames
  transfer_found current target h =
      if not (h.owner_pid == current)
      then some (err IpcError.access_denied, h)
      else if not (validate h)
      then some (err IpcError.invalid_range, h)
      else elim (page_count h.range) [
        | err e ↦ some (err e, h)
        | ok n ↦ elim (simulate_frames n 0 h.range.start_addr) [
          | none ↦ none
          | some _ ↦ some (ok tt, record h { holder_pid = target })
        ]
      ]

  unfoldable pub receive_found :
      ℕ → MemoryHandle → Option (Result IpcError PageRange × MemoryHandle)
  unfolding visit_pages mark_mapped
  receive_found current h =
      if not (h.holder_pid == current)
      then some (err IpcError.access_denied, h)
      else if not (validate h)
      then some (err IpcError.invalid_range, h)
      else elim (page_count h.range) [
        | err e ↦ some (err e, h)
        | ok n ↦ elim (visit_pages n 0 h.range.start_addr) [
          | none ↦ none
          | some _ ↦ some (ok h.range, mark_mapped h h.range.start_addr)
        ]
      ]

  unfoldable pub revoke_found :
      ℕ → MemoryHandle → Option (Result IpcError (Unit {0}) × MemoryHandle)
  unfolding visit_pages revoke mark_unmapped
  revoke_found current h =
      if not (h.owner_pid == current)
      then some (err IpcError.access_denied, h)
      else if not h.is_mapped
      then some (ok tt, revoke h)
      else elim (page_count h.range) [
        | err e ↦ some (err e, revoke h)
        | ok n ↦ elim (visit_pages n 0 h.range.start_addr) [
          | none ↦ none
          | some _ ↦ some (ok tt, mark_unmapped (revoke h))
        ]
      ]

  -- A call on the handle that `get_handle_mut` finds, changed in place.
  abbrev pub on_handle :
      {A : Type 0}
      → (MemoryHandle → Option (Result IpcError A × MemoryHandle))
      → Registry
      → ℕ
      → Option (Result IpcError A × Registry)
  on_handle body r id = elim (get_handle r id) [
    | none ↦ some (err IpcError.handle_not_found, r)
    | some h ↦ elim (body h) [
      | none ↦ none
      | some (result, h') ↦ some (result, update_first (has_id id) (λ _. h') r)
    ]
  ]

  unfoldable pub transfer_memory :
      Registry → ℕ → ℕ → ℕ → Option (Result IpcError (Unit {0}) × Registry)
  unfolding get_handle transfer_found
  transfer_memory r current id target =
      if current == target
      then some (err IpcError.circular_transfer, r)
      else on_handle (transfer_found current target) r id

  unfoldable pub receive_memory_handle :
      Registry → ℕ → ℕ → Option (Result IpcError PageRange × Registry)
  unfolding get_handle receive_found
  receive_memory_handle r current id = on_handle (receive_found current) r id

  unfoldable pub revoke_memory_handle :
      Registry → ℕ → ℕ → Option (Result IpcError (Unit {0}) × Registry)
  unfolding get_handle revoke_found
  revoke_memory_handle r current id = on_handle (revoke_found current) r id

-- `cleanup_process_handles`: the loop from the first index, with a round for each handle and one
-- more. The last case does not arise.
unfoldable pub cleanup_process_handles : Registry → ℕ → Registry
unfolding cleanup_loop
cleanup_process_handles r pid = elim (cleanup_loop (length r + 1) pid 0 r) [
  | none ↦ r
  | some r' ↦ r'
]
