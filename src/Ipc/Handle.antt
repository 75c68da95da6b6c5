-- ===== src/Ipc/Handle.antt =====
-- ipc.rs: page ranges, memory handles and their registry. Addresses are the numbers of `VirtAddr`;
-- `NEXT_HANDLE_ID`, an AtomicU64 beside the registry, is an argument and comes back in the result.
pub mod Range
pub mod Cleanup
pub mod Rights
pub mod Calls
pub mod Transfer
pub mod Inactive
pub mod History
pub mod Revocation
use ruix.Prelude.{
  ℕ, suc, zero, ◌+◌, ◌/◌, ◌%◌, Bool, true, false, ◌&&◌, ◌||◌, not, Option, none, some, List, [],
  ◌∷◌, ◌++◌, ltb, ◌==◌, if◌then◌else◌, find?, update_first, any, retain, checked_add, wrapping_add,
}
use ruix.Error.{Result, ok, err, IpcError}

pub data AccessRights : Type 0 where
  read_only read_write execute no_access : AccessRights

pub data TransferMode : Type 0 where
  ownership shared exclusive : TransferMode

pub record PageRange : Type 0 where
  pub start_addr : ℕ
  pub size : ℕ

unfoldable pub page_count : PageRange → Result IpcError ℕ
page_count r = elim (checked_add r.size 4095) [
  | none ↦ err IpcError.invalid_range
  | some rounded ↦ ok (rounded / 4096)
]

unfoldable pub is_valid : PageRange → Bool
is_valid r = r.start_addr % 4096 == 0 && r.size % 4096 == 0 && ltb 0 r.size

pub record MemoryHandle : Type 0 where
  pub id : ℕ
  pub owner_pid : ℕ
  pub holder_pid : ℕ
  pub range : PageRange
  pub rights : AccessRights
  pub mode : TransferMode
  pub active : Bool
  pub is_mapped : Bool
  pub holder_virt_addr : Option ℕ

unfoldable pub new : ℕ → ℕ → PageRange → AccessRights → TransferMode → MemoryHandle
new id owner range rights mode = record {
  id = id;
  owner_pid = owner;
  holder_pid = owner;
  range = range;
  rights = rights;
  mode = mode;
  active = true;
  is_mapped = false;
  holder_virt_addr = none;
}

unfoldable has_access : MemoryHandle → ℕ → Bool
has_access h pid = h.active && (pid == h.owner_pid || pid == h.holder_pid)

unfoldable pub revoke : MemoryHandle → MemoryHandle
revoke h = record h { active = false; rights = no_access }

unfoldable pub validate : MemoryHandle → Bool
unfolding is_valid
validate h = h.active && is_valid h.range && not (h.id == 0)

unfoldable pub mark_mapped : MemoryHandle → ℕ → MemoryHandle
mark_mapped h addr = record h { is_mapped = true; holder_virt_addr = some addr }

unfoldable pub mark_unmapped : MemoryHandle → MemoryHandle
mark_unmapped h = record h { is_mapped = false; holder_virt_addr = none }

-- `HandleRegistry`
abbrev pub Registry : Type 0
Registry = List MemoryHandle

abbrev pub has_id : ℕ → MemoryHandle → Bool
has_id id h = h.id == id

-- `get_handle`; `get_handle_mut` with an update is `update_first (has_id id)`.
unfoldable pub get_handle : Registry → ℕ → Option MemoryHandle
get_handle r id = find? (has_id id) r

-- The result, the registry and the id counter after the call.
unfoldable pub create_handle :
    Registry → ℕ → ℕ → PageRange → AccessRights → TransferMode → Result IpcError ℕ × Registry × ℕ
unfolding new is_valid
create_handle r next owner range rights mode =
    if is_valid range
    then (ok next, r ++ new next owner range rights mode ∷ [], wrapping_add next 1)
    else (err IpcError.invalid_range, r, next)

unfoldable revoke_handle : Registry → ℕ → Result IpcError (Unit {0}) × Registry
unfolding revoke
revoke_handle r id =
    if any (has_id id) r
    then (ok tt, update_first (has_id id) revoke r)
    else (err IpcError.handle_not_found, r)

unfoldable get_handles_for_process : Registry → ℕ → List MemoryHandle
get_handles_for_process r pid = retain (λ h. h.owner_pid == pid) r

unfoldable get_held_handles_for_process : Registry → ℕ → List MemoryHandle
get_held_handles_for_process r pid = retain (λ h. h.holder_pid == pid && h.active) r

abbrev pub belongs_to : ℕ → MemoryHandle → Bool
belongs_to pid h = h.owner_pid == pid || h.holder_pid == pid

-- `handles[i]` and `handles.remove(i)`.
unfoldable pub get_elem? : Registry → ℕ → Option MemoryHandle
get_elem? [] i = none
get_elem? (h ∷ hs) zero = some h
get_elem? (h ∷ hs) (suc i) = get_elem? hs i

unfoldable pub remove_at : Registry → ℕ → Registry
remove_at [] i = []
remove_at (h ∷ hs) zero = hs
remove_at (h ∷ hs) (suc i) = h ∷ remove_at hs i

-- The `while` loop of `cleanup_process_handles` from index `i`, with fuel. A handle is revoked just
-- before it is removed, which leaves no trace.
unfoldable pub cleanup_loop : ℕ → ℕ → ℕ → Registry → Option Registry
unfolding get_elem? remove_at
cleanup_loop zero pid i r = none
cleanup_loop (suc fuel) pid i r = elim (get_elem? r i) [
  | none ↦ some r
  | some h ↦ elim (belongs_to pid h) [
    | true ↦ cleanup_loop fuel pid i (remove_at r i)
    | false ↦ cleanup_loop fuel pid (i + 1) r
  ]
]
