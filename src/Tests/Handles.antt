-- ===== src/Tests/Handles.antt =====
-- Memory handles: concrete runs. Addresses below 2^47, and physical ones below 2^52, are accepted.
use ruix.Prelude.{ℕ, ◌^◌, ◌≡◌, refl, Bool, true, false, none, some, [], ◌∷◌, arith, ltb, lt→ltb}
use ruix.Error.{ok, err, IpcError}
use ruix.Ipc.Handle.{
  MemoryHandle, PageRange, Registry, cleanup_loop, get_handle, read_write, no_access, shared,
  validate, is_valid,
}
use ruix.Ipc.Handle.Cleanup.{cleanup_loop_lem}
use ruix.Ipc.Handle.Calls.{
  transfer_memory, receive_memory_handle, transfer_found, revoke_found, revoke_memory_handle,
}
use ruix.Ipc.Handle.Transfer.{receive-transfer}
use ruix.Ipc.Handle.History.{transfers, after, run}
use ruix.Ipc.Handle.Revocation.{receive-revoked}

abbrev virt_ok : ℕ → Bool
virt_ok a = ltb a (2 ^ 47)

abbrev phys_ok : ℕ → Bool
phys_ok a = ltb a (2 ^ 52)

abbrev range : PageRange
range = record { start_addr = 0x400000; size = 8192 }

abbrev handle : MemoryHandle
handle = record {
  id = 1;
  owner_pid = 1;
  holder_pid = 1;
  range = range;
  rights = read_write;
  mode = shared;
  active = true;
  is_mapped = false;
  holder_virt_addr = none;
}

cleanup_loop_example : cleanup_loop 2 1 0 (handle ∷ []) ≡ some []
cleanup_loop_example = cleanup_loop_lem 1 (handle ∷ [])

receive-transfer_example :
    (r1 : Registry) × (r2 : Registry) × (transfer_memory virt_ok phys_ok (handle ∷ []) 1 1 2
      ≡ some (ok tt, r1))
    × (receive_memory_handle virt_ok phys_ok r1 1 1 ≡ some (err IpcError.access_denied, r1))
    × (receive_memory_handle virt_ok phys_ok r1 2 1 ≡ some (ok range, r2))
    × (get_handle r2 1
        ≡ some
            (record handle { holder_pid = 2; is_mapped = true; holder_virt_addr = some 0x400000 }))
    × ((r3 : Registry) × (transfer_memory virt_ok phys_ok r2 1 1 3 ≡ some (ok tt, r3))
        × (get_handle r3 1
            ≡ some (record handle {
              holder_pid = 3;
              is_mapped = true;
              holder_virt_addr = some 0x400000;
            })))
unfolding get_handle validate is_valid
receive-transfer_example =
    receive-transfer virt_ok phys_ok (λ a h. lt→ltb a (2 ^ 47) h) (λ a h. lt→ltb a (2 ^ 52) h)
      (handle ∷ []) 1 1 2 3 handle refl refl (omega arith) (omega arith) refl (omega arith)

receive-revoked_example :
    (e : IpcError) × (receive_memory_handle virt_ok phys_ok
        (record handle { active = false; rights = no_access } ∷ [])
        2
        1
      ≡ some (err e, record handle { active = false; rights = no_access } ∷ []))
unfolding get_handle run after revoke_memory_handle revoke_found transfer_memory transfer_found
    validate
receive-revoked_example =
    receive-revoked virt_ok phys_ok (handle ∷ []) 2 1 1 handle (transfers 1 1 2 ∷ [])
      (record handle { active = false; rights = no_access } ∷ []) 2 2 (refl, tt) refl refl
      (omega arith) (omega arith) refl
