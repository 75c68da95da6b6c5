-- ===== src/Ipc/Handle/Revocation.antt =====
-- ipc.rs: once its owner has revoked a handle, nobody gets at the memory through it again.
use ruix.Prelude.{
  ℕ, ◌+◌, ◌^◌, ◌<◌, ◌≡◌, Bool, false, some, List, [], ◌∷◌, arith, ◌==◌, find?, update_first,
  Bool-cases, Option-cases, inl, inr, length, contains, Distinct,
}
use ruix.Error.{Result, err, IpcError}
use ruix.Ipc.Handle.{MemoryHandle, Registry, has_id, get_handle, validate}
use ruix.Ipc.Handle.Calls.{receive_found, revoke_found, receive_memory_handle, revoke_memory_handle}
use ruix.Ipc.Handle.Transfer.{update_first-found}
use ruix.Ipc.Handle.Inactive.{ids, Dead}
use ruix.Ipc.Handle.History.{Call, revokes, after, run, run-Dead}

module _ (virt_ok phys_ok : ℕ → Bool) where
  Dead-absent : (id : ℕ) (r : Registry) → contains id (ids r) ≡ false → Dead id r
  Dead-absent id [] h = tt
  Dead-absent id (x ∷ xs) h = (ground arith, Dead-absent id xs (ground arith))

  Dead-revoked :
      (id : ℕ) (r : Registry) (h h' : MemoryHandle)
      → Distinct (ids r)
      → find? (has_id id) r ≡ some h
      → h'.active ≡ false
      → Dead id (update_first (has_id id) (λ _. h') r)
  Dead-revoked id [] h h' d found off = tt
  Dead-revoked id (x ∷ xs) h h' d found off = elim (Bool-cases (has_id id x)) [
    | inl e ↦
        let named : x.id ≡ id = ground arith in
        rw e (ground arith, Dead-absent id xs (rw (← named) d.0))
    | inr e ↦ rw e (ground arith, Dead-revoked id xs h h' d.1 (ground arith) off)
  ]

  revoke_found-active :
      (owner : ℕ) (h : MemoryHandle) (result : Result IpcError (Unit {0})) (h' : MemoryHandle)
      → h.owner_pid ≡ owner
      → revoke_found virt_ok phys_ok owner h ≡ some (result, h')
      → h'.active ≡ false
  unfolding revoke_found
  revoke_found-active owner h result h' mine e = ground arith

  find?-Dead :
      (id : ℕ) (r : Registry) (h : MemoryHandle)
      → Dead id r
      → find? (has_id id) r ≡ some h
      → h.active ≡ false
  find?-Dead id [] h d e = absurd (ground arith)
  find?-Dead id (x ∷ xs) h d e = ground (arith, find?-Dead id xs h d.1)

  receive_found-inactive :
      (pid : ℕ) (h : MemoryHandle)
      → h.active ≡ false
      → (e : IpcError) × (receive_found virt_ok phys_ok pid h ≡ some (err e, h))
  unfolding receive_found validate
  receive_found-inactive pid h off = elim (Bool-cases (h.holder_pid == pid)) [
    | inl mine ↦ (IpcError.invalid_range, ground arith)
    | inr theirs ↦ (IpcError.access_denied, ground arith)
  ]

  receive_memory_handle-fails :
      (r : Registry) (pid id : ℕ)
      → Dead id r
      → (e : IpcError) × (receive_memory_handle virt_ok phys_ok r pid id ≡ some (err e, r))
  unfolding receive_memory_handle get_handle
  receive_memory_handle-fails r pid id d = elim (Option-cases (find? (has_id id) r)) [
    | inl missing ↦ (IpcError.handle_not_found, ground arith)
    | inr (h, found) ↦
        let (e, failed) = receive_found-inactive pid h (find?-Dead id r h d found) in
        (e, ground (arith, update_first-found id r h))
  ]

  -- The owner of a handle revokes it, where the ids in the registry are distinct and below the id
  -- counter. Whatever calls processes then make, as long as none of them panics and the counter does
  -- not wrap around, a process that tries to receive the handle gets an error and changes nothing.
  pub receive-revoked :
      (r : Registry) (next owner id : ℕ) (h : MemoryHandle) (cs : List Call) (r' : Registry)
      (next' pid : ℕ)
      → Distinct (ids r)
      → get_handle r id ≡ some h
      → h.owner_pid ≡ owner
      → id < next
      → next + length cs < 2 ^ 64
      → run virt_ok phys_ok r next (revokes owner id ∷ cs) ≡ some (r', next')
      → (e : IpcError) × (receive_memory_handle virt_ok phys_ok r' pid id ≡ some (err e, r'))
  unfolding run after revoke_memory_handle get_handle
  receive-revoked r next owner id h cs r' next' pid d found mine used room e =
      elim (Option-cases (revoke_found virt_ok phys_ok owner h)) [
        | inl panics ↦ absurd (ground arith)
        | inr ((result, h'), ran) ↦
            let off = revoke_found-active owner h result h' mine ran in
            let gone = Dead-revoked id r h h' d found off in
            receive_memory_handle-fails r' pid id (
              run-Dead virt_ok phys_ok cs id (update_first (has_id id) (λ _. h') r) next r' next'
                gone used room (ground arith))
      ]
