-- ===== src/Ipc/Handle/Inactive.antt =====
-- ipc.rs: no call makes a revoked handle active again.
use ruix.Prelude.{
  ◌⊎◌, ℕ, ◌≡◌, Bool, true, false, not, ◌||◌, Option, some, List, [], ◌∷◌, arith, find?,
  update_first, Bool-cases, Option-cases, inl, inr, All, map,
}
use ruix.Error.{Result, IpcError}
use ruix.Ipc.Handle.{MemoryHandle, Registry, has_id, get_handle}
use ruix.Ipc.Handle.Calls.{on_handle, transfer_found, receive_found, revoke_found}

abbrev pub ids : Registry → List ℕ
ids r = map (λ h. h.id) r

-- Each handle with the id is inactive.
abbrev pub dead : ℕ → MemoryHandle → Bool
dead id h = not (has_id id h) || not h.active

abbrev pub Dead : ℕ → Registry → Type 0
Dead id r = All (λ h. dead id h ≡ true) r

module _ (virt_ok phys_ok : ℕ → Bool) where
  -- No call on a handle changes its id or makes it active.
  abbrev Tame : {A : Type 0} → (MemoryHandle → Option (Result IpcError A × MemoryHandle)) → Type 0
  Tame {A} body =
      (h : MemoryHandle) (result : Result IpcError A) (h' : MemoryHandle)
      → body h ≡ some (result, h')
      → (h'.id ≡ h.id) × (h.active ≡ false → h'.active ≡ false)

  pub transfer_found-Tame :
      (current target : ℕ) → Tame (transfer_found virt_ok phys_ok current target)
  unfolding transfer_found
  transfer_found-Tame current target h result h' e = (ground arith, λ i. ground arith)

  pub receive_found-Tame : (current : ℕ) → Tame (receive_found virt_ok phys_ok current)
  unfolding receive_found
  receive_found-Tame current h result h' e = (ground arith, λ i. ground arith)

  pub revoke_found-Tame : (current : ℕ) → Tame (revoke_found virt_ok phys_ok current)
  unfolding revoke_found
  revoke_found-Tame current h result h' e = (ground arith, λ i. ground arith)

  Dead-replace :
      (id other : ℕ) (r : Registry) (h h' : MemoryHandle)
      → find? (has_id other) r ≡ some h
      → (dead id h ≡ true → dead id h' ≡ true)
      → Dead id r
      → Dead id (update_first (has_id other) (λ _. h') r)
  Dead-replace id other [] h h' found keep d = tt
  Dead-replace id other (x ∷ xs) h h' found keep d = elim (Bool-cases (has_id other x)) [
    | inl e ↦ let same : x ≡ h = ground arith in rw e (keep (rw (← same) d.0), d.1)
    | inr e ↦ rw e (d.0, Dead-replace id other xs h h' (ground arith) keep d.1)
  ]

  -- What a call on a handle can have done.
  abbrev Changed :
      {A : Type 0}
      → (MemoryHandle → Option (Result IpcError A × MemoryHandle))
      → ℕ
      → Registry
      → Result IpcError A
      → Registry
      → Type 0
  Changed body id r result r' =
      (r' ≡ r)
      ⊎ ((h : MemoryHandle) × (h' : MemoryHandle) × (find? (has_id id) r ≡ some h)
          × (body h ≡ some (result, h'))
          × (r' ≡ update_first (has_id id) (λ _. h') r))

  on_handle_inv :
      {A : Type 0} (body : MemoryHandle → Option (Result IpcError A × MemoryHandle)) (id : ℕ)
      (r : Registry) (result : Result IpcError A) (r' : Registry)
      → on_handle virt_ok phys_ok body r id ≡ some (result, r')
      → Changed body id r result r'
  unfolding get_handle
  on_handle_inv body id r result r' e = elim (Option-cases (find? (has_id id) r)) [
    | inl missing ↦ inl (ground arith)
    | inr (h, found) ↦ elim (Option-cases (body h)) [
      | inl panics ↦ absurd (ground arith)
      | inr ((res, h'), ran) ↦ inr (h, h', found, ground arith, ground arith)
    ]
  ]

  pub on_handle-Dead :
      {A : Type 0} (body : MemoryHandle → Option (Result IpcError A × MemoryHandle)) (id other : ℕ)
      (r : Registry) (result : Result IpcError A) (r' : Registry)
      → Tame body
      → Dead id r
      → on_handle virt_ok phys_ok body r other ≡ some (result, r')
      → Dead id r'
  on_handle-Dead body id other r result r' tame d e =
      elim (on_handle_inv body other r result r' e) [
        | inl same ↦ rw same d
        | inr (h, h', found, ran, changed) ↦
            let (named, stays) = tame h result h' ran in
            rw changed (Dead-replace id other r h h' found (λ k. ground arith) d)
      ]
