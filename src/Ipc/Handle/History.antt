-- ===== src/Ipc/Handle/History.antt =====
-- ipc.rs: sequences of calls on the registry of handles, and the ids that are out of use after them.
use ruix.Prelude.{
  ℕ, ◌+◌, ◌^◌, ◌≤◌, ◌<◌, ◌≡◌, Bool, true, not, Option, none, some, List, [], ◌∷◌, ◌++◌, arith, ◌==◌,
  Bool-cases, Option-cases, inl, inr, All-append, All-retain, length,
}
use ruix.Error.{Result, IpcError}
use ruix.Ipc.Handle.{
  AccessRights, TransferMode, PageRange, Registry, belongs_to, create_handle, new,
}
use ruix.Ipc.Handle.Cleanup.{cleanup_loop_lem}
use ruix.Ipc.Handle.Calls.{
  transfer_found, receive_found, revoke_found, transfer_memory, receive_memory_handle,
  revoke_memory_handle, create_memory_handle, cleanup_process_handles,
}
use ruix.Ipc.Handle.Inactive.{
  dead, Dead, transfer_found-Tame, receive_found-Tame, revoke_found-Tame, on_handle-Dead,
}

-- The calls that change the registry, each with the process that makes it, and the clean-up.
pub data Call : Type 0 where
  creates : (current start_addr size : ℕ) → AccessRights → TransferMode → Call
  transfers : (current id target : ℕ) → Call
  receives revokes : (current id : ℕ) → Call
  cleans : (pid : ℕ) → Call

module _ (virt_ok phys_ok : ℕ → Bool) where
  abbrev with_counter : {A : Type 0} → ℕ → Option (A × Registry) → Option (Registry × ℕ)
  with_counter next none = none
  with_counter next (some (result, r)) = some (r, next)

  -- The registry and the id counter after a call; `none` is a panic.
  unfoldable pub after : Registry → ℕ → Call → Option (Registry × ℕ)
  after r next (creates current start_addr size rights mode) =
      let (result, r', next') = create_memory_handle r next current start_addr size rights mode in
      some (r', next')
  after r next (transfers current id target) =
      with_counter next (transfer_memory virt_ok phys_ok r current id target)
  after r next (receives current id) =
      with_counter next (receive_memory_handle virt_ok phys_ok r current id)
  after r next (revokes current id) =
      with_counter next (revoke_memory_handle virt_ok phys_ok r current id)
  after r next (cleans pid) = some (cleanup_process_handles r pid, next)

  unfoldable pub run : Registry → ℕ → List Call → Option (Registry × ℕ)
  run r next [] = some (r, next)
  run r next (c ∷ cs) = elim (after r next c) [ none ↦ none | some (r', next') ↦ run r' next' cs ]

  transfer_memory-Dead :
      (r : Registry) (current other target id : ℕ) (result : Result IpcError (Unit {0}))
      (r' : Registry)
      → Dead id r
      → transfer_memory virt_ok phys_ok r current other target ≡ some (result, r')
      → Dead id r'
  unfolding transfer_memory
  transfer_memory-Dead r current other target id result r' d e =
      elim (Bool-cases (current == target)) [
        | inl same ↦ let unchanged : r' ≡ r = ground arith in rw unchanged d
        | inr differs ↦
            on_handle-Dead virt_ok phys_ok (transfer_found virt_ok phys_ok current target) id other
              r result r' (transfer_found-Tame virt_ok phys_ok current target) d (ground arith)
      ]

  receive_memory_handle-Dead :
      (r : Registry) (current other id : ℕ) (result : Result IpcError PageRange) (r' : Registry)
      → Dead id r
      → receive_memory_handle virt_ok phys_ok r current other ≡ some (result, r')
      → Dead id r'
  unfolding receive_memory_handle
  receive_memory_handle-Dead r current other id result r' d e =
      on_handle-Dead virt_ok phys_ok (receive_found virt_ok phys_ok current) id other r result r'
        (receive_found-Tame virt_ok phys_ok current) d e

  revoke_memory_handle-Dead :
      (r : Registry) (current other id : ℕ) (result : Result IpcError (Unit {0})) (r' : Registry)
      → Dead id r
      → revoke_memory_handle virt_ok phys_ok r current other ≡ some (result, r')
      → Dead id r'
  unfolding revoke_memory_handle
  revoke_memory_handle-Dead r current other id result r' d e =
      on_handle-Dead virt_ok phys_ok (revoke_found virt_ok phys_ok current) id other r result r'
        (revoke_found-Tame virt_ok phys_ok current) d e

  cleanup_process_handles-Dead :
      (r : Registry) (pid id : ℕ) → Dead id r → Dead id (cleanup_process_handles r pid)
  unfolding cleanup_process_handles
  cleanup_process_handles-Dead r pid id d =
      rw (cleanup_process_handles, cleanup_loop_lem pid r)
        (All-retain (λ h. dead id h ≡ true) (λ h. not (belongs_to pid h)) r d)

  create_handle-Dead :
      (r : Registry) (next owner : ℕ) (range : PageRange) (rights : AccessRights)
      (mode : TransferMode) (id : ℕ)
      → Dead id r
      → id < next
      → Dead id (create_handle r next owner range rights mode).1
  unfolding create_handle new
  create_handle-Dead r next owner range rights mode id d used =
      let added : Dead id (r ++ new next owner range rights mode ∷ []) =
        All-append (λ h. dead id h ≡ true) r (new next owner range rights mode ∷ []) d
          (ground arith) in
      ground arith

  create_memory_handle-counter :
      (r : Registry) (next current start_addr size : ℕ) (rights : AccessRights)
      (mode : TransferMode)
      → next + 1 < 2 ^ 64
      → (next ≤ (create_memory_handle r next current start_addr size rights mode).2)
        × ((create_memory_handle r next current start_addr size rights mode).2 ≤ next + 1)
  unfolding create_memory_handle create_handle
  create_memory_handle-counter r next current start_addr size rights mode room = ground arith

  create_memory_handle-Dead :
      (r : Registry) (next current start_addr size : ℕ) (rights : AccessRights)
      (mode : TransferMode) (id : ℕ)
      → Dead id r
      → id < next
      → Dead id (create_memory_handle r next current start_addr size rights mode).1
  unfolding create_memory_handle create_handle
  create_memory_handle-Dead r next current start_addr size rights mode id d used =
      create_handle-Dead r next current (record { start_addr = start_addr; size = size }) rights
        mode id d used

  -- The ids handed out are never used again: the counter only moves away from them.
  after-Dead :
      (c : Call) (id : ℕ) (r : Registry) (next : ℕ) (r' : Registry) (next' : ℕ)
      → Dead id r
      → id < next
      → next + 1 < 2 ^ 64
      → after r next c ≡ some (r', next')
      → Dead id r' × (next ≤ next') × (next' ≤ next + 1)
  unfolding after
  after-Dead (creates current start_addr size rights mode) id r next r' next' d used room e =
      let kept = create_memory_handle-Dead r next current start_addr size rights mode id d used in
      let counted = create_memory_handle-counter r next current start_addr size rights mode room in
      let same : (create_memory_handle r next current start_addr size rights mode).1 ≡ r' =
        ground arith in
      let same_counter : (create_memory_handle r next current start_addr size rights mode).2
          ≡ next' =
        ground arith in
      (rw (← same) kept, rw (← same_counter) counted.0, rw (← same_counter) counted.1)
  after-Dead (transfers current other target) id r next r' next' d used room e =
      elim (Option-cases (transfer_memory virt_ok phys_ok r current other target)) [
        | inl panics ↦ absurd (ground arith)
        | inr ((result, r''), ran) ↦
            let kept = transfer_memory-Dead r current other target id result r'' d ran in
            let same : r' ≡ r'' = ground arith in (rw same kept, ground arith, ground arith)
      ]
  after-Dead (receives current other) id r next r' next' d used room e =
      elim (Option-cases (receive_memory_handle virt_ok phys_ok r current other)) [
        | inl panics ↦ absurd (ground arith)
        | inr ((result, r''), ran) ↦
            let kept = receive_memory_handle-Dead r current other id result r'' d ran in
            let same : r' ≡ r'' = ground arith in (rw same kept, ground arith, ground arith)
      ]
  after-Dead (revokes current other) id r next r' next' d used room e =
      elim (Option-cases (revoke_memory_handle virt_ok phys_ok r current other)) [
        | inl panics ↦ absurd (ground arith)
        | inr ((result, r''), ran) ↦
            let kept = revoke_memory_handle-Dead r current other id result r'' d ran in
            let same : r' ≡ r'' = ground arith in (rw same kept, ground arith, ground arith)
      ]
  after-Dead (cleans pid) id r next r' next' d used room e =
      let same : r' ≡ cleanup_process_handles r pid = ground arith in
      (rw same (cleanup_process_handles-Dead r pid id d), ground arith, ground arith)

  pub run-Dead :
      (cs : List Call) (id : ℕ) (r : Registry) (next : ℕ) (r' : Registry) (next' : ℕ)
      → Dead id r
      → id < next
      → next + length cs < 2 ^ 64
      → run r next cs ≡ some (r', next')
      → Dead id r'
  unfolding run
  run-Dead [] id r next r' next' d used room e = let same : r' ≡ r = ground arith in rw same d
  run-Dead (c ∷ cs) id r next r' next' d used room e = elim (Option-cases (after r next c)) [
    | inl panics ↦ absurd (ground arith)
    | inr ((r1, next1), ran) ↦
        let (kept, up, bound) = after-Dead c id r next r1 next1 d used (omega arith) ran in
        run-Dead cs id r1 next1 r' next' kept (omega arith) (omega arith) (ground arith)
  ]
