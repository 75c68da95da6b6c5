-- ===== src/Ipc/Handle/Transfer.antt =====
-- ipc.rs: a memory handle goes from its owner to another process, which accepts it.
use ruix.Prelude.{
  ℕ, zero, suc, ◌+◌, ◌*◌, ◌^◌, ◌≤◌, ◌<◌, ◌≡◌, ◌≢◌, refl, ap, sym, Bool, true, some, [], ◌∷◌, arith,
  ◌==◌, ==_ne, find?, update_first,
}
use ruix.Error.{ok, err, IpcError}
use ruix.Ipc.Handle.{MemoryHandle, Registry, has_id, get_handle, validate, is_valid}
use ruix.Ipc.Handle.Range.{page_count_lem}
use ruix.Ipc.Handle.Calls.{
  on_handle, visit_pages, simulate_frames, transfer_found, receive_found, transfer_memory,
  receive_memory_handle,
}

pub find?-update_first :
    (id : ℕ) (r : Registry) (h h' : MemoryHandle)
    → find? (has_id id) r ≡ some h
    → has_id id h' ≡ true
    → find? (has_id id) (update_first (has_id id) (λ _. h') r) ≡ some h'
find?-update_first id [] h h' e k = cc
find?-update_first id (x ∷ xs) h h' e k = ground (arith, find?-update_first id xs h h')

find?-has_id : (id : ℕ) (r : Registry) (h : MemoryHandle) → find? (has_id id) r ≡ some h → h.id ≡ id
find?-has_id id [] h e = cc
find?-has_id id (x ∷ xs) h e = ground (arith, find?-has_id id xs h)

pub update_first-found :
    (id : ℕ) (r : Registry) (h : MemoryHandle)
    → find? (has_id id) r ≡ some h
    → update_first (has_id id) (λ _. h) r ≡ r
update_first-found id [] h found = refl
update_first-found id (x ∷ xs) h found = ground (arith, update_first-found id xs h)

-- The lower half of the virtual addresses, and the physical addresses of 52 bits, are accepted.
module _ (virt_ok phys_ok : ℕ → Bool) (lower_half : (a : ℕ) → a < 2 ^ 47 → virt_ok a ≡ true)
    (physical : (a : ℕ) → a < 2 ^ 52 → phys_ok a ≡ true) where
  visit_pages_ok :
      (n i start : ℕ)
      → start + (i + n) * 4096 ≤ 2 ^ 47
      → visit_pages virt_ok phys_ok n i start ≡ some tt
  unfolding visit_pages
  visit_pages_ok zero i start h = refl
  visit_pages_ok (suc n) i start h =
      ground (arith, lower_half (start + i * 4096), visit_pages_ok n (i + 1) start)

  simulate_frames_ok :
      (n i start : ℕ)
      → start + (i + n) * 4096 ≤ 2 ^ 47
      → simulate_frames virt_ok phys_ok n i start ≡ some tt
  unfolding simulate_frames
  simulate_frames_ok zero i start h = refl
  simulate_frames_ok (suc n) i start h = ground (
    arith,
    lower_half (start + i * 4096),
    physical (0x100000 + i * 4096),
    simulate_frames_ok n (i + 1) start,
  )

  valid_range : (h : MemoryHandle) → validate h ≡ true → is_valid h.range ≡ true
  unfolding validate
  valid_range h v = ground arith

  transfer_found_ok :
      (current target : ℕ) (h : MemoryHandle)
      → h.owner_pid ≡ current
      → validate h ≡ true
      → h.range.start_addr + h.range.size ≤ 2 ^ 47
      → transfer_found virt_ok phys_ok current target h
        ≡ some (ok tt, record h { holder_pid = target })
  unfolding transfer_found
  transfer_found_ok current target h mine v fits =
      let (n, counted, exact, _) = (page_count_lem h.range (omega arith)).2 (valid_range h v) in
      ground (arith, simulate_frames_ok n 0 h.range.start_addr)

  receive_found_denied :
      (pid : ℕ) (h : MemoryHandle)
      → h.holder_pid ≢ pid
      → receive_found virt_ok phys_ok pid h ≡ some (err IpcError.access_denied, h)
  unfolding receive_found
  receive_found_denied pid h other = rw (==_ne h.holder_pid pid other) refl

  receive_found_ok :
      (current : ℕ) (h : MemoryHandle)
      → h.holder_pid ≡ current
      → validate h ≡ true
      → h.range.start_addr + h.range.size ≤ 2 ^ 47
      → receive_found virt_ok phys_ok current h
        ≡ some
            (ok h.range, record h { is_mapped = true; holder_virt_addr = some h.range.start_addr })
  unfolding receive_found
  receive_found_ok current h mine v fits =
      let (n, counted, exact, _) = (page_count_lem h.range (omega arith)).2 (valid_range h v) in
      ground (arith, visit_pages_ok n 0 h.range.start_addr)

  -- The owner of a valid handle below 2^47 transfers it to another process. Whatever the mode of the
  -- transfer, and whether or not that process exists, the transfer succeeds, and the owner cannot receive
  -- the handle then: it is refused as access denied and nothing changes. When the other process receives
  -- the handle it gets the range, and the handle is recorded as held by it and mapped at the start of the
  -- range. Its owner, rights and mode are as before, also in the modes in which the owner is to lose
  -- its access, so that the owner can transfer it on to a third process, which then holds it.
  pub receive-transfer :
      (r : Registry) (owner id target third : ℕ) (h : MemoryHandle)
      → get_handle r id ≡ some h
      → h.owner_pid ≡ owner
      → owner ≢ target
      → owner ≢ third
      → validate h ≡ true
      → h.range.start_addr + h.range.size ≤ 2 ^ 47
      → (r1 : Registry) × (r2 : Registry) × (transfer_memory virt_ok phys_ok r owner id target
          ≡ some (ok tt, r1))
        × (receive_memory_handle virt_ok phys_ok r1 owner id
            ≡ some (err IpcError.access_denied, r1))
        × (receive_memory_handle virt_ok phys_ok r1 target id ≡ some (ok h.range, r2))
        × (get_handle r2 id
            ≡ some (record h {
              holder_pid = target;
              is_mapped = true;
              holder_virt_addr = some h.range.start_addr;
            }))
        × ((r3 : Registry) × (transfer_memory virt_ok phys_ok r2 owner id third ≡ some (ok tt, r3))
            × (get_handle r3 id
                ≡ some (record h {
                  holder_pid = third;
                  is_mapped = true;
                  holder_virt_addr = some h.range.start_addr;
                })))
  unfolding transfer_memory receive_memory_handle get_handle
  receive-transfer r owner id target third h found mine other other' v fits = (
    r1,
    r2,
    sent,
    denied,
    received,
    found2,
    (r3, again, find?-update_first id r2 mapped onward found2 named),
  )
    where
      held : MemoryHandle
      held = record h { holder_pid = target }

      mapped : MemoryHandle
      mapped = record held { is_mapped = true; holder_virt_addr = some h.range.start_addr }

      onward : MemoryHandle
      onward = record mapped { holder_pid = third }

      named : (h.id == id) ≡ true
      named = ground (arith, find?-has_id id r h found)

      r1 : Registry
      r1 = update_first (has_id id) (λ _. held) r

      r2 : Registry
      r2 = update_first (has_id id) (λ _. mapped) r1

      r3 : Registry
      r3 = update_first (has_id id) (λ _. onward) r2

      found1 : find? (has_id id) r1 ≡ some held
      found1 = find?-update_first id r h held found named

      found2 : find? (has_id id) r2 ≡ some mapped
      found2 = find?-update_first id r1 held mapped found1 named

      still_valid : validate held ≡ true
      still_valid = unfold validate in v

      sent : transfer_memory virt_ok phys_ok r owner id target ≡ some (ok tt, r1)
      sent =
          rw (==_ne owner target other, transfer_memory)
            (rw (found, on_handle) (rw (transfer_found_ok owner target h mine v fits)))

      received : receive_memory_handle virt_ok phys_ok r1 target id ≡ some (ok h.range, r2)
      received = rw (found1, on_handle) (rw (receive_found_ok target held refl still_valid fits))

      denied :
          receive_memory_handle virt_ok phys_ok r1 owner id ≡ some (err IpcError.access_denied, r1)
      denied =
          rw (found1, on_handle)
            (rw (receive_found_denied owner held (λ e. other (sym e))) (
              ap (λ r. some (err IpcError.access_denied, r))
                (update_first-found id r1 held found1)))

      mapped_valid : validate mapped ≡ true
      mapped_valid = unfold validate in v

      again : transfer_memory virt_ok phys_ok r2 owner id third ≡ some (ok tt, r3)
      again =
          rw (==_ne owner third other', transfer_memory)
            (rw (found2, on_handle)
              (rw (transfer_found_ok owner third mapped mine mapped_valid fits)))
