-- ===== src/Syscall/Stores.antt =====
-- syscall.rs: what the writes of system calls to user memory can reach.
use ruix.Prelude.{
  ◌++◌, ℕ, zero, suc, ◌+◌, ◌<◌, ◌≤◌, ◌≡◌, ◌⊎◌, refl, Bool, true, false, not, ◌&&◌, List, [], ◌∷◌,
  arith, Bool-cases, inl, inr, length, take, ◌==◌,
}
use ruix.Error.{Result-cases, Result, ok, err, is_ok}
use ruix.Process.{Process, waiting, child}
use ruix.Scheduler.{reap_zombie_child}
use ruix.Syscall.{Memory, validate_user_pointer}
use ruix.Syscall.Parse.{validate_user_pointer_lem}
use ruix.Syscall.Calls.{Kernel, store, i32_bytes, reap, block, block_front, run_front}

store-outside :
    (bs : List ℕ) (addr : ℕ) (mem : Memory) (a : ℕ)
    → (a < addr) ⊎ (addr + length bs ≤ a)
    → store bs addr mem a ≡ mem a
store-outside [] addr mem a h = refl
store-outside (b ∷ bs) addr mem a (inl below) =
    ground (arith, store-outside bs (addr + 1) mem a (inl (omega arith)))
store-outside (b ∷ bs) addr mem a (inr above) =
    ground (arith, store-outside bs (addr + 1) mem a (inr (omega arith)))

-- An address outside the user's range, and not in the first 256 bytes.
abbrev pub Protected : ℕ → Type 0
Protected a = (256 ≤ a) × ((a < 0x400000) ⊎ (0x7FFFFFFF < a))

pub length-take_le : (n : ℕ) (bs : List ℕ) → length (take n bs) ≤ n
length-take_le zero bs = omega arith
length-take_le (suc n) [] = omega arith
length-take_le (suc n) (b ∷ bs) = omega (arith, length-take_le n bs)

is_ok_inv : {E : Type 0} (r : Result E (Unit {0})) → is_ok r ≡ true → r ≡ ok tt
is_ok_inv (ok x) h = refl
is_ok_inv (err e) h = absurd (ground arith)

store-user :
    (bs : List ℕ) (ptr size : ℕ) (mem : Memory) (a : ℕ)
    → Protected a
    → length bs ≤ size
    → is_ok (validate_user_pointer ptr size) ≡ true
    → store bs ptr mem a ≡ mem a
store-user bs ptr size mem a (low, outside) fits valid =
    let (above_start, small, below_end) =
      (validate_user_pointer_lem ptr size).0 (is_ok_inv (validate_user_pointer ptr size) valid) in
    elim outside [
      | inl below ↦ store-outside bs ptr mem a (inl (omega arith))
      | inr above ↦ store-outside bs ptr mem a (inr (omega arith))
    ]

-- A buffer that was checked, unless its pointer is null.
abbrev pub refused : ℕ → ℕ → Bool
refused ptr size = not (ptr == 0) && not (is_ok (validate_user_pointer ptr size))

pub store-checked :
    (bs : List ℕ) (ptr size : ℕ) (mem : Memory) (a : ℕ)
    → Protected a
    → length bs ≤ size
    → size ≤ 256
    → refused ptr size ≡ false
    → store bs ptr mem a ≡ mem a
store-checked bs ptr size mem a (low, outside) fits small accepted = elim (Bool-cases (ptr == 0)) [
  | inl null ↦
      let at_zero : ptr ≡ 0 = ground arith in store-outside bs ptr mem a (inr (omega arith))
  | inr other ↦ store-user bs ptr size mem a (low, outside) fits (ground arith)
]

pub reap-memory :
    (k : Kernel) (pid status_ptr a : ℕ)
    → Protected a
    → refused status_ptr 4 ≡ false
    → (reap k pid status_ptr).1.memory a ≡ k.memory a
unfolding reap
reap-memory k pid status_ptr a p accepted =
    elim (Result-cases (reap_zombie_child k.sched k.cpu.current_process_id pid).0) [
      | inl (e, failed) ↦ rw (reap, failed) refl
      | inr (code, reaped) ↦
          rw (reap, reaped)
            (elim (Bool-cases (status_ptr == 0)) [
              | inl null ↦ rw null refl
              | inr given ↦ rw given (
                  store-checked (i32_bytes code) status_ptr 4 k.memory a p (omega arith)
                    (omega arith) accepted)
            ])
    ]

run_front-memory : (k : Kernel) (ps : List Process) → (run_front k ps).1.memory ≡ k.memory
unfolding run_front
run_front-memory k [] = refl
run_front-memory k (p ∷ ps) = refl

block_front-memory :
    (k : Kernel) (target : ℕ) (ps : List Process) → (block_front k target ps).1.memory ≡ k.memory
unfolding block_front
block_front-memory k target [] = refl
block_front-memory k target (p ∷ ps) = elim (Bool-cases (p.id == k.cpu.current_process_id)) [
  | inl e ↦
      rw (block_front, e)
        (run_front-memory k (ps ++ record p { state = waiting (child target) } ∷ []))
  | inr e ↦ rw (block_front, e) refl
]

pub block-memory : (k : Kernel) (target : ℕ) → (block k target).1.memory ≡ k.memory
unfolding block
block-memory k target = block_front-memory k target k.sched.processes
