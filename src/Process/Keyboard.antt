-- ===== src/Process/Keyboard.antt =====
-- process/mod.rs: the queue of scancodes between the keyboard interrupt and the task that reads it. The
-- queue of the crate `crossbeam_queue` and the waker of the crate `futures_util` are interfaces, with what
-- their documentation promises as laws. Interrupts may come in the middle of a poll: the scancodes that
-- come in are arguments of it.
pub mod Wakeup
use mathlib.Core.Option
use ruix.Prelude.{ℕ, ◌+◌, ◌≡◌, ◌≤◌, ◌<◌, Option, none, some, List, [], ◌∷◌, ◌++◌, length, ◌>>=◌}

-- `ArrayQueue`: `push` answers `none` on an error, `pop` on an empty queue.
pub record ArrayQueue (Q : Type 0) : Type 0 where
  pub new : ℕ → Q
  pub push : ℕ → Q → Option Q
  pub pop : Q → Option (ℕ × Q)

-- A queue of a capacity, first in, first out, with the elements `view q`.
pub record IsBounded {Q : Type 0} (ops : ArrayQueue Q) (capacity : ℕ) (view : Q → List ℕ)
    : Type 0 where
  pub view-new : view (ops.new capacity) ≡ []
  pub view-push :
      (a : ℕ) (q : Q)
      → length (view q) < capacity
      → (r : Q) × (ops.push a q ≡ some r) × (view r ≡ view q ++ a ∷ [])
  pub push_full : (a : ℕ) (q : Q) → capacity ≤ length (view q) → ops.push a q ≡ none
  pub pop_empty : (q : Q) → view q ≡ [] → ops.pop q ≡ none
  pub view-pop :
      (q : Q) (a : ℕ) (rest : List ℕ)
      → view q ≡ a ∷ rest
      → (r : Q) × (ops.pop q ≡ some (a, r)) × (view r ≡ rest)

-- `AtomicWaker`: `wake` and `take` give the waker that they wake or return, if one is registered.
pub record AtomicWaker (W K : Type 0) : Type 0 where
  pub register : W → K → K
  pub wake : K → Option W × K
  pub take : K → Option W × K

-- The two statics, and the wakers that were woken, the last one first.
pub record Keyboard (Q W K : Type 0) : Type 0 where
  pub scancode_queue : Option Q
  pub keyboard_waker : K
  pub woken : List W

abbrev push_woken : {W : Type 0} → Option W → List W → List W
push_woken none ws = ws
push_woken (some w) ws = w ∷ ws

module _ {Q W K : Type 0} (queues : ArrayQueue Q) (wakers : AtomicWaker W K) where
  unfoldable pub wake_keyboard : Keyboard Q W K → Keyboard Q W K
  wake_keyboard k =
      let (waker, slot) = wakers.wake k.keyboard_waker in
      record k { keyboard_waker = slot; woken = push_woken waker k.woken }

  -- The push, with its error.
  abbrev pub pushed : Keyboard Q W K → Option Q → Keyboard Q W K
  pushed k none = k
  pushed k (some q) = wake_keyboard (record k { scancode_queue = some q })

  unfoldable pub add_keyboard_scancode : ℕ → Keyboard Q W K → Keyboard Q W K
  add_keyboard_scancode scancode k = elim k.scancode_queue [
    | none ↦ k
    | some q ↦ pushed k (queues.push scancode q)
  ]

  -- The interrupts that come in, one after the other.
  unfoldable pub interrupts : List ℕ → Keyboard Q W K → Keyboard Q W K
  interrupts [] k = k
  interrupts (scancode ∷ scancodes) k = interrupts scancodes (add_keyboard_scancode scancode k)

  -- `KeyboardScancodeStream::new`; `none` is the panic on a second call.
  unfoldable new_stream : Keyboard Q W K → Option (Keyboard Q W K)
  new_stream k = elim k.scancode_queue [
    | none ↦ some (record k { scancode_queue = some (queues.new 100) })
    | some q ↦ none
  ]

  -- `queue.pop()`; `none` is the panic without a queue.
  abbrev pub pop_queue : Keyboard Q W K → Option (Option ℕ × Keyboard Q W K)
  pop_queue k = k.scancode_queue >>= λ q. some (elim (queues.pop q) [
    | none ↦ (none, k)
    | some (scancode, rest) ↦ (some scancode, record k { scancode_queue = some rest })
  ])

  -- The second pop, after the waker was registered; what it finds gives the waker back.
  abbrev pub after_register : Option ℕ × Keyboard Q W K → Option ℕ × Keyboard Q W K
  after_register (none, k) = (none, k)
  after_register (some scancode, k) =
      (some scancode, record k { keyboard_waker = (wakers.take k.keyboard_waker).1 })

  -- The first pop, and the rest of the poll if it finds nothing.
  abbrev pub after_pop :
      W → List ℕ → List ℕ → Option ℕ × Keyboard Q W K → Option (Option ℕ × Keyboard Q W K)
  after_pop waker before after (some scancode, k) = some (some scancode, k)
  after_pop waker before after (none, k) =
      let registered = interrupts before k in
      Option.map after_register (
        pop_queue (
          interrupts after (record registered {
            keyboard_waker = wakers.register waker registered.keyboard_waker;
          })))

  -- A scancode (`Ready`) or none (`Pending`). `before` are the scancodes that come in between the first
  -- pop and the registration of the waker, `after` those between it and the second pop.
  unfoldable pub poll_next :
      W → List ℕ → List ℕ → Keyboard Q W K → Option (Option ℕ × Keyboard Q W K)
  poll_next waker before after k = pop_queue k >>= after_pop waker before after
