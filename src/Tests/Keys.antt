-- ===== src/Tests/Keys.antt =====
-- The scancode queue: a concrete run.
use ruix.Prelude.{
  ℕ, ◌≡◌, ◌⊎◌, refl, ap, Option, none, some, List, [], ◌∷◌, ◌++◌, length, ltb, lt→ltb, le→ltb,
  if◌then◌else◌, arith,
}
use ruix.Process.Keyboard.{
  ArrayQueue, IsBounded, AtomicWaker, Keyboard, add_keyboard_scancode, poll_next,
}
use ruix.Process.Keyboard.Wakeup.{Holds, poll_next_lem}

abbrev pop_front : List ℕ → Option (ℕ × List ℕ)
pop_front [] = none
pop_front (a ∷ rest) = some (a, rest)

-- A queue of two elements as a list.
abbrev queues : ArrayQueue (List ℕ)
queues = record {
  new = λ capacity. [];
  push = λ a q. if ltb (length q) 2 then some (q ++ a ∷ []) else none;
  pop = pop_front;
}

queues-IsBounded : IsBounded queues 2 (λ q. q)
queues-IsBounded = record {
  view-new = refl;
  view-push = λ a q h. (q ++ a ∷ [], rw (lt→ltb (length q) 2 h) refl, refl);
  push_full = λ a q h. rw (le→ltb (length q) 2 h) refl;
  pop_empty = λ q e. ap pop_front e;
  view-pop = λ q a rest e. (rest, ap pop_front e, refl);
}

-- Wakers are numbers.
abbrev wakers : AtomicWaker ℕ (Option ℕ)
wakers = record {
  register = λ waker slot. some waker;
  wake = λ slot. (slot, none);
  take = λ slot. (slot, none);
}

abbrev keyboard : Keyboard (List ℕ) ℕ (Option ℕ)
keyboard = record { scancode_queue = some []; keyboard_waker = none; woken = [] }

abbrev press : List ℕ
press = 30 ∷ []

poll_next_example :
    ((code : ℕ) × (rest : List ℕ) × (s : Keyboard (List ℕ) ℕ (Option ℕ)) × (press ≡ code ∷ rest)
      × (poll_next queues wakers 7 [] press keyboard ≡ some (some code, s)))
    ⊎ ((press ≡ [])
        × ((s : Keyboard (List ℕ) ℕ (Option ℕ)) × (poll_next queues wakers 7 [] press keyboard
              ≡ some (none, s))
            × ((code : ℕ)
                → ((add_keyboard_scancode queues wakers code s).woken ≡ 7 ∷ s.woken)
                  × Holds queues wakers 2
                      (λ q. q)
                      queues-IsBounded
                      (add_keyboard_scancode queues wakers code s)
                      (code ∷ []))))
poll_next_example =
    poll_next_lem queues wakers 2 (λ q. q) queues-IsBounded 7 [] press keyboard [] (omega arith)
      (λ w slot. refl) refl (omega arith)
