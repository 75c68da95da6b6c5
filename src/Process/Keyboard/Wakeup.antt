-- ===== src/Process/Keyboard/Wakeup.antt =====
-- process/mod.rs: what the scancode queue holds, and when its reader is woken.
use mathlib.Core.Option
use ruix.Prelude.{
  ℕ, suc, zero, ◌-◌, ◌≡◌, ◌≤◌, ◌<◌, refl, sym, ap, ◌∙◌, subst, ◌⊎◌, inl, inr, none, some, List, [],
  ◌∷◌, ◌++◌, length, length-append, length-take, take, append_assoc, append-nil, arith, ltb,
  Bool-cases, ◌>>=◌,
}
use ruix.Process.Keyboard.{
  ArrayQueue, IsBounded, AtomicWaker, Keyboard, wake_keyboard, add_keyboard_scancode, interrupts,
  pop_queue, after_register, after_pop, poll_next,
}

-- A list that is full stays what it is.
take_full : (n : ℕ) (xs ys : List ℕ) → length xs ≡ n → take n (xs ++ ys) ≡ xs
take_full zero [] ys h = ground arith
take_full zero (x ∷ xs) ys h = ground arith
take_full (suc n) [] ys h = ground arith
take_full (suc n) (x ∷ xs) ys h = ap (λ zs. x ∷ zs) (take_full n xs ys (omega (arith, h)))

-- A list that fits.
take_all : (n : ℕ) (xs : List ℕ) → length xs ≤ n → take n xs ≡ xs
take_all zero [] h = refl
take_all zero (x ∷ xs) h = ground arith
take_all (suc n) [] h = refl
take_all (suc n) (x ∷ xs) h = ap (λ zs. x ∷ zs) (take_all n xs (omega (arith, h)))

take_again : (n : ℕ) (xs ys : List ℕ) → take n (take n xs ++ ys) ≡ take n (xs ++ ys)
take_again zero xs ys = ground arith
take_again (suc n) [] ys = refl
take_again (suc n) (x ∷ xs) ys = ap (λ zs. x ∷ zs) (take_again n xs ys)

take_cons : (n x : ℕ) (xs : List ℕ) → 0 < n → take n (x ∷ xs) ≡ x ∷ take (n - 1) xs
take_cons zero x xs h = ground arith
take_cons (suc n) x xs h = ap (λ k. x ∷ take k xs) (omega arith)

append_empty : (xs ys : List ℕ) → xs ++ ys ≡ [] → (xs ≡ []) × (ys ≡ [])
append_empty [] ys e = (refl, e)
append_empty (x ∷ xs) ys e = ground arith

list-cases : (xs : List ℕ) → (xs ≡ []) ⊎ ((y : ℕ) × (ys : List ℕ) × (xs ≡ y ∷ ys))
list-cases [] = inl refl
list-cases (x ∷ xs) = inr (x, xs, refl)

module _ {Q W K : Type 0} (queues : ArrayQueue Q) (wakers : AtomicWaker W K) (capacity : ℕ)
    (view : Q → List ℕ) (bounded : IsBounded queues capacity view) where
  -- What the queue holds, if there is one.
  unfoldable pub Holds : Keyboard Q W K → List ℕ → Type 0
  Holds k scancodes = (q : Q) × (k.scancode_queue ≡ some q) × (view q ≡ scancodes)

  add-Holds :
      (scancode : ℕ) (k : Keyboard Q W K) (held : List ℕ)
      → length held < capacity
      → Holds k held
      → Holds (add_keyboard_scancode queues wakers scancode k) (held ++ scancode ∷ [])
  unfolding Holds add_keyboard_scancode wake_keyboard
  add-Holds scancode k held h (q, e, same) =
      let (r, done, after) =
        bounded.view-push scancode q (subst (λ s. length s < capacity) (sym same) h) in
      (r, rw (e, add_keyboard_scancode, done) refl, after ∙ ap (λ s. s ++ scancode ∷ []) same)

  add_full :
      (scancode : ℕ) (k : Keyboard Q W K) (held : List ℕ)
      → capacity ≤ length held
      → Holds k held
      → add_keyboard_scancode queues wakers scancode k ≡ k
  unfolding Holds add_keyboard_scancode
  add_full scancode k held h (q, e, same) =
      let refused = bounded.push_full scancode q (subst (λ s. capacity ≤ length s) (sym same) h) in
      simp (e, add_keyboard_scancode, refused)

  -- The queue holds the first scancodes that came in, in their order and as many as fit, behind those that
  -- it held; those that do not fit are lost. It holds no more than its capacity at the start.
  interrupts-Holds :
      (scancodes : List ℕ) (k : Keyboard Q W K) (q : Q)
      → k.scancode_queue ≡ some q
      → length (view q) ≤ capacity
      → (r : Q) × ((interrupts queues wakers scancodes k).scancode_queue ≡ some r)
        × (view r ≡ take capacity (view q ++ scancodes))
  unfolding interrupts Holds
  interrupts-Holds [] k q e h =
      (q, e, sym (take_all capacity (view q) h) ∙ ap (take capacity) (sym (append-nil (view q))))
  interrupts-Holds (s ∷ ss) k q e h = elim (Bool-cases (ltb (length (view q)) capacity)) [
    | inl room ↦
        let lt : length (view q) < capacity = ground arith in
        let (p, e2, same) = add-Holds s k (view q) lt (q, e, refl) in
        let (r, e3, held) = interrupts-Holds ss (add_keyboard_scancode queues wakers s k) p e2 (
          subst (λ l. length l ≤ capacity) (sym same)
            (omega (arith, length-append (view q) (s ∷ []), lt))) in
        (
          r,
          e3,
          held
              ∙ ap (λ l. take capacity (l ++ ss)) same
              ∙ ap (take capacity) (append_assoc (view q) (s ∷ []) ss),
        )
    | inr full ↦
        let eq : length (view q) ≡ capacity = ground arith in
        let kept = add_full s k (view q) (omega (arith, eq)) (q, e, refl) in
        let (r, e3, held) = interrupts-Holds ss k q e h in
        (
          r,
          ap (λ j. (interrupts queues wakers ss j).scancode_queue) kept ∙ e3,
          held ∙ take_full capacity (view q) ss eq ∙ sym (take_full capacity (view q) (s ∷ ss) eq),
        )
  ]

  pop_found :
      (k : Keyboard Q W K) (q : Q) (x : ℕ) (xs : List ℕ)
      → k.scancode_queue ≡ some q
      → view q ≡ x ∷ xs
      → (s : Keyboard Q W K) × (pop_queue queues wakers k ≡ some (some x, s))
  pop_found k q x xs e same =
      let (r, popped, rest) = bounded.view-pop q x xs same in
      (record k { scancode_queue = some r }, rw (e, popped) refl)

  pop_nothing :
      (k : Keyboard Q W K) (q : Q)
      → k.scancode_queue ≡ some q
      → view q ≡ []
      → pop_queue queues wakers k ≡ some (none, k)
  pop_nothing k q e same =
      ap
        (λ o. o >>= λ p. some (elim (queues.pop p) [
          | none ↦ (none, k)
          | some (scancode, rest) ↦ (some scancode, record k { scancode_queue = some rest })
        ]))
        e
      ∙ rw (bounded.pop_empty q same) refl

  -- The rest of a poll whose first pop found nothing, if scancodes come in during it.
  second_pop :
      (waker : W) (before after : List ℕ) (k : Keyboard Q W K) (q : Q) (x : ℕ) (xs : List ℕ)
      → 0 < capacity
      → k.scancode_queue ≡ some q
      → view q ≡ []
      → before ++ after ≡ x ∷ xs
      → (s : Keyboard Q W K) × (after_pop queues wakers waker before after (none, k)
          ≡ some (some x, s))
  second_pop waker before after k q x xs h e empty arrive =
      let registered = interrupts queues wakers before k in
      let ready = record registered {
        keyboard_waker = wakers.register waker registered.keyboard_waker;
      } in
      let (p, e1, v1) =
        interrupts-Holds before k q e
          (subst (λ l. length l ≤ capacity) (sym empty) (omega arith)) in
      let (r, e2, v2) = interrupts-Holds after ready p e1 (
        subst (λ l. length l ≤ capacity) (sym v1)
          (omega (arith, length-take capacity (view q ++ before)))) in
      let (s, popped) =
        pop_found (interrupts queues wakers after ready) r x (take (capacity - 1) xs) e2 (
          v2
          ∙ ap (λ l. take capacity (l ++ after)) (v1 ∙ ap (λ l. take capacity (l ++ before)) empty)
          ∙ take_again capacity before after
          ∙ ap (take capacity) arrive
          ∙ take_cons capacity x xs h) in
      (
        (after_register queues wakers (some x, s)).1,
        ap (Option.map (after_register queues wakers)) popped,
      )

  -- A reader that finds nothing is woken by the next scancode, and the queue then holds it.
  wakes_next :
      (waker : W) (k : Keyboard Q W K) (q : Q) (code : ℕ)
      → 0 < capacity
      → ((w : W) (slot : K) → (wakers.wake (wakers.register w slot)).0 ≡ some w)
      → k.scancode_queue ≡ some q
      → view q ≡ []
      → let s = record k { keyboard_waker = wakers.register waker k.keyboard_waker } in
        let next = add_keyboard_scancode queues wakers code s in
        (next.woken ≡ waker ∷ k.woken) × Holds next (code ∷ [])
  unfolding add_keyboard_scancode wake_keyboard Holds
  wakes_next waker k q code h law e empty =
      let s = record k { keyboard_waker = wakers.register waker k.keyboard_waker } in
      let (r, done, after) =
        bounded.view-push code q (subst (λ l. length l < capacity) (sym empty) h) in
      (
        rw (e, add_keyboard_scancode, done, law waker k.keyboard_waker) refl,
        subst (λ l. Holds (add_keyboard_scancode queues wakers code s) (l ++ code ∷ [])) empty
            (add-Holds code s (view q) (subst (λ l. length l < capacity) (sym empty) h)
              (q, e, refl)),
      )

  -- A poll of the scancode stream finds the oldest scancode, if there is one in the queue or one comes in
  -- during the poll, and does not wait then. Otherwise it waits, and the next scancode wakes it and is in
  -- the queue: no wake-up is lost. The queue is there, holds no more than its capacity, which is not zero,
  -- and a waker that was registered is the one that is woken.
  pub poll_next_lem :
      (waker : W) (before after : List ℕ) (k : Keyboard Q W K) (q : Q)
      → 0 < capacity
      → ((w : W) (slot : K) → (wakers.wake (wakers.register w slot)).0 ≡ some w)
      → k.scancode_queue ≡ some q
      → length (view q) ≤ capacity
      → ((code : ℕ) × (rest : List ℕ) × (s : Keyboard Q W K) × (view q ++ before ++ after
            ≡ code ∷ rest)
          × (poll_next queues wakers waker before after k ≡ some (some code, s)))
        ⊎ ((view q ++ before ++ after ≡ [])
            × ((s : Keyboard Q W K) × (poll_next queues wakers waker before after k
                  ≡ some (none, s))
                × ((code : ℕ)
                    → ((add_keyboard_scancode queues wakers code s).woken ≡ waker ∷ s.woken)
                      × Holds (add_keyboard_scancode queues wakers code s) (code ∷ []))))
  unfolding poll_next interrupts
  poll_next_lem waker before after k q h law e fits = elim (list-cases (view q)) [
    | inr (x, xs, same) ↦
        let (s, found) = pop_found k q x xs e same in
        inl (
          x,
          xs ++ before ++ after,
          s,
          ap (λ l. l ++ before ++ after) same ∙ refl,
          ap (λ o. o >>= after_pop queues wakers waker before after) found,
        )
    | inl empty ↦
        let nothing =
          ap (λ o. o >>= after_pop queues wakers waker before after) (pop_nothing k q e empty) in
        elim (list-cases (before ++ after)) [
          | inr (x, xs, arrive) ↦
              let (s, found) = second_pop waker before after k q x xs h e empty arrive in
              inl (x, xs, s, ap (λ l. l ++ before ++ after) empty ∙ arrive, nothing ∙ found)
          | inl quiet ↦
              let (no_before, no_after) = append_empty before after quiet in
              let s = record k { keyboard_waker = wakers.register waker k.keyboard_waker } in
              inr (
                ap (λ l. l ++ before ++ after) empty ∙ quiet,
                (
                  s,
                  nothing
                      ∙ ap (λ l. after_pop queues wakers waker l after (none, k)) no_before
                      ∙ ap (λ l. after_pop queues wakers waker [] l (none, k)) no_after
                      ∙ ap (Option.map (after_register queues wakers)) (pop_nothing s q e empty),
                  λ code. wakes_next waker k q code h law e empty,
                ),
              )
        ]
  ]
