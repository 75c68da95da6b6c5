-- ===== src/Process/Waker.antt =====
-- process/mod.rs: the waker of an asynchronous task, which puts the task's id into a queue.
use ruix.Prelude.{
  zero, suc, take, take-append, append-nil, append_assoc, length-append, sym, ap, ◌∙◌, subst,
  Bool-cases, ltb, ltb→lt, ◌⊎◌, inl, inr, ◌≤◌, ◌<◌, arith, refl, ◌≡◌, ◌++◌, length, ℕ, none, some,
  List, [], ◌∷◌,
}
use ruix.Process.Keyboard.{ArrayQueue, IsBounded}

-- The queue is shared: it is an argument that comes back.
pub record TaskWaker : Type 0 where
  pub task_id : ℕ

unfoldable pub new : ℕ → TaskWaker
new task_id = record { task_id = task_id }

take_full : (n : ℕ) (xs ys : List ℕ) → length xs ≡ n → take n (xs ++ ys) ≡ xs
take_full n xs ys e = subst (λ k. take k (xs ++ ys) ≡ xs) e (take-append xs ys)

take_all : (n : ℕ) (xs : List ℕ) → length xs ≤ n → take n xs ≡ xs
take_all zero [] h = refl
take_all (suc n) [] h = refl
take_all (suc n) (x ∷ xs) h = ap (◌∷◌ x) (take_all n xs (omega arith))
take_all zero (x ∷ xs) h = absurd (omega arith)

module _ {Q : Type 0} (queues : ArrayQueue Q) where
  -- A full queue drops the wake-up.
  unfoldable pub wake_task : TaskWaker → Q → Q
  wake_task waker q = elim (queues.push waker.task_id q) [ none ↦ q | some r ↦ r ]

  unfoldable pub wake : TaskWaker → Q → Q
  wake waker q = wake_task waker q

  unfoldable wake_by_ref : TaskWaker → Q → Q
  wake_by_ref waker q = wake_task waker q

  unfoldable pub wake_all : List ℕ → Q → Q
  wake_all [] q = q
  wake_all (id ∷ ids) q = wake_all ids (wake (new id) q)

  module _ (capacity : ℕ) (view : Q → List ℕ) (bounded : IsBounded queues capacity view) where
    -- A wake-up appends the id, or finds the queue full.
    wake-view :
        (id : ℕ) (q : Q)
        → ((length (view q) < capacity) × (view (wake (new id) q) ≡ view q ++ id ∷ []))
          ⊎ ((capacity ≤ length (view q)) × (wake (new id) q ≡ q))
    unfolding wake wake_task new
    wake-view id q = elim (Bool-cases (ltb (length (view q)) capacity)) [
      | inl room ↦
          let lt = ltb→lt (length (view q)) capacity room in
          let (r, pushed, e) = bounded.view-push id q lt in inl (lt, rw (wake_task, pushed) e)
      | inr full ↦
          let le : capacity ≤ length (view q) = ground (arith, full) in
          inr (le, rw (wake_task, bounded.push_full id q le) refl)
    ]

    -- Wake-ups of tasks put their ids into the queue, in order, up to its capacity; those that come when
    -- it is full are dropped. The queue holds no more than its capacity before.
    pub wake_all_lem :
        (ids : List ℕ) (q : Q)
        → length (view q) ≤ capacity
        → view (wake_all ids q) ≡ take capacity (view q ++ ids)
    unfolding wake_all
    wake_all_lem [] q h = sym (rw append-nil (take_all capacity (view q) h))
    wake_all_lem (id ∷ ids) q h = elim (wake-view id q) [
      | inl (room, e) ↦
          wake_all_lem ids (wake (new id) q)
            (rw e (omega (arith, length-append (view q) (id ∷ []), room)))
          ∙ ap (λ v. take capacity (v ++ ids)) e
          ∙ ap (take capacity) (append_assoc (view q) (id ∷ []) ids)
      | inr (full, e) ↦
          rw e (wake_all_lem ids q h)
          ∙ take_full capacity (view q) ids (omega arith)
          ∙ sym (take_full capacity (view q) (id ∷ ids) (omega arith))
    ]
