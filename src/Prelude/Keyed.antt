-- ===== src/Prelude/Keyed.antt =====
-- Lists of records that are told apart by a number: removal by key against removal by a test.
use Prim.Native.Nat.{ℕ}
use mathlib.Core.Path.{◌≡◌, refl, ap, ◌∙◌}
use mathlib.Core.Bool.{Bool, false, not}
use mathlib.Core.Logic.{inl, inr}
use mathlib.Core.List.{List, [], ◌∷◌, ◌++◌, map}
use native.Mathlib.Omega.{arith}
use ruix.Prelude.Tests.{◌==◌, ==_refl, Bool-cases}
use ruix.Prelude.Lists.{contains, retain, Distinct}

module _ {ℓ} {A : Type ℓ} (key : A → ℕ) where
  -- What is left when the keys of a list are removed.
  abbrev pub without : List ℕ → List A → List A
  without ks = retain (λ x. not (contains (key x) ks))

  pub without-nil : (xs : List A) → without [] xs ≡ xs
  without-nil [] = refl
  without-nil (x ∷ xs) = ground (arith, without-nil xs)

  pub without-cons :
      (k : ℕ) (ks : List ℕ) (xs : List A)
      → without ks (retain (λ x. not (key x == k)) xs) ≡ without (k ∷ ks) xs
  without-cons k ks [] = refl
  without-cons k ks (x ∷ xs) = ground (arith, without-cons k ks xs)

  contains-snoc :
      (k : ℕ) (xs : List A) (x : A)
      → contains k (map key xs) ≡ false
      → (key x == k) ≡ false
      → contains k (map key (xs ++ x ∷ [])) ≡ false
  contains-snoc k [] x h e = ground arith
  contains-snoc k (y ∷ ys) x h e = ground (arith, contains-snoc k ys x)

  -- A record with a new key at the end.
  pub Distinct-snoc :
      (xs : List A) (x : A)
      → Distinct (map key xs)
      → contains (key x) (map key xs) ≡ false
      → Distinct (map key (xs ++ x ∷ []))
  Distinct-snoc [] x d h = (refl, tt)
  Distinct-snoc (y ∷ ys) x d h =
      (contains-snoc (key y) ys x d.0 (ground arith), Distinct-snoc ys x d.1 (ground arith))

module _ {ℓ} {A : Type ℓ} (key : A → ℕ) (p : A → Bool) where
  pub contains-retain :
      (k : ℕ) (xs : List A)
      → contains k (map key xs) ≡ false
      → contains k (map key (retain p xs)) ≡ false
  contains-retain k [] h = refl
  contains-retain k (x ∷ xs) h = ground (arith, contains-retain k xs)

  pub Distinct-retain : (xs : List A) → Distinct (map key xs) → Distinct (map key (retain p xs))
  Distinct-retain [] d = tt
  Distinct-retain (x ∷ xs) d = ground (arith, Distinct-retain xs d.1, contains-retain (key x) xs)

  without-absent :
      (k : ℕ) (ks : List ℕ) (xs : List A)
      → contains k (map key xs) ≡ false
      → without key (k ∷ ks) xs ≡ without key ks xs
  without-absent k ks [] h = refl
  without-absent k ks (x ∷ xs) h = ground (arith, without-absent k ks xs)

  keep_step :
      (ks : List ℕ) (x : A) (xs : List A)
      → contains (key x) ks ≡ p x
      → without key ks xs ≡ retain (λ y. not (p y)) xs
      → without key ks (x ∷ xs) ≡ retain (λ y. not (p y)) (x ∷ xs)
  keep_step ks x xs h k = ground arith

  -- While the keys are distinct, to remove the keys of what passes a test is to remove what passes.
  pub without-retain :
      (xs : List A)
      → Distinct (map key xs)
      → without key (map key (retain p xs)) xs ≡ retain (λ x. not (p x)) xs
  without-retain [] d = refl
  without-retain (x ∷ xs) d =
      let ks = map key (retain p xs) in
      elim (Bool-cases (p x)) [
        | inl e ↦
            let keys : map key (retain p (x ∷ xs)) ≡ key x ∷ ks = rw e in
            ap (λ l. without key l (x ∷ xs)) keys
            ∙ keep_step (key x ∷ ks) x xs (ground (arith, ==_refl (key x)))
                (without-absent (key x) ks xs d.0 ∙ without-retain xs d.1)
        | inr e ↦
            let keys : map key (retain p (x ∷ xs)) ≡ ks = rw e in
            ap (λ l. without key l (x ∷ xs)) keys
            ∙ keep_step ks x xs (ground (arith, contains-retain (key x) xs d.0))
                (without-retain xs d.1)
      ]
