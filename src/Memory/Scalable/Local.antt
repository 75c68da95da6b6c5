-- ===== src/Memory/Scalable/Local.antt =====
-- memory/scalable.rs: the free list of a CPU's allocator.
use mathlib.Core.List.{Perm}
use mathlib.Core.List.Perm
use ruix.Prelude.{
  ℕ, suc, ◌≡◌, refl, sym, ap, subst, ◌⊎◌, inl, inr, Bool, true, false, Option, none, some, List, [],
  ◌∷◌, ◌++◌, arith, Bool-cases, if◌then◌else◌, length, any,
}
use ruix.Memory.Scalable.{
  MemoryType, AllocFlags, MemoryRegion, new, is_allocated, AllocatorStats, PerCpuAllocator, System,
  HeapOps,
}
use ruix.Memory.Scalable as Region
use ruix.Memory.Scalable.PerCpu.{
  position, pop_last, swap_remove, in_front, replaced, suitable, take_region, try_local_allocate,
}

-- What `pop_last` may answer for a list.
Pops : {A : Type 0} → List A → Option (A × List A) → Type 0
Pops xs none = xs ≡ []
Pops xs (some (last, init)) = Perm (last ∷ init) xs

in_front-Pops :
    {A : Type 0} (x : A) (xs : List A) (o : Option (A × List A))
    → Pops xs o
    → Pops (x ∷ xs) (some (in_front x o))
unfolding Pops
in_front-Pops x xs none h = subst (λ ys. Perm (x ∷ []) (x ∷ ys)) (sym h) (Perm.refl _)
in_front-Pops x xs (some (last, init)) h = Perm.trans (Perm.swap x last init) (Perm.cons x h)

pop_last-Pops : {A : Type 0} (xs : List A) → Pops xs (pop_last xs)
unfolding pop_last Pops
pop_last-Pops [] = refl
pop_last-Pops (x ∷ xs) = in_front-Pops x xs (pop_last xs) (pop_last-Pops xs)

replaced-Perm :
    {A : Type 0} (x : A) (xs : List A) (o : Option (A × List A))
    → Pops xs o
    → ((replaced x o).0 ≡ x) × Perm (x ∷ (replaced x o).1) (x ∷ xs)
unfolding Pops
replaced-Perm x xs none h = (refl, subst (λ ys. Perm (x ∷ []) (x ∷ ys)) (sym h) (Perm.refl _))
replaced-Perm x xs (some (last, init)) h = (refl, Perm.cons x h)

-- The first element that passes the test, and what `swap_remove` makes of the list.
Removed : {A : Type 0} → (A → Bool) → List A → Type 0
Removed {A} p xs =
    (n : ℕ) × (x : A) × (rest : List A) × (position p xs ≡ some n)
    × (swap_remove n xs ≡ some (x, rest))
    × (p x ≡ true)
    × Perm (x ∷ rest) xs

removed :
    {A : Type 0} (p : A → Bool) (xs : List A)
    → ((any p xs ≡ false) × (position p xs ≡ none)) ⊎ Removed p xs
unfolding position swap_remove Removed
removed p [] = inl (refl, refl)
removed p (x ∷ xs) = elim (Bool-cases (p x)) [
  | inl e ↦
      let (same, perm) = replaced-Perm x xs (pop_last xs) (pop_last-Pops xs) in
      inr (
        0,
        x,
        (replaced x (pop_last xs)).1,
        rw e refl,
        ap (λ y. some (y, (replaced x (pop_last xs)).1)) same,
        e,
        perm,
      )
  | inr e ↦ elim (removed p xs) [
    | inl (none_passes, nowhere) ↦ inl (rw (e, none_passes) refl, rw (e, nowhere) refl)
    | inr (n, y, rest, at, taken, passes, perm) ↦ inr (
      suc n,
      y,
      x ∷ rest,
      rw (e, at) refl,
      rw taken refl,
      passes,
      Perm.trans (Perm.swap x y rest) (Perm.cons x perm),
    )
  ]
]

pop_last_snoc : {A : Type 0} (xs : List A) (x : A) → pop_last (xs ++ x ∷ []) ≡ some (x, xs)
unfolding pop_last
pop_last_snoc [] x = refl
pop_last_snoc (y ∷ ys) x = rw (pop_last_snoc ys x) refl

-- A list whose last element is the only one that passes.
pub last_removed :
    {A : Type 0} (p : A → Bool) (xs : List A) (x : A)
    → any p xs ≡ false
    → p x ≡ true
    → (position p (xs ++ x ∷ []) ≡ some (length xs))
      × (swap_remove (length xs) (xs ++ x ∷ []) ≡ some (x, xs))
unfolding position swap_remove pop_last
last_removed p [] x h e = rw e (refl, refl)
last_removed p (y ∷ ys) x h e = elim (Bool-cases (p y)) [
  | inl c ↦ ground arith
  | inr c ↦
      let (at, taken) = last_removed p ys x (ground arith) e in (rw (c, at) refl, rw taken refl)
]

pub taken_region :
    {H : Type 0} (ops : HeapOps H) (size : ℕ) (flags : AllocFlags) (r : MemoryRegion) (h : H)
    → suitable size r ≡ true
    → take_region ops false size flags r h ≡ (
      some (record r { allocated = true }),
      if flags.zeroed then ops.write_bytes r.virt_start 0 size h else h,
    )
unfolding Region.allocate
taken_region ops size flags r h e = elim (Bool-cases r.allocated) [
  | inl c ↦ ground arith
  | inr c ↦ rw c refl
]

-- The free list loses one region at most: if no free region is large enough, `try_local_allocate` finds
-- none and changes nothing, and otherwise it takes one that is free and large enough, marks it, and
-- leaves the others, in some order. The exchange of the mark does not fail spuriously.
try_local_allocate_lem :
    {H : Type 0} (ops : HeapOps H) (size : ℕ) (flags : AllocFlags) (free_list : List MemoryRegion)
    (h : H)
    → ((any (suitable size) free_list ≡ false)
        × (try_local_allocate ops false size flags free_list h ≡ some (none, free_list, h)))
      ⊎ ((r : MemoryRegion) × (rest : List MemoryRegion) × (suitable size r ≡ true)
          × Perm (r ∷ rest) free_list
          × (try_local_allocate ops false size flags free_list h
              ≡ some (
                some (record r { allocated = true }),
                rest,
                if flags.zeroed then ops.write_bytes r.virt_start 0 size h else h,
              )))
unfolding try_local_allocate Removed
try_local_allocate_lem ops size flags free_list h = elim (removed (suitable size) free_list) [
  | inl (none_passes, nowhere) ↦ inl (none_passes, rw (nowhere, try_local_allocate) refl)
  | inr (n, r, rest, at, taken, passes, perm) ↦ inr (
    r,
    rest,
    passes,
    perm,
    rw (at, try_local_allocate, taken)
        (ap (λ o. some (o.0, rest, o.1)) (taken_region ops size flags r h passes)),
  )
]
