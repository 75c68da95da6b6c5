-- ===== src/Allocator/FreeList.antt =====
-- allocator/fixed_size_block.rs: the linked free lists, with stacks of blocks as their abstract view.
use ruix.Prelude.{
  ℕ, zero, suc, ◌≡◌, ◌≢◌, refl, sym, ap, ◌∙◌, subst, Bool, true, false, Option, none, some, List,
  [], ◌∷◌, if◌then◌else◌, ◌==◌, arith, ◌<◌, ◌≤◌, inl, inr, length, Bool-cases, contains, All,
  Distinct, ==_refl, ==_ne, le→leb,
}
use ruix.Process.Context.{Words, write}
use ruix.Allocator.{
  FallbackOps, Layout, FixedSizeBlockAllocator, block_sizes, list_index, size_at, block_size,
  as_word, from_word, set_head, alloc_block, alloc, dealloc, max,
}
use ruix.Allocator.Classes.{FirstFit, list_index-FirstFit}

-- The list that starts at a head has these blocks.
unfoldable pub Seg : Words → Option ℕ → List ℕ → Type 0
Seg mem head [] = head ≡ none
Seg mem head (p ∷ ps) = (head ≡ some p) × (p ≢ 0) × Seg mem (from_word (mem p)) ps

-- The free blocks of each class are those of the abstract stacks, first block on top.
abbrev pub Represents : {H : Type 0} → FixedSizeBlockAllocator H → Words → (ℕ → List ℕ) → Type 0
Represents a mem blocks = (i : ℕ) → Seg mem (a.list_heads i) (blocks i)

-- No block is free twice.
abbrev pub Separate : (ℕ → List ℕ) → Type 0
Separate blocks =
    ((i : ℕ) → Distinct (blocks i))
    × ((i j : ℕ) → i ≢ j → (p : ℕ) → contains p (blocks i) ≡ true → contains p (blocks j) ≡ false)

-- No class has the block at an address.
abbrev pub NotFree : ℕ → (ℕ → List ℕ) → Type 0
NotFree p blocks = (i : ℕ) → contains p (blocks i) ≡ false

abbrev pub set_stack : ℕ → List ℕ → (ℕ → List ℕ) → ℕ → List ℕ
set_stack index ps blocks = λ i. if i == index then ps else blocks i

write-Seg :
    (q v : ℕ) (mem : Words) (head : Option ℕ) (ps : List ℕ)
    → contains q ps ≡ false
    → Seg mem head ps
    → Seg (write q v mem) head ps
unfolding Seg
write-Seg q v mem head [] h s = s
write-Seg q v mem head (p ∷ ps) h (e, nonzero, s) = elim (Bool-cases (p == q)) [
  | inl c ↦ ground arith
  | inr c ↦ (
    e,
    nonzero,
    subst (λ w. Seg (write q v mem) (from_word w) ps) (sym (unwritten c))
        (write-Seg q v mem (from_word (mem p)) ps (ground arith) s),
  )
]
  where
    unwritten : (p == q) ≡ false → write q v mem p ≡ mem p
    unwritten c = rw c refl

-- A family by index, of which one member is replaced.
at_index :
    {A B : Type 0} (P : A → B → Type 0) (index : ℕ) (x : A) (y : B) (xs : ℕ → A) (ys : ℕ → B)
    → P x y
    → ((i : ℕ) → i ≢ index → P (xs i) (ys i))
    → (i : ℕ) → P (if i == index then x else xs i) (if i == index then y else ys i)
at_index P index x y xs ys h k i = elim (Bool-cases (i == index)) [
  | inl c ↦ rw c h
  | inr c ↦ rw c (k i (ground arith))
]

excluded : {a b : Bool} → (a ≡ true → b ≡ false) → b ≡ true → a ≡ false
excluded {a} h e = elim (Bool-cases a) [ inl c ↦ ground (arith, h c) | inr c ↦ c ]

-- One stack is replaced by another, whose blocks no other stack has.
set_stack-Separate :
    (index : ℕ) (ps : List ℕ) (blocks : ℕ → List ℕ)
    → Distinct ps
    → ((j : ℕ) → j ≢ index → (p : ℕ) → contains p ps ≡ true → contains p (blocks j) ≡ false)
    → Separate blocks
    → Separate (set_stack index ps blocks)
set_stack-Separate index ps blocks d apart (distinct, cross) = (
  at_index (λ qs (u : ℕ). Distinct qs) index ps 0 blocks (λ i. 0) d (λ i ne. distinct i),
  λ i j ne p. elim (Bool-cases (i == index)) [
    | inl c ↦ rw (c, ==_ne j index (λ e. ne (ground arith))) (apart j (λ e. ne (ground arith)) p)
    | inr c ↦ elim (Bool-cases (j == index)) [
      | inl d ↦ rw (c, d) (λ h. excluded (apart i (ground arith) p) h)
      | inr d ↦ rw (c, d) (cross i j ne p)
    ]
  ],
)

-- An allocation of a class that has free blocks takes the one that was freed last: its address is the
-- result, the free lists are the stacks without it, no class has it any more, and memory changes only in
-- its first word. The free lists represent stacks on which no block stands twice.
pub alloc_refines :
    {H : Type 0} (ops : FallbackOps H) (layout : Layout) (a : FixedSizeBlockAllocator H)
    (mem : Words) (blocks : ℕ → List ℕ) (index p : ℕ) (ps : List ℕ)
    → list_index layout ≡ some index
    → blocks index ≡ p ∷ ps
    → Represents a mem blocks
    → Separate blocks
    → (b : FixedSizeBlockAllocator H) × (after : Words) × (alloc ops layout a mem
        ≡ some (p, b, after))
      × Represents b after (set_stack index ps blocks)
      × Separate (set_stack index ps blocks)
      × NotFree p (set_stack index ps blocks)
      × ((q : ℕ) → q ≢ p → after q ≡ mem q)
unfolding alloc alloc_block Seg
alloc_refines ops layout a mem blocks index p ps e top rep (distinct, cross) =
    let (head, nonzero, rest) = subst (Seg mem (a.list_heads index)) top (rep index) in
    let (fresh, d) = subst Distinct top (distinct index) in
    let held = λ (q : ℕ) (h : contains q ps ≡ true).
      subst (λ qs. contains q qs ≡ true) (sym top) (ground arith) in
    let elsewhere = λ (j : ℕ) (ne : j ≢ index).
      cross index j (λ s. ne (sym s)) p
        (subst (λ qs. contains p qs ≡ true) (sym top) (ground arith)) in
    (
      record a { list_heads = set_head index (from_word (mem p)) a.list_heads },
      write p 0 mem,
      rw (e, alloc, head) refl,
      at_index (Seg (write p 0 mem)) index (from_word (mem p)) ps a.list_heads blocks
          (write-Seg p 0 mem (from_word (mem p)) ps fresh rest)
          (λ i ne. write-Seg p 0 mem (a.list_heads i) (blocks i) (elsewhere i ne) (rep i)),
      set_stack-Separate index ps blocks d
          (λ j ne q h. cross index j (λ s. ne (sym s)) q (held q h)) (distinct, cross),
      at_index (λ qs (u : ℕ). contains p qs ≡ false) index ps 0 blocks (λ i. 0) fresh elsewhere,
      λ q ne. rw (==_ne q p ne) refl,
    )

written : (q v : ℕ) (mem : Words) → write q v mem q ≡ v
written q v mem = rw (==_refl q) refl

-- The head of a list, written to a word and read again.
head_kept :
    (mem : Words) (head : Option ℕ) (ps : List ℕ)
    → Seg mem head ps
    → from_word (as_word head) ≡ head
unfolding Seg
head_kept mem head [] s = subst (λ h. from_word (as_word h) ≡ h) (sym s) refl
head_kept mem head (p ∷ ps) (e, nonzero, s) =
    subst (λ h. from_word (as_word h) ≡ h) (sym e) (rw (==_ne p 0 nonzero) refl)

size_at_least :
    (n i : ℕ) (sizes : List ℕ) → All (λ s. n ≤ s) sizes → i < length sizes → n ≤ size_at i sizes
unfolding size_at
size_at_least n i [] h lt = omega arith
size_at_least n zero (s ∷ sizes) (h, hs) lt = h
size_at_least n (suc i) (s ∷ sizes) (h, hs) lt = size_at_least n i sizes hs (omega (arith, lt))

index-holds_word :
    (layout : Layout) (index : ℕ) → list_index layout ≡ some index → 8 ≤ block_size index
unfolding FirstFit
index-holds_word layout index e =
    size_at_least 8 index block_sizes (ground arith)
      (subst (FirstFit (max layout.size layout.align) block_sizes) e (list_index-FirstFit layout)).0

-- A block that is freed goes on top of the stack of its class: the free lists are the stacks with it, and
-- memory changes only in its first word. Its address is not null and no class has it already.
pub dealloc_refines :
    {H : Type 0} (ops : FallbackOps H) (ptr : ℕ) (layout : Layout) (a : FixedSizeBlockAllocator H)
    (mem : Words) (blocks : ℕ → List ℕ) (index : ℕ)
    → list_index layout ≡ some index
    → ptr ≢ 0
    → NotFree ptr blocks
    → Represents a mem blocks
    → Separate blocks
    → (b : FixedSizeBlockAllocator H) × (after : Words) × (dealloc ops ptr layout a mem
        ≡ some (b, after))
      × Represents b after (set_stack index (ptr ∷ blocks index) blocks)
      × Separate (set_stack index (ptr ∷ blocks index) blocks)
      × ((q : ℕ) → q ≢ ptr → after q ≡ mem q)
unfolding dealloc Seg
dealloc_refines ops ptr layout a mem blocks index e nonnull free rep (distinct, cross) =
    let after = write ptr (as_word (a.list_heads index)) mem in
    (
      record a { list_heads = set_head index (some ptr) a.list_heads },
      after,
      rw (e, dealloc, le→leb 8 (block_size index) (index-holds_word layout index e)) refl,
      at_index (Seg after) index (some ptr) (ptr ∷ blocks index) a.list_heads blocks
          (
            refl,
            nonnull,
            subst (λ h. Seg after h (blocks index))
                (sym (
                  ap from_word (written ptr (as_word (a.list_heads index)) mem)
                  ∙ head_kept mem (a.list_heads index) (blocks index) (rep index)))
                (write-Seg ptr _ mem (a.list_heads index) (blocks index) (free index) (rep index)),
          )
          (λ i ne. write-Seg ptr _ mem (a.list_heads i) (blocks i) (free i) (rep i)),
      set_stack-Separate index (ptr ∷ blocks index) blocks (free index, distinct index)
          (λ j ne q h. elim (Bool-cases (ptr == q)) [
            | inl c ↦ subst (λ r. contains r (blocks j) ≡ false) (ground arith) (free j)
            | inr c ↦ cross index j (λ s. ne (sym s)) q (ground arith)
          ])
          (distinct, cross),
      λ q ne. rw (==_ne q ptr ne) refl,
    )
