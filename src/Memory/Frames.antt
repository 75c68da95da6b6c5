-- ===== src/Memory/Frames.antt =====
-- memory.rs: the frames that the frame allocator hands out.
use ruix.Prelude.{
  ℕ, zero, suc, ◌+◌, ◌-◌, ◌*◌, ◌/◌, ◌%◌, ◌≡◌, refl, sym, ap, ◌∙◌, Bool, true, false, Option, some,
  List, [], ◌∷◌, ◌++◌, map, arith, ◌<◌, ◌≤◌, u64_mod, lt→ltb, if◌then◌else◌, some-inj,
}
use ruix.Memory.{Region, steps, step_by, usable_addresses, usable_frames, nth, allocate_frame}

-- The map is in ascending order from an address on, its usable regions have no byte in common, and their
-- ends are multiples of the page size.
unfoldable pub Ascending : ℕ → List Region → Type 0
Ascending lo [] = Unit {0}
Ascending lo (r ∷ rs) =
    (lo ≤ r.start_addr)
    × (r.start_addr ≤ r.end_addr)
    × (r.start_addr % 4096 ≡ 0)
    × (r.end_addr % 4096 ≡ 0)
    × Ascending r.end_addr rs

-- Addresses of pages, each after the one before it.
unfoldable Paged : ℕ → List ℕ → Type 0
Paged lo [] = Unit {0}
Paged lo (a ∷ fs) = (lo ≤ a) × (a % 4096 ≡ 0) × Paged (a + 4096) fs

Paged-weaken : (lo lo' : ℕ) (fs : List ℕ) → lo ≤ lo' → Paged lo' fs → Paged lo fs
unfolding Paged
Paged-weaken lo lo' [] h p = tt
Paged-weaken lo lo' (a ∷ fs) h (p, q, r) = (omega (arith, h, p), q, r)

steps-Paged :
    (n a hi : ℕ) (rest : List ℕ)
    → a % 4096 ≡ 0
    → a + 4096 * n ≤ hi
    → Paged hi rest
    → Paged a (steps n a ++ rest)
unfolding Paged steps
steps-Paged zero a hi rest h b p = Paged-weaken a hi rest (omega (arith, b)) p
steps-Paged (suc n) a hi rest h b p =
    (omega arith, h, steps-Paged n (a + 4096) hi rest (omega (arith, h)) (omega (arith, b)) p)

usable_addresses-Paged :
    (lo : ℕ) (rs : List Region) → Ascending lo rs → Paged lo (usable_addresses rs)
unfolding Ascending Paged usable_addresses
usable_addresses-Paged lo [] h = tt
usable_addresses-Paged lo (r ∷ rs) (h1, h2, h3, h4, h) =
    either (usable_addresses rs) (usable_addresses-Paged r.end_addr rs h) r.usable
  where
    either :
        (rest : List ℕ)
        → Paged r.end_addr rest
        → (b : Bool) → Paged lo (if b then step_by r ++ rest else rest)
    either rest p true = Paged-weaken lo r.start_addr _ h1 (
        steps-Paged ((r.end_addr - r.start_addr + 4095) / 4096) r.start_addr r.end_addr rest h3
          (omega (arith, h2, h3, h4)) p)
    either rest p false = Paged-weaken lo r.end_addr rest (omega (arith, h1, h2)) p

map-Paged :
    (containing_address : ℕ → ℕ)
    → ((a : ℕ) → a % 4096 ≡ 0 → containing_address a ≡ a)
    → (lo : ℕ) (fs : List ℕ) → Paged lo fs
    → map containing_address fs ≡ fs
unfolding Paged
map-Paged f hf lo [] p = refl
map-Paged f hf lo (a ∷ fs) (p, q, r) = cc (hf a q, map-Paged f hf (a + 4096) fs r)

nth_above : (lo n f : ℕ) (fs : List ℕ) → Paged lo fs → nth n fs ≡ some f → lo ≤ f
unfolding Paged nth
nth_above lo n f [] p e = ground arith
nth_above lo zero f (a ∷ fs) (p, q, r) e = ground arith
nth_above lo (suc n) f (a ∷ fs) (p, q, r) e = omega (arith, nth_above (a + 4096) n f fs r e, p)

nth_ascends :
    (lo m n f g : ℕ) (fs : List ℕ)
    → Paged lo fs
    → m < n
    → nth m fs ≡ some f
    → nth n fs ≡ some g
    → f + 4096 ≤ g
unfolding Paged nth
nth_ascends lo m n f g [] p h e e' = ground arith
nth_ascends lo m zero f g (a ∷ fs) p h e e' = omega arith
nth_ascends lo zero (suc n) f g (a ∷ fs) (p, q, r) h e e' =
    omega (arith, nth_above (a + 4096) n g fs r e', some-inj e)
nth_ascends lo (suc m) (suc n) f g (a ∷ fs) (p, q, r) h e e' =
    nth_ascends (a + 4096) m n f g fs r (omega arith) e e'

nth_aligned : (lo n f : ℕ) (fs : List ℕ) → Paged lo fs → nth n fs ≡ some f → f % 4096 ≡ 0
unfolding Paged nth
nth_aligned lo n f [] p e = ground arith
nth_aligned lo zero f (a ∷ fs) (p, q, r) e = ground arith
nth_aligned lo (suc n) f (a ∷ fs) (p, q, r) e = nth_aligned (a + 4096) n f fs r e

allocated :
    (containing_address : ℕ → ℕ) (regions : List Region) (k : ℕ)
    → k + 1 < u64_mod
    → allocate_frame containing_address (record { memory_map = regions; next = k })
      ≡ some (
        nth k (map containing_address (usable_addresses regions)),
        record { memory_map = regions; next = k + 1 },
      )
unfolding allocate_frame usable_frames
allocated containing_address regions k h = rw (lt→ltb (k + 1) u64_mod h)

given :
    {A B : Type 0} {a a' : A} {b b' : B}
    → Path (Option (A × B)) (some (a, b)) (some (a', b'))
    → a ≡ a'
given e = cc

-- The frame allocator hands out each frame at most once: two calls that each find a frame hand out
-- multiples of the page size, the later one at least a page above the earlier one. The regions of the
-- memory map are in ascending order, have no byte in common, and begin and end at multiples of the page
-- size. The calls are told apart by their count; the crate takes an address that is a multiple of the
-- page size to itself.
pub allocate_frame_once :
    (containing_address : ℕ → ℕ) (regions : List Region) (m n f g : ℕ)
    → ((a : ℕ) → a % 4096 ≡ 0 → containing_address a ≡ a)
    → Ascending 0 regions
    → m < n
    → n + 1 < u64_mod
    → allocate_frame containing_address (record { memory_map = regions; next = m })
      ≡ some (some f, record { memory_map = regions; next = m + 1 })
    → allocate_frame containing_address (record { memory_map = regions; next = n })
      ≡ some (some g, record { memory_map = regions; next = n + 1 })
    → (f % 4096 ≡ 0) × (g % 4096 ≡ 0) × (f + 4096 ≤ g)
allocate_frame_once containing_address regions m n f g hc h lt b e e' =
    let ascending = usable_addresses-Paged 0 regions h in
    let frames = usable_addresses regions in
    let found =
      λ (k x : ℕ) (next : k + 1 < u64_mod)
          (e : allocate_frame containing_address (record { memory_map = regions; next = k })
            ≡ some (some x, record { memory_map = regions; next = k + 1 })).
        ap (nth k) (sym (map-Paged containing_address hc 0 frames ascending))
        ∙ given (sym (allocated containing_address regions k next) ∙ e) in
    let first = found m f (omega (arith, lt, b)) e in
    let second = found n g b e' in
    (
      nth_aligned 0 m f frames ascending first,
      nth_aligned 0 n g frames ascending second,
      nth_ascends 0 m n f g frames ascending lt first second,
    )
