-- ===== src/Memory/Scalable/Overlap.antt =====
-- memory/scalable.rs: when two regions overlap, and the reference count of a region.
use ruix.Prelude.{
  ℕ, ◌+◌, ◌≡◌, inl, inr, ◌↔◌, true, Option, some, arith, ◌<◌, ◌≤◌, ltb, Bool-cases, leb, ◌&&◌,
  u64_mod,
}
use ruix.Memory.Scalable.{MemoryRegion, overlaps, inc_ref, dec_ref}

-- The byte at an address lies in a region.
abbrev In : ℕ → MemoryRegion → Type 0
In a r = (r.virt_start ≤ a) × (a < r.virt_start + r.size)

-- Two regions that are not empty overlap in the sense of `overlaps` exactly if some byte lies in both.
-- Neither reaches past the end of the address space, where the crate's addition gives the sum.
overlaps_lem :
    (virt_add : ℕ → ℕ → Option ℕ) (r other : MemoryRegion)
    → 0 < r.size
    → 0 < other.size
    → virt_add r.virt_start r.size ≡ some (r.virt_start + r.size)
    → virt_add other.virt_start other.size ≡ some (other.virt_start + other.size)
    → (overlaps virt_add r other ≡ some true) ↔ ((a : ℕ) × In a r × In a other)
unfolding overlaps
overlaps_lem virt_add r other h h' e e' =
    rw (e, e') (meet r.virt_start r.size other.virt_start other.size h h')
  where
    meet :
        (s n t m : ℕ)
        → 0 < n
        → 0 < m
        → (some (ltb s (t + m) && ltb t (s + n)) ≡ some true)
          ↔ ((a : ℕ) × ((s ≤ a) × (a < s + n)) × ((t ≤ a) × (a < t + m)))
    meet s n t m h h' = (
      λ e. elim (Bool-cases (leb s t)) [
        | inl c ↦ (t, (ground arith, ground arith), (ground arith, ground arith))
        | inr c ↦ (s, (ground arith, ground arith), (ground arith, ground arith))
      ],
      λ (a, (p, q), (p', q')). ground arith,
    )

-- Taking a reference and giving it back leaves the region as it was, and the two calls return the counts
-- in between. The count does not overflow.
dec_ref-inc_ref :
    (r : MemoryRegion)
    → r.ref_count + 1 < u64_mod
    → (inc_ref r).0 ≡ some (r.ref_count + 1) × dec_ref (inc_ref r).1 ≡ (some r.ref_count, r)
unfolding inc_ref dec_ref
dec_ref-inc_ref r h = ground arith
