-- ===== src/Process/Apart.antt =====
-- process/mod.rs: regions of memory that do not overlap, and what the copy of a page table and a context
-- leave there.
use ruix.Prelude.{ℕ, zero, suc, ◌+◌, ◌*◌, ◌≡◌, refl, ◌⊎◌, inl, inr, arith, ◌<◌, ◌≤◌}
use ruix.Process.Context.{
  Words, write, ProcessContext, store_context, load_context, load_context_agree, store_words-below,
  store_words-above, fields,
}
use ruix.Process.Creation.{copy_entries}

-- Two regions of memory, of `m` and `n` bytes, have no byte in common.
abbrev pub Apart : ℕ → ℕ → ℕ → ℕ → Type 0
Apart a m b n = (a + m ≤ b) ⊎ (b + n ≤ a)

pub copy_entries_apart :
    (n i new_table current_table : ℕ) (mem : Words) (a : ℕ)
    → (a < new_table + 8 * i) ⊎ (new_table + 8 * (i + n) ≤ a)
    → copy_entries n i new_table current_table mem a ≡ mem a
unfolding copy_entries
copy_entries_apart zero i new_table current_table mem a h = refl
copy_entries_apart (suc n) i new_table current_table mem a h = ground (
  arith,
  copy_entries_apart n (suc i) new_table current_table
      (write (new_table + 8 * i) (mem (current_table + 8 * i)) mem) a,
)

-- The entries that the loop has copied. The tables have no byte in common.
pub copy_entries_copied :
    (n i new_table current_table : ℕ) (mem : Words) (k : ℕ)
    → i ≤ k
    → k < i + n
    → i + n ≤ 512
    → Apart new_table 4096 current_table 4096
    → copy_entries n i new_table current_table mem (new_table + 8 * k) ≡ mem (current_table + 8 * k)
unfolding copy_entries
copy_entries_copied zero i new_table current_table mem k lo hi b h = omega arith
copy_entries_copied (suc n) i new_table current_table mem k lo hi b h =
    let written = write (new_table + 8 * i) (mem (current_table + 8 * i)) mem in
    ground (
      arith,
      copy_entries_copied n (suc i) new_table current_table written k,
      copy_entries_apart n (suc i) new_table current_table written (new_table + 8 * k),
    )

-- A context that lies outside a region is not changed by what is stored there.
pub store_context-Apart :
    (p q : ℕ) (c : ProcessContext) (mem : Words)
    → Apart p 160 q 160
    → load_context q (store_context p c mem) ≡ load_context q mem
unfolding store_context
store_context-Apart p q c mem h = load_context_agree q (store_context p c mem) mem (λ a lo hi.
    elim h [
      | inl e ↦ store_words-above (fields c) p mem a (omega (arith, e, lo))
      | inr e ↦ store_words-below (fields c) p mem a (omega (arith, e, hi))
    ])

pub store_context_elsewhere :
    (p : ℕ) (c : ProcessContext) (mem : Words) (a : ℕ)
    → (a < p) ⊎ (p + 160 ≤ a)
    → store_context p c mem a ≡ mem a
unfolding store_context
store_context_elsewhere p c mem a (inl h) = store_words-below (fields c) p mem a h
store_context_elsewhere p c mem a (inr h) = store_words-above (fields c) p mem a h

pub copy_context-Apart :
    (table current q : ℕ) (mem : Words)
    → Apart table 4096 q 160
    → load_context q (copy_entries 512 0 table current mem) ≡ load_context q mem
copy_context-Apart table current q mem h =
    load_context_agree q (copy_entries 512 0 table current mem) mem (λ a lo hi.
      copy_entries_apart 512 0 table current mem a
        (elim h [ inl e ↦ inr (omega (arith, e, lo)) | inr e ↦ inl (omega (arith, e, hi)) ]))
