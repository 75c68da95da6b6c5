-- ===== src/Memory/Translation.antt =====
-- memory.rs and process/mod.rs: what an address means under the page table of a new process.
use ruix.Prelude.{
  ℕ, ◌+◌, ◌*◌, ◌≡◌, refl, sym, ap, ◌∙◌, subst, inl, inr, Option, some, List, [], ◌∷◌, arith, ◌<◌,
}
use ruix.Process.Context.{Words}
use ruix.Process.Creation.{Mapper, copy_entries, create_process_page_table_with_user_mappings}
use ruix.Process.Apart.{Apart, copy_entries_apart, copy_entries_copied}
use mathlib.Core.Option
use ruix.Memory.{
  follow, EntryFrame, frame, frame_not_present, huge_frame, walk, translate_addr_inner,
}

-- The indexes are below 512, and no table on the way down overlaps the frame at an address.
unfoldable pub Clear : (ℕ → EntryFrame) → ℕ → Words → ℕ → List ℕ → ℕ → Type 0
Clear entry_frame offset mem table [] f = Unit
Clear entry_frame offset mem table (index ∷ indexes) f =
    (index < 512)
    × Apart table 4096 (offset + f) 4096
    × ((g : ℕ)
        → entry_frame (mem (offset + f + 8 * index)) ≡ frame g
        → Clear entry_frame offset mem table indexes g)

follow_same :
    (e : EntryFrame) (next next' : ℕ → Option (Option ℕ))
    → ((g : ℕ) → e ≡ frame g → next g ≡ next' g)
    → follow e next ≡ follow e next'
unfolding follow
follow_same (frame g) next next' h = h g refl
follow_same frame_not_present next next' h = refl
follow_same huge_frame next next' h = refl

word_kept :
    (table current offset f index : ℕ) (mem : Words)
    → index < 512
    → Apart table 4096 (offset + f) 4096
    → copy_entries 512 0 table current mem (offset + f + 8 * index) ≡ mem (offset + f + 8 * index)
word_kept table current offset f index mem h (inl e) =
    copy_entries_apart 512 0 table current mem (offset + f + 8 * index) (inr (omega (arith, e)))
word_kept table current offset f index mem h (inr e) =
    copy_entries_apart 512 0 table current mem (offset + f + 8 * index) (inl (omega (arith, e, h)))

walk-copy_entries :
    (entry_frame : ℕ → EntryFrame) (offset table current : ℕ) (mem : Words) (indexes : List ℕ)
    (f : ℕ)
    → Clear entry_frame offset mem table indexes f
    → walk entry_frame offset (copy_entries 512 0 table current mem) indexes f
      ≡ walk entry_frame offset mem indexes f
unfolding walk Clear
walk-copy_entries entry_frame offset table current mem [] f h = refl
walk-copy_entries entry_frame offset table current mem (index ∷ indexes) f (lt, apart, next) =
    let after = copy_entries 512 0 table current mem in
    ap (λ w. follow (entry_frame w) (λ g. walk entry_frame offset after indexes g))
      (word_kept table current offset f index mem lt apart)
    ∙ follow_same (entry_frame (mem (offset + f + 8 * index)))
        (λ g. walk entry_frame offset after indexes g) (λ g. walk entry_frame offset mem indexes g)
        (λ g e. walk-copy_entries entry_frame offset table current mem indexes g (next g e))

walk_copied :
    (entry_frame : ℕ → EntryFrame) (offset old fresh current : ℕ) (mem : Words) (index : ℕ)
    (indexes : List ℕ)
    → current ≡ offset + old
    → Clear entry_frame offset mem (offset + fresh) (index ∷ indexes) old
    → walk entry_frame offset
        (copy_entries 512 0 (offset + fresh) current mem)
        (index ∷ indexes)
        fresh
      ≡ walk entry_frame offset mem (index ∷ indexes) old
unfolding walk Clear
walk_copied entry_frame offset old fresh current mem index indexes e (lt, apart, next) =
    let after = copy_entries 512 0 (offset + fresh) current mem in
    ap (λ w. follow (entry_frame w) (λ g. walk entry_frame offset after indexes g))
      (copy_entries_copied 512 0 (offset + fresh) current mem index (omega arith) lt (omega arith)
          (subst (λ c. Apart (offset + fresh) 4096 c 4096) (sym e) apart)
        ∙ ap (λ c. mem (c + 8 * index)) e)
    ∙ follow_same (entry_frame (mem (offset + old + 8 * index)))
        (λ g. walk entry_frame offset after indexes g) (λ g. walk entry_frame offset mem indexes g)
        (λ g eq.
          walk-copy_entries entry_frame offset (offset + fresh) current mem indexes g (next g eq))

-- The page table of a new process translates every address as the table that was active when the process
-- was made, so that processes share their user memory: the walk from the new frame and the walk from the
-- old one end in the same address, the same missing entry or the same panic on a huge page. The active
-- table is that of frame `old`, the indexes are below 512, and no table on the way is in the new frame.
pub translate-create_process_page_table :
    (entry_frame : ℕ → EntryFrame) (mapper : Mapper) (old fresh : ℕ) (mem : Words)
    (p4 p3 p2 p1 page_offset : ℕ)
    → mapper.level_4_table ≡ mapper.phys_offset + old
    → Clear entry_frame mapper.phys_offset mem
        (mapper.phys_offset + fresh)
        (p4 ∷ p3 ∷ p2 ∷ p1 ∷ [])
        old
    → (after : Words) × (create_process_page_table_with_user_mappings mapper (some fresh) mem
        ≡ some (fresh, after))
      × (translate_addr_inner entry_frame mapper.phys_offset after fresh
            (p4 ∷ p3 ∷ p2 ∷ p1 ∷ [])
            page_offset
          ≡ translate_addr_inner entry_frame mapper.phys_offset mem old
              (p4 ∷ p3 ∷ p2 ∷ p1 ∷ [])
              page_offset)
unfolding create_process_page_table_with_user_mappings translate_addr_inner
translate-create_process_page_table entry_frame mapper old fresh mem p4 p3 p2 p1 page_offset e
      clear =
    (
      copy_entries 512 0 (mapper.phys_offset + fresh) mapper.level_4_table mem,
      refl,
      ap (Option.map (Option.map (λ f. f + page_offset))) (
          walk_copied entry_frame mapper.phys_offset old fresh mapper.level_4_table mem p4
            (p3 ∷ p2 ∷ p1 ∷ []) e clear),
    )
