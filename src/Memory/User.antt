-- ===== src/Memory/User.antt =====
-- memory.rs: which addresses user mode reaches after a page was mapped for it.
use mathlib.Core.Path.{fun_ext}
use ruix.Prelude.{
  ℕ, ◌+◌, ◌*◌, ◌≡◌, refl, sym, ap, ◌∙◌, subst, Bool, true, Option, some, List, [], ◌∷◌, ◌++◌, ◌>>=◌,
  Bool-cases, inl, inr, ==_iff, ==_refl, ◌==◌,
}
use ruix.Error.{ok}
use ruix.Process.Context.{Words, write}
use ruix.Process.Creation.{Mapper}
use ruix.Memory.{EntryFrame, frame, frame_not_present, huge_frame, follow, walk}
use ruix.Memory.Pages.{
  EntryOps, MapTo, unwrap_frame, set_user_bits, set_user_bit_for_parents, user_flags, map_user_page,
}

same_frame_of : {g k : ℕ} → frame g ≡ frame k → g ≡ k
same_frame_of e = cc

module _ (ops : EntryOps) (is_user : ℕ → Bool) where
  -- `set_flags` with one more flag keeps the frame, and sets that flag.
  pub record IsLawful : Type 0 where
    pub keeps_frame : (w : ℕ) → ops.entry_frame (ops.with_user w) ≡ ops.entry_frame w
    pub sets_user : (w : ℕ) → is_user (ops.with_user w) ≡ true

  -- Entries keep their frames, and those for user mode stay so.
  pub record Extends (mem mem' : Words) : Type 0 where
    pub same_frame : (a : ℕ) → ops.entry_frame (mem' a) ≡ ops.entry_frame (mem a)
    pub still_user : (a : ℕ) → is_user (mem a) ≡ true → is_user (mem' a) ≡ true

  -- Every entry on the way from a table is for user mode.
  unfoldable pub AllUser : ℕ → Words → List ℕ → ℕ → Type 0
  AllUser phys_offset mem [] table = Unit
  AllUser phys_offset mem (index ∷ indexes) table =
      (is_user (mem (table + 8 * index)) ≡ true)
      × ((g : ℕ)
          → ops.entry_frame (mem (table + 8 * index)) ≡ frame g
          → AllUser phys_offset mem indexes (phys_offset + g))

  Extends-refl : (mem : Words) → Extends mem mem
  Extends-refl mem = record { same_frame = λ a. refl; still_user = λ a h. h }

  Extends-trans : (a b c : Words) → Extends a b → Extends b c → Extends a c
  Extends-trans a b c h k = record {
    same_frame = λ x. k.same_frame x ∙ h.same_frame x;
    still_user = λ x u. k.still_user x (h.still_user x u);
  }

  Extends-write :
      IsLawful
      → (entry : ℕ) (mem : Words) → Extends mem (write entry (ops.with_user (mem entry)) mem)
  Extends-write L entry mem = record {
    same_frame = λ a. elim (Bool-cases (a == entry)) [
      | inl e ↦ rw (e, (==_iff a entry).0 e) (L.keeps_frame (mem entry))
      | inr e ↦ rw e refl
    ];
    still_user = λ a u. elim (Bool-cases (a == entry)) [
      | inl e ↦ rw e (L.sets_user (mem entry))
      | inr e ↦ rw e u
    ];
  }

  -- Where entries keep their frames, every address is translated as before.
  walk-Extends :
      (phys_offset : ℕ) (mem mem' : Words)
      → Extends mem mem'
      → (indexes : List ℕ) (f : ℕ)
      → walk ops.entry_frame phys_offset mem' indexes f
        ≡ walk ops.entry_frame phys_offset mem indexes f
  unfolding walk
  walk-Extends phys_offset mem mem' h [] f = refl
  walk-Extends phys_offset mem mem' h (index ∷ indexes) f =
      ap (λ e. follow e (walk ops.entry_frame phys_offset mem' indexes))
        (h.same_frame (phys_offset + f + 8 * index))
      ∙ ap (follow (ops.entry_frame (mem (phys_offset + f + 8 * index))))
          (fun_ext (walk-Extends phys_offset mem mem' h indexes))

  AllUser-Extends :
      (phys_offset : ℕ) (mem mem' : Words)
      → Extends mem mem'
      → (indexes : List ℕ) (table : ℕ) → AllUser phys_offset mem indexes table
      → AllUser phys_offset mem' indexes table
  unfolding AllUser
  AllUser-Extends phys_offset mem mem' h [] table u = tt
  AllUser-Extends phys_offset mem mem' h (index ∷ indexes) table (u, us) = (
    h.still_user (table + 8 * index) u,
    λ g e.
        AllUser-Extends phys_offset mem mem' h indexes (phys_offset + g)
          (us g (sym (h.same_frame (table + 8 * index)) ∙ e)),
  )

  -- A way that ends in a frame.
  followed :
      (e : EntryFrame) (next : ℕ → Option (Option ℕ)) (x : ℕ)
      → follow e next ≡ some (some x)
      → (g : ℕ) × (e ≡ frame g) × (next g ≡ some (some x))
  unfolding follow
  followed (frame g) next x h = (g, refl, h)
  followed frame_not_present next x h = cc
  followed huge_frame next x h = cc

  -- Where the way from a table reaches a frame, the loop ends; every entry on the way is for user mode
  -- after it, and no entry has another frame.
  set_user_bits_lem :
      IsLawful
      → (phys_offset : ℕ) (indexes rest : List ℕ) (f x : ℕ) (mem : Words)
      → walk ops.entry_frame phys_offset mem (indexes ++ rest) f ≡ some (some x)
      → (mem' : Words) × (set_user_bits ops phys_offset indexes (phys_offset + f) mem ≡ some mem')
        × Extends mem mem'
        × AllUser phys_offset mem' indexes (phys_offset + f)
  unfolding set_user_bits walk AllUser
  set_user_bits_lem L phys_offset [] rest f x mem h = (mem, refl, Extends-refl mem, tt)
  set_user_bits_lem L phys_offset (index ∷ indexes) rest f x mem h =
      let entry = phys_offset + f + 8 * index in
      let after : Words = write entry (ops.with_user (mem entry)) mem in
      let step = Extends-write L entry mem in
      let (g, found, onward) = followed (ops.entry_frame (mem entry)) _ x h in
      let found' : ops.entry_frame (after entry) ≡ frame g = step.same_frame entry ∙ found in
      let (mem', ran, ext, users) =
        set_user_bits_lem L phys_offset indexes rest g x after
          (walk-Extends phys_offset mem after step (indexes ++ rest) g ∙ onward) in
      (
        mem',
        rw (found', unwrap_frame, ◌>>=◌) ran,
        Extends-trans mem after mem' step ext,
        (
          ext.still_user entry (rw (==_refl entry) (L.sets_user (mem entry))),
          λ k e.
              subst (λ z. AllUser phys_offset mem' indexes (phys_offset + z))
                (same_frame_of (sym found' ∙ sym (ext.same_frame entry) ∙ e)) users,
        ),
      )

  mapped_then :
      {A : Type 0} (map_to : MapTo A) (indexes : ℕ → ℕ × ℕ × ℕ) (page user_frame p4 p3 p2 : ℕ)
      (mapper : Mapper) (a a1 : A) (mem mem1 mem2 : Words)
      → indexes page ≡ (p4, p3, p2)
      → map_to page user_frame user_flags a mem ≡ (ok tt, a1, mem1)
      → set_user_bit_for_parents ops mapper p4 p3 p2 mem1 ≡ some mem2
      → map_user_page ops map_to indexes page user_frame mapper a mem ≡ some (a1, mem2)
  unfolding map_user_page
  mapped_then map_to indexes page user_frame p4 p3 p2 mapper a a1 mem mem1 mem2 way mapped ran =
      rw (map_user_page, mapped, mapped, way, ran, ◌>>=◌) refl

  -- A page that `map_to` maps to a frame is mapped for user mode: `map_user_page` does not panic, the
  -- page is translated to that frame, the three entries above the page's own are for user mode, and
  -- every other address is translated as `map_to` left it. The active table is that of frame `root`.
  pub map_user_page_lem :
      {A : Type 0}
      → IsLawful
      → (map_to : MapTo A) (indexes : ℕ → ℕ × ℕ × ℕ) (page user_frame root p4 p3 p2 p1 : ℕ)
        (mapper : Mapper) (a a1 : A) (mem mem1 : Words)
      → mapper.level_4_table ≡ mapper.phys_offset + root
      → indexes page ≡ (p4, p3, p2)
      → map_to page user_frame user_flags a mem ≡ (ok tt, a1, mem1)
      → walk ops.entry_frame mapper.phys_offset mem1 (p4 ∷ p3 ∷ p2 ∷ p1 ∷ []) root
        ≡ some (some user_frame)
      → (mem2 : Words) × (map_user_page ops map_to indexes page user_frame mapper a mem
          ≡ some (a1, mem2))
        × (walk ops.entry_frame mapper.phys_offset mem2 (p4 ∷ p3 ∷ p2 ∷ p1 ∷ []) root
            ≡ some (some user_frame))
        × AllUser mapper.phys_offset mem2 (p4 ∷ p3 ∷ p2 ∷ []) mapper.level_4_table
        × ((is : List ℕ) (f : ℕ)
            → walk ops.entry_frame mapper.phys_offset mem2 is f
              ≡ walk ops.entry_frame mapper.phys_offset mem1 is f)
  unfolding set_user_bit_for_parents
  map_user_page_lem L map_to indexes page user_frame root p4 p3 p2 p1 mapper a a1 mem mem1 table way
        mapped reached =
      let (mem2, ran, ext, users) =
        set_user_bits_lem L mapper.phys_offset (p4 ∷ p3 ∷ p2 ∷ []) (p1 ∷ []) root user_frame mem1
          reached in
      let same = walk-Extends mapper.phys_offset mem1 mem2 ext in
      (
        mem2,
        mapped_then map_to indexes page user_frame p4 p3 p2 mapper a a1 mem mem1 mem2 way mapped
            (rw table ran),
        same (p4 ∷ p3 ∷ p2 ∷ p1 ∷ []) root ∙ reached,
        rw table users,
        same,
      )
