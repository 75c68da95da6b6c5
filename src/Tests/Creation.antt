-- ===== src/Tests/Creation.antt =====
-- New and forked processes, and their page tables: concrete runs.
use ruix.Prelude.{ℕ, ◌≡◌, refl, inl, inr, some, [], ◌∷◌, arith}
use ruix.Process.{Process, ready}
use ruix.Process.Context.{Words, store_words, store_context, load_context}
use ruix.Process.Creation.{
  Mapper, initial_context, fresh, fork, create_process_page_table_with_user_mappings,
}
use ruix.Process.Forking.{fork_lem}
use ruix.Memory.{frame, translate_addr_inner}
use ruix.Memory.Translation.{Clear, translate-create_process_page_table}

abbrev mapper : Mapper
mapper = record { phys_offset = 0x100000; level_4_table = 0x101000 }

-- A process whose context lies at 0x9000, with its stack at 0x3000.
abbrev mother : Process
mother = fresh 7 0x9000 0x1000 3

abbrev stored : Words
stored = store_context 0x9000 (initial_context 0x400000 0x3000) (λ a. 0)

fork_example :
    (child : Process) × (after : Words) × (fork mother mapper (some 0x2000) 8 4 stored
      ≡ some (child, after, 9, 5))
    × (load_context child.context_ptr after ≡ record (load_context 0x9000 stored) { rax = 0 })
    × (load_context 0x9000 after ≡ load_context 0x9000 stored)
    × (child.id ≡ 8)
    × (child.parent_id ≡ 7)
    × (child.state ≡ ready)
    × (child.process_group_id ≡ 7)
    × (child.session_id ≡ 7)
    × (child.priority ≡ mother.priority)
    × (child.resource_limits ≡ mother.resource_limits)
unfolding fresh initial_context store_words store_context load_context
fork_example =
    fork_lem mother mapper 0x2000 8 4 stored (omega arith) (omega arith) (omega arith)
      (inr (omega arith)) (inl (omega arith))

-- Every entry leads to the table in frame 0x2000.
frame_inj : {a b : ℕ} → frame a ≡ frame b → a ≡ b
frame_inj e = cc

translate-create_process_page_table_example :
    (after : Words) × (create_process_page_table_with_user_mappings mapper
        (some 0x9000)
        (λ a. 0x2000)
      ≡ some (0x9000, after))
    × (translate_addr_inner (λ w. frame w) 0x100000 after 0x9000 (1 ∷ 2 ∷ 3 ∷ 4 ∷ []) 5
        ≡ translate_addr_inner (λ w. frame w) 0x100000 (λ a. 0x2000) 0x1000 (1 ∷ 2 ∷ 3 ∷ 4 ∷ []) 5)
unfolding Clear
translate-create_process_page_table_example =
    translate-create_process_page_table (λ w. frame w) mapper 0x1000 0x9000 (λ a. 0x2000) 1 2 3 4 5
      refl
      (
        omega arith,
        inr (omega arith),
        λ g e. (
          omega arith,
          inr (omega (arith, frame_inj e)),
          λ g' e'. (
            omega arith,
            inr (omega (arith, frame_inj e')),
            λ g2 e2. (omega arith, inr (omega (arith, frame_inj e2)), λ g3 e3. tt),
          ),
        ),
      )
