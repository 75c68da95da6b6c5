-- ===== src/Scheduler/Orphans.antt =====
-- process/scheduler.rs: the children of a process that exits.
use ruix.Prelude.{
  ℕ, ◌≡◌, ◌≢◌, refl, ap, ◌&&◌, ◌||◌, List, [], ◌∷◌, arith, ◌==◌, if◌then◌else◌, any, contains,
  any-append, Bool-cases, inl, inr, ==_iff, ==_refl, ℤ, pos, negsuc, ◌≤ℤ◌,
}
use ruix.Process.{Process, make_orphan, remove_child}
use ruix.Scheduler.Tree.{IsSorted, children_of, adopt_all, children_of-adopt_all}
use ruix.Scheduler.Exit.{first_loop, first_loop_result, exit_and_parent_ok}
use ruix.Scheduler.Exit.Lookup.{parent_in, parent_in-keep, any-update_first, find?-update_first}
use ruix.Scheduler.{
  Scheduler, has_id, wake_waiting, try_first, orphan_child, orphan_children, detach, wake_parent,
  after_exit, handle_process_exit,
}

orphan_children-tree :
    (s : Scheduler) (cs : List ℕ)
    → (orphan_children s cs).process_tree ≡ adopt_all cs s.process_tree
unfolding orphan_children orphan_child adopt_all
orphan_children-tree s [] = refl
orphan_children-tree s (c ∷ cs) = orphan_children-tree (orphan_child s c) cs

orphan_child-parent :
    (q c : ℕ) (s : Scheduler)
    → parent_in q (orphan_child s c).processes ≡ (if c == q then 0 else parent_in q s.processes)
unfolding orphan_child make_orphan
orphan_child-parent q c s =
    ground (arith, find?-update_first make_orphan (λ p. refl) q c s.processes)

orphan_child-any :
    (q c : ℕ) (s : Scheduler)
    → any (has_id q) (orphan_child s c).processes ≡ any (has_id q) s.processes
unfolding orphan_child make_orphan
orphan_child-any q c s = any-update_first make_orphan (λ p. refl) q c s.processes

orphan_children-parent :
    (q : ℕ) (s : Scheduler) (cs : List ℕ)
    → parent_in q (orphan_children s cs).processes
      ≡ (if contains q cs then 0 else parent_in q s.processes)
unfolding orphan_children
orphan_children-parent q s [] = refl
orphan_children-parent q s (c ∷ cs) =
    ground (arith, orphan_children-parent q (orphan_child s c) cs, orphan_child-parent q c s)

orphan_child-contains :
    (q c : ℕ) (s : Scheduler)
    → contains q (orphan_child s c).orphans
      ≡ (contains q s.orphans || c == q && any (has_id q) s.processes)
unfolding orphan_child
orphan_child-contains q c s = elim (Bool-cases (c == q)) [
  | inl e ↦
      let same : c ≡ q = (==_iff c q).0 e in
      rw (same, ==_refl q) (ground (arith, any-append (λ b. b == q) s.orphans (q ∷ [])))
  | inr e ↦ ground (arith, any-append (λ b. b == q) s.orphans (c ∷ []))
]

orphan_children-contains :
    (q : ℕ) (s : Scheduler) (cs : List ℕ)
    → contains q (orphan_children s cs).orphans
      ≡ (contains q s.orphans || contains q cs && any (has_id q) s.processes)
unfolding orphan_children
orphan_children-contains q s [] = ground arith
orphan_children-contains q s (c ∷ cs) = ground (
  arith,
  orphan_children-contains q (orphan_child s c) cs,
  orphan_child-contains q c s,
  orphan_child-any q c s,
)

module _ (pid : ℕ) (code : ℤ) (lower : negsuc 254 ≤ℤ code) (upper : code ≤ℤ pos 255) where
  pub first_loop_keeps :
      (q : ℕ) (ps : List Process)
      → let ps' = (first_loop pid code lower upper ps).1 in
        (parent_in q ps' ≡ parent_in q ps) × (any (has_id q) ps' ≡ any (has_id q) ps)
  unfolding first_loop try_first
  first_loop_keeps q [] = (refl, refl)
  first_loop_keeps q (p ∷ ps) =
      ground (arith, exit_and_parent_ok p code lower upper, first_loop_keeps q ps)

module _ (q parent pid : ℕ) (s : Scheduler) where
  detach-any : any (has_id q) (detach s parent pid).processes ≡ any (has_id q) s.processes
  unfolding detach
  detach-any =
      ground (arith, any-update_first (λ p. (remove_child p pid).1) same q parent s.processes)
    where
      same : (p : Process) → (remove_child p pid).1.id ≡ p.id
      same p = unfold remove_child in ground arith

  detach-parent : parent_in q (detach s parent pid).processes ≡ parent_in q s.processes
  unfolding detach
  detach-parent =
      ground
        (arith, parent_in-keep (λ p. (remove_child p pid).1) same q parent s.processes same_parent)
    where
      same : (p : Process) → (remove_child p pid).1.id ≡ p.id
      same p = unfold remove_child in ground arith

      same_parent : (p : Process) → (remove_child p pid).1.parent_id ≡ p.parent_id
      same_parent p = unfold remove_child in ground arith

  wake_parent-parent : parent_in q (wake_parent s parent pid).processes ≡ parent_in q s.processes
  unfolding wake_parent
  wake_parent-parent = ground (
    arith,
    parent_in-keep (λ p. record p { state = wake_waiting pid p.state }) (λ p. refl) q parent
        s.processes (λ p. refl),
  )

detach-tree : (s : Scheduler) (parent pid : ℕ) → (detach s parent pid).process_tree ≡ s.process_tree
unfolding detach
detach-tree s parent pid = ground arith

detach-orphans : (s : Scheduler) (parent pid : ℕ) → (detach s parent pid).orphans ≡ s.orphans
unfolding detach
detach-orphans s parent pid = ground arith

wake_parent-tree :
    (s : Scheduler) (parent pid : ℕ)
    → ((wake_parent s parent pid).process_tree ≡ s.process_tree)
      × ((wake_parent s parent pid).orphans ≡ s.orphans)
unfolding wake_parent
wake_parent-tree s parent pid = ground arith

module _ (parent pid : ℕ) (s : Scheduler) where
  after_exit_lem :
      after_exit s parent pid
      ≡ wake_parent
          (orphan_children (detach s parent pid) (children_of pid s.process_tree))
          parent
          pid
  unfolding after_exit
  after_exit_lem =
      ap (λ t. wake_parent (orphan_children (detach s parent pid) (children_of pid t)) parent pid)
        (detach-tree s parent pid)

  after_exit-tree :
      (after_exit s parent pid).process_tree
      ≡ adopt_all (children_of pid s.process_tree) s.process_tree
  after_exit-tree = rw (
    after_exit_lem,
    (wake_parent-tree _ parent pid).0,
    orphan_children-tree (detach s parent pid) _,
    detach-tree s parent pid,
  )

  pub after_exit-parent :
      (q : ℕ)
      → parent_in q (after_exit s parent pid).processes ≡ (
          if contains q (children_of pid s.process_tree)
          then 0
          else parent_in q (detach s parent pid).processes)
  after_exit-parent q = rw (
    after_exit_lem,
    wake_parent-parent q parent pid _,
    orphan_children-parent q (detach s parent pid) _,
  )

  after_exit-orphan :
      (q : ℕ)
      → contains q (after_exit s parent pid).orphans ≡ (
          contains q s.orphans
          || contains q (children_of pid s.process_tree) && any (has_id q) s.processes)
  after_exit-orphan q =
      rw (after_exit_lem, (wake_parent-tree _ parent pid).1)
        (ground (
          arith,
          orphan_children-contains q (detach s parent pid) (children_of pid s.process_tree),
          detach-any q parent pid s,
          detach-orphans s parent pid,
        ))

-- When a process other than process 0 exits with an allowed code, it has no child in the tree
-- afterwards. Of the processes in the queue exactly those that were its children in the tree get process 0
-- as their parent; the others keep theirs. The orphans are those of before and the former children that
-- are in the queue. The tree is sorted, as a BTreeMap is.
pub handle_process_exit-orphans :
    (s : Scheduler) (pid : ℕ) (code : ℤ) (c : ℕ)
    → negsuc 254 ≤ℤ code
    → code ≤ℤ pos 255
    → pid ≢ 0
    → IsSorted s.process_tree
    → let s' = (handle_process_exit s pid code).1 in
      (children_of pid s'.process_tree ≡ [])
      × (parent_in c s'.processes
          ≡ (if contains c (children_of pid s.process_tree) then 0 else parent_in c s.processes))
      × (contains c s'.orphans ≡ (
          contains c s.orphans
          || contains c (children_of pid s.process_tree) && any (has_id c) s.processes))
unfolding handle_process_exit first_loop
handle_process_exit-orphans s pid code c lower upper ne sorted =
    rw (first_loop_result pid code lower upper s.processes, handle_process_exit)
      (
        rw (after_exit-tree parent pid ended) (children_of-adopt_all pid s.process_tree ne sorted),
        rw
            (
              after_exit-parent parent pid ended c,
              detach-parent c parent pid ended,
              (first_loop_keeps pid code lower upper c s.processes).0,
            )
            refl,
        rw
            (
              after_exit-orphan parent pid ended c,
              (first_loop_keeps pid code lower upper c s.processes).1,
            )
            refl,
      )
  where
    ended : Scheduler
    ended = record s { processes = (first_loop pid code lower upper s.processes).1 }

    parent : ℕ
    parent = parent_in pid s.processes
