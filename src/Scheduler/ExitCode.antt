-- ===== src/Scheduler/ExitCode.antt =====
-- process/scheduler.rs: the exit code passes from the process that exits to the parent that reaps it.
use mathlib.Core.Option
use ruix.Prelude.{
  subst, find?-any, sym, ℕ, ◌≡◌, refl, ◌∙◌, true, false, some, List, [], ◌∷◌, arith, find?,
  contains, ℤ, pos, negsuc, ◌≤ℤ◌, Option-cases, Bool-cases, inl, inr, Distinct, any,
}
use ruix.Error.{ok}
use ruix.Process.{Process, zombie, make_orphan, remove_child}
use ruix.Scheduler.Tree.{children_of}
use ruix.Scheduler.Exit.{
  first_loop, first_loop_result, exit_and_parent_ok, handle_process_exit-state,
}
use ruix.Scheduler.Exit.Lookup.{
  state_in, parent_in, code_in, ids, code_in-keep, parent_in-keep, ids-update_first,
}
use ruix.Scheduler.Orphans.{after_exit-parent, first_loop_keeps}
use ruix.Scheduler.Reaping.{reap_zombie_child_lem}
use ruix.Scheduler.{
  Scheduler, has_id, wake_waiting, try_first, orphan_child, orphan_children, detach, wake_parent,
  after_exit, handle_process_exit, reap_zombie_child, is_zombie_child,
}

-- The three views of the process that exits, and the ids in the queue, through each part of the exit.
record Keeps (q : ℕ) (s s' : Scheduler) : Type 0 where
  code : code_in q s'.processes ≡ code_in q s.processes
  names : ids s'.processes ≡ ids s.processes

Keeps-trans : (q : ℕ) {a b c : Scheduler} → Keeps q a b → Keeps q b c → Keeps q a c
Keeps-trans q f g = record { code = g.code ∙ f.code; names = g.names ∙ f.names }

remove_child-keeps :
    (p : Process) (pid : ℕ)
    → let q = (remove_child p pid).1 in
      (q.id ≡ p.id) × (q.parent_id ≡ p.parent_id) × (q.exit_code ≡ p.exit_code)
unfolding remove_child
remove_child-keeps p pid = ground arith

module _ (q parent pid : ℕ) where
  detach-Keeps : (s : Scheduler) → Keeps q s (detach s parent pid)
  unfolding detach
  detach-Keeps s =
      let f = λ (p : Process). (remove_child p pid).1 in
      let same = λ (p : Process). (remove_child-keeps p pid).0 in
      ground (
        arith,
        code_in-keep f same q parent s.processes (λ p. (remove_child-keeps p pid).2),
        ids-update_first f same parent s.processes,
      )

  detach-parent :
      (s : Scheduler) → parent_in q (detach s parent pid).processes ≡ parent_in q s.processes
  unfolding detach
  detach-parent s =
      let f = λ (p : Process). (remove_child p pid).1 in
      let same = λ (p : Process). (remove_child-keeps p pid).0 in
      ground (arith, parent_in-keep f same q parent s.processes (λ p. (remove_child-keeps p pid).1))

  wake_parent-Keeps : (s : Scheduler) → Keeps q s (wake_parent s parent pid)
  unfolding wake_parent
  wake_parent-Keeps s =
      let f = λ (p : Process). record p { state = wake_waiting pid p.state } in
      ground (
        arith,
        code_in-keep f (λ p. refl) q parent s.processes (λ p. refl),
        ids-update_first f (λ p. refl) parent s.processes,
      )

orphan_children-Keeps : (q : ℕ) (s : Scheduler) (cs : List ℕ) → Keeps q s (orphan_children s cs)
unfolding orphan_children
orphan_children-Keeps q s [] = record { code = refl; names = refl }
orphan_children-Keeps q s (c ∷ cs) =
    Keeps-trans q once (orphan_children-Keeps q (orphan_child s c) cs)
  where
    once : Keeps q s (orphan_child s c)
    once =
        unfold orphan_child make_orphan in
        record {
          code = code_in-keep make_orphan (λ p. refl) q c s.processes (λ p. refl);
          names = ids-update_first make_orphan (λ p. refl) c s.processes;
        }

after_exit-Keeps : (q parent pid : ℕ) (s : Scheduler) → Keeps q s (after_exit s parent pid)
unfolding after_exit
after_exit-Keeps q parent pid s = Keeps-trans q (detach-Keeps q parent pid s) (
    Keeps-trans q (orphan_children-Keeps q (detach s parent pid) _)
      (wake_parent-Keeps q parent pid _))

module _ (pid : ℕ) (code : ℤ) (lower : negsuc 254 ≤ℤ code) (upper : code ≤ℤ pos 255) where
  first_loop_code :
      (ps : List Process)
      → let ps' = (first_loop pid code lower upper ps).1 in
        (code_in pid ps' ≡ Option.map (λ _. code) (code_in pid ps)) × (ids ps' ≡ ids ps)
  unfolding first_loop try_first
  first_loop_code [] = (refl, refl)
  first_loop_code (p ∷ ps) =
      ground (arith, exit_and_parent_ok p code lower upper, first_loop_code ps)

  -- The process with the id, once it has exited: its code, its parent and its place in the queue.
  exited :
      (s : Scheduler)
      → let s' = (handle_process_exit s pid code).1 in
        (code_in pid s'.processes ≡ Option.map (λ _. code) (code_in pid s.processes))
        × (ids s'.processes ≡ ids s.processes)
        × (contains pid (children_of pid s.process_tree) ≡ false
            → parent_in pid s'.processes ≡ parent_in pid s.processes)
  unfolding handle_process_exit first_loop
  exited s =
      rw (first_loop_result pid code lower upper s.processes, handle_process_exit)
        (
          kept.code ∙ (first_loop_code s.processes).0,
          kept.names ∙ (first_loop_code s.processes).1,
          λ own.
              rw (after_exit-parent parent pid ended pid, own)
                (detach-parent pid parent pid ended
                  ∙ (first_loop_keeps pid code lower upper pid s.processes).0),
        )
    where
      ended : Scheduler
      ended = record s { processes = (first_loop pid code lower upper s.processes).1 }

      parent : ℕ
      parent = parent_in pid s.processes

      kept : Keeps pid ended (after_exit ended parent pid)
      kept = after_exit-Keeps pid parent pid ended

zombie_found :
    (pid : ℕ) (ps : List Process) (code : ℤ)
    → state_in pid ps ≡ some zombie
    → code_in pid ps ≡ some code
    → Option.map (λ r. r.exit_code) (find? (is_zombie_child (parent_in pid ps) pid) ps) ≡ some code
zombie_found pid [] code h k = cc
zombie_found pid (p ∷ ps) code h k = elim (Bool-cases (has_id pid p)) [
  | inl e ↦ ground arith
  | inr e ↦ ground (arith, zombie_found pid ps code)
]

reaped_code :
    (s : Scheduler) (pid : ℕ) (code : ℤ)
    → Distinct (ids s.processes)
    → state_in pid s.processes ≡ some zombie
    → code_in pid s.processes ≡ some code
    → (reap_zombie_child s (parent_in pid s.processes) pid).0 ≡ ok code
reaped_code s pid code d h k =
    let parent = parent_in pid s.processes in
    ground (
      arith,
      reap_zombie_child_lem s parent pid d,
      zombie_found pid s.processes code h k,
      Option-cases (find? (is_zombie_child parent pid) s.processes),
    )

-- A process in the queue that is not its own child exits with an allowed code. While no two
-- processes share an id, its parent then reaps exactly that code.
pub reap_zombie_child-handle_process_exit :
    (s : Scheduler) (pid : ℕ) (code : ℤ)
    → negsuc 254 ≤ℤ code
    → code ≤ℤ pos 255
    → Distinct (ids s.processes)
    → any (has_id pid) s.processes ≡ true
    → contains pid (children_of pid s.process_tree) ≡ false
    → (reap_zombie_child (handle_process_exit s pid code).1 (parent_in pid s.processes) pid).0
      ≡ ok code
reap_zombie_child-handle_process_exit s pid code lower upper d here own =
    let s' = (handle_process_exit s pid code).1 in
    let (coded, names, parents) = exited pid code lower upper s in
    let (p, found, hit) = find?-any (has_id pid) s.processes here in
    let dead = (handle_process_exit-state s pid code lower upper).1 pid in
    rw (← parents own)
      (reaped_code s' pid code (subst Distinct (sym names) d) (ground arith) (ground arith))
