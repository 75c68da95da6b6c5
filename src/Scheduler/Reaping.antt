-- ===== src/Scheduler/Reaping.antt =====
-- process/scheduler.rs: a parent collects the exit code of a child.
use ruix.Prelude.{
  ℕ, ◌≡◌, refl, false, Option, none, some, List, [], ◌∷◌, arith, find?, update_first, contains, ℤ,
  Option-cases, Bool-cases, ==_iff, Distinct, remove_first, inl, inr,
}
use ruix.Error.{KernelResult, ok, err, process, ProcessError}
use ruix.Process.{Process, remove_child}
use ruix.Scheduler.Tree.{remove}
use ruix.Scheduler.Exit.Lookup.{ids}
use ruix.Scheduler.{Scheduler, has_id, take_zombies, reap_zombie_child, is_zombie_child}

find-absent :
    (parent pid : ℕ) (ps : List Process)
    → contains pid (ids ps) ≡ false
    → find? (is_zombie_child parent pid) ps ≡ none
find-absent parent pid [] h = refl
find-absent parent pid (p ∷ ps) h = ground (arith, find-absent parent pid ps)

take_zombies-absent :
    (parent pid : ℕ) (found : Option ℤ) (ps : List Process)
    → contains pid (ids ps) ≡ false
    → take_zombies parent pid found ps ≡ (found, ps)
unfolding take_zombies
take_zombies-absent parent pid found [] h = refl
take_zombies-absent parent pid found (p ∷ ps) h =
    ground (arith, take_zombies-absent parent pid found ps)

-- The code collected, and the processes kept, where at most one process has the id.
abbrev code_of : Option ℤ → Option Process → Option ℤ
code_of found none = found
code_of found (some p) = some p.exit_code

abbrev kept_of : ℕ → List Process → Option Process → List Process
kept_of pid ps none = ps
kept_of pid ps (some p) = remove_first (has_id pid) ps

take_zombies_lem :
    (parent pid : ℕ) (found : Option ℤ) (ps : List Process)
    → Distinct (ids ps)
    → let hit = find? (is_zombie_child parent pid) ps in
      take_zombies parent pid found ps ≡ (code_of found hit, kept_of pid ps hit)
unfolding take_zombies
take_zombies_lem parent pid found [] d = refl
take_zombies_lem parent pid found (p ∷ ps) d = elim (Bool-cases (has_id pid p)) [
  | inl e ↦
      let same : p.id ≡ pid = (==_iff p.id pid).0 e in
      let absent : contains pid (ids ps) ≡ false = rw (← same) d.0 in
      ground (
        arith,
        find-absent parent pid ps absent,
        take_zombies-absent parent pid found ps absent,
        take_zombies-absent parent pid (some p.exit_code) ps absent,
      )
  | inr e ↦ ground (
    arith,
    take_zombies_lem parent pid found ps d.1,
    Option-cases (find? (is_zombie_child parent pid) ps),
  )
]

-- What reaping does, given the zombie child that it finds.
abbrev pub reaped : Scheduler → ℕ → ℕ → Option Process → KernelResult ℤ × Scheduler
reaped s parent pid none = (err (process ProcessError.not_found), s)
reaped s parent pid (some p) = (
  ok p.exit_code,
  record s {
    processes =
        update_first (has_id parent) (λ q. (remove_child q pid).1)
          (remove_first (has_id pid) s.processes);
    process_tree = remove pid s.process_tree;
  },
)

-- While no two processes share an id, reaping gives the exit code of the zombie with that id and
-- parent, takes exactly that process out of the queue and the tree, and drops it from its parent's
-- children; if there is no such zombie it fails with `not_found` and changes nothing.
pub reap_zombie_child_lem :
    (s : Scheduler) (parent pid : ℕ)
    → Distinct (ids s.processes)
    → reap_zombie_child s parent pid
      ≡ reaped s parent pid (find? (is_zombie_child parent pid) s.processes)
unfolding reap_zombie_child
reap_zombie_child_lem s parent pid d =
    elim (Option-cases (find? (is_zombie_child parent pid) s.processes)) [
      | inl e ↦ ground (arith, take_zombies_lem parent pid none s.processes d)
      | inr (p, e) ↦ ground (arith, take_zombies_lem parent pid none s.processes d)
    ]
