-- ===== src/Tests/Queue.antt =====
-- Processes and the scheduler: concrete runs.
use mathlib.Core.Option
use ruix.Prelude.{◌≤◌, ◌*◌, ◌↔◌, true, some, ℕ, ◌≡◌, refl, [], ◌∷◌, arith, pos, negsuc, contains}
use ruix.Error.{ok}
use ruix.Process.{zombie, add_child}
use ruix.Process.Validity.{IsValid, after, after-IsValid, adds_child}
use ruix.Scheduler.{
  get_memory_stats, check_system_limits, Scheduler, handle_process_exit, reap_zombie_child,
  schedule, suspend_front,
}
use ruix.Scheduler.Tree.{children_of}
use ruix.Scheduler.Exit.{handle_process_exit-state, state_after}
use ruix.Scheduler.Exit.Lookup.{state_in, parent_in}
use ruix.Scheduler.Orphans.{handle_process_exit-orphans}
use ruix.Scheduler.Reaping.{reap_zombie_child_lem, reaped}
use ruix.Scheduler.ExitCode.{reap_zombie_child-handle_process_exit}
use ruix.Scheduler.Dispatch.{schedule_first}
use ruix.Scheduler.Cleanup.{living}
use ruix.Scheduler.Totals.{used, totals, get_memory_stats_lem}
use ruix.Tests.{parent, offspring, family, cpu}

after-IsValid_example : IsValid (add_child offspring 3).1
unfolding after
after-IsValid_example =
    after-IsValid (adds_child 3) offspring (add_child offspring 3).1
      (record { in_range = omega arith; counted = refl }) refl

handle_process_exit-state_example :
    let (result, s') = handle_process_exit family 2 (pos 7) in
    (result ≡ ok tt)
    × ((q : ℕ)
        → state_in q s'.processes ≡ Option.map (state_after 2 1 q) (state_in q family.processes))
handle_process_exit-state_example =
    handle_process_exit-state family 2 (pos 7) (omega arith) (omega arith)

handle_process_exit-orphans_example :
    let s' = (handle_process_exit family 1 (pos 0)).1 in
    (children_of 1 s'.process_tree ≡ [])
    × (parent_in 2 s'.processes ≡ 0)
    × (contains 2 s'.orphans ≡ true)
unfolding children_of
handle_process_exit-orphans_example =
    handle_process_exit-orphans family 1 (pos 0) 2 (omega arith) (omega arith) (omega arith)
      (omega arith, tt)

-- The offspring has exited with code 7.
abbrev exited : Scheduler
exited = record family {
  processes = record offspring { state = zombie; exit_code = pos 7 } ∷ parent ∷ [];
}

reap_zombie_child_example :
    reap_zombie_child exited 1 2
    ≡ reaped exited 1 2 (some (record offspring { state = zombie; exit_code = pos 7 }))
reap_zombie_child_example = reap_zombie_child_lem exited 1 2 (refl, (refl, tt))

reap_zombie_child-handle_process_exit_example :
    (reap_zombie_child (handle_process_exit family 2 (negsuc 4)).1 1 2).0 ≡ ok (negsuc 4)
unfolding children_of
reap_zombie_child-handle_process_exit_example =
    reap_zombie_child-handle_process_exit family 2 (negsuc 4) (omega arith) (omega arith)
      (refl, (refl, tt)) refl refl

schedule_first_example : schedule family cpu 500 ≡ (
  record family { processes = offspring ∷ suspend_front 500 (parent ∷ []); current_priority = 16 },
  record { current_process_id = 2; cr3 = 202 },
  102,
)
schedule_first_example = schedule_first family cpu 500 offspring refl (refl, (refl, tt))

-- Nobody in the queue is ready or running.
abbrev blocked : Scheduler
blocked = record exited { processes = parent ∷ record offspring { state = zombie } ∷ [] }

get_memory_stats_example :
    (get_memory_stats family ≡ totals (used (living family.processes)) 2)
    × ((check_system_limits family ≡ some true)
        ↔ ((2 ≤ 1000) × (used (living family.processes) ≤ 1024 * 1024 * 1024)))
get_memory_stats_example = get_memory_stats_lem family
