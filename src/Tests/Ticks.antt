-- ===== src/Tests/Ticks.antt =====
-- The timer: concrete runs.
use ruix.Prelude.{
  find?, negsuc, ◌+◌, ◌%◌, ◌≡◌, refl, true, false, none, some, [], ◌∷◌, arith, u64_mod,
}
use ruix.Timer.{empty, normal, start_user_mode, kill_process, get_status}
use ruix.Timer.Budget.{ticks, warned, start_user_mode_spent}
use ruix.Timer.Globals.{Globals, get_global_tick, get_timeout_counter}
use ruix.Timer.Globals as Globals
use ruix.Timer.Clock.{tick, timeout, enter, register, reset, run, run_clock}
use ruix.Process.{zombie}
use ruix.Scheduler.{has_id}
use ruix.Scheduler.Starvation.{interrupts, interrupts_starve}
use ruix.Tests.{parent, offspring, family, cpu}

start_user_mode_spent_example :
    ((ticks 29 (start_user_mode empty 2) family).1 ≡ family)
    × ((ticks 29 (start_user_mode empty 2) family).0.user_mode_active ≡ true)
    × (get_status (ticks 29 (start_user_mode empty 2) family).0 2 ≡ some (normal, 29, 30))
    × (warned 2 (ticks 29 (start_user_mode empty 2) family).0 ≡ true)
    × ((ticks 30 (start_user_mode empty 2) family).1 ≡ kill_process family 2)
    × ((ticks 30 (start_user_mode empty 2) family).0.user_mode_active ≡ false)
start_user_mode_spent_example = start_user_mode_spent empty family 2 29 (omega arith) (omega arith)

abbrev globals : Globals
globals = record { manager = empty; global_tick_counter = 0 }

run_clock_example :
    let (g, s) =
      run (register 2 none ∷ enter 2 ∷ tick ∷ timeout ∷ reset ∷ tick ∷ []) (globals, family) in
    (get_global_tick g ≡ (0 + 3) % u64_mod) × (get_timeout_counter g ≡ g.manager.current_tick)
run_clock_example =
    run_clock (register 2 none ∷ enter 2 ∷ tick ∷ timeout ∷ reset ∷ tick ∷ []) 0 globals family refl
      refl

-- Process 2 has three ticks.
abbrev limited : Globals
limited = record {
  manager = record empty {
    processes =
        record { pid = 2; start_time = 0; limit = 3; state = normal; warning_sent = false } ∷ [];
  };
  global_tick_counter = 0;
}

interrupts_starve_example :
    let (g', s', cpu') =
      interrupts (Globals.start_user_mode 2 limited) family cpu (500 ∷ 501 ∷ 502 ∷ []) in
    ((interrupts
        (Globals.start_user_mode 2 limited)
        family
        cpu
        (500 ∷ 501 ∷ [])).2.current_process_id
      ≡ 2)
    × (g'.manager.user_mode_active ≡ false)
    × (find? (has_id 2) s'.processes
        ≡ some (record offspring { state = zombie; exit_code = negsuc 0 }))
interrupts_starve_example =
    interrupts_starve (500 ∷ 501 ∷ []) (500 ∷ 501 ∷ 502 ∷ []) limited family cpu offspring
      (parent ∷ []) refl refl (omega arith) (omega arith) refl (omega arith)
