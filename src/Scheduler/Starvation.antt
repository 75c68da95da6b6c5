-- ===== src/Scheduler/Starvation.antt =====
-- process/scheduler.rs with interrupts.rs and timer.rs: the process in front keeps the processor until
-- it blocks, or its time limit is over.
use mathlib.Core.Option
use ruix.Prelude.{
  ℕ, suc, ◌+◌, ◌^◌, ◌<◌, ◌≤◌, ◌≡◌, refl, ap, ◌∙◌, true, false, some, List, [], ◌∷◌, ==_refl, find?,
  length, negsuc, arith,
}
use ruix.Process.{Process, running, zombie, is_schedulable}
use ruix.Scheduler.{
  Scheduler, Cpu, has_id, pull, suspend_front, suspended, schedule, dispatch,
  get_next_process_by_priority,
}
use ruix.Timer.Globals.{Globals, start_user_mode, increment_tick}
use ruix.Timer.Budget.{limit_of, InUserMode, start_user_mode-InUserMode, tick_early, tick_last}
use ruix.Timer.Kill.{after_kill, kill_process_lem}

pub schedule_front :
    (s : Scheduler) (cpu : Cpu) (context : ℕ) (p : Process) (ps : List Process)
    → s.processes ≡ p ∷ ps
    → is_schedulable p.state ≡ true
    → let (s', cpu', next) = schedule s cpu context in
      (s'.processes ≡ record p { state = running } ∷ suspend_front context ps)
      × (cpu'.current_process_id ≡ p.id)
      × (next ≡ p.context_ptr)
unfolding schedule get_next_process_by_priority pull dispatch
schedule_front s cpu context p ps e able =
    rw (e, schedule) (rw able (rw (e, pull) (rw (==_refl p.id, pull, dispatch) (refl, refl, refl))))

-- Whoever stands in front and is ready or running is run again, from the context saved before it
-- last ran and not from the one passed in; and the context passed in overwrites the one saved for
-- the process behind it.
schedule_repeats :
    (s : Scheduler) (cpu : Cpu) (context : ℕ) (p q : Process) (ps : List Process)
    → s.processes ≡ p ∷ q ∷ ps
    → is_schedulable p.state ≡ true
    → let (s', cpu', next) = schedule s cpu context in
      (s'.processes
        ≡ record p { state = running }
          ∷ record q { context_ptr = context; state = suspended q.state }
          ∷ ps)
      × (cpu'.current_process_id ≡ p.id)
      × (next ≡ p.context_ptr)
schedule_repeats s cpu context p q ps = schedule_front s cpu context p (q ∷ ps)

-- Timer interrupts one after the other, each with the context that it saved: `handle_switch` asks the
-- scheduler, then `increment_tick` counts the tick.
unfoldable pub interrupts : Globals → Scheduler → Cpu → List ℕ → Globals × Scheduler × Cpu
interrupts g s cpu [] = (g, s, cpu)
interrupts g s cpu (context ∷ contexts) =
    let (s1, cpu1, next) = schedule s cpu context in
    let (g2, s2) = increment_tick g s1 in interrupts g2 s2 cpu1 contexts

module _ (pid tick limit : ℕ) (room : tick + limit < 2 ^ 64) where
  -- Up to the limit the process in front keeps the processor.
  keeps :
      (contexts : List ℕ) (context n : ℕ) (g : Globals) (s : Scheduler) (cpu : Cpu) (p : Process)
      (ps : List Process)
      → InUserMode pid tick limit n g.manager
      → s.processes ≡ p ∷ ps
      → is_schedulable p.state ≡ true
      → n + length contexts < limit
      → (interrupts g s cpu (context ∷ contexts)).2.current_process_id ≡ p.id
  unfolding interrupts increment_tick
  keeps [] context n g s cpu p ps inside e able few = (schedule_front s cpu context p ps e able).1
  keeps (c ∷ cs) context n g s cpu p ps inside e able few =
      let (s1, cpu1, next) = schedule s cpu context in
      let (later, same) = tick_early g.manager s1 pid tick limit n inside (omega arith) room in
      keeps cs c (suc n) (increment_tick g s1).0 (increment_tick g s1).1 cpu1
        (record p { state = running }) (suspend_front context ps) later
        (ap (λ (x : Scheduler). x.processes) same ∙ (schedule_front s cpu context p ps e able).0)
        refl (omega arith)

  -- At the limit it is killed.
  killed :
      (contexts : List ℕ) (context n : ℕ) (g : Globals) (s : Scheduler) (cpu : Cpu) (p : Process)
      (ps : List Process)
      → InUserMode pid tick limit n g.manager
      → s.processes ≡ p ∷ ps
      → is_schedulable p.state ≡ true
      → p.id ≡ pid
      → n + suc (length contexts) ≡ limit
      → let (g', s', cpu') = interrupts g s cpu (context ∷ contexts) in
        (g'.manager.user_mode_active ≡ false)
        × (find? (has_id pid) s'.processes
            ≡ some (record p { state = zombie; exit_code = negsuc 0 }))
  unfolding interrupts increment_tick
  killed [] context n g s cpu p ps inside e able named last =
      let (s1, cpu1, next) = schedule s cpu context in
      let (ended, gone) = tick_last g.manager s1 pid tick limit n inside (omega arith) room in
      (
        ended,
        ap (λ (x : Scheduler). find? (has_id pid) x.processes) gone
            ∙ kill_process_lem s1 pid pid
            ∙ ap (λ qs. Option.map (after_kill pid pid) (find? (has_id pid) qs))
                (schedule_front s cpu context p ps e able).0
            ∙ rw (named, ==_refl pid) (rw (==_refl pid) refl),
      )
  killed (c ∷ cs) context n g s cpu p ps inside e able named last =
      let (s1, cpu1, next) = schedule s cpu context in
      let (later, same) = tick_early g.manager s1 pid tick limit n inside (omega arith) room in
      killed cs c (suc n) (increment_tick g s1).0 (increment_tick g s1).1 cpu1
        (record p { state = running }) (suspend_front context ps) later
        (ap (λ (x : Scheduler). x.processes) same ∙ (schedule_front s cpu context p ps e able).0)
        refl named (omega arith)

-- The process in front of the queue, ready or running, starts user mode. The processor is given to it at
-- each timer interrupt up to its limit, the last one included, whoever else is ready: no other process
-- runs in this time. After as many interrupts as its limit, user mode has ended and the process is a zombie
-- with exit code -1. The limit is its own if it is registered and 30 if not, and the tick counter does not
-- wrap around meanwhile.
pub interrupts_starve :
    (contexts spent : List ℕ) (g : Globals) (s : Scheduler) (cpu : Cpu) (p : Process)
    (ps : List Process)
    → s.processes ≡ p ∷ ps
    → is_schedulable p.state ≡ true
    → 0 < length contexts
    → length contexts ≤ limit_of p.id g.manager
    → length spent ≡ limit_of p.id g.manager
    → g.manager.current_tick + limit_of p.id g.manager < 2 ^ 64
    → let (g', s', cpu') = interrupts (start_user_mode p.id g) s cpu spent in
      ((interrupts (start_user_mode p.id g) s cpu contexts).2.current_process_id ≡ p.id)
      × (g'.manager.user_mode_active ≡ false)
      × (find? (has_id p.id) s'.processes
          ≡ some (record p { state = zombie; exit_code = negsuc 0 }))
unfolding start_user_mode
interrupts_starve [] spent g s cpu p ps e able some_ticks few all room = absurd (ground arith)
interrupts_starve (c ∷ cs) [] g s cpu p ps e able some_ticks few all room = absurd (ground arith)
interrupts_starve (c ∷ cs) (d ∷ ds) g s cpu p ps e able some_ticks few all room =
    let started = start_user_mode-InUserMode g.manager p.id in
    let tick = g.manager.current_tick in
    let limit = limit_of p.id g.manager in
    let (ended, gone) =
      killed p.id tick limit room ds d 0 (start_user_mode p.id g) s cpu p ps started e able refl
        (ground arith) in
    (
      keeps p.id tick limit room cs c 0 (start_user_mode p.id g) s cpu p ps started e able
          (ground arith),
      ended,
      gone,
    )
