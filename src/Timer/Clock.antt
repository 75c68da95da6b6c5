-- ===== src/Timer/Clock.antt =====
-- timer.rs: the tick counter that everybody reads.
use ruix.Prelude.{
  ℕ, suc, ◌+◌, ◌*◌, ◌/◌, ◌%◌, ◌≡◌, refl, Option, List, [], ◌∷◌, arith, u64_mod, wrapping_add,
}
use ruix.Scheduler.{Scheduler}
use ruix.Timer.{TimeoutManager, check_timeouts, check_timeout, has_pid, is_timed_out}
use ruix.Timer
use ruix.Timer.Globals.{
  Globals, increment_tick, increment_timeout, start_user_mode, end_user_mode, register_process,
  unregister_process, set_timeout_limit, reset_timeout, init, get_global_tick, get_timeout_counter,
}

-- A call of a public function.
pub data Call : Type 0 where
  tick timeout leave reset : Call
  enter forget : ℕ → Call
  register : ℕ → Option ℕ → Call
  limit : ℕ → ℕ → Call

abbrev pub after : Call → Globals × Scheduler → Globals × Scheduler
after tick (g, s) = increment_tick g s
after timeout (g, s) = increment_timeout g s
after leave (g, s) = (end_user_mode g, s)
after reset (g, s) = (reset_timeout g, s)
after (enter pid) (g, s) = (start_user_mode pid g, s)
after (forget pid) (g, s) = (unregister_process pid g, s)
after (register pid l) (g, s) = (register_process pid l g, s)
after (limit pid l) (g, s) = (set_timeout_limit pid l g, s)

abbrev pub run : List Call → Globals × Scheduler → Globals × Scheduler
run [] x = x
run (c ∷ cs) x = run cs (after c x)

-- How many of the calls are timer ticks.
abbrev pub ticks : List Call → ℕ
ticks [] = 0
ticks (tick ∷ cs) = suc (ticks cs)
ticks (timeout ∷ cs) = suc (ticks cs)
ticks (_ ∷ cs) = ticks cs

increment_tick-current_tick :
    (m : TimeoutManager) (s : Scheduler)
    → (Timer.increment_tick m s).0.current_tick ≡ wrapping_add m.current_tick 1
unfolding Timer.increment_tick check_timeouts Timer.handle_timeout Timer.end_user_mode
increment_tick-current_tick m s = ground arith

-- Both counters, at a number of ticks.
abbrev At : ℕ → Globals → Type 0
At n g = (g.manager.current_tick ≡ n % u64_mod) × (g.global_tick_counter ≡ n % u64_mod)

increment_tick-At :
    (n : ℕ) (g : Globals) (s : Scheduler) → At n g → At (n + 1) (increment_tick g s).0
unfolding increment_tick
increment_tick-At n g s (a, b) =
    let e = increment_tick-current_tick g.manager s in (omega (arith, e, a), omega (arith, e, a))

-- The ticks of one call.
abbrev ticks_of : Call → ℕ
ticks_of c = ticks (c ∷ [])

after-At :
    (c : Call) (n : ℕ) (g : Globals) (s : Scheduler)
    → At n g
    → At (n + ticks_of c) (after c (g, s)).0
unfolding increment_timeout end_user_mode reset_timeout start_user_mode unregister_process
    register_process set_timeout_limit Timer.end_user_mode Timer.start_user_mode
    Timer.unregister_process Timer.register_process Timer.set_timeout_limit
after-At tick n g s h = increment_tick-At n g s h
after-At timeout n g s h = increment_tick-At n g s h
after-At leave n g s (a, b) = (omega (arith, a), omega (arith, b))
after-At reset n g s (a, b) = (omega (arith, a), omega (arith, b))
after-At (enter pid) n g s (a, b) = ground arith
after-At (forget pid) n g s (a, b) = (omega (arith, a), omega (arith, b))
after-At (register pid l) n g s (a, b) = (omega (arith, a), omega (arith, b))
after-At (limit pid l) n g s (a, b) = ground arith

ticks-cons : (c : Call) (cs : List Call) → ticks (c ∷ cs) ≡ ticks_of c + ticks cs
ticks-cons tick cs = omega arith
ticks-cons timeout cs = omega arith
ticks-cons leave cs = omega arith
ticks-cons reset cs = omega arith
ticks-cons (enter pid) cs = omega arith
ticks-cons (forget pid) cs = omega arith
ticks-cons (register pid l) cs = omega arith
ticks-cons (limit pid l) cs = omega arith

-- Whatever public functions are called, the counter that `get_global_tick` and `get_timeout_counter` read
-- is that of the manager: the number of timer ticks, on 64 bits. It starts as that of `n` ticks.
pub run_clock :
    (cs : List Call) (n : ℕ) (g : Globals) (s : Scheduler)
    → g.manager.current_tick ≡ n % u64_mod
    → g.global_tick_counter ≡ n % u64_mod
    → let (g1, s1) = run cs (g, s) in
      (get_global_tick g1 ≡ (n + ticks cs) % u64_mod)
      × (get_timeout_counter g1 ≡ g1.manager.current_tick)
unfolding get_global_tick get_timeout_counter
run_clock [] n g s a b = (omega (arith, b), omega (arith, a, b))
run_clock (c ∷ cs) n g s a b =
    let (a1, b1) = after-At c n g s (a, b) in
    let (e, e1) = run_clock cs (n + ticks_of c) (after c (g, s)).0 (after c (g, s)).1 a1 b1 in
    (omega (arith, e, ticks-cons c cs), e1)

-- The two bytes that `init` writes to the timer's data port make up the quotient of the two
-- frequencies only up to 16 bits.
pub init_lem :
    (frequency interval : ℕ)
    → (low high : ℕ) × (init frequency interval ≡ (0x43, 0x36) ∷ (0x40, low) ∷ (0x40, high) ∷ [])
      × (low + 256 * high ≡ frequency / interval % 65536)
unfolding init
init_lem frequency interval =
    let d = frequency / interval in (d % 256, d / 256 % 256, refl, omega arith)
