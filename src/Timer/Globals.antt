-- ===== src/Timer/Globals.antt =====
-- timer.rs: the public functions, which work on the manager behind `TIMEOUT_MANAGER` and on the counter
-- behind `GLOBAL_TICK_COUNTER`, and what `init` writes to the ports of the timer device.
use ruix.Prelude.{ℕ, ◌/◌, ◌%◌, Option, List, [], ◌∷◌}
use ruix.Scheduler.{Scheduler}
use ruix.Timer.{TimeoutManager, TimeoutState, get_status}
use ruix.Timer

abbrev pit_frequency : ℕ
pit_frequency = 1193182

abbrev timer_interval : ℕ
timer_interval = 10

-- The ports and the bytes that are written to them, in order.
unfoldable pub init : ℕ → ℕ → List (ℕ × ℕ)
init frequency interval =
    let divisor = frequency / interval in
    (0x43, 0x36) ∷ (0x40, divisor % 256) ∷ (0x40, divisor / 256 % 256) ∷ []

pub record Globals : Type 0 where
  pub manager : TimeoutManager
  pub global_tick_counter : ℕ

-- A function of the manager, under its lock.
abbrev with_manager : (TimeoutManager → TimeoutManager) → Globals → Globals
with_manager f g = record g { manager = f g.manager }

unfoldable pub increment_tick : Globals → Scheduler → Globals × Scheduler
increment_tick g s =
    let (manager, s1) = Timer.increment_tick g.manager s in
    (record { manager = manager; global_tick_counter = manager.current_tick }, s1)

unfoldable pub increment_timeout : Globals → Scheduler → Globals × Scheduler
increment_timeout g s = increment_tick g s

unfoldable pub start_user_mode : ℕ → Globals → Globals
start_user_mode pid = with_manager (λ m. Timer.start_user_mode m pid)

unfoldable pub end_user_mode : Globals → Globals
end_user_mode = with_manager Timer.end_user_mode

unfoldable pub register_process : ℕ → Option ℕ → Globals → Globals
register_process pid limit = with_manager (λ m. Timer.register_process m pid limit)

unfoldable pub unregister_process : ℕ → Globals → Globals
unregister_process pid = with_manager (λ m. Timer.unregister_process m pid)

unfoldable pub set_timeout_limit : ℕ → ℕ → Globals → Globals
set_timeout_limit pid limit = with_manager (λ m. Timer.set_timeout_limit m pid limit)

unfoldable get_timeout_status : Globals → ℕ → Option (TimeoutState × ℕ × ℕ)
get_timeout_status g pid = get_status g.manager pid

unfoldable pub get_global_tick : Globals → ℕ
get_global_tick g = g.global_tick_counter

unfoldable pub get_timeout_counter : Globals → ℕ
get_timeout_counter g = get_global_tick g

unfoldable pub reset_timeout : Globals → Globals
reset_timeout = with_manager Timer.end_user_mode
