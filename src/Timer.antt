-- ===== src/Timer.antt =====
-- timer.rs: the budget of timer ticks of the process in user mode, and the end of a process that
-- uses it up. The scheduler behind `SCHEDULER` is an argument and comes back in the result. Printed
-- messages are left out.
pub mod Budget
pub mod Kill
pub mod Limits
pub mod Globals
pub mod Clock
use ruix.Prelude.{
  ℕ, ◌+◌, ◌-◌, ◌/◌, Bool, true, false, ◌&&◌, not, Option, none, some, List, [], ◌∷◌, ◌++◌, map, ltb,
  leb, ◌==◌, if◌then◌else◌, find?, update_first, retain, any, wrapping_add, ℤ, negsuc,
}
use ruix.Process.{Process, ProcessState, zombie}
use ruix.Scheduler.{Scheduler, wake_waiting}
use ruix.Scheduler

abbrev pub default_timeout_limit : ℕ
default_timeout_limit = 30

pub data TimeoutState : Type 0 where
  normal warning timed_out : TimeoutState

pub record ProcessTimeout : Type 0 where
  pub pid : ℕ
  pub start_time : ℕ
  pub limit : ℕ
  pub state : TimeoutState
  pub warning_sent : Bool

abbrev pub new : ℕ → ℕ → ProcessTimeout
new pid limit = record {
  pid = pid;
  start_time = 0;
  limit = limit;
  state = normal;
  warning_sent = false;
}

abbrev pub reset : ProcessTimeout → ProcessTimeout
reset p = record p { start_time = 0; state = normal; warning_sent = false }

abbrev pub start : ℕ → ProcessTimeout → ProcessTimeout
start tick p = record p { start_time = tick; state = normal; warning_sent = false }

abbrev pub is_timed_out : TimeoutState → Bool
is_timed_out timed_out = true
is_timed_out normal = false
is_timed_out warning = false

unfoldable pub check_timeout : ProcessTimeout → ℕ → TimeoutState × ProcessTimeout
check_timeout p tick =
    if is_timed_out p.state
    then (timed_out, p)
    else if leb p.limit (tick - p.start_time)
    then (timed_out, record p { state = timed_out })
    else if leb (p.limit / 2) (tick - p.start_time) && not p.warning_sent
    then (warning, record p { warning_sent = true })
    else (normal, p)

pub record TimeoutManager : Type 0 where
  pub processes : List ProcessTimeout
  pub current_tick : ℕ
  pub user_mode_active : Bool
  pub current_user_pid : ℕ

-- `TimeoutManager::new`
abbrev pub empty : TimeoutManager
empty = record { processes = []; current_tick = 0; user_mode_active = false; current_user_pid = 0 }

abbrev pub has_pid : ℕ → ProcessTimeout → Bool
has_pid pid p = p.pid == pid

abbrev limit_or_default : Option ℕ → ℕ
limit_or_default none = default_timeout_limit
limit_or_default (some limit) = limit

unfoldable pub register_process : TimeoutManager → ℕ → Option ℕ → TimeoutManager
register_process m pid limit = record m {
  processes = m.processes ++ new pid (limit_or_default limit) ∷ [];
}

unfoldable pub unregister_process : TimeoutManager → ℕ → TimeoutManager
unregister_process m pid = record m { processes = retain (λ p. not (has_pid pid p)) m.processes }

-- `start` on the first entry of the process, if there is one.
abbrev pub start_found : TimeoutManager → ℕ → TimeoutManager
start_found m pid = record m {
  processes = update_first (has_pid pid) (start m.current_tick) m.processes;
}

unfoldable pub start_user_mode : TimeoutManager → ℕ → TimeoutManager
unfolding register_process
start_user_mode m pid =
    let active = record m { user_mode_active = true; current_user_pid = pid } in
    if any (has_pid pid) m.processes
    then start_found active pid
    else start_found (register_process active pid none) pid

unfoldable pub end_user_mode : TimeoutManager → TimeoutManager
end_user_mode m = record m {
  user_mode_active = false;
  processes = update_first (has_pid m.current_user_pid) reset m.processes;
  current_user_pid = 0;
}

-- The bodies of the two loops of `kill_process`; the exit code is -1.
abbrev pub end_by_timeout : Process → Process
end_by_timeout p = record p { state = zombie; exit_code = negsuc 0 }

abbrev pub wake_waiter : ℕ → Process → Process
wake_waiter pid p = record p { state = wake_waiting pid p.state }

unfoldable pub kill_process : Scheduler → ℕ → Scheduler
unfolding wake_waiting
kill_process s pid = record s {
  processes =
      map (wake_waiter pid) (update_first (Scheduler.has_id pid) end_by_timeout s.processes);
}

unfoldable pub handle_timeout : TimeoutManager → Scheduler → ℕ → TimeoutManager × Scheduler
unfolding kill_process end_user_mode
handle_timeout m s pid = (end_user_mode m, kill_process s pid)

unfoldable pub check_timeouts : TimeoutManager → Scheduler → TimeoutManager × Scheduler
unfolding check_timeout handle_timeout
check_timeouts m s = elim (find? (has_pid m.current_user_pid) m.processes) [
  | none ↦ (m, s)
  | some p ↦
      let (state, p') = check_timeout p m.current_tick in
      let m' = record m {
        processes = update_first (has_pid m.current_user_pid) (λ _. p') m.processes;
      } in
      if is_timed_out state then handle_timeout m' s p.pid else (m', s)
]

unfoldable pub increment_tick : TimeoutManager → Scheduler → TimeoutManager × Scheduler
unfolding check_timeouts
increment_tick m s =
    let m' = record m { current_tick = wrapping_add m.current_tick 1 } in
    if m'.user_mode_active then check_timeouts m' s else (m', s)

unfoldable pub set_timeout_limit : TimeoutManager → ℕ → ℕ → TimeoutManager
unfolding register_process
set_timeout_limit m pid limit =
    if any (has_pid pid) m.processes
    then record m {
      processes = update_first (has_pid pid) (λ p. record p { limit = limit }) m.processes;
    }
    else register_process m pid (some limit)

unfoldable pub get_status : TimeoutManager → ℕ → Option (TimeoutState × ℕ × ℕ)
get_status m pid = elim (find? (has_pid pid) m.processes) [
  | none ↦ none
  | some p ↦ some (p.state, m.current_tick - p.start_time, p.limit)
]
