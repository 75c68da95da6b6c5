-- ===== src/Timer/Budget.antt =====
-- timer.rs: how many ticks a process has in user mode, and when it is warned.
use ruix.Prelude.{
  ℕ, zero, suc, ◌+◌, ◌-◌, ◌/◌, ◌^◌, ◌<◌, ◌≡◌, refl, ◌∙◌, Bool, true, false, not, ◌&&◌, none, some,
  List, [], ◌∷◌, arith, ap, leb, ◌==◌, ==_refl, find?, update_first, any, Option-cases, inl, inr,
  find?-update_first, find?-append_none, find?-holds, wrapping_add,
}
use ruix.Scheduler.{Scheduler}
use ruix.Timer.{
  new, is_timed_out, TimeoutManager, ProcessTimeout, normal, timed_out, default_timeout_limit,
  has_pid, start, start_found, start_user_mode, register_process, end_user_mode, kill_process,
  check_timeout, check_timeouts, handle_timeout, increment_tick, get_status,
}

-- The limit that applies to a process that starts user mode.
abbrev pub limit_of : ℕ → TimeoutManager → ℕ
limit_of pid m = elim (find? (has_pid pid) m.processes) [
  | none ↦ default_timeout_limit
  | some p ↦ p.limit
]

-- The warning has been sent.
abbrev pub warned : ℕ → TimeoutManager → Bool
warned pid m = elim (find? (has_pid pid) m.processes) [ none ↦ false | some p ↦ p.warning_sent ]

-- The entry `n` ticks after user mode was started at tick `tick`.
abbrev pub entry : ℕ → ℕ → ℕ → ℕ → ProcessTimeout
entry pid tick limit n = record {
  pid = pid;
  start_time = tick;
  limit = limit;
  state = normal;
  warning_sent = leb (limit / 2) n && not (n == 0);
}

abbrev in_user_mode : ℕ → ℕ → List ProcessTimeout → TimeoutManager
in_user_mode pid now ps = record {
  processes = ps;
  current_tick = now;
  user_mode_active = true;
  current_user_pid = pid;
}

abbrev pub InUserMode : ℕ → ℕ → ℕ → ℕ → TimeoutManager → Type 0
InUserMode pid tick limit n m =
    (ps : List ProcessTimeout) × (m ≡ in_user_mode pid (tick + n) ps)
    × (find? (has_pid pid) ps ≡ some (entry pid tick limit n))

find?-none-any :
    (p : ProcessTimeout → Bool) (ps : List ProcessTimeout) → find? p ps ≡ none → any p ps ≡ false
find?-none-any p [] e = refl
find?-none-any p (x ∷ xs) e = ground (arith, find?-none-any p xs)

find?-some-any :
    (p : ProcessTimeout → Bool) (ps : List ProcessTimeout) (q : ProcessTimeout)
    → find? p ps ≡ some q
    → any p ps ≡ true
find?-some-any p [] q e = absurd (ground arith)
find?-some-any p (x ∷ xs) q e = ground (arith, find?-some-any p xs q)

start_existing :
    (m : TimeoutManager) (pid : ℕ) (p : ProcessTimeout)
    → find? (has_pid pid) m.processes ≡ some p
    → find? (has_pid pid) (start_found m pid).processes ≡ some (entry pid m.current_tick p.limit 0)
start_existing m pid p found =
    let named = find?-holds (has_pid pid) m.processes p found in
    let same : p.pid ≡ pid = ground arith in
    ground (arith, find?-update_first (has_pid pid) (start m.current_tick) m.processes p)

start_appended :
    (m : TimeoutManager) (pid : ℕ)
    → find? (has_pid pid) m.processes ≡ none
    → find? (has_pid pid) (start_found (register_process m pid none) pid).processes
      ≡ some (entry pid m.current_tick default_timeout_limit 0)
unfolding register_process
start_appended m pid missing =
    start_existing (register_process m pid none) pid (new pid default_timeout_limit) (
      find?-append_none (has_pid pid) m.processes (new pid default_timeout_limit) missing
        (==_refl pid))

pub start_user_mode-InUserMode :
    (m : TimeoutManager) (pid : ℕ)
    → InUserMode pid m.current_tick (limit_of pid m) 0 (start_user_mode m pid)
unfolding start_user_mode register_process
start_user_mode-InUserMode m pid = elim (Option-cases (find? (has_pid pid) m.processes)) [
  | inl missing ↦
      let absent = find?-none-any (has_pid pid) m.processes missing in
      let started = start_appended m pid missing in
      ((start_found (register_process m pid none) pid).processes, ground arith, ground arith)
  | inr (p, found) ↦
      let present = find?-some-any (has_pid pid) m.processes p found in
      let started = start_existing m pid p found in
      ((start_found m pid).processes, ground arith, ground arith)
]

pub ticks : ℕ → TimeoutManager → Scheduler → TimeoutManager × Scheduler
ticks zero m s = (m, s)
ticks (suc n) m s = let (m', s') = increment_tick m s in ticks n m' s'

check_early :
    (pid tick limit n : ℕ)
    → suc n < limit
    → (check_timeout (entry pid tick limit n) (tick + suc n)).1 ≡ entry pid tick limit (suc n)
unfolding check_timeout
check_early pid tick limit n early = ground arith

check_early_state :
    (pid tick limit n : ℕ)
    → suc n < limit
    → is_timed_out (check_timeout (entry pid tick limit n) (tick + suc n)).0 ≡ false
unfolding check_timeout
check_early_state pid tick limit n early = ground arith

check_last :
    (pid tick limit n : ℕ)
    → suc n ≡ limit
    → check_timeout (entry pid tick limit n) (tick + suc n)
      ≡ (timed_out, record (entry pid tick limit n) { state = timed_out })
unfolding check_timeout
check_last pid tick limit n last = ground arith

-- The checks of one tick, when the counter already stands at it.
check_timeouts_early :
    (ps : List ProcessTimeout) (s : Scheduler) (pid tick limit n : ℕ)
    → find? (has_pid pid) ps ≡ some (entry pid tick limit n)
    → suc n < limit
    → check_timeouts (in_user_mode pid (tick + suc n) ps) s ≡ (
      in_user_mode pid
          (tick + suc n)
          (update_first (has_pid pid) (λ _. entry pid tick limit (suc n)) ps),
      s,
    )
unfolding check_timeouts
check_timeouts_early ps s pid tick limit n found early =
    let checked = check_early pid tick limit n early in
    let fine = check_early_state pid tick limit n early in rw (found, fine, checked) refl

check_timeouts_last :
    (ps : List ProcessTimeout) (s : Scheduler) (pid tick limit n : ℕ)
    → find? (has_pid pid) ps ≡ some (entry pid tick limit n)
    → suc n ≡ limit
    → ((check_timeouts (in_user_mode pid (tick + suc n) ps) s).0.user_mode_active ≡ false)
      × ((check_timeouts (in_user_mode pid (tick + suc n) ps) s).1 ≡ kill_process s pid)
unfolding check_timeouts handle_timeout end_user_mode
check_timeouts_last ps s pid tick limit n found last =
    rw (found, check_last pid tick limit n last) (refl, refl)

increment_tick-in_user_mode :
    (ps : List ProcessTimeout) (s : Scheduler) (pid tick n : ℕ)
    → tick + suc n < 2 ^ 64
    → increment_tick (in_user_mode pid (tick + n) ps) s
      ≡ check_timeouts (in_user_mode pid (tick + suc n) ps) s
unfolding increment_tick
increment_tick-in_user_mode ps s pid tick n room =
    let clock : wrapping_add (tick + n) 1 ≡ tick + suc n = ground arith in
    ap (λ now. check_timeouts (in_user_mode pid now ps) s) clock

pub tick_early :
    (m : TimeoutManager) (s : Scheduler) (pid tick limit n : ℕ)
    → InUserMode pid tick limit n m
    → suc n < limit
    → tick + limit < 2 ^ 64
    → InUserMode pid tick limit (suc n) (increment_tick m s).0 × ((increment_tick m s).1 ≡ s)
tick_early m s pid tick limit n (ps, now, found) early room =
    let stored =
      find?-update_first (has_pid pid) (λ _. entry pid tick limit (suc n)) ps
        (entry pid tick limit n) found (==_refl pid) in
    let stepped =
      increment_tick-in_user_mode ps s pid tick n (omega arith)
      ∙ check_timeouts_early ps s pid tick limit n found early in
    rw (now, stepped)
      ((update_first (has_pid pid) (λ _. entry pid tick limit (suc n)) ps, refl, stored), refl)

pub tick_last :
    (m : TimeoutManager) (s : Scheduler) (pid tick limit n : ℕ)
    → InUserMode pid tick limit n m
    → suc n ≡ limit
    → tick + limit < 2 ^ 64
    → ((increment_tick m s).0.user_mode_active ≡ false)
      × ((increment_tick m s).1 ≡ kill_process s pid)
tick_last m s pid tick limit n (ps, now, found) last room =
    rw (now, increment_tick-in_user_mode ps s pid tick n (omega arith))
      (check_timeouts_last ps s pid tick limit n found last)

ticks_early :
    (k : ℕ) (m : TimeoutManager) (s : Scheduler) (pid tick limit n total : ℕ)
    → InUserMode pid tick limit n m
    → n + k ≡ total
    → total < limit
    → tick + limit < 2 ^ 64
    → InUserMode pid tick limit total (ticks k m s).0 × ((ticks k m s).1 ≡ s)
unfolding ticks
ticks_early zero m s pid tick limit n total inside sum early room =
    let same : total ≡ n = omega arith in (rw same inside, refl)
ticks_early (suc k) m s pid tick limit n total inside sum early room =
    let (m', s') = increment_tick m s in
    let (inside', same) = tick_early m s pid tick limit n inside (omega arith) room in
    let (final, same') =
      ticks_early k m' s' pid tick limit (suc n) total inside' (omega arith) early room in
    (final, same' ∙ same)

ticks_snoc :
    (k : ℕ) (m : TimeoutManager) (s : Scheduler)
    → ticks (suc k) m s ≡ increment_tick (ticks k m s).0 (ticks k m s).1
unfolding ticks
ticks_snoc zero m s = refl
ticks_snoc (suc k) m s = ticks_snoc k (increment_tick m s).0 (increment_tick m s).1

InUserMode-status :
    (m : TimeoutManager) (pid tick limit n : ℕ)
    → InUserMode pid tick limit n m
    → (m.user_mode_active ≡ true)
      × (get_status m pid ≡ some (normal, n, limit))
      × (warned pid m ≡ (leb (limit / 2) n && not (n == 0)))
unfolding get_status
InUserMode-status m pid tick limit n (ps, now, found) =
    let elapsed : tick + n - tick ≡ n = omega arith in
    rw now (refl, rw (found, elapsed) refl, rw found refl)

start_user_mode_early :
    (m : TimeoutManager) (s : Scheduler) (pid n : ℕ)
    → n < limit_of pid m
    → m.current_tick + limit_of pid m < 2 ^ 64
    → ((ticks n (start_user_mode m pid) s).1 ≡ s)
      × ((ticks n (start_user_mode m pid) s).0.user_mode_active ≡ true)
      × (get_status (ticks n (start_user_mode m pid) s).0 pid ≡ some (normal, n, limit_of pid m))
      × (warned pid (ticks n (start_user_mode m pid) s).0
          ≡ (leb (limit_of pid m / 2) n && not (n == 0)))
start_user_mode_early m s pid n early room =
    let started = start_user_mode-InUserMode m pid in
    let (inside, same) =
      ticks_early n (start_user_mode m pid) s pid m.current_tick (limit_of pid m) 0 n started
        (omega arith) early room in
    let (active, status, warned_then) =
      InUserMode-status (ticks n (start_user_mode m pid) s).0 pid m.current_tick (limit_of pid m) n
        inside in
    (same, active, status, warned_then)

limit_spent :
    (m : TimeoutManager) (s : Scheduler) (pid : ℕ)
    → 0 < limit_of pid m
    → m.current_tick + limit_of pid m < 2 ^ 64
    → ((ticks (limit_of pid m) (start_user_mode m pid) s).1 ≡ kill_process s pid)
      × ((ticks (limit_of pid m) (start_user_mode m pid) s).0.user_mode_active ≡ false)
limit_spent m s pid some_ticks room = spent (limit_of pid m) refl some_ticks
  where
    spent :
        (limit : ℕ)
        → limit_of pid m ≡ limit
        → 0 < limit
        → ((ticks limit (start_user_mode m pid) s).1 ≡ kill_process s pid)
          × ((ticks limit (start_user_mode m pid) s).0.user_mode_active ≡ false)
    spent zero e l = absurd (omega arith)
    spent (suc n) e l =
        let (inside, same) =
          ticks_early n (start_user_mode m pid) s pid m.current_tick (limit_of pid m) 0 n
            (start_user_mode-InUserMode m pid) (omega arith) (omega arith) room in
        let (ended, killed) =
          tick_last (ticks n (start_user_mode m pid) s).0 (ticks n (start_user_mode m pid) s).1 pid
            m.current_tick (limit_of pid m) n inside (omega arith) room in
        rw (ticks_snoc n (start_user_mode m pid) s)
          (killed ∙ ap (λ s'. kill_process s' pid) same, ended)

-- A process that starts user mode has exactly as many ticks as its limit: its own if it is registered
-- and 30 if not. After `n` ticks, fewer than the limit, user mode goes on, the scheduler is left alone,
-- the status of the process is normal with `n` as the elapsed time, and the warning has been sent exactly
-- if half the limit, and a tick at least, has elapsed. After as many ticks as the limit, the process has
-- been killed in the scheduler, once, and user mode has ended. The tick counter does not wrap around
-- meanwhile.
pub start_user_mode_spent :
    (m : TimeoutManager) (s : Scheduler) (pid n : ℕ)
    → n < limit_of pid m
    → m.current_tick + limit_of pid m < 2 ^ 64
    → ((ticks n (start_user_mode m pid) s).1 ≡ s)
      × ((ticks n (start_user_mode m pid) s).0.user_mode_active ≡ true)
      × (get_status (ticks n (start_user_mode m pid) s).0 pid ≡ some (normal, n, limit_of pid m))
      × (warned pid (ticks n (start_user_mode m pid) s).0
          ≡ (leb (limit_of pid m / 2) n && not (n == 0)))
      × ((ticks (limit_of pid m) (start_user_mode m pid) s).1 ≡ kill_process s pid)
      × ((ticks (limit_of pid m) (start_user_mode m pid) s).0.user_mode_active ≡ false)
start_user_mode_spent m s pid n early room =
    let (same, active, status, warned_then) = start_user_mode_early m s pid n early room in
    let (killed, ended) = limit_spent m s pid (omega arith) room in
    (same, active, status, warned_then, killed, ended)
