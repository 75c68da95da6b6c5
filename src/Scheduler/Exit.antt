-- ===== src/Scheduler/Exit.antt =====
-- process/scheduler.rs: what the exit of a process does to the states of all processes.
pub mod Lookup
use mathlib.Core.Option
use ruix.Prelude.{
  ℕ, ◌≡◌, ◌≢◌, refl, ◌∙◌, Bool, true, false, not, ◌&&◌, Option, none, some, List, [], ◌∷◌, arith,
  ◌==◌, if◌then◌else◌, ap, find?, update_first, any, ℤ, pos, negsuc, ◌≤ℤ◌, Bool-cases, inl, inr,
  ◌⊎◌,
}
use ruix.Error.{KernelResult, ok, err, process, ProcessError}
use ruix.Process.{Process, ProcessState, zombie, exit, make_orphan, remove_child}
use ruix.Process.Family.{exit_lem}
use ruix.Scheduler.{
  Scheduler, has_id, try_first, exit_and_parent, orphan_child, orphan_children, wake_waiting,
  detach, wake_parent, after_exit, handle_process_exit,
}
use ruix.Scheduler.Tree.{children_of}
use Lookup.{
  woken_by, wake_waiting-woken_by, state_in, parent_in, state_in-update_first, state_in-keep,
}

pub exit_and_parent_ok :
    (p : Process) (code : ℤ)
    → negsuc 254 ≤ℤ code
    → code ≤ℤ pos 255
    → exit_and_parent code p ≡ (ok p.parent_id, record p { state = zombie; exit_code = code })
unfolding exit_and_parent exit
exit_and_parent_ok p code l u = ground arith

module _ (pid : ℕ) (code : ℤ) (lower : negsuc 254 ≤ℤ code) (upper : code ≤ℤ pos 255) where
  unfoldable pub first_loop : List Process → KernelResult ℕ × List Process
  unfolding try_first
  first_loop = try_first (exit_and_parent code) 0 pid

  pub first_loop_result : (ps : List Process) → (first_loop ps).0 ≡ ok (parent_in pid ps)
  unfolding first_loop try_first
  first_loop_result [] = refl
  first_loop_result (p ∷ ps) =
      ground (arith, exit_and_parent_ok p code lower upper, first_loop_result ps)

  first_loop_state :
      (q : ℕ) (ps : List Process)
      → state_in q (first_loop ps).1
        ≡ (if pid == q then Option.map (λ _. zombie) (state_in q ps) else state_in q ps)
  unfolding first_loop try_first
  first_loop_state q [] = ground arith
  first_loop_state q (p ∷ ps) =
      ground (arith, exit_and_parent_ok p code lower upper, first_loop_state q ps)

orphan_children-state :
    (q : ℕ) (s : Scheduler) (cs : List ℕ)
    → state_in q (orphan_children s cs).processes ≡ state_in q s.processes
unfolding orphan_children
orphan_children-state q s [] = refl
orphan_children-state q s (c ∷ cs) = orphan_children-state q (orphan_child s c) cs ∙ once
  where
    once : state_in q (orphan_child s c).processes ≡ state_in q s.processes
    once =
        unfold orphan_child make_orphan in
        state_in-keep make_orphan (λ p. refl) q c s.processes (λ p. refl)

detach-state :
    (q : ℕ) (s : Scheduler) (parent pid : ℕ)
    → state_in q (detach s parent pid).processes ≡ state_in q s.processes
unfolding detach
detach-state q s parent pid =
    ground (arith, state_in-keep (λ p. (remove_child p pid).1) same q parent s.processes kept)
  where
    same : (p : Process) → (remove_child p pid).1.id ≡ p.id
    same p = unfold remove_child in ground arith

    kept : (p : Process) → (remove_child p pid).1.state ≡ p.state
    kept p = unfold remove_child in ground arith

wake_parent-state :
    (q : ℕ) (s : Scheduler) (parent pid : ℕ)
    → state_in q (wake_parent s parent pid).processes ≡ (
        if not (parent == 0) && parent == q
        then Option.map (wake_waiting pid) (state_in q s.processes)
        else state_in q s.processes)
unfolding wake_parent
wake_parent-state q s parent pid = ground (
  arith,
  state_in-update_first (λ p. record p { state = wake_waiting pid p.state }) (λ p. refl)
      (wake_waiting pid) q parent s.processes (λ p. refl),
)

after_exit-state :
    (q : ℕ) (s : Scheduler) (parent pid : ℕ)
    → state_in q (after_exit s parent pid).processes ≡ (
        if not (parent == 0) && parent == q
        then Option.map (wake_waiting pid) (state_in q s.processes)
        else state_in q s.processes)
unfolding after_exit
after_exit-state q s parent pid =
    let detached = detach s parent pid in
    let cs = children_of pid detached.process_tree in
    wake_parent-state q (orphan_children detached cs) parent pid
    ∙ ap (λ st. if not (parent == 0) && parent == q then Option.map (wake_waiting pid) st else st)
        (orphan_children-state q detached cs ∙ detach-state q s parent pid)

abbrev state_with : (ProcessState → ProcessState) → ℕ → ℕ → ℕ → ProcessState → ProcessState
state_with wake pid parent q state =
    if pid == q then zombie else if not (parent == 0) && parent == q then wake state else state

-- The state of process `q` once `pid`, a child of `parent`, has exited.
abbrev pub state_after : ℕ → ℕ → ℕ → ProcessState → ProcessState
state_after pid parent q state =
    if pid == q
    then zombie
    else if not (parent == 0) && parent == q
    then woken_by pid state
    else state

-- An exit with a code from -255 to 255 succeeds, whoever is in the queue. The process that exits
-- becomes a zombie, its parent (if it has one other than process 0) becomes ready if it was waiting
-- for this child or for any child, and every other process keeps its state.
pub handle_process_exit-state :
    (s : Scheduler) (pid : ℕ) (code : ℤ)
    → negsuc 254 ≤ℤ code
    → code ≤ℤ pos 255
    → let (result, s') = handle_process_exit s pid code in
      (result ≡ ok tt)
      × ((q : ℕ)
          → state_in q s'.processes
            ≡ Option.map (state_after pid (parent_in pid s.processes) q) (state_in q s.processes))
unfolding handle_process_exit first_loop
handle_process_exit-state s pid code lower upper =
    rw (first_loop_result pid code lower upper s.processes, handle_process_exit) (refl, states)
  where
    ended : Scheduler
    ended = record s { processes = (first_loop pid code lower upper s.processes).1 }

    with_wake :
        (q : ℕ)
        → state_in q (after_exit ended (parent_in pid s.processes) pid).processes
          ≡ Option.map
              (state_with (wake_waiting pid) pid (parent_in pid s.processes) q)
              (state_in q s.processes)
    with_wake q =
        unfold wake_waiting in
        ground (
          arith,
          after_exit-state q ended (parent_in pid s.processes) pid,
          first_loop_state pid code lower upper q s.processes,
        )

    states :
        (q : ℕ)
        → state_in q (after_exit ended (parent_in pid s.processes) pid).processes
          ≡ Option.map (state_after pid (parent_in pid s.processes) q) (state_in q s.processes)
    states q =
        with_wake q
        ∙ ap
            (λ wake.
              Option.map (state_with wake pid (parent_in pid s.processes) q)
                (state_in q s.processes))
            (wake_waiting-woken_by pid)

refused :
    (p : Process) (code : ℤ)
    → (code ≤ℤ negsuc 255) ⊎ (pos 256 ≤ℤ code)
    → exit_and_parent code p ≡ (err (process ProcessError.invalid_state), p)
unfolding exit_and_parent exit
refused p code h = ground arith

first_loop_refused :
    (pid : ℕ) (code : ℤ) (ps : List Process)
    → (code ≤ℤ negsuc 255) ⊎ (pos 256 ≤ℤ code)
    → any (has_id pid) ps ≡ true
    → try_first (exit_and_parent code) 0 pid ps ≡ (err (process ProcessError.invalid_state), ps)
unfolding try_first
first_loop_refused pid code [] h found = ground arith
first_loop_refused pid code (p ∷ ps) h found =
    ground (arith, refused p code h, first_loop_refused pid code ps h)

-- An exit of a process in the queue with any other code is refused, and changes nothing.
handle_process_exit_refused :
    (s : Scheduler) (pid : ℕ) (code : ℤ)
    → (code ≤ℤ negsuc 255) ⊎ (pos 256 ≤ℤ code)
    → any (has_id pid) s.processes ≡ true
    → handle_process_exit s pid code ≡ (err (process ProcessError.invalid_state), s)
unfolding handle_process_exit
handle_process_exit_refused s pid code h found =
    let e = first_loop_refused pid code s.processes h found in rw (e, handle_process_exit) (rw e)
