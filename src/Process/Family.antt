-- ===== src/Process/Family.antt =====
-- process/mod.rs: the children list of a process, and its exit.
use ruix.Prelude.{
  ℕ, ◌+◌, ◌-◌, ◌<◌, ◌≡◌, ◌⊎◌, refl, true, false, arith, ℤ, pos, negsuc, ◌≤ℤ◌, contains,
  remove_first-append, ==_refl, contains_snoc, lt→leb,
}
use ruix.Error.{ok, err, process, ProcessError}
use ruix.Process.{Process, zombie, exit, add_child, remove_child}

add-sub : (n : ℕ) → n + 1 - 1 ≡ n
add-sub n = omega arith

-- A child that was not in the list and is added within the limit can be removed again, and leaves
-- the process as it was.
remove_child-add_child :
    (p : Process) (pid : ℕ)
    → contains pid p.children ≡ false
    → p.stats.children_count < p.resource_limits.max_processes
    → let (result, q) = add_child p pid in (result ≡ ok tt) × (remove_child q pid ≡ (true, p))
unfolding add_child remove_child
remove_child-add_child p pid absent room = rw (lt→leb _ _ room) (
  refl,
  rw (
    contains_snoc pid p.children,
    remove_first-append _ p.children pid absent (==_refl pid),
    add-sub,
  ),
)

-- `exit` succeeds for the codes from -255 to 255, and then the process is a zombie with that code;
-- any other code is refused as an invalid state and leaves the process as it was.
pub exit_lem :
    (p : Process) (code : ℤ)
    → (negsuc 254 ≤ℤ code
        → code ≤ℤ pos 255
        → exit p code ≡ (ok tt, record p { state = zombie; exit_code = code }))
      × ((code ≤ℤ negsuc 255) ⊎ (pos 256 ≤ℤ code)
          → exit p code ≡ (err (process ProcessError.invalid_state), p))
unfolding exit
exit_lem p code = (λ l u. ground arith, λ h. ground arith)
