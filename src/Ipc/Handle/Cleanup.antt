-- ===== src/Ipc/Handle/Cleanup.antt =====
-- ipc.rs: the loop that removes the handles of a process while it walks over them by index.
use ruix.Prelude.{
  ℕ, zero, suc, ◌+◌, ◌<◌, ◌≡◌, refl, not, none, some, [], ◌∷◌, ◌++◌, arith, length, retain,
  append_assoc, append-nil, ap, length-append,
}
use ruix.Ipc.Handle.{MemoryHandle, Registry, belongs_to, get_elem?, remove_at, cleanup_loop}

-- The index stands between what was kept and what is still to come.
get_elem?-append :
    (kept : Registry) (h : MemoryHandle) (rest : Registry)
    → get_elem? (kept ++ h ∷ rest) (length kept) ≡ some h
unfolding get_elem?
get_elem?-append [] h rest = refl
get_elem?-append (x ∷ xs) h rest = get_elem?-append xs h rest

get_elem?-end : (kept : Registry) → get_elem? kept (length kept) ≡ none
unfolding get_elem?
get_elem?-end [] = refl
get_elem?-end (x ∷ xs) = get_elem?-end xs

remove_at-append :
    (kept : Registry) (h : MemoryHandle) (rest : Registry)
    → remove_at (kept ++ h ∷ rest) (length kept) ≡ kept ++ rest
unfolding remove_at
remove_at-append [] h rest = refl
remove_at-append (x ∷ xs) h rest = ap (◌∷◌ x) (remove_at-append xs h rest)

loop_lem :
    (fuel pid : ℕ) (kept rest : Registry)
    → length rest < fuel
    → cleanup_loop fuel pid (length kept) (kept ++ rest)
      ≡ some (kept ++ retain (λ h. not (belongs_to pid h)) rest)
unfolding cleanup_loop
loop_lem zero pid kept rest h = elim h [ ]
loop_lem (suc fuel) pid kept [] h = rw append-nil (rw (get_elem?-end kept, cleanup_loop))
loop_lem (suc fuel) pid kept (x ∷ rest) h = ground (
  arith,
  get_elem?-append kept x rest,
  remove_at-append kept x rest,
  loop_lem fuel pid kept rest,
  loop_lem fuel pid (kept ++ x ∷ []) rest,
  length-append kept (x ∷ []),
  append_assoc kept (x ∷ []) rest,
  append_assoc kept (x ∷ []) (retain (λ h. not (belongs_to pid h)) rest),
)

-- One round for each handle, and one more to see the end, are enough: the loop ends, with exactly
-- the handles that the process neither owns nor holds, in their order.
pub cleanup_loop_lem :
    (pid : ℕ) (r : Registry)
    → cleanup_loop (length r + 1) pid 0 r ≡ some (retain (λ h. not (belongs_to pid h)) r)
cleanup_loop_lem pid r = loop_lem (length r + 1) pid [] r (omega arith)
