-- ===== src/Scheduler/Totals.antt =====
-- process/scheduler.rs: the totals over the processes, and the limits on them.
use ruix.Prelude.{
  ℕ, ◌+◌, ◌*◌, ◌≤◌, ◌<◌, ◌≡◌, ◌↔◌, ap, ◌∙◌, true, Option, none, some, List, [], ◌∷◌, length, ltb,
  if◌then◌else◌, arith, inl, inr, Bool-cases, u64_mod, ltb→lt,
}
use ruix.Process.{Process, is_zombie}
use ruix.Scheduler.Cleanup.{living}
use ruix.Scheduler.{Scheduler, add_stats, get_memory_stats, check_system_limits}

-- The memory that processes use.
abbrev pub used : List Process → ℕ
used [] = 0
used (p ∷ ps) = p.stats.memory_used + used ps

-- The totals, unless the sum overflows.
abbrev pub totals : ℕ → ℕ → Option (ℕ × ℕ)
totals memory count = if ltb memory u64_mod then some (memory, count) else none

add_stats_lem :
    (memory count : ℕ) (ps : List Process)
    → memory < u64_mod
    → add_stats memory count ps ≡ totals (memory + used (living ps)) (count + length (living ps))
unfolding add_stats
add_stats_lem memory count [] h = ground arith
add_stats_lem memory count (p ∷ ps) h =
    let u = p.stats.memory_used in
    elim (Bool-cases (is_zombie p.state)) [
      | inl e ↦ rw (e, add_stats) (add_stats_lem memory count ps h)
      | inr e ↦ elim (Bool-cases (ltb (memory + u) u64_mod)) [
        | inl fits ↦
            rw (e, add_stats, fits)
              (add_stats_lem (memory + u) (count + 1) ps (ltb→lt (memory + u) u64_mod fits)
                ∙ ap (λ m. totals m (count + 1 + length (living ps))) (omega arith)
                ∙ ap (totals (memory + (u + used (living ps)))) (omega arith))
        | inr over ↦ rw (e, add_stats, over) (ground (arith, over))
      ]
    ]

-- The totals are the number of the processes that are no zombies and the memory that they use; if that
-- memory does not fit into 64 bits, `get_memory_stats` panics. The limits are kept exactly if there are
-- at most 1000 such processes that use at most 1 GiB.
pub get_memory_stats_lem :
    (s : Scheduler)
    → (get_memory_stats s ≡ totals (used (living s.processes)) (length (living s.processes)))
      × ((check_system_limits s ≡ some true) ↔ (
          (length (living s.processes) ≤ 1000) × (used (living s.processes) ≤ 1024 * 1024 * 1024)))
unfolding get_memory_stats check_system_limits
get_memory_stats_lem s =
    let e : get_memory_stats s ≡ totals (used (living s.processes)) (length (living s.processes)) =
      add_stats_lem 0 0 s.processes (omega arith)
      ∙ ap (λ m. totals m (0 + length (living s.processes))) (omega arith)
      ∙ ap (totals (used (living s.processes))) (omega arith) in
    (e, rw e (ground arith))
