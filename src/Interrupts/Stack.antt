-- ===== src/Interrupts/Stack.antt =====
-- interrupts.rs: what a run of pushes leaves in memory, and what a run of pops loads.
use ruix.Prelude.{
  ℕ, ◌+◌, ◌-◌, ◌*◌, ◌≡◌, refl, List, [], ◌∷◌, ◌++◌, map, arith, length, ◌<◌, ◌≤◌, u64_mod,
}
use ruix.Process.Context.{Words, store_words}
use ruix.Interrupts.{Reg, Machine, Instr, push, pop, Calls, run, step, set}

-- The words of the registers, the last one first, before those that stood there.
unfoldable pub pushed : List Reg → (Reg → ℕ) → List ℕ → List ℕ
pushed [] regs ws = ws
pushed (r ∷ rs) regs ws = pushed rs regs (regs r ∷ ws)

unfoldable pub popped : List Reg → ℕ → Words → (Reg → ℕ) → Reg → ℕ
popped [] p mem regs = regs
popped (r ∷ rs) p mem regs = popped rs (p + 8) mem (set r (mem p) regs)

abbrev stacked : Machine → ℕ → Words → Machine
stacked m p mem = record m { rsp = p; memory = mem }

pub run-append :
    (calls : Calls) (is js : List Instr) (m : Machine)
    → run calls (is ++ js) m ≡ run calls js (run calls is m)
unfolding run
run-append calls [] js m = refl
run-append calls (i ∷ is) js m = run-append calls is js (step calls i m)

pub run-push :
    (calls : Calls) (rs : List Reg) (m : Machine) (ws : List ℕ) (mem : Words) (p : ℕ)
    → 8 * length rs ≤ p
    → p < u64_mod
    → run calls (map push rs) (stacked m p (store_words ws p mem))
      ≡ stacked m (p - 8 * length rs) (store_words (pushed rs m.regs ws) (p - 8 * length rs) mem)
unfolding run step pushed store_words
run-push calls [] m ws mem p h b = ground arith
run-push calls (r ∷ rs) m ws mem p h b =
    ground (arith, run-push calls rs m (m.regs r ∷ ws) mem (p - 8))

pub run-pop :
    (calls : Calls) (rs : List Reg) (m : Machine) (p : ℕ)
    → p + 8 * length rs < u64_mod
    → run calls (map pop rs) (stacked m p m.memory)
      ≡ record m { regs = popped rs p m.memory m.regs; rsp = p + 8 * length rs }
unfolding run step popped
run-pop calls [] m p b = ground arith
run-pop calls (r ∷ rs) m p b =
    ground (arith, run-pop calls rs (record m { regs = set r (m.memory p) m.regs }) (p + 8))
