-- ===== src/Cpu/Nesting.antt =====
-- cpu.rs: the depth of nested interrupts.
use ruix.Prelude.{◌+◌, ◌≡◌, refl, ap, ◌∙◌, true, arith, ◌<◌, lt→ltb, u64_mod, wrapping_add}
use ruix.Cpu.{CpuData, enter_interrupt, exit_interrupt, in_interrupt}

-- Interrupts that each return before the one they interrupted: one with those inside it, and those after.
pub data Nesting : Type 0 where
  quiet : Nesting
  interrupted : Nesting → Nesting → Nesting

unfoldable pub run : Nesting → CpuData → CpuData
run quiet c = c
run (interrupted inner later) c = run later (exit_interrupt (run inner (enter_interrupt c)))

exit_interrupt-enter_interrupt :
    (c : CpuData) → c.interrupt_depth < u64_mod → exit_interrupt (enter_interrupt c) ≡ c
unfolding exit_interrupt enter_interrupt
exit_interrupt-enter_interrupt c h = ap (λ d. record c { interrupt_depth = d }) (omega (arith, h))

entered : (c : CpuData) → (enter_interrupt c).interrupt_depth < u64_mod
unfolding enter_interrupt
entered c = omega arith

restores : (n : Nesting) (c : CpuData) → c.interrupt_depth < u64_mod → run n c ≡ c
unfolding run
restores quiet c h = refl
restores (interrupted inner later) c h =
    ap (λ d. run later (exit_interrupt d)) (restores inner (enter_interrupt c) (entered c))
    ∙ ap (run later) (exit_interrupt-enter_interrupt c h)
    ∙ restores later c h

inside : (c : CpuData) → c.interrupt_depth + 1 < u64_mod → in_interrupt (enter_interrupt c) ≡ true
unfolding in_interrupt enter_interrupt
inside c h = lt→ltb 0 (wrapping_add c.interrupt_depth 1) (omega (arith, h))

-- However interrupts are nested, when all have returned the CPU's data are as before; and while one is
-- served, the CPU is in an interrupt, whatever interrupts it has served in between. The depth is below
-- 2 ^ 64 - 1.
pub run_lem :
    (inner later : Nesting) (c : CpuData)
    → c.interrupt_depth + 1 < u64_mod
    → (run (interrupted inner later) c ≡ c) × (in_interrupt (run inner (enter_interrupt c)) ≡ true)
unfolding run
run_lem inner later c h = (
  restores (interrupted inner later) c (omega (arith, h)),
  ap in_interrupt (restores inner (enter_interrupt c) (entered c)) ∙ inside c h,
)
