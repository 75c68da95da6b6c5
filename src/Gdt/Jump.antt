-- ===== src/Gdt/Jump.antt =====
-- gdt.rs: which jumps to user mode are refused, and where the others lead.
use ruix.Prelude.{
  ℕ, ◌+◌, ◌%◌, ◌≡◌, refl, ◌⊎◌, inl, inr, ◌↔◌, ◌*◌, ◌/◌, true, none, some, arith, ◌<◌, ◌≤◌, u64_mod,
  Bool-cases,
}
use ruix.Timer.{TimeoutManager, start_user_mode}
use ruix.Interrupts.{Machine, step}
use ruix.Gdt.{
  validate_user_mode_transition, setup_secure_rflags, with_rpl3, enter_user_mode, jump_to_user_mode,
}

-- Code and stack lie in the ranges for user memory, both are multiples of 16, and the code does not start
-- in the 4096 bytes below the top of the stack, or at the top.
abbrev pub InUserRange : ℕ → ℕ → Type 0
InUserRange code_addr stack_addr =
    (0x400000 ≤ code_addr)
    × (code_addr ≤ 0x7FFFFFFF)
    × (0x600000 ≤ stack_addr)
    × (stack_addr ≤ 0x7FFFFFFF)
    × (code_addr % 16 ≡ 0)
    × (stack_addr % 16 ≡ 0)
    × ((code_addr + 4096 < stack_addr) ⊎ (stack_addr < code_addr))

-- The jumps to user mode that are allowed.
validate_user_mode_transition_lem :
    (code_addr stack_addr : ℕ)
    → (validate_user_mode_transition code_addr stack_addr ≡ true) ↔ InUserRange code_addr stack_addr
unfolding validate_user_mode_transition
validate_user_mode_transition_lem code_addr stack_addr = ground arith

-- The five words that the jump pushes are those that `iretq` loads.
enter_user_mode_lem :
    (stack_sel stack_ptr rflags code_sel instruction_ptr : ℕ) (m : Machine)
    → 40 ≤ m.rsp
    → m.rsp < u64_mod
    → let v = enter_user_mode stack_sel stack_ptr rflags code_sel instruction_ptr m in
      (v.rip ≡ instruction_ptr)
      × (v.cs ≡ code_sel)
      × (v.rflags ≡ rflags)
      × (v.rsp ≡ stack_ptr)
      × (v.ss ≡ stack_sel)
unfolding enter_user_mode step
enter_user_mode_lem stack_sel stack_ptr rflags code_sel instruction_ptr m h b = ground arith

-- A jump to user mode panics unless the code address lies from 0x400000 and the stack address from
-- 0x600000 on, both up to 0x7FFFFFFF and multiples of 16, and the code does not start in the 4096 bytes
-- below the stack address or at it. Otherwise it starts the time limit of the current process and goes on
-- at the code address, on the given stack, in the segment of the code selector and with the stack in that
-- of the data selector, both with their lowest two bits set to privilege level 3, and with the flags 0x203:
-- interrupts are on, the privilege level for device access is 0, and the carry flag is set. The kernel's
-- stack has room for five words.
pub jump_to_user_mode_lem :
    (user_code_selector user_data_selector current_pid code_addr stack_addr : ℕ)
    (timer : TimeoutManager) (m : Machine)
    → 40 ≤ m.rsp
    → m.rsp < u64_mod
    → let jumped =
        jump_to_user_mode user_code_selector user_data_selector current_pid code_addr stack_addr
          timer m in
      ((¬ InUserRange code_addr stack_addr) × (jumped ≡ none))
      ⊎ (InUserRange code_addr stack_addr
          × ((v : Machine) × (jumped ≡ some (start_user_mode timer current_pid, v))
              × (v.rip ≡ code_addr)
              × (v.rsp ≡ stack_addr)
              × (v.cs ≡ user_code_selector / 4 * 4 + 3)
              × (v.ss ≡ user_data_selector / 4 * 4 + 3)
              × (v.rflags ≡ 0x203)))
unfolding jump_to_user_mode
jump_to_user_mode_lem user_code_selector user_data_selector current_pid code_addr stack_addr timer m
      h b =
    elim (Bool-cases (validate_user_mode_transition code_addr stack_addr)) [
      | inr e ↦ inl (
        λ allowed.
            absurd
              (ground (arith, (validate_user_mode_transition_lem code_addr stack_addr).1 allowed)),
        rw (e, jump_to_user_mode) refl,
      )
      | inl e ↦
          let (rip, cs, rflags, rsp, ss) =
            enter_user_mode_lem (with_rpl3 user_data_selector) stack_addr setup_secure_rflags
              (with_rpl3 user_code_selector) code_addr m h b in
          let v =
            enter_user_mode (with_rpl3 user_data_selector) stack_addr setup_secure_rflags
              (with_rpl3 user_code_selector) code_addr m in
          inr (
            (validate_user_mode_transition_lem code_addr stack_addr).0 e,
            (
              v,
              rw (e, jump_to_user_mode) refl,
              rip,
              rsp,
              omega (arith, cs),
              omega (arith, ss),
              rflags,
            ),
          )
    ]
