-- ===== src/Gdt.antt =====
-- gdt.rs: the checks on a jump to user mode, and the jump, on the machine of the interrupt handlers. The
-- selectors of the user segments are the crate's, as arguments. `none` is a panic.
pub mod Jump
pub mod Selectors
pub mod Setup
use mathlib.Core.Option
use ruix.Prelude.{
  ℕ, ◌+◌, ◌-◌, ◌*◌, ◌/◌, ◌%◌, ◌^◌, Bool, true, false, not, ◌&&◌, ◌||◌, Option, none, some, List, [],
  ltb, leb, if◌then◌else◌, ◌==◌, wrapping_sub,
}
use ruix.Process.Context.{write}
use ruix.Timer.{TimeoutManager, start_user_mode}
use ruix.Interrupts.{Machine, iretq, step}

unfoldable pub validate_user_mode_transition : ℕ → ℕ → Bool
validate_user_mode_transition code_addr stack_addr =
    if ltb code_addr 0x400000 || ltb 0x7FFFFFFF code_addr
    then false
    else if ltb stack_addr 0x600000 || ltb 0x7FFFFFFF stack_addr
    then false
    else if not (code_addr % 16 == 0) || not (stack_addr % 16 == 0)
    then false
    else if leb (stack_addr - 4096) code_addr && leb code_addr stack_addr
    then false
    else true

-- `rflags |= 1`, and `rflags &= !(2 ^ k)`.
abbrev set_lowest : ℕ → ℕ
set_lowest rflags = if rflags % 2 == 0 then rflags + 1 else rflags

abbrev clear_bit : ℕ → ℕ → ℕ
clear_bit k rflags = if rflags / 2 ^ k % 2 == 1 then rflags - 2 ^ k else rflags

abbrev pub setup_secure_rflags : ℕ
setup_secure_rflags =
    let rflags = set_lowest 0x202 in
    let flags = clear_bit 5 (clear_bit 4 (clear_bit 3 (clear_bit 2 rflags))) in
    clear_bit 13 (clear_bit 12 flags)

-- `selector | 3`
abbrev pub with_rpl3 : ℕ → ℕ
with_rpl3 selector = selector - selector % 4 + 3

abbrev push_value : ℕ → Machine → Machine
push_value v m = record m {
  rsp = wrapping_sub m.rsp 8;
  memory = write (wrapping_sub m.rsp 8) v m.memory;
}

-- The instructions at the end.
unfoldable pub enter_user_mode : ℕ → ℕ → ℕ → ℕ → ℕ → Machine → Machine
enter_user_mode stack_sel stack_ptr rflags code_sel instruction_ptr m =
    step (λ f n. n) iretq
      (push_value instruction_ptr
        (push_value code_sel (push_value rflags (push_value stack_ptr (push_value stack_sel m)))))

-- The timer and the machine after the jump. The time limit is started for the current process.
unfoldable pub jump_to_user_mode :
    ℕ → ℕ → ℕ → ℕ → ℕ → TimeoutManager → Machine → Option (TimeoutManager × Machine)
jump_to_user_mode user_code_selector user_data_selector current_pid code_addr stack_addr timer m =
    if not (validate_user_mode_transition code_addr stack_addr)
    then none
    else some (
      start_user_mode timer current_pid,
      enter_user_mode (with_rpl3 user_data_selector) stack_addr setup_secure_rflags
          (with_rpl3 user_code_selector) code_addr m,
    )
