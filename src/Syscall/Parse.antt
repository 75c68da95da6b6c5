-- ===== src/Syscall/Parse.antt =====
-- syscall.rs: what the checks on a stack pointer and on a user pointer accept.
use ruix.Prelude.{
  ℕ, ◌+◌, ◌-◌, ◌^◌, ◌<◌, ◌≤◌, ◌≡◌, refl, true, some, arith, if◌then◌else◌, Bool-cases, inl, inr,
  ◌↔◌, negsuc,
}
use ruix.Error.{ok, err}
use ruix.Syscall.{
  Memory, invalid_stack_pointer, invalid_pointer, validate_stack_pointer, safe_read_register,
  safe_parse, validate_user_pointer,
}

read_number :
    (mem : Memory) (stack_ptr : ℕ)
    → stack_ptr < 2 ^ 64
    → validate_stack_pointer stack_ptr ≡ true
    → safe_read_register mem stack_ptr (negsuc 0) ≡ some (err (invalid_pointer (stack_ptr - 8)))
unfolding safe_read_register validate_stack_pointer
read_number mem stack_ptr word v = ground arith

-- No 64-bit stack pointer lets the arguments of a system call be read, whatever the memory holds: one
-- outside the kernel's half or not on a 16-byte boundary is refused as a stack pointer, and with any
-- other the word below it is refused as a negative address.
pub safe_parse_fails :
    (mem : Memory) (stack_ptr : ℕ)
    → stack_ptr < 2 ^ 64
    → safe_parse mem stack_ptr
      ≡ some (
          err (
            if validate_stack_pointer stack_ptr
            then invalid_pointer (stack_ptr - 8)
            else invalid_stack_pointer))
unfolding safe_parse
safe_parse_fails mem stack_ptr word = elim (Bool-cases (validate_stack_pointer stack_ptr)) [
  | inl v ↦ rw (v, read_number mem stack_ptr word v) refl
  | inr v ↦ rw v refl
]

-- A pointer and a size are accepted exactly if the buffer has at most 4096 bytes, starts at 0x400000
-- or above and ends at 0x7FFFFFFF at the latest.
pub validate_user_pointer_lem :
    (ptr size : ℕ)
    → (validate_user_pointer ptr size ≡ ok tt)
      ↔ ((0x400000 ≤ ptr) × (size ≤ 0x1000) × (ptr + size ≤ 0x7FFFFFFF))
unfolding validate_user_pointer
validate_user_pointer_lem ptr size = (λ e. ground arith, λ (low, small, fits). ground arith)
