-- ===== src/Syscall.antt =====
-- syscall.rs: the arguments that a system call reads from the kernel stack, and the checks on them.
-- Memory is a function from an address to a byte. `none` is a panic by arithmetic overflow.
pub mod Parse
pub mod Calls
pub mod Messages
pub mod Stores
pub mod Confinement
pub mod Entry
pub mod Waiting
pub mod Assembly
pub mod Returning
pub mod Failing
use ruix.Prelude.{
  ℕ, zero, suc, ◌+◌, ◌-◌, ◌*◌, ◌/◌, ◌%◌, ◌^◌, Bool, true, false, ◌&&◌, ◌||◌, not, Option, none,
  some, List, [], ◌∷◌, ltb, leb, ◌==◌, if◌then◌else◌, contains, checked_add, ℤ, pos, negsuc, ◌+ℤ◌,
  ltb_ℤ, as_signed, as_unsigned,
}
use ruix.Error.{Result, ok, err}

pub data SyscallError : Type 0 where
  invalid_stack_pointer : SyscallError
  invalid_syscall_number invalid_pointer access_violation : ℕ → SyscallError
  bounds_exceeded : SyscallError

pub record SyscallArgs : Type 0 where
  pub syscall_number : ℕ
  pub arg1 : ℕ
  pub arg2 : ℕ
  pub arg3 : ℕ
  pub arg4 : ℕ
  pub arg5 : ℕ
  pub arg6 : ℕ

abbrev pub Memory : Type 0
Memory = ℕ → ℕ

-- The `n` bytes from an address, as a number with the lowest byte first.
unfoldable load : ℕ → Memory → ℕ → ℕ
load zero mem addr = 0
load (suc n) mem addr = mem addr + 256 * load n mem (addr + 1)

unfoldable pub validate_stack_pointer : ℕ → Bool
validate_stack_pointer stack_ptr =
    if ltb stack_ptr 0xFFFF800000000000 || ltb 0xFFFFFFFFFFFFFFFF stack_ptr
    then false
    else stack_ptr % 16 == 0

unfoldable validate_syscall_number : ℕ → Bool
validate_syscall_number n = contains n (0 ∷ 1 ∷ 2 ∷ 3 ∷ 4 ∷ 5 ∷ 6 ∷ 7 ∷ 24 ∷ 39 ∷ 57 ∷ 61 ∷ [])

-- A sum on isize: none on overflow.
abbrev checked_add_isize : ℤ → ℤ → Option ℤ
checked_add_isize a b =
    let sum = a +ℤ b in
    if ltb_ℤ sum (negsuc (2 ^ 63 - 1)) || ltb_ℤ (pos (2 ^ 63 - 1)) sum then none else some sum

-- The bytes of that many words: `offset * 8`, whose overflow no call in the source comes near.
abbrev words : ℤ → ℤ
words (pos n) = pos (n * 8)
words (negsuc n) = negsuc (n * 8 + 7)

-- The address is `offset` words above the stack pointer. An address that is accepted is not
-- negative, so it is the one that the pointer read stands at.
unfoldable pub safe_read_register : Memory → ℕ → ℤ → Option (Result SyscallError ℕ)
unfolding load
safe_read_register mem stack_ptr offset =
    elim (checked_add_isize (as_signed 64 stack_ptr) (words offset)) [
      | none ↦ none
      | some addr ↦
          if ltb_ℤ addr (pos 0) || ltb_ℤ (pos 0x7FFFFFFFFFFFFFFF) addr
          then some (err (invalid_pointer (as_unsigned 64 addr)))
          else let value = load 8 mem (as_unsigned 64 addr) in
            if value == 0xDEADBEEFDEADBEEF
            then some (err (access_violation value))
            else some (ok value)
    ]

-- A call whose error is passed on with `?`.
abbrev pub and_then :
    {A B : Type 0}
    → Option (Result SyscallError A)
    → (A → Option (Result SyscallError B))
    → Option (Result SyscallError B)
and_then none f = none
and_then (some (err e)) f = some (err e)
and_then (some (ok a)) f = f a

unfoldable pub safe_parse : Memory → ℕ → Option (Result SyscallError SyscallArgs)
unfolding validate_stack_pointer safe_read_register validate_syscall_number
safe_parse mem stack_ptr =
    if not (validate_stack_pointer stack_ptr)
    then some (err invalid_stack_pointer)
    else and_then (safe_read_register mem stack_ptr (negsuc 0)) (λ number.
      and_then (safe_read_register mem stack_ptr (pos 2)) (λ arg1.
        and_then (safe_read_register mem stack_ptr (pos 4)) (λ arg2.
          and_then (safe_read_register mem stack_ptr (pos 5)) (λ arg3.
            and_then (safe_read_register mem stack_ptr (pos 6)) (λ arg4.
              and_then (safe_read_register mem stack_ptr (pos 7)) (λ arg5.
                and_then (safe_read_register mem stack_ptr (pos 8)) (λ arg6.
                  if not (validate_syscall_number number)
                  then some (err (invalid_syscall_number number))
                  else some (
                      ok (record {
                        syscall_number = number;
                        arg1 = arg1;
                        arg2 = arg2;
                        arg3 = arg3;
                        arg4 = arg4;
                        arg5 = arg5;
                        arg6 = arg6;
                      })))))))))

unfoldable pub validate_user_pointer : ℕ → ℕ → Result SyscallError (Unit {0})
validate_user_pointer ptr size =
    if ptr == 0
    then err (invalid_pointer 0)
    else if ltb ptr 0x400000 || ltb 0x7FFFFFFF ptr
    then err (invalid_pointer ptr)
    else if ltb 0x1000 size
    then err bounds_exceeded
    else elim (checked_add ptr size) [
      | none ↦ err bounds_exceeded
      | some end_addr ↦ if ltb 0x7FFFFFFF end_addr then err bounds_exceeded else ok tt
    ]
