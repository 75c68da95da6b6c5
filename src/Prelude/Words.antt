-- ===== src/Prelude/Words.antt =====
-- Machine words are natural numbers below a power of two. Arithmetic that the source leaves
-- unchecked panics on overflow in the build that the repository's manual gives; `none` is the panic.
use Prim.Native.Nat.{ℕ, ◌+◌, ◌-◌, ◌^◌, ◌%◌}
use mathlib.Core.Option.{Option, none, some}
use ruix.Prelude.Tests.{ltb, if◌then◌else◌}

abbrev pub u64_mod : ℕ
u64_mod = 2 ^ 64

abbrev pub u32_mod : ℕ
u32_mod = 2 ^ 32

abbrev pub u64_max : ℕ
u64_max = 2 ^ 64 - 1

-- `a + b` on u64 or usize, also as `checked_add`: none on overflow.
abbrev pub checked_add : ℕ → ℕ → Option ℕ
checked_add a b = if ltb (a + b) u64_mod then some (a + b) else none

-- `a + b` on u32.
abbrev checked_add32 : ℕ → ℕ → Option ℕ
checked_add32 a b = if ltb (a + b) u32_mod then some (a + b) else none

-- `wrapping_add` on u64, and `fetch_add` on an AtomicU64.
abbrev pub wrapping_add : ℕ → ℕ → ℕ
wrapping_add a b = (a + b) % u64_mod

-- `wrapping_sub` on u64 for `b` at most 2 ^ 64, and `fetch_sub` on an AtomicU64 or AtomicUsize.
abbrev pub wrapping_sub : ℕ → ℕ → ℕ
wrapping_sub a b = (a + (u64_mod - b)) % u64_mod
