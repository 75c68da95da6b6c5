-- ===== src/Testing/Assertions.antt =====
-- testing.rs: the assertions of the tests, up to the return that ends a test. The text of an expression and
-- the derived `Debug` text of a value are arguments, and so is the result of a comparison.
use Prim.Native.String.{String, ◌++◌}
use ruix.Prelude.{◌≡◌, Bool, true, false, not, if◌then◌else◌, arith}
use ruix.Error.{Result, ok, err, is_ok}
use ruix.Testing.{TestResult, assertion_failed}

-- `assert_eq!`, with whether the two values are equal and their texts.
unfoldable assert_eq : Bool → String → String → TestResult
assert_eq equal left right =
    if not equal
    then err (assertion_failed ("assertion failed: " ++ left ++ " != " ++ right))
    else ok tt

-- `assert_eq!` with a message.
unfoldable assert_eq_message : Bool → String → String → String → TestResult
assert_eq_message equal left right msg =
    if not equal then err (assertion_failed (msg ++ ": " ++ left ++ " != " ++ right)) else ok tt

unfoldable assert_ne : Bool → String → String → TestResult
assert_ne equal left right =
    if equal
    then err (assertion_failed ("assertion failed: " ++ left ++ " == " ++ right))
    else ok tt

unfoldable assert_true : Bool → String → TestResult
assert_true b expr =
    if not b then err (assertion_failed ("assertion failed: " ++ expr ++ " is not true")) else ok tt

unfoldable assert_false : Bool → String → TestResult
assert_false b expr =
    if b then err (assertion_failed ("assertion failed: " ++ expr ++ " is not false")) else ok tt

module _ {E A : Type 0} where
  unfoldable assert_ok : (E → String) → Result E A → TestResult
  assert_ok debug (ok a) = ok tt
  assert_ok debug (err e) = err (assertion_failed ("expected Ok, got Err: " ++ debug e))

  unfoldable assert_err : (A → String) → Result E A → TestResult
  assert_err debug (ok v) = err (assertion_failed ("expected Err, got Ok: " ++ debug v))
  assert_err debug (err e) = ok tt

  -- A test goes on behind `assert_ok!` or `assert_err!` in complementary cases.
  assert_ok-assert_err :
      (show_err : E → String) (show_ok : A → String) (r : Result E A)
      → (is_ok (assert_ok show_err r) ≡ is_ok r) × (is_ok (assert_err show_ok r) ≡ not (is_ok r))
  unfolding assert_ok assert_err
  assert_ok-assert_err show_err show_ok (ok a) = ground arith
  assert_ok-assert_err show_err show_ok (err e) = ground arith

-- A test goes on behind `assert_eq!` exactly where it does not behind `assert_ne!`, and likewise for
-- `assert_true!` and `assert_false!`.
assert_eq-assert_ne :
    (b : Bool) (left right expr : String)
    → (is_ok (assert_eq b left right) ≡ b)
      × (is_ok (assert_ne b left right) ≡ not b)
      × (is_ok (assert_true b expr) ≡ b)
      × (is_ok (assert_false b expr) ≡ not b)
unfolding assert_eq assert_ne assert_true assert_false
assert_eq-assert_ne true left right expr = ground arith
assert_eq-assert_ne false left right expr = ground arith
