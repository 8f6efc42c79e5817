-- ===== src/Common/Word.antt =====
-- `int` and `size_t` as 32-bit patterns: an `int` keeps its two's complement pattern, so that
-- equality of patterns is equality of the integers and a conversion to `size_t` is the identity.
use Prim.Native.Nat.{ℕ, ◌+◌, ◌-◌, ◌%◌, ◌^◌, ◌<◌}
use mathlib.Core.Path.{◌≡◌}
use mathlib.Core.Bool.{Bool}
use native.Mathlib.Omega.{arith}
use socketapp.Common.Tests.{leb}

-- The number of 32-bit patterns.
abbrev pub word : ℕ
word = 2 ^ 32

-- The pattern of the negative `int` -n, for 0 < n < 2 ^ 31.
abbrev pub neg : ℕ → ℕ
neg n = word - n

-- `<=` of two `int`: below 2 ^ 31 a pattern stands for itself, and from there on for a negative number.
abbrev pub sle : ℕ → ℕ → Bool
sle a b = leb ((a + 2 ^ 31) % word) ((b + 2 ^ 31) % word)

pub sle-of_small : (a b : ℕ) → a < 2 ^ 31 → b < 2 ^ 31 → sle a b ≡ leb a b
sle-of_small a b small small' =
    let first : (a + 2 ^ 31) % word ≡ a + 2 ^ 31 = omega arith in
    let second : (b + 2 ^ 31) % word ≡ b + 2 ^ 31 = omega arith in rw (first, second) (ground arith)
