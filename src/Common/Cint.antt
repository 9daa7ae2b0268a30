-- ===== src/Common/Cint.antt =====
-- Arithmetic on C's 32-bit `int`, with the cases that C leaves undefined as faults.
use Prim.Native.Nat.{ℕ, zero, suc, ◌+◌, ◌-◌, ◌%◌, ◌^◌}
use mathlib.Core.Bool.{◌&&◌, not}
use chenghualearning.Common.Tests.{if◌then◌else◌}
use chenghualearning.Common.Outcome.{
  Run, ok, fault, division_by_zero, signed_overflow, ensure, ◌>>◌,
}
use chenghualearning.Common.Int.{ℤ, pos, negsuc, pos_part, neg_part, eq_ℤ, ◌+ℤ◌}

abbrev pub int_max : ℕ
int_max = 2 ^ 31 - 1

-- INT_MIN
abbrev pub int_min : ℤ
int_min = negsuc (2 ^ 31 - 1)

-- `-n`
abbrev pub negate : ℕ → ℤ
negate zero = pos 0
negate (suc n) = negsuc n

-- `a % b`: the remainder has the sign of `a`.
unfoldable pub c_rem : ℤ → ℤ → Run ℤ
c_rem a b =
    if eq_ℤ b (pos 0)
    then fault division_by_zero
    else if eq_ℤ a int_min && eq_ℤ b (negsuc 0)
    then fault signed_overflow
    else elim a [
      | pos n ↦ ok (pos (n % (pos_part b + neg_part b)))
      | negsuc n ↦ ok (negate (suc n % (pos_part b + neg_part b)))
    ]

-- `n++`
unfoldable pub int_inc : ℤ → Run ℤ
unfolding ◌+ℤ◌
int_inc n = ensure (not (eq_ℤ n (pos int_max))) signed_overflow >> ok (n +ℤ pos 1)

-- `n--`
unfoldable pub int_dec : ℤ → Run ℤ
unfolding ◌+ℤ◌
int_dec n = ensure (not (eq_ℤ n int_min)) signed_overflow >> ok (n +ℤ negsuc 0)

-- The conversion of an `int` to `size_t`.
unfoldable pub to_size_t : ℤ → ℕ
to_size_t n = (pos_part n + 2 ^ 64 - neg_part n) % 2 ^ 64
