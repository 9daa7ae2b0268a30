-- ===== src/Cond.antt =====
-- clib/cond.h: a condition variable with a counter, so that a wakeup before the wait is not lost.
-- What holds `mtx_` is one step here. The counter is an int64_t that starts at 0 and is only
-- decremented above 0, so it is a natural number, with the overflow of `cnt++` as a fault.
use chenghualearning.Common.{
  ℕ, ◌+◌, ◌-◌, ◌^◌, Option, none, some, ◌==◌, if◌then◌else◌, ltb, Run, ok, fault, signed_overflow,
}
use chenghualearning.Common.Int.{ℤ, pos, negsuc}

pub record Cond : Type 0 where
  pub cnt : ℕ

unfoldable pub cond_init : Option Cond → ℤ × Option Cond
cond_init none = (negsuc 0, none)
cond_init (some c) = (pos 0, some (record { cnt = 0 }))

-- `cnt++`; the signal itself is the caller's, who knows the sleeping thread.
unfoldable pub cond_wakeup : Cond → Run Cond
cond_wakeup c =
    if ltb (c.cnt + 1) (2 ^ 63) then ok (record { cnt = c.cnt + 1 }) else fault signed_overflow

-- One test of the loop of `cond_wait`: none where the thread goes to sleep.
unfoldable pub cond_wait : Cond → Option Cond
cond_wait c = if c.cnt == 0 then none else some (record { cnt = c.cnt - 1 })
