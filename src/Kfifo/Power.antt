-- ===== src/Kfifo/Power.antt =====
-- `nextPowerOfTwo` of clib/kfifo.c rounds up to a power of two.
use native.Mathlib.Nat.{two-pow-succ, pow-le-pow_right, div-le_self}
use chenghualearning.Common.{
  ℕ, suc, ◌+◌, ◌-◌, ◌*◌, ◌/◌, ◌^◌, ◌≤◌, ◌<◌, ◌≡◌, arith, ltb, if◌then◌else◌, lt→ltb, ok, dec_lt,
}
use chenghualearning.Common.Bits.{bit, bit-le, bit-or, bit-div, or-lt, eq_ones, top_bit, has_top}
use chenghualearning.Kfifo.{shift_right, smear, next_power_of_two, u32_sub}

-- `a` has `k` digits, at most, and its `c` highest ones are all 1.
record Top (k c a : ℕ) : Type 0 where
  below : a < 2 ^ k
  ones : (i : ℕ) → i < k → k ≤ i + c → bit a i ≡ 1

-- A shift by at most as many digits as are known to be 1 doubles the run of ones, or more.
smear-Top : (k c s a : ℕ) → k ≤ 31 → s ≤ c → Top k c a → Top k (c + s) (smear s a)
unfolding smear shift_right
smear-Top k c s a small le t =
    let bound = pow-le-pow_right {n = 2} (omega arith) small in
    let positive : (if ltb a (2 ^ 31) then a / 2 ^ s else a / 2 ^ s + (2 ^ 32 - 2 ^ (32 - s)))
        ≡ a / 2 ^ s =
      rw (lt→ltb a (2 ^ 31) (omega (arith, t.below))) in
    rw positive (record {
      below = or-lt k a (a / 2 ^ s) t.below (omega (arith, t.below, div-le_self a (2 ^ s)));
      ones = λ i lt top.
          rw (bit-or, bit-div)
            (elim (dec_lt (s + i) k) [
              | yes p ↦ omega (arith, t.ones (s + i) p (omega arith), bit-le a i)
              | no p ↦ omega (arith, t.ones i lt (omega arith), bit-le a (s + i))
            ]);
    })

-- From one digit, the six steps cover all 31.
smear_all :
    (k a : ℕ)
    → k ≤ 31
    → Top k 1 a
    → smear 16 (smear 8 (smear 4 (smear 2 (smear 1 (smear 1 a))))) + 1 ≡ 2 ^ k
smear_all k a small t =
    let t2 = smear-Top k 1 1 a small (omega arith) t in
    let t3 = smear-Top k 2 1 _ small (omega arith) t2 in
    let t5 = smear-Top k 3 2 _ small (omega arith) t3 in
    let t9 = smear-Top k 5 4 _ small (omega arith) t5 in
    let t17 = smear-Top k 9 8 _ small (omega arith) t9 in
    let t33 = smear-Top k 17 16 _ small (omega arith) t17 in
    eq_ones k _ t33.below (λ i lt. t33.ones i lt (omega arith))

-- What the body computes, once the digits of `n - 1` are known.
rounds_up :
    (n k : ℕ) → 0 < n → n ≤ 2 ^ 30 → k ≤ 30 → Top k 1 (n - 1) → next_power_of_two n ≡ ok (2 ^ k)
unfolding next_power_of_two
rounds_up n k lo hi small t =
    let pred : u32_sub n 1 ≡ n - 1 = omega arith in
    let bound = pow-le-pow_right {n = 2} (omega arith) small in
    rw pred (ground (arith, smear_all k (n - 1) (omega arith) t))

-- For 0 < n ≤ 2^30 the result is the least power of two that is at least `n`: any smaller power
-- is at most half of it, which is below `n`.
pub next_power_of_two_lem :
    (n : ℕ)
    → 0 < n
    → n ≤ 2 ^ 30
    → (k : ℕ) × (next_power_of_two n ≡ ok (2 ^ k)) × (k ≤ 30) × (n ≤ 2 ^ k) × (2 ^ k < 2 * n)
next_power_of_two_lem n lo hi = elim (dec_lt 1 n) [
  | no one ↦ (
    0,
    rounds_up n 0 lo hi (omega arith)
        (record { below = omega arith; ones = λ i lt top. absurd (omega arith) }),
    omega arith,
    omega arith,
    omega arith,
  )
  | yes more ↦
      let (k, lt, low, high) = has_top 30 (n - 1) (omega arith) (omega arith) in
      (
        suc k,
        rounds_up n (suc k) lo hi (omega arith) (record {
          below = high;
          ones = λ i lt top. let e : i ≡ k = omega arith in rw e (top_bit k (n - 1) low high);
        }),
        omega arith,
        omega arith,
        omega (arith, two-pow-succ k),
      )
]
