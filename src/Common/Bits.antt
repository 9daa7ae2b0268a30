-- ===== src/Common/Bits.antt =====
-- The binary digits of numbers, and how `&`, `|` and shifts act on them.
use Prim.Native.Nat.{
  ℕ, zero, suc, ◌+◌, ◌-◌, ◌*◌, ◌/◌, ◌%◌, ◌^◌, ◌≤◌, ◌<◌, min, max, bit_and, bit_or, digits, bitwise,
  bit_and-bitwise, bit_or-bitwise, ◌∣◌,
}
use mathlib.Core.Path.{◌≡◌, refl, ap, subst, sym, ◌∙◌}
use native.Mathlib.Omega.{arith}
use native.Mathlib.Decide.{dec_lt}
use native.Mathlib.Nat.{
  two-pow-succ, one-le-pow, div-div-eq-div-mul, pow-succ', div-add-mod, add-mul-mod_self_left,
  mod-eq_of_lt, mod-mod_of_dvd, dvd-mul_right,
}

module _ (z : ℕ → ℕ) (f : ℕ → ℕ → ℕ) (run_out : (b : ℕ) → z b ≡ z (b / 2) * 2 + f 0 (b % 2)) where
  -- Any count of digits from the first number on gives the same result.
  digits-enough : (n m a b : ℕ) → a ≤ n → a ≤ m → digits z f n a b ≡ digits z f m a b
  digits-enough zero zero a b p q = refl
  digits-enough zero (suc m) zero b p q = refl
  digits-enough zero (suc m) (suc a) b p q = absurd (omega arith)
  digits-enough (suc n) zero zero b p q = refl
  digits-enough (suc n) zero (suc a) b p q = absurd (omega arith)
  digits-enough (suc n) (suc m) zero b p q = refl
  digits-enough (suc n) (suc m) (suc a) b p q =
      ap (λ d. d * 2 + f (suc a % 2) (b % 2))
        (digits-enough n m (suc a / 2) (b / 2) (omega arith) (omega arith))

  digits-zero : (n b : ℕ) → digits z f n 0 b ≡ z b
  digits-zero zero b = refl
  digits-zero (suc n) b = refl

  bitwise-step : (a b : ℕ) → bitwise z f a b ≡ bitwise z f (a / 2) (b / 2) * 2 + f (a % 2) (b % 2)
  bitwise-step zero b =
      run_out b ∙ ap (λ d. d * 2 + f 0 (b % 2)) (sym (digits-zero (0 / 2) (b / 2)))
  bitwise-step (suc a) b =
      ap (λ d. d * 2 + f (suc a % 2) (b % 2))
        (digits-enough a (suc a / 2) (suc a / 2) (b / 2) (omega arith) (omega arith))

pub bit_and_step : (a b : ℕ) → bit_and a b ≡ bit_and (a / 2) (b / 2) * 2 + min (a % 2) (b % 2)
bit_and_step a b = simp bit_and-bitwise (bitwise-step (λ _. 0) min (λ b. omega arith) a b)

pub bit_or_step : (a b : ℕ) → bit_or a b ≡ bit_or (a / 2) (b / 2) * 2 + max (a % 2) (b % 2)
bit_or_step a b = simp bit_or-bitwise (bitwise-step (λ y. y) max (λ b. omega arith) a b)

-- Digit `i` of `a`.
pub bit : ℕ → ℕ → ℕ
bit a zero = a % 2
bit a (suc i) = bit (a / 2) i

pub bit-le : (a i : ℕ) → bit a i ≤ 1
unfolding bit
bit-le a zero = omega arith
bit-le a (suc i) = bit-le (a / 2) i

pub bit-or : (a b i : ℕ) → bit (bit_or a b) i ≡ max (bit a i) (bit b i)
unfolding bit
bit-or a b zero = omega (arith, bit_or_step a b)
bit-or a b (suc i) =
    let e : bit_or a b / 2 ≡ bit_or (a / 2) (b / 2) = omega (arith, bit_or_step a b) in
    rw e (bit-or (a / 2) (b / 2) i)

pub div-pow-suc : (a s : ℕ) → a / 2 ^ suc s ≡ a / 2 / 2 ^ s
div-pow-suc a s = sym (div-div-eq-div-mul a 2 (2 ^ s) ∙ ap (λ d. a / d) (sym (pow-succ' 2 s)))

pub bit-div : (a s i : ℕ) → bit (a / 2 ^ s) i ≡ bit a (s + i)
unfolding bit
bit-div a zero i =
    let e : a / 2 ^ 0 ≡ a = omega arith in let f : 0 + i ≡ i = omega arith in rw (e, f)
bit-div a (suc s) i =
    let e : suc s + i ≡ suc (s + i) = omega arith in rw (div-pow-suc a s, e) (bit-div (a / 2) s i)

pub or-lt : (k a b : ℕ) → a < 2 ^ k → b < 2 ^ k → bit_or a b < 2 ^ k
or-lt zero a b p q =
    let a0 : a ≡ 0 = omega arith in let b0 : b ≡ 0 = omega arith in rw (a0, b0) (omega arith)
or-lt (suc k) a b p q = omega (
  arith,
  two-pow-succ k,
  bit_or_step a b,
  or-lt k (a / 2) (b / 2) (omega (arith, two-pow-succ k)) (omega (arith, two-pow-succ k)),
)

-- A number of `k` digits, all of them 1.
pub eq_ones : (k a : ℕ) → a < 2 ^ k → ((i : ℕ) → i < k → bit a i ≡ 1) → a + 1 ≡ 2 ^ k
unfolding bit
eq_ones zero a p h = omega arith
eq_ones (suc k) a p h = omega (
  arith,
  two-pow-succ k,
  h 0 (omega arith),
  eq_ones k (a / 2) (omega (arith, two-pow-succ k)) (λ i q. h (suc i) (omega arith)),
)

-- The highest digit of a number.
pub top_bit : (k a : ℕ) → 2 ^ k ≤ a → a < 2 ^ suc k → bit a k ≡ 1
unfolding bit
top_bit zero a p q = omega arith
top_bit (suc k) a p q =
    top_bit k (a / 2) (omega (arith, two-pow-succ k)) (omega (arith, two-pow-succ (suc k)))

-- Every positive number below `2 ^ n` has a highest digit.
pub has_top : (n a : ℕ) → 0 < a → a < 2 ^ n → (k : ℕ) × (k < n) × (2 ^ k ≤ a) × (a < 2 ^ suc k)
has_top zero a p q = absurd (omega arith)
has_top (suc n) a p q = elim (dec_lt a (2 ^ n)) [
  | yes low ↦ let (k, l, lo, hi) = has_top n a p low in (k, omega arith, lo, hi)
  | no high ↦ (n, omega arith, omega arith, q)
]

and-zero : (k a : ℕ) → a < 2 ^ k → bit_and a 0 ≡ 0
and-zero zero a p = let a0 : a ≡ 0 = omega arith in rw a0
and-zero (suc k) a p =
    omega (arith, bit_and_step a 0, and-zero k (a / 2) (omega (arith, two-pow-succ k)))

lt-two-pow : (a : ℕ) → a < 2 ^ a
lt-two-pow zero = omega arith
lt-two-pow (suc a) = omega (arith, two-pow-succ a, lt-two-pow a)

mod-double : (p a : ℕ) → 0 < p → a % (p + p) ≡ a / 2 % p * 2 + a % 2
mod-double p a h =
    let r : ℕ = a / 2 % p * 2 + a % 2 in
    let small : r < p + p = omega arith in
    let split : a ≡ r + (p + p) * (a / 2 / p) = omega (arith, div-add-mod (a / 2) p) in
    ap (λ x. x % (p + p)) split ∙ add-mul-mod_self_left r (p + p) (a / 2 / p) ∙ mod-eq_of_lt small

-- A mask of `k` ones takes the remainder.
pub and-mask : (k a : ℕ) → bit_and a (2 ^ k - 1) ≡ a % 2 ^ k
and-mask zero a = omega (arith, and-zero a a (lt-two-pow a))
and-mask (suc k) a =
    let pos = one-le-pow k 2 (omega arith) in
    let high : (2 ^ suc k - 1) / 2 ≡ 2 ^ k - 1 = omega (arith, two-pow-succ k) in
    let low : (2 ^ suc k - 1) % 2 ≡ 1 = omega (arith, two-pow-succ k) in
    bit_and_step a (2 ^ suc k - 1)
    ∙ rw (high, low, and-mask k (a / 2), two-pow-succ k, mod-double (2 ^ k) a pos) (omega arith)

pub two-pow_add : (m n : ℕ) → 2 ^ (m + n) ≡ 2 ^ m * 2 ^ n
two-pow_add m zero = let e : m + 0 ≡ m = omega arith in rw e (omega arith)
two-pow_add m (suc n) =
    let e : m + suc n ≡ suc (m + n) = omega arith in
    rw e
      (omega (arith, two-pow-succ (m + n), ap (λ x. 2 ^ m * x) (two-pow-succ n), two-pow_add m n))

-- A power of two up to 2^32 divides 2^32, so the wrap of an index does not show below it.
pub wrap-mod : (k a : ℕ) → k ≤ 32 → a % 2 ^ 32 % 2 ^ k ≡ a % 2 ^ k
wrap-mod k a h =
    let sum : k + (32 - k) ≡ 32 = omega arith in
    let split : 2 ^ k * 2 ^ (32 - k) ≡ 2 ^ 32 =
      sym (two-pow_add k (32 - k)) ∙ ap (λ x. 2 ^ x) sum in
    mod-mod_of_dvd (2 ^ k) a (subst (λ x. 2 ^ k ∣ x) split (dvd-mul_right (2 ^ k) (2 ^ (32 - k))))
