-- ===== src/HashInterface/Power.antt =====
-- `_dictNextPower` of clib/hash_interface.c: the size of a new table.
use native.Mathlib.Nat.{two-pow-succ, pow-le-pow_right}
use chenghualearning.Common.{
  ℕ, zero, suc, ◌+◌, ◌*◌, ◌%◌, ◌^◌, ◌≤◌, ◌<◌, ◌≡◌, ◌⊎◌, inl, inr, refl, subst, sym, arith, dec_lt,
  ok, leb, Bool-cases, leb→le,
}
use chenghualearning.HashInterface.{long_max, next_power_loop, dict_next_power}

-- The least power of two that is at least `size` and at least 4.
abbrev pub IsLeast : ℕ → ℕ → Type 0
IsLeast size k = (2 ≤ k) × (k ≤ 63) × (size ≤ 2 ^ k) × ((k ≡ 2) ⊎ (2 ^ k < 2 * size))

-- From 2^k, where no smaller power will do, the loop stops at the least one.
next_power_loop_lem :
    (fuel k size : ℕ)
    → 2 ≤ k
    → k + fuel ≡ 64
    → 0 < fuel
    → size ≤ 2 ^ 63
    → ((k ≡ 2) ⊎ (2 ^ k < 2 * size))
    → (j : ℕ) × (next_power_loop fuel size (2 ^ k) ≡ ok (2 ^ j)) × IsLeast size j
unfolding next_power_loop
next_power_loop_lem zero k size two sum some_fuel small least = absurd (omega arith)
next_power_loop_lem (suc fuel) k size two sum some_fuel small least =
    elim (Bool-cases (leb size (2 ^ k))) [
      | inl done ↦ (k, rw done, (two, omega arith, leb→le size (2 ^ k) done, least))
      | inr more ↦
          let above : 2 ^ k < size = ground arith in
          let under : k < 63 = below_63 k size above small in
          let bound = pow-le-pow_right {n = 2} (omega arith) {i = suc k} {j = 63} (omega arith) in
          let next : 2 ^ k * 2 % 2 ^ 64 ≡ 2 ^ suc k = omega (arith, two-pow-succ k) in
          let (j, ran, result) =
            next_power_loop_lem fuel (suc k) size (omega arith) (omega arith) (omega arith) small
              (inr (omega (arith, two-pow-succ k))) in
          (
            j,
            rw more (subst (λ i. next_power_loop fuel size i ≡ ok (2 ^ j)) (sym next) ran),
            result,
          )
    ]
  where
    below_63 : (k size : ℕ) → 2 ^ k < size → size ≤ 2 ^ 63 → k < 63
    below_63 k size above small = elim (dec_lt k 63) [
      | yes p ↦ p
      | no p ↦
          absurd
            (omega (arith, pow-le-pow_right {n = 2} (omega arith) {i = 63} {j = k} (omega arith)))
    ]

-- From LONG_MAX on the result is LONG_MAX. Below it, the loop ends within its fuel, at the least power
-- of two that is at least `size` and at least 4.
pub dict_next_power_lem :
    (size : ℕ)
    → ((long_max ≤ size) × (dict_next_power size ≡ ok long_max))
      ⊎ ((size < long_max) × (k : ℕ) × (dict_next_power size ≡ ok (2 ^ k)) × IsLeast size k)
unfolding dict_next_power
dict_next_power_lem size = elim (Bool-cases (leb long_max size)) [
  | inl large ↦ inl (leb→le long_max size large, rw large)
  | inr small ↦
      let below : size < long_max = ground arith in
      let (k, ran, least) =
        next_power_loop_lem 62 2 size (omega arith) refl (omega arith) (omega arith) (inl refl) in
      inr (below, k, rw small ran, least)
]
