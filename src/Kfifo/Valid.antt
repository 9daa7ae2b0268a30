-- ===== src/Kfifo/Valid.antt =====
-- The representation invariant of the queue of clib/kfifo.c, and the bytes that it holds.
use Prim.Native.Nat.{bit_and}
use native.Mathlib.Nat.{one-le-pow, pow-le-pow_right}
use chenghualearning.Common.{
  ℕ, ◌+◌, ◌-◌, ◌%◌, ◌^◌, ◌≤◌, ◌<◌, ◌≡◌, ap, ◌∙◌, List, arith, length, get_or, tabulate,
}
use chenghualearning.Common.Bits.{and-mask, wrap-mod}
use chenghualearning.Kfifo.{Kfifo, u32, u32_sub}

-- How many bytes are in the queue; the indices run freely and wrap at 2^32.
abbrev pub used : Kfifo → ℕ
used f = u32_sub f.in_pos f.out_pos

pub record IsValid (f : Kfifo) : Type 0 where
  pub exponent : ℕ
  pub power : f.size ≡ 2 ^ exponent
  pub small : exponent ≤ 30
  pub whole : length f.buf ≡ f.size
  pub in_range : f.in_pos < 2 ^ 32
  pub out_range : f.out_pos < 2 ^ 32
  pub fits : used f ≤ f.size

-- The bytes from `out_pos` on, round the buffer.
abbrev pub contents : Kfifo → List ℕ
contents f = tabulate (used f) (λ j. get_or f.buf ((f.out_pos + j) % f.size) 0)

module _ {f : Kfifo} (v : IsValid f) where
  pub size_bounds : (0 < f.size) × (f.size ≤ 2 ^ 30)
  size_bounds =
      rw v.power
        (one-le-pow v.exponent 2 (omega arith), pow-le-pow_right {n = 2} (omega arith) v.small)

  -- `x & (size - 1)` is the index of `x` in the buffer.
  pub mask : (x : ℕ) → bit_and x (u32_sub f.size 1) ≡ x % f.size
  mask x =
      let e : u32_sub f.size 1 ≡ 2 ^ v.exponent - 1 = omega (arith, v.power, size_bounds) in
      rw (e, v.power) (and-mask v.exponent x)

  pub mod-u32 : (a : ℕ) → u32 a % f.size ≡ a % f.size
  mod-u32 a = rw v.power (wrap-mod v.exponent a (omega (arith, v.small)))

  -- The position that `in_pos` stands for.
  pub in-mod : f.in_pos % f.size ≡ (f.out_pos + used f) % f.size
  in-mod =
      ap (λ x. x % f.size)
        (let e : f.in_pos ≡ u32 (f.out_pos + used f) = omega (arith, v.in_range, v.out_range) in e)
      ∙ mod-u32 (f.out_pos + used f)
