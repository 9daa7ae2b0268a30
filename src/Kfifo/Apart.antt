-- ===== src/Kfifo/Apart.antt =====
-- The bytes of the ring of clib/kfifo.c that two threads touch are different ones.
use native.Mathlib.Nat.{mod-lt, mod-add-mod}
use chenghualearning.Common.{
  ℕ, ◌+◌, ◌-◌, ◌%◌, ◌≤◌, ◌<◌, ◌≡◌, sym, ap, ◌∙◌, false, arith, ◌==◌, length,
}
use chenghualearning.Kfifo.Ring.{place}
use chenghualearning.Kfifo.Valid.{used, IsValid, size_bounds, mask, in-mod}
use chenghualearning.Kfifo.Shared.{byte_at}
use chenghualearning.Kfifo.{Kfifo, u32_sub}

-- Two of the `s` places behind `o`.
pub apart : (s o j k : ℕ) → 0 < s → j < k → k < s → ((o + k) % s == (o + j) % s) ≡ false
apart s o j k pos lt h = ground (arith, place s o j, place s o k, mod-lt o pos)

module _ {f : Kfifo} (v : IsValid f) where
  pub byte_at-mod : (pos n i : ℕ) → n ≤ f.size → i < n → byte_at f pos n i ≡ (pos + i) % f.size
  unfolding byte_at
  byte_at-mod pos n i fits lt =
      let (some_size, bound) = size_bounds v in
      let at-lt : pos % f.size < f.size = mod-lt pos some_size in
      let to_end : u32_sub f.size (pos % f.size) ≡ f.size - pos % f.size = omega (arith, bound) in
      rw (mask v pos, to_end) (ground (arith, place f.size pos i, at-lt))

  pub byte_at-lt : (pos n i : ℕ) → n ≤ f.size → i < n → byte_at f pos n i < length f.buf
  byte_at-lt pos n i fits lt =
      rw (byte_at-mod pos n i fits lt, v.whole) (mod-lt (pos + i) ((size_bounds v).0))

  -- The places from `in_pos` on are those behind the bytes in the queue.
  pub behind : (j : ℕ) → (f.in_pos + j) % f.size ≡ (f.out_pos + (used f + j)) % f.size
  behind j =
      sym (mod-add-mod f.in_pos f.size j)
      ∙ ap (λ x. (x + j) % f.size) (in-mod v)
      ∙ mod-add-mod (f.out_pos + used f) f.size j
      ∙ ap (λ x. x % f.size) (omega arith)
