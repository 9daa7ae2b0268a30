-- ===== src/Kfifo/Init.antt =====
-- `kfifo_init` of clib/kfifo.c.
use native.Mathlib.Nat.{pow-le-pow_right}
use chenghualearning.Common.{
  ℕ, ◌*◌, ◌^◌, ◌≤◌, ◌<◌, ◌≡◌, ◌⊎◌, inl, inr, refl, Option, none, some, List, [], arith, length, ok,
  ◌>>=◌, Option-cases,
}
use chenghualearning.Kfifo.Power.{next_power_of_two_lem}
use chenghualearning.Kfifo.Valid.{IsValid, contents}
use chenghualearning.Kfifo.{Kfifo, u32, next_power_of_two, kfifo_init}

-- `malloc n` hands out `n` bytes, or none.
abbrev pub IsAllocator : (ℕ → Option (List ℕ)) → Type 0
IsAllocator malloc = (n : ℕ) (bytes : List ℕ) → malloc n ≡ some bytes → length bytes ≡ n

-- The queue that `kfifo_init` returns for `size` bytes.
pub record IsFresh (size : ℕ) (f : Kfifo) : Type 0 where
  pub valid : IsValid f
  pub large : size ≤ f.size
  pub least : f.size < 2 * size
  pub empty : contents f ≡ []

module _ (malloc : ℕ → Option (List ℕ)) (honest : IsAllocator malloc) (size : ℕ) (lo : 0 < size)
    (hi : size ≤ 2 ^ 30) where
  -- For a size from 1 to 2^30, `kfifo_init` returns an empty valid queue whose buffer is the least
  -- power of two of at least that size, or `NULL` just if one of its allocations fails.
  pub kfifo_init_lem :
      (p : ℕ) × (next_power_of_two size ≡ ok p)
      × (((kfifo_init malloc size ≡ ok none) × ((malloc 24 ≡ none) ⊎ (malloc p ≡ none)))
          ⊎ ((f : Kfifo) × (kfifo_init malloc size ≡ ok (some f)) × IsFresh size f))
  unfolding kfifo_init
  kfifo_init_lem =
      let (k, power, small, large, least) = next_power_of_two_lem size lo hi in
      let bound = pow-le-pow_right {n = 2} (omega arith) small in
      let fit : u32 (2 ^ k) ≡ 2 ^ k = omega arith in
      (
        2 ^ k,
        power,
        elim (Option-cases (malloc 24)) [
          | inl no_struct ↦ inl (rw (power, ◌>>=◌, no_struct), inl no_struct)
          | inr (head, got) ↦ elim (Option-cases (malloc (2 ^ k))) [
            | inl no_buffer ↦ inl (rw (power, ◌>>=◌, got, no_buffer), inr no_buffer)
            | inr (bytes, given) ↦ inr (
              record { buf = bytes; size = 2 ^ k; in_pos = 0; out_pos = 0 },
              rw (power, ◌>>=◌, got, given, fit),
              record {
                valid = record {
                  exponent = k;
                  power = refl;
                  small = small;
                  whole = honest (2 ^ k) bytes given;
                  in_range = omega arith;
                  out_range = omega arith;
                  fits = omega arith;
                };
                large = large;
                least = least;
                empty = refl;
              },
            )
          ]
        ],
      )
