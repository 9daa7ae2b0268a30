-- ===== src/Kfifo/Queue.antt =====
-- `kfifo_put` and `kfifo_get` of clib/kfifo.c, on the bytes that the queue holds.
use Prim.Native.Nat.{bit_and}
use native.Mathlib.Nat.{mod-add-mod, mod-lt}
use chenghualearning.Common.{
  ℕ, ◌+◌, ◌-◌, ◌%◌, ◌^◌, ◌≤◌, ◌<◌, ◌≡◌, refl, sym, ap, ap₂, ◌∙◌, min, List, ◌++◌, arith, length,
  get_or, take, drop, tabulate-add, tabulate_congr, take-eq-tabulate, take-tabulate, drop-tabulate,
  eq_tabulate, drop-eq-tabulate, Returns, ◌>>=◌,
}
use chenghualearning.Kfifo.Copy.{length-copy, memcpy-ok}
use chenghualearning.Kfifo.Ring.{
  ring, length-ring, ring_old, ring_new, given, length-given, given_new, given_old,
}
use chenghualearning.Kfifo.Valid.{used, IsValid, contents, size_bounds, mask, mod-u32, in-mod}
use chenghualearning.Kfifo.{Kfifo, u32, u32_sub, copy, kfifo_put, kfifo_get}

module _ {f : Kfifo} (v : IsValid f) where
  open f use {buf as stored, size, in_pos, out_pos}

  abbrev level : ℕ
  level = used f

  pos : 0 < size
  pos = (size_bounds v).0

  bound : size ≤ 2 ^ 30
  bound = (size_bounds v).1

  in_at : bit_and in_pos (u32_sub size 1) ≡ (out_pos + level) % size
  in_at = mask v in_pos ∙ in-mod v

  module _ (src : List ℕ) (n : ℕ) (room : level + n ≤ size) where
    abbrev after_put : Kfifo
    after_put = record f {
      buf = ring stored src size out_pos level n pos v.whole room;
      in_pos = u32 (in_pos + n);
    }

    used-put : used after_put ≡ level + n
    used-put = omega (arith, v.in_range, v.out_range, bound)

    after_put-IsValid : IsValid after_put
    after_put-IsValid = record {
      exponent = v.exponent;
      power = v.power;
      small = v.small;
      whole = length-ring stored src size out_pos level n pos v.whole room;
      in_range = omega arith;
      out_range = v.out_range;
      fits = rw used-put room;
    }

    contents-put : n ≤ length src → contents after_put ≡ contents f ++ take n src
    contents-put enough =
        rw (used-put, tabulate-add)
          (ap₂ ◌++◌
            (tabulate_congr level _ _ (ring_old stored src size out_pos level n pos v.whole room))
            (tabulate_congr n _ (λ j. get_or src j 0)
                (ring_new stored src size out_pos level n pos v.whole room)
              ∙ sym (take-eq-tabulate n src 0 enough)))

  -- With `len` bytes in `src`, `kfifo_put` stays inside its arrays, takes as many bytes as there
  -- is free space, appends them in order, and keeps the invariant and the size.
  pub kfifo_put_lem :
      (src : List ℕ) (len : ℕ)
      → len ≤ length src
      → Returns (kfifo_put f src len) λ (n, f').
        (n ≡ min len (size - level))
        × (contents f' ≡ contents f ++ take n src)
        × IsValid f'
        × (f'.size ≡ size)
  unfolding kfifo_put
  kfifo_put_lem src len h =
      let free : u32 (u32_sub size in_pos + out_pos) ≡ size - level =
        omega (arith, v.in_range, v.out_range, v.fits, bound) in
      let n : ℕ = min len (size - level) in
      let room : level + n ≤ size = omega (arith, v.fits) in
      let at : ℕ = (out_pos + level) % size in
      let at-lt : at < size = mod-lt (out_pos + level) pos in
      let to_end : u32_sub size at ≡ size - at = omega (arith, bound) in
      let l : ℕ = min n (size - at) in
      let rest : u32_sub n l ≡ n - l = omega (arith, bound) in
      (
        (n, after_put src n room),
        rw (free, in_at, to_end, rest)
            (rw (memcpy-ok stored at src 0 l (omega (arith, v.whole)) (omega arith), ◌>>=◌)
              (rw (
                memcpy-ok (copy stored at src l) 0 src l (n - l)
                  (omega (arith, v.whole, length-copy stored at src l)) (omega arith)))),
        (refl, contents-put src n room (omega arith), after_put-IsValid src n room, refl),
      )

  module _ (dest : List ℕ) (n : ℕ) (some_used : n ≤ level) (large : n ≤ length dest) where
    abbrev after_get : Kfifo
    after_get = record f { out_pos = u32 (out_pos + n) }

    abbrev delivered : List ℕ
    delivered = given stored dest size out_pos n pos (omega (arith, v.fits)) large

    used-get : used after_get ≡ level - n
    used-get = omega (arith, v.in_range, v.out_range, bound)

    after_get-IsValid : IsValid after_get
    after_get-IsValid = record {
      exponent = v.exponent;
      power = v.power;
      small = v.small;
      whole = v.whole;
      in_range = v.in_range;
      out_range = omega arith;
      fits = rw used-get (omega (arith, v.fits));
    }

    shifted : (j : ℕ) → (u32 (out_pos + n) + j) % size ≡ (out_pos + (n + j)) % size
    shifted j =
        sym (mod-add-mod (u32 (out_pos + n)) size j)
        ∙ rw (mod-u32 v, mod-add-mod) (ap (λ x. x % size) (omega arith))

    contents-get : contents after_get ≡ drop n (contents f)
    contents-get =
        rw (used-get, drop-tabulate n level _ some_used)
          (tabulate_congr (level - n) _ _ (λ j h. ap (λ i. get_or stored i 0) (shifted j)))

    delivered-eq : delivered ≡ take n (contents f) ++ drop n dest
    delivered-eq =
        let width = length-given stored dest size out_pos n pos (omega (arith, v.fits)) large in
        let total : length dest ≡ n + (length dest - n) = omega arith in
        eq_tabulate delivered 0
        ∙ rw (width, total, tabulate-add)
            (ap₂ ◌++◌
              (tabulate_congr n _ _
                  (given_new stored dest size out_pos n pos (omega (arith, v.fits)) large)
                ∙ sym (take-tabulate n level _ some_used))
              (tabulate_congr (length dest - n) _ _ (λ j h.
                  given_old stored dest size out_pos n pos (omega (arith, v.fits)) large (n + j)
                    (omega arith))
                ∙ sym (drop-eq-tabulate n dest 0 large)))

  -- With room for `len` bytes in `dest`, `kfifo_get` stays inside its arrays, gives as many bytes
  -- as there are, the oldest first, leaves the rest of `dest` and of the queue, and keeps the
  -- invariant and the size.
  pub kfifo_get_lem :
      (dest : List ℕ) (len : ℕ)
      → len ≤ length dest
      → Returns (kfifo_get f dest len) λ (n, dest', f').
        (n ≡ min len level)
        × (dest' ≡ take n (contents f) ++ drop n dest)
        × (contents f' ≡ drop n (contents f))
        × IsValid f'
        × (f'.size ≡ size)
  unfolding kfifo_get
  kfifo_get_lem dest len h =
      let n : ℕ = min len level in
      let at : ℕ = out_pos % size in
      let at-lt : at < size = mod-lt out_pos pos in
      let to_end : u32_sub size at ≡ size - at = omega (arith, bound) in
      let l : ℕ = min n (size - at) in
      let rest : u32_sub n l ≡ n - l = omega (arith, bound, v.fits) in
      let used_ok : n ≤ level = omega arith in
      let large : n ≤ length dest = omega arith in
      (
        (n, delivered dest n used_ok large, after_get dest n used_ok large),
        rw (mask v out_pos, to_end, rest)
            (rw (memcpy-ok dest 0 stored at l (omega arith) (omega (arith, v.whole)), ◌>>=◌)
              (rw (
                memcpy-ok (copy dest 0 (drop at stored) l) l stored 0 (n - l)
                  (omega (arith, length-copy dest 0 (drop at stored) l))
                  (omega (arith, v.whole, v.fits))))),
        (
          refl,
          delivered-eq dest n used_ok large,
          contents-get dest n used_ok large,
          after_get-IsValid dest n used_ok large,
          refl,
        ),
      )
