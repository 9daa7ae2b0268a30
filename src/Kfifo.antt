-- ===== src/Kfifo.antt =====
-- clib/kfifo.c: a byte queue in a buffer of 2^k bytes, with free-running 32-bit indices.
-- An `int` or `unsigned int` is its bit pattern, below 2^32; a byte is a number. Here are the functions
-- for one caller at a time, for which the barriers `smp_mb` and the like of clib/util.h do nothing;
-- Shared has the steps of two threads on one queue.
pub mod Power
pub mod Copy
pub mod Valid
pub mod Ring
pub mod Queue
pub mod Init
pub mod Shared
pub mod Apart
pub mod Interleaved
pub mod Puts
pub mod Gets
pub mod Lockfree
pub mod Refine
mod Tests
use Prim.Native.Nat.{bit_and, bit_or}
use chenghualearning.Common.{
  ℕ, zero, suc, ◌+◌, ◌-◌, ◌/◌, ◌%◌, ◌^◌, ◌≤◌, min, Bool, Option, none, some, List, leb, ltb, ◌==◌,
  ◌&&◌, not, if◌then◌else◌, length, get_or, set, drop, Run, ok, fault, out_of_bounds,
  signed_overflow, ensure, ◌>>=◌, ◌>>◌,
}

-- The arithmetic of `unsigned int`.
abbrev pub u32 : ℕ → ℕ
u32 n = n % 2 ^ 32

abbrev pub u32_sub : ℕ → ℕ → ℕ
u32_sub a b = u32 (a + 2 ^ 32 - b)

-- `n >> k` of an `int`: the sign is shifted in.
pub shift_right : ℕ → ℕ → ℕ
shift_right n k = if ltb n (2 ^ 31) then n / 2 ^ k else n / 2 ^ k + (2 ^ 32 - 2 ^ (32 - k))

-- `n |= (n >> k)`
pub smear : ℕ → ℕ → ℕ
smear k n = bit_or n (shift_right n k)

-- `n -= 1` and `++n` overflow at INT_MIN and at INT_MAX.
pub next_power_of_two : ℕ → Run ℕ
next_power_of_two n = if n == 0 then ok 1 else (do
  ensure (not (n == 2 ^ 31)) signed_overflow
  let ones : ℕ = smear 16 (smear 8 (smear 4 (smear 2 (smear 1 (smear 1 (u32_sub n 1))))))
  ensure (not (ones == 2 ^ 31 - 1)) signed_overflow
  ok (u32 (ones + 1)))

-- `in` and `out` of the struct are `in_pos` and `out_pos`.
pub record Kfifo : Type 0 where
  pub buf : List ℕ
  pub size : ℕ
  pub in_pos : ℕ
  pub out_pos : ℕ

-- `malloc n` is the memory that the allocator hands out for `n` bytes, with what it holds, or
-- `none` if it fails.
pub kfifo_init : (malloc : ℕ → Option (List ℕ)) → ℕ → Run (Option Kfifo)
kfifo_init malloc size = do
  buf_size ← next_power_of_two size
  elim (malloc 24) [
    | none ↦ ok none
    | some _ ↦ elim (malloc buf_size) [
      | none ↦ ok none
      | some bytes ↦
          ok (some (record { buf = bytes; size = u32 buf_size; in_pos = 0; out_pos = 0 }))
    ]
  ]

-- `n` bytes from `src` are written to `dst` from index `at` on.
pub copy : (dst : List ℕ) → (at : ℕ) → (src : List ℕ) → ℕ → List ℕ
copy dst at src zero = dst
copy dst at src (suc n) = set (copy dst at src n) (at + n) (get_or src n 0)

-- `memcpy(dst + at, src + start, n)`, a fault if either range leaves its array.
pub memcpy : (dst : List ℕ) → (at : ℕ) → (src : List ℕ) → (start n : ℕ) → Run (List ℕ)
memcpy dst at src start n =
    ensure (leb (at + n) (length dst) && leb (start + n) (length src)) out_of_bounds
    >> ok (copy dst at (drop start src) n)

-- Returns how many bytes of `buf` were taken.
pub kfifo_put : Kfifo → (buf : List ℕ) → (len : ℕ) → Run (ℕ × Kfifo)
kfifo_put fifo buf len = do
  let n : ℕ = min len (u32 (u32_sub fifo.size fifo.in_pos + fifo.out_pos))
  let at : ℕ = bit_and fifo.in_pos (u32_sub fifo.size 1)
  let l : ℕ = min n (u32_sub fifo.size at)
  ring ← memcpy fifo.buf at buf 0 l
  ring ← memcpy ring 0 buf l (u32_sub n l)
  ok (n, record fifo { buf = ring; in_pos = u32 (fifo.in_pos + n) })

-- Returns how many bytes were given, and the destination `buf` with them.
pub kfifo_get : Kfifo → (buf : List ℕ) → (len : ℕ) → Run (ℕ × List ℕ × Kfifo)
kfifo_get fifo buf len = do
  let n : ℕ = min len (u32_sub fifo.in_pos fifo.out_pos)
  let at : ℕ = bit_and fifo.out_pos (u32_sub fifo.size 1)
  let l : ℕ = min n (u32_sub fifo.size at)
  dest ← memcpy buf 0 fifo.buf at l
  dest ← memcpy dest l fifo.buf 0 (u32_sub n l)
  ok (n, dest, record fifo { out_pos = u32 (fifo.out_pos + n) })
