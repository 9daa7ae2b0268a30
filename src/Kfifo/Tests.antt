-- ===== src/Kfifo/Tests.antt =====
-- `main` of clib/kfifo.c, and the theorems about it at concrete queues.
use chenghualearning.Common.{
  ◌++◌, Returns, ℕ, ◌+◌, ◌-◌, ◌*◌, ◌^◌, ◌≤◌, ◌<◌, ◌≡◌, ◌⊎◌, refl, Option, none, some, List, [], ◌∷◌,
  arith, ◌==◌, replicate, length-replicate, Run, ok, fault, null_dereference, signed_overflow,
  check, ◌>>=◌, ◌>>◌,
}
use chenghualearning.Kfifo.Power.{next_power_of_two_lem}
use chenghualearning.Kfifo.Valid.{used, IsValid, contents}
use chenghualearning.Kfifo.Init.{IsFresh, IsAllocator, kfifo_init_lem}
use chenghualearning.Kfifo.Refine.{Call, put, get, run, queue, run-queue}
use chenghualearning.Kfifo.Shared.{
  resting, System, byte_at, put_start, put_stage, put_next, get_start, get_stage, get_next,
  put_starts, puts, get_starts, gets, Steps, here, next,
}
use chenghualearning.Kfifo.Interleaved.{left}
use chenghualearning.Kfifo.Lockfree.{IsQuiet, Steps-prefix, Steps-wait_free}
use chenghualearning.Kfifo.{
  Kfifo, shift_right, smear, next_power_of_two, kfifo_init, copy, memcpy, kfifo_put, kfifo_get,
}

program : Unit {0}
unfolding shift_right smear next_power_of_two kfifo_init copy memcpy kfifo_put kfifo_get
program = tt

-- An allocator that never fails and hands out zeroed memory.
abbrev zeroed : ℕ → Option (List ℕ)
zeroed n = some (replicate n 0)

-- `main`, with the checks that it makes.
main : (malloc : ℕ → Option (List ℕ)) → Run (Unit {0})
unfolding kfifo_init kfifo_put kfifo_get
main malloc = do
  created ← kfifo_init malloc 588
  elim created [
    | none ↦ fault null_dereference
    | some fifo ↦ (do
      check (fifo.size == 1024)
      (a, fifo) ← kfifo_put fifo (replicate 600 97) 600
      check (a == 600)
      (b, dest, fifo) ← kfifo_get fifo (replicate 100 0) 100
      check (b == 100)
      (c, fifo) ← kfifo_put fifo (replicate 600 97) 600
      check (c == 1024 - (600 - 100)))
  ]

next_power_of_two_lem_example :
    (k : ℕ) × (next_power_of_two 588 ≡ ok (2 ^ k)) × (k ≤ 30) × (588 ≤ 2 ^ k) × (2 ^ k < 2 * 588)
next_power_of_two_lem_example = next_power_of_two_lem 588 (omega arith) (omega arith)

-- Above 2^30 the last increment overflows.
overflow : next_power_of_two (2 ^ 30 + 1) ≡ fault signed_overflow
unfolding program
overflow = refl

zeroed-IsAllocator : IsAllocator zeroed
zeroed-IsAllocator n bytes e = ground (arith, length-replicate {A = ℕ} n 0)

kfifo_init_lem_example :
    (p : ℕ) × (next_power_of_two 5 ≡ ok p)
    × (((kfifo_init zeroed 5 ≡ ok none) × ((zeroed 24 ≡ none) ⊎ (zeroed p ≡ none)))
        ⊎ ((f : Kfifo) × (kfifo_init zeroed 5 ≡ ok (some f)) × IsFresh 5 f))
kfifo_init_lem_example = kfifo_init_lem zeroed zeroed-IsAllocator 5 (omega arith) (omega arith)

-- Three bytes of a buffer of four, round its end, with indices that are about to wrap at 2^32.
abbrev wrapped : Kfifo
wrapped = record { buf = 7 ∷ 8 ∷ 0 ∷ 6 ∷ []; size = 4; in_pos = 2; out_pos = 2 ^ 32 - 1 }

wrapped-IsValid : IsValid wrapped
wrapped-IsValid = record {
  exponent = 2;
  power = refl;
  small = omega arith;
  whole = refl;
  in_range = omega arith;
  out_range = omega arith;
  fits = omega arith;
}

contents-wrapped : contents wrapped ≡ 6 ∷ 7 ∷ 8 ∷ []
contents-wrapped = refl

abbrev calls : List Call
calls = get (0 ∷ 0 ∷ []) 2 ∷ put (1 ∷ 2 ∷ 3 ∷ 4 ∷ []) 4 ∷ get (0 ∷ 0 ∷ 0 ∷ 0 ∷ 9 ∷ []) 5 ∷ []

run-queue_example : run wrapped calls ≡ ok (queue 4 (contents wrapped) calls)
run-queue_example = run-queue calls wrapped-IsValid (omega arith)

main_passes : main zeroed ≡ ok tt
unfolding main program
main_passes = refl

-- The two threads on the wrapped queue.
abbrev quiet : System
quiet = record {
  fifo = wrapped;
  producer = resting;
  consumer = resting;
  sent = 6 ∷ 7 ∷ 8 ∷ [];
  received = [];
}

quiet-IsQuiet : IsQuiet quiet
quiet-IsQuiet = record {
  valid = wrapped-IsValid;
  producer_rests = refl;
  consumer_rests = refl;
  order = refl;
}

abbrev result : Run System → System
result (ok s) = s
result (fault e) = quiet

-- A put of two bytes, of which one fits, in the middle of a get of two bytes.
abbrev started : System
started = get_start (0 ∷ 0 ∷ []) 2 (put_start (9 ∷ 9 ∷ []) 2 quiet)

abbrev mixed : System
mixed = result (get_next (result (put_next (result (put_next (result (get_next started)))))))

mixed-Steps : Steps quiet mixed
unfolding put_start put_stage put_next get_start get_stage get_next byte_at
mixed-Steps =
    next
      (next
        (next
          (next
            (next (next here (put_starts (9 ∷ 9 ∷ []) 2 refl (omega arith)))
              (get_starts (0 ∷ 0 ∷ []) 2 refl (omega arith)))
            (gets refl))
          (puts refl))
        (puts refl))
      (gets refl)

Steps-prefix_example :
    (mixed.sent ≡ mixed.received ++ contents mixed.fifo) × (used mixed.fifo ≤ mixed.fifo.size)
Steps-prefix_example = Steps-prefix quiet mixed quiet-IsQuiet mixed-Steps

Steps-wait_free_example :
    Returns (put_next mixed) (λ u. left u.producer ≡ left mixed.producer - 1)
    × Returns (get_next mixed) (λ u. left u.consumer ≡ left mixed.consumer - 1)
    × (left mixed.producer ≤ mixed.fifo.size + 1)
    × (left mixed.consumer ≤ mixed.fifo.size + 1)
Steps-wait_free_example = Steps-wait_free quiet mixed quiet-IsQuiet mixed-Steps

-- Then the get ends with its two bytes, and the byte that was put is behind the third.
mixed_ends : (result (get_next mixed)).received ≡ 6 ∷ 7 ∷ []
unfolding put_start put_stage put_next get_start get_stage get_next byte_at
mixed_ends = refl

mixed_keeps : contents (result (get_next mixed)).fifo ≡ 8 ∷ 9 ∷ []
unfolding put_start put_stage put_next get_start get_stage get_next byte_at
mixed_keeps = refl
