-- ===== src/Kfifo/Interleaved.antt =====
-- What holds between the steps of the two threads on the queue of clib/kfifo.c.
use chenghualearning.Common.{ℕ, suc, ◌+◌, ◌-◌, ◌%◌, ◌≤◌, ◌<◌, ◌≡◌, ◌++◌, length, get_or}
use chenghualearning.Kfifo.Valid.{used, IsValid, contents}
use chenghualearning.Kfifo.Shared.{Stage, resting, moving, System}
use chenghualearning.Kfifo.{Kfifo}

-- There is room for the call that the producer is in, and the bytes that it has moved stand behind
-- those in the queue.
abbrev pub IsPutting : Kfifo → Stage → Type 0
IsPutting f resting = Unit {0}
IsPutting f (moving buf n i) =
    (used f + n ≤ f.size)
    × (n ≤ length buf)
    × (i ≤ n)
    × ((j : ℕ) → j < i → get_or f.buf ((f.in_pos + j) % f.size) 0 ≡ get_or buf j 0)

-- The bytes for the call that the consumer is in are there, and those that it has moved are the first
-- in the queue.
abbrev pub IsGetting : Kfifo → Stage → Type 0
IsGetting f resting = Unit {0}
IsGetting f (moving buf n i) =
    (n ≤ used f)
    × (n ≤ length buf)
    × (i ≤ n)
    × ((j : ℕ) → j < i → get_or buf j 0 ≡ get_or f.buf ((f.out_pos + j) % f.size) 0)

-- How many steps of its own a thread needs to the end of its call.
abbrev pub left : Stage → ℕ
left resting = 0
left (moving buf n i) = suc (n - i)

pub record IsSound (s : System) : Type 0 where
  pub valid : IsValid s.fifo
  pub order : s.sent ≡ s.received ++ contents s.fifo
  pub putting : IsPutting s.fifo s.producer
  pub getting : IsGetting s.fifo s.consumer
