-- ===== src/Kfifo/Shared.antt =====
-- clib/kfifo.c with one thread that puts and one that gets at the same time, without a lock. A step
-- is the start of a call, which reads both indices, the copy of one byte, or the write of the index
-- with which a call ends. The barriers keep the steps of a call in this order for the other thread.
use Prim.Native.Nat.{bit_and}
use chenghualearning.Common.{
  ℕ, ◌+◌, ◌-◌, ◌≤◌, ◌≡◌, min, List, ◌++◌, ltb, ◌&&◌, if◌then◌else◌, length, get_or, set, take, Run,
  ok, out_of_bounds, ensure, ◌>>◌,
}
use chenghualearning.Kfifo.{Kfifo, u32, u32_sub}

-- Byte `i` of the `n` that a call copies at the index `pos` of the ring: the first memcpy takes those
-- up to the end of the buffer, the second the rest from its start on.
unfoldable pub byte_at : Kfifo → (pos n i : ℕ) → ℕ
byte_at fifo pos n i =
    let at = bit_and pos (u32_sub fifo.size 1) in
    let l = min n (u32_sub fifo.size at) in if ltb i l then at + i else i - l

-- A thread between calls, or in one that moves `n` bytes and has moved `i` of them.
pub data Stage : Type 0 where
  resting : Stage
  moving : (buf : List ℕ) → (n i : ℕ) → Stage

-- The queue with the two threads; `sent` and `received` log the bytes of the calls that have ended.
pub record System : Type 0 where
  pub fifo : Kfifo
  pub producer : Stage
  pub consumer : Stage
  pub sent : List ℕ
  pub received : List ℕ

-- `kfifo_put`: its start, and what it does from where it stands.
unfoldable pub put_start : (buf : List ℕ) → (len : ℕ) → System → System
put_start buf len s = record s {
  producer = moving buf (min len (u32 (u32_sub s.fifo.size s.fifo.in_pos + s.fifo.out_pos))) 0;
}

unfoldable pub put_stage : Stage → System → Run System
put_stage resting s = ok s
put_stage (moving buf n i) s =
    if ltb i n
    then (do
      let p : ℕ = byte_at s.fifo s.fifo.in_pos n i
      ensure (ltb p (length s.fifo.buf) && ltb i (length buf)) out_of_bounds
      ok (record s {
        fifo = record s.fifo { buf = set s.fifo.buf p (get_or buf i 0) };
        producer = moving buf n (i + 1);
      }))
    else ok (record s {
      fifo = record s.fifo { in_pos = u32 (s.fifo.in_pos + n) };
      producer = resting;
      sent = s.sent ++ take n buf;
    })

unfoldable pub put_next : System → Run System
put_next s = put_stage s.producer s

-- `kfifo_get`, with the destination as far as it has been written.
unfoldable pub get_start : (buf : List ℕ) → (len : ℕ) → System → System
get_start buf len s = record s {
  consumer = moving buf (min len (u32_sub s.fifo.in_pos s.fifo.out_pos)) 0;
}

unfoldable pub get_stage : Stage → System → Run System
get_stage resting s = ok s
get_stage (moving buf n i) s =
    if ltb i n
    then (do
      let p : ℕ = byte_at s.fifo s.fifo.out_pos n i
      ensure (ltb p (length s.fifo.buf) && ltb i (length buf)) out_of_bounds
      ok (record s { consumer = moving (set buf i (get_or s.fifo.buf p 0)) n (i + 1) }))
    else ok (record s {
      fifo = record s.fifo { out_pos = u32 (s.fifo.out_pos + n) };
      consumer = resting;
      received = s.received ++ take n buf;
    })

unfoldable pub get_next : System → Run System
get_next s = get_stage s.consumer s

-- The steps of the two threads; a call gets an array of at least `len` bytes.
pub data Step (s : System) : System → Type 0 where
  put_starts :
      (buf : List ℕ) (len : ℕ)
      → s.producer ≡ resting
      → len ≤ length buf
      → Step s (put_start buf len s)
  puts : {s' : System} → put_next s ≡ ok s' → Step s s'
  get_starts :
      (buf : List ℕ) (len : ℕ)
      → s.consumer ≡ resting
      → len ≤ length buf
      → Step s (get_start buf len s)
  gets : {s' : System} → get_next s ≡ ok s' → Step s s'

pub data Steps (s : System) : System → Type 0 where
  here : Steps s s
  next : {t u : System} → Steps s t → Step t u → Steps s u
