-- ===== src/Kfifo/Lockfree.antt =====
-- One producer and one consumer on the queue of clib/kfifo.c need no lock.
use chenghualearning.Common.{◌+◌, ◌-◌, ◌≤◌, ◌≡◌, sym, subst, ◌++◌, arith, Returns, Returns-ok}
use chenghualearning.Kfifo.Valid.{used, IsValid, contents}
use chenghualearning.Kfifo.Interleaved.{IsPutting, IsGetting, left, IsSound}
use chenghualearning.Kfifo.Puts.{put_start-IsSound, put_next-IsSound}
use chenghualearning.Kfifo.Gets.{get_start-IsSound, get_next-IsSound}
use chenghualearning.Kfifo.Shared.{
  Stage, resting, moving, System, put_next, get_next, Step, put_starts, puts, get_starts, gets,
  Steps, here, next,
}

-- Both threads are between calls, and what is in the queue is all that was sent.
pub record IsQuiet (s : System) : Type 0 where
  pub valid : IsValid s.fifo
  pub producer_rests : s.producer ≡ resting
  pub consumer_rests : s.consumer ≡ resting
  pub order : s.sent ≡ s.received ++ contents s.fifo

quiet-IsSound : (s : System) → IsQuiet s → IsSound s
quiet-IsSound s quiet = record {
  valid = quiet.valid;
  order = quiet.order;
  putting = subst (IsPutting s.fifo) (sym quiet.producer_rests) tt;
  getting = subst (IsGetting s.fifo) (sym quiet.consumer_rests) tt;
}

Step-IsSound : (s t : System) → IsSound s → Step s t → IsSound t
Step-IsSound s t sound (put_starts buf len rests large) = put_start-IsSound s buf len large sound
Step-IsSound s t sound (puts e) = (Returns-ok (put_next-IsSound s sound) e).0
Step-IsSound s t sound (get_starts buf len rests large) = get_start-IsSound s buf len large sound
Step-IsSound s t sound (gets e) = (Returns-ok (get_next-IsSound s sound) e).0

Steps-IsSound : (s t : System) → IsSound s → Steps s t → IsSound t
Steps-IsSound s t sound here = sound
Steps-IsSound s t sound (next {t = u} before step) =
    Step-IsSound u t (Steps-IsSound s u sound before) step

-- With one thread that puts and one that gets, from a valid queue between calls, in every order of
-- their steps: what has been received is the start of what has been sent, byte for byte, the rest is
-- what the queue holds, and that is no more than its size. This includes indices that wrap.
pub Steps-prefix :
    (s t : System)
    → IsQuiet s
    → Steps s t
    → (t.sent ≡ t.received ++ contents t.fifo) × (used t.fifo ≤ t.fifo.size)
Steps-prefix s t quiet steps =
    let sound = Steps-IsSound s t (quiet-IsSound s quiet) steps in (sound.order, sound.valid.fits)

left-bound :
    (s : System)
    → IsSound s
    → (left s.producer ≤ s.fifo.size + 1) × (left s.consumer ≤ s.fifo.size + 1)
left-bound s sound = (puts_left s.producer sound.putting, gets_left s.consumer sound.getting)
  where
    puts_left : (p : Stage) → IsPutting s.fifo p → left p ≤ s.fifo.size + 1
    puts_left resting g = omega arith
    puts_left (moving buf n i) (room, large, near, same) = omega arith

    gets_left : (c : Stage) → IsGetting s.fifo c → left c ≤ s.fifo.size + 1
    gets_left resting g = omega arith
    gets_left (moving buf n i) (some_used, large, near, same) = omega (arith, sound.valid.fits)

-- No thread ever waits for the other: from a valid queue between calls, in every order of the steps,
-- each of the two can go on, inside its arrays, and one step less is then left of its call, of at
-- most the size and one.
pub Steps-wait_free :
    (s t : System)
    → IsQuiet s
    → Steps s t
    → Returns (put_next t) (λ u. left u.producer ≡ left t.producer - 1)
      × Returns (get_next t) (λ u. left u.consumer ≡ left t.consumer - 1)
      × (left t.producer ≤ t.fifo.size + 1)
      × (left t.consumer ≤ t.fifo.size + 1)
Steps-wait_free s t quiet steps =
    let sound = Steps-IsSound s t (quiet-IsSound s quiet) steps in
    let (u, put, (us, less)) = put_next-IsSound t sound in
    let (w, get, (ws, fewer)) = get_next-IsSound t sound in
    let (few_puts, few_gets) = left-bound t sound in
    ((u, put, less), (w, get, fewer), few_puts, few_gets)
