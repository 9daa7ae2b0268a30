-- ===== src/Kfifo/Refine.antt =====
-- A sequence of calls of clib/kfifo.c against a bounded queue of bytes.
use chenghualearning.Common.{
  ℕ, ◌-◌, ◌≤◌, ◌≡◌, refl, min, List, [], ◌∷◌, ◌++◌, length, take, drop, length-tabulate, Run, ok,
  ◌>>=◌,
}
use chenghualearning.Kfifo.Valid.{used, IsValid, contents}
use chenghualearning.Kfifo.Queue.{kfifo_put_lem, kfifo_get_lem}
use chenghualearning.Kfifo.{Kfifo, kfifo_put, kfifo_get}

pub data Call : Type 0 where
  put : (buf : List ℕ) → (len : ℕ) → Call
  get : (buf : List ℕ) → (len : ℕ) → Call

pub data Reply : Type 0 where
  took : ℕ → Reply
  gave : ℕ → List ℕ → Reply

pub run : Kfifo → List Call → Run (List Reply)
run f [] = ok []
run f (put buf len ∷ calls) = do
  (n, f') ← kfifo_put f buf len
  replies ← run f' calls
  ok (took n ∷ replies)
run f (get buf len ∷ calls) = do
  (n, bytes, f') ← kfifo_get f buf len
  replies ← run f' calls
  ok (gave n bytes ∷ replies)

-- A queue of at most `cap` bytes.
pub queue : ℕ → List ℕ → List Call → List Reply
queue cap q [] = []
queue cap q (put buf len ∷ calls) =
    let n = min len (cap - length q) in took n ∷ queue cap (q ++ take n buf) calls
queue cap q (get buf len ∷ calls) =
    let n = min len (length q) in gave n (take n q ++ drop n buf) ∷ queue cap (drop n q) calls

-- Each length that a call gives is backed by its array.
abbrev pub AllBacked : List Call → Type 0
AllBacked [] = Unit
AllBacked (put buf len ∷ calls) = (len ≤ length buf) × AllBacked calls
AllBacked (get buf len ∷ calls) = (len ≤ length buf) × AllBacked calls

length-contents : (f : Kfifo) → length (contents f) ≡ used f
length-contents f = length-tabulate (used f) _

-- No sequence of calls tells a valid queue from the bounded queue of the bytes that it holds, also
-- where the indices wrap; none of them leaves its arrays.
pub run-queue :
    (calls : List Call) {f : Kfifo}
    → IsValid f
    → AllBacked calls
    → run f calls ≡ ok (queue f.size (contents f) calls)
unfolding run queue
run-queue [] v backed = refl
run-queue (put buf len ∷ calls) {f} v (here, rest) =
    let ((n, f'), ran, (count, bytes, valid, size)) = kfifo_put_lem v buf len here in
    rw (ran, ◌>>=◌, run-queue calls valid rest) (rw (bytes, size, count, length-contents f))
run-queue (get buf len ∷ calls) {f} v (here, rest) =
    let ((n, dest, f'), ran, (count, given, left, valid, size)) = kfifo_get_lem v buf len here in
    rw (ran, ◌>>=◌, run-queue calls valid rest) (rw (left, size, given, count, length-contents f))
