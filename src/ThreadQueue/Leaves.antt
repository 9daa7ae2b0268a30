-- ===== src/ThreadQueue/Leaves.antt =====
-- What `main` of clib/thread_queue.c waits for.
use chenghualearning.Common.{◌≡◌, refl, ap, ◌∙◌, true, false, List, [], ◌∷◌, ◌++◌, arith, ◌==◌, ok}
use chenghualearning.IntrusiveList.{Ptr, Store, get_next, list_empty}
use chenghualearning.IntrusiveList.Linked.{IsRing}
use chenghualearning.ThreadQueue.{System, Steps, main_poll}
use chenghualearning.ThreadQueue.Valid.{in_hand, IsValid}
use chenghualearning.ThreadQueue.Drain.{Steps-order}

empty-ring :
    (s : Store) (head : Ptr) (xs : List Ptr)
    → IsRing s head xs
    → list_empty s head ≡ ok true
    → xs ≡ []
unfolding list_empty get_next
empty-ring s head [] ring e = refl
empty-ring s head (x ∷ xs) ring e =
    let (here, l) = ring.linked in
    let (apart, d) = ring.distinct in
    let other : (x == head) ≡ false = ground (arith, apart) in
    absurd (ground (arith, here, other, e))

append-empty : (xs : List Ptr) → xs ++ [] ≡ xs
append-empty [] = refl
append-empty (x ∷ xs) = ap (λ ys. x ∷ ys) (append-empty xs)

-- In every state that threads can reach from a valid one and in which `main` leaves its loop, the
-- tasks pushed are those that ran and, last, the one in the hands of the worker, if any. `main` does
-- not wait for that one.
pub Steps-leaves :
    (s s' : System) (xs : List Ptr)
    → IsValid s xs
    → Steps s s'
    → main_poll s' ≡ ok true
    → s'.pushed ≡ s'.executed ++ in_hand s'.worker
unfolding main_poll
Steps-leaves s s' xs v steps e =
    let (ys, ring, order, due) = Steps-order s s' xs v steps in
    let none_left = empty-ring s'.store s'.tasks ys ring e in
    order
    ∙ ap (λ zs. s'.executed ++ (in_hand s'.worker ++ zs)) none_left
    ∙ ap (λ zs. s'.executed ++ zs) (append-empty (in_hand s'.worker))
