-- ===== src/IntrusiveList/Removal.antt =====
-- Removal from a list of clib/list.h and its traversal.
use chenghualearning.Common.{
  ℕ, zero, suc, ◌<◌, ◌≡◌, refl, false, Option, none, some, List, [], ◌∷◌, ◌++◌, arith, ◌==◌, ok,
  Returns, length,
}
use chenghualearning.IntrusiveList.{
  Ptr, Store, write, get_prev, get_next, set_prev, set_next, list_init, list_del, list_empty,
  list_remove_head, for_each, list_for_each,
}
use chenghualearning.IntrusiveList.Linked.{
  has, Distinct, Next, Linked, IsRing, Linked-frame, Linked-append, Linked-split, last_of,
  Linked-last, has-last_of, Linked-retarget, first_of, Linked-first, has-append, Distinct-remove,
  Distinct-left, append_nil, has-first_of, Distinct-right, Distinct-apart,
}
use chenghualearning.IntrusiveList.Ops.{Spares}

-- The stores of `list_del` between two nodes.
abbrev removed : Store → Ptr → Ptr → Ptr → Store
removed s before after node = record {
  prev = write (write s.prev after before) node node;
  next = write (write s.next before after) node node;
}

list_del-removed :
    (s : Store) (before after node : Ptr)
    → Next s before node
    → Next s node after
    → (before == node) ≡ false
    → (after == node) ≡ false
    → list_del s node ≡ ok (removed s before after node)
unfolding list_del get_prev get_next set_prev set_next list_init
list_del-removed s before after node (en, ep) (fn, fp) b a = ground (arith, en, ep, fn, fp)

-- The links around a node that goes, on either side.
Linked-removed :
    (s : Store) (head : Ptr) (ys : List Ptr) (node : Ptr) (zs : List Ptr)
    → Distinct (head ∷ (ys ++ node ∷ zs))
    → Linked s head ys node
    → Linked s node zs head
    → Linked (removed s (last_of head ys) (first_of zs head) node) head (ys ++ zs) head
Linked-removed s head ys node [] d l m =
    let left = Distinct-left (head ∷ ys) (node ∷ []) d in
    let away = left.0 in
    let apart = λ (p : Ptr). Distinct-apart (head ∷ ys) (node ∷ []) p d in
    let inside = has-last_of head ys in
    rw (append_nil ys) (
      Linked-retarget s _ head ys node head left (λ p h e. ground (arith, apart p h))
        (λ p h. ground (arith, apart p)) (ground (arith, apart (last_of head ys), apart head)) l)
Linked-removed s head ys node (z ∷ zs) d l (here, m) =
    let s' = removed s (last_of head ys) z node in
    let apart = λ (p : Ptr). Distinct-apart (head ∷ ys) (node ∷ z ∷ zs) p d in
    let (out, (outz, dz)) = Distinct-right (head ∷ ys) (node ∷ z ∷ zs) d in
    let inside = has-last_of head ys in
    Linked-append s' head ys z zs head
      (Linked-retarget s s' head ys node z (Distinct-left (head ∷ ys) (node ∷ z ∷ zs) d)
        (λ p h e. ground (arith, apart p h)) (λ p h. ground (arith, apart p))
        (ground (arith, apart (last_of head ys), apart head)) l)
      (Linked-frame s s' z zs head (λ p h. ground (arith, apart (last_of head ys)))
        (λ p h. ground (arith, apart head)) m)

-- `list_del` of a node anywhere in a ring leaves the ring of the others in order, the node as an
-- empty ring of its own and out of the other, and the nodes outside as they were.
pub list_del_lem :
    (s : Store) (head : Ptr) (ys : List Ptr) (node : Ptr) (zs : List Ptr)
    → IsRing s head (ys ++ node ∷ zs)
    → Returns (list_del s node) (λ s'.
      IsRing s' head (ys ++ zs)
      × IsRing s' node []
      × (has node (head ∷ (ys ++ zs)) ≡ false)
      × Spares s s' (head ∷ (ys ++ node ∷ zs)))
list_del_lem s head ys node zs ring =
    let (l, m) = Linked-split s head ys node zs head ring.linked in
    let d = ring.distinct in
    let (d', out) = Distinct-remove (head ∷ ys) node zs d in
    let clear = has-append node (head ∷ ys) zs in
    let begin = has-first_of zs head in
    let before = last_of head ys in
    let after = first_of zs head in
    let inside = has-last_of head ys in
    (
      removed s before after node,
      list_del-removed s before after node (Linked-last s head ys node l)
          (Linked-first s node zs head m) (ground (arith, clear)) (ground (arith, clear)),
      (
        record { linked = Linked-removed s head ys node zs d l m; distinct = d' },
        record { linked = ground arith; distinct = ground arith },
        out,
        λ p away. ground (arith, has-append p (head ∷ ys) (node ∷ zs)),
      ),
    )

-- On an empty ring `list_remove_head` gives nothing; otherwise the head of the ring, unlinked.
abbrev pub Popped : Ptr → List Ptr → Option Ptr × Store → Type 0
Popped head [] (node, s') = (node ≡ none) × IsRing s' head []
Popped head (x ∷ xs) (node, s') =
    (node ≡ some x) × IsRing s' head xs × IsRing s' x [] × (has x (head ∷ xs) ≡ false)

-- `list_remove_head` returns `NULL` and changes nothing on an empty ring, and otherwise the first
-- node, which it takes out; it touches no node outside.
pub list_remove_head_lem :
    (s : Store) (head : Ptr) (xs : List Ptr)
    → IsRing s head xs
    → Returns (list_remove_head s head) (λ r. Popped head xs r × Spares s (r.1) (head ∷ xs))
unfolding list_remove_head list_empty get_next
list_remove_head_lem s head [] ring =
    let linked = ring.linked in ((none, s), ground arith, ((refl, ring), λ p away. (refl, refl)))
list_remove_head_lem s head (x ∷ xs) ring =
    let ((here, back), l) = ring.linked in
    let distinct = ring.distinct in
    let (s', e, (whole, single, out, spares)) = list_del_lem s head [] x xs ring in
    ((some x, s'), ground (arith, e), ((refl, whole, single, out), spares))

for_each_lem :
    (fuel : ℕ) (s : Store) (head a : Ptr) (xs : List Ptr)
    → Linked s a xs head
    → has head xs ≡ false
    → length xs < fuel
    → for_each fuel s head (first_of xs head) ≡ ok xs
unfolding for_each get_next
for_each_lem zero s head a xs l out enough = elim enough [ ]
for_each_lem (suc fuel) s head a [] l out enough = ground arith
for_each_lem (suc fuel) s head a (x ∷ xs) (here, l) out enough =
    let (next, prev) = Linked-first s x xs head l in
    let rest = for_each_lem fuel s head x xs l (ground arith) (ground arith) in
    ground (arith, next, rest)

-- `list_for_each` visits the nodes of a ring in order, each once, and stops: as many rounds as
-- there are nodes, and one more test, are enough.
pub list_for_each_lem :
    (fuel : ℕ) (s : Store) (head : Ptr) (xs : List Ptr)
    → IsRing s head xs
    → length xs < fuel
    → list_for_each fuel s head ≡ ok xs
unfolding list_for_each get_next
list_for_each_lem fuel s head xs ring enough =
    let (next, prev) = Linked-first s head xs head ring.linked in
    let apart = ring.distinct in
    ground (arith, next, for_each_lem fuel s head head xs ring.linked apart.0 enough)
