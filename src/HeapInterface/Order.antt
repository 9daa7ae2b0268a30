-- ===== src/HeapInterface/Order.antt =====
-- The heap order of the trees of clib/heap_interface.c, by a comparison that is at least 0 where
-- the first node is not below the second.
use chenghualearning.Common.{ℕ, ◌<◌, ◌≡◌, sym, subst, ◌⊎◌, inl, inr, true, false, Bool-cases, arith}
use chenghualearning.Common.Int.{ℤ}
use chenghualearning.HeapInterface.{Ptr, nonneg}
use chenghualearning.HeapInterface.Tree.{
  Tree, leaf, node, Place, top, left_of, right_of, plug, root_of, is, count,
}
use chenghualearning.HeapInterface.Place.{is_self}
use chenghualearning.HeapInterface.Turn.{one_of}
use chenghualearning.HeapInterface.Sift.{sift, climb, choose-cases}

same_node : (a q : ℕ) → 0 < is a q → q ≡ a
same_node a q m = ground arith

root_counted : (a : Ptr) (l r : Tree) → 0 < count a (node a l r)
unfolding count
root_counted a l r = is_self a _

-- A comparison that orders the nodes.
pub record IsOrder (cmp : Ptr → Ptr → ℤ) : Type 0 where
  pub total : (a b : Ptr) → nonneg (cmp a b) ≡ false → nonneg (cmp b a) ≡ true
  pub transitive :
      (a b c : Ptr) → nonneg (cmp a b) ≡ true → nonneg (cmp b c) ≡ true → nonneg (cmp a c) ≡ true

module _ (cmp : Ptr → Ptr → ℤ) where
  -- The root of `t` is not above `a`.
  abbrev pub Below : Ptr → Tree → Type 0
  Below a leaf = Unit {0}
  Below a (node b l r) = nonneg (cmp a b) ≡ true

  unfoldable pub IsHeap : Tree → Type 0
  IsHeap leaf = Unit {0}
  IsHeap (node a l r) = Below a l × Below a r × IsHeap l × IsHeap r

  abbrev pub Over : Place → Tree → Type 0
  Over top t = Unit {0}
  Over (left_of p r c) t = Below p t
  Over (right_of p l c) t = Below p t

  unfoldable pub IsHeapAround : Place → Type 0
  IsHeapAround top = Unit {0}
  IsHeapAround (left_of p r c) = Below p r × IsHeap r × Over c (node p leaf leaf) × IsHeapAround c
  IsHeapAround (right_of p l c) = Below p l × IsHeap l × Over c (node p leaf leaf) × IsHeapAround c

  pub Over-leaf : (c : Place) → Over c leaf
  Over-leaf top = tt
  Over-leaf (left_of p r c) = tt
  Over-leaf (right_of p l c) = tt

  -- Only the root of the tree matters to what is over it.
  Over-root : (c : Place) (a : Ptr) (l r l' r' : Tree) → Over c (node a l r) → Over c (node a l' r')
  Over-root top a l r l' r' o = tt
  Over-root (left_of p s c) a l r l' r' o = o
  Over-root (right_of p s c) a l r l' r' o = o

  pub IsHeap-plug :
      (t : Tree) (c : Place) → IsHeap t → IsHeapAround c → Over c t → IsHeap (plug t c)
  unfolding IsHeap IsHeapAround plug
  IsHeap-plug t top i j o = i
  IsHeap-plug t (left_of p r c) i (b, ir, op, j) o =
      IsHeap-plug (node p t r) c (o, b, i, ir) j (Over-root c p leaf leaf t r op)
  IsHeap-plug t (right_of p l c) i (b, il, op, j) o =
      IsHeap-plug (node p l t) c (b, o, il, i) j (Over-root c p leaf leaf l t op)

  pub IsHeap-unplug :
      (t : Tree) (c : Place) → IsHeap (plug t c) → IsHeap t × IsHeapAround c × Over c t
  unfolding IsHeap IsHeapAround plug
  IsHeap-unplug t top i = (i, tt, tt)
  IsHeap-unplug t (left_of p r c) i =
      let ((o, b, it, ir), j, op) = IsHeap-unplug (node p t r) c i in
      (it, (b, ir, Over-root c p t r leaf leaf op, j), o)
  IsHeap-unplug t (right_of p l c) i =
      let ((b, o, il, it), j, op) = IsHeap-unplug (node p l t) c i in
      (it, (b, il, Over-root c p l t leaf leaf op, j), o)

  module _ (order : IsOrder cmp) where
    Below-trans : (a b : Ptr) (t : Tree) → nonneg (cmp a b) ≡ true → Below b t → Below a t
    Below-trans a b leaf e i = tt
    Below-trans a b (node c l r) e i = order.transitive a b c e i

    Over-trans : (c : Place) (a : Ptr) (t : Tree) → Over c (node a leaf leaf) → Below a t → Over c t
    Over-trans top a t o b = tt
    Over-trans (left_of p s c) a t o b = Below-trans p a t o b
    Over-trans (right_of p s c) a t o b = Below-trans p a t o b

    -- A node that is added below a place makes a heap.
    pub climb-IsHeap :
        (x : Ptr) (l r : Tree) (c : Place)
        → IsHeap (node x l r)
        → IsHeapAround c
        → Over c l
        → Over c r
        → IsHeap (climb cmp x l r c)
    unfolding IsHeap IsHeapAround climb
    climb-IsHeap x l r top i j ol or = i
    climb-IsHeap x l r (left_of p s c) (bl, br, il, ir) (b, is_, op, j) ol or =
        elim (Bool-cases (nonneg (cmp p x))) [
          | inl e ↦
              rw (e, climb)
                (IsHeap-plug (node x l r) (left_of p s c) (bl, br, il, ir) (b, is_, op, j) e)
          | inr e ↦
              rw (e, climb)
                (let up = order.total p x e in
                  climb-IsHeap x (node p l r) s c
                    (up, Below-trans x p s up b, (ol, or, il, ir), is_) j
                    (Over-root c p leaf leaf l r op) (Over-trans c p s op b))
        ]
    climb-IsHeap x l r (right_of p s c) (bl, br, il, ir) (b, is_, op, j) ol or =
        elim (Bool-cases (nonneg (cmp p x))) [
          | inl e ↦
              rw (e, climb)
                (IsHeap-plug (node x l r) (right_of p s c) (bl, br, il, ir) (b, is_, op, j) e)
          | inr e ↦
              rw (e, climb)
                (let up = order.total p x e in
                  climb-IsHeap x s (node p l r) c
                    (Below-trans x p s up b, up, is_, (ol, or, il, ir)) j (Over-trans c p s op b)
                    (Over-root c p leaf leaf l r op))
        ]

    -- What is over `x` and over the children is over what `sift` makes of them.
    sift-Below :
        (z x y : Ptr) (l r : Tree)
        → nonneg (cmp z x) ≡ true
        → Below z l
        → Below z r
        → Below z (sift cmp x (node y l r))
    unfolding sift
    sift-Below z x y l r e bl br = elim (choose-cases cmp x (root_of l) (root_of r)) [
      | inl (c, a, b) ↦ rw (c, sift) e
      | inr (inl (c, some, a, b)) ↦ rw (c, sift) (at_root_of z l some bl)
      | inr (inr (c, some, a, b)) ↦ rw (c, sift) (at_root_of z r some br)
    ]
      where
        at_root_of :
            (z : Ptr) (t : Tree) → 0 < root_of t → Below z t → nonneg (cmp z (root_of t)) ≡ true
        at_root_of z leaf some b = absurd (omega arith)
        at_root_of z (node a l r) some b = b

    under_counted :
        (a q : Ptr) (t : Tree) → Below a t → IsHeap t → 0 < count q t → nonneg (cmp a q) ≡ true
    unfolding IsHeap count
    under_counted a q leaf b i n = absurd (omega arith)
    under_counted a q (node c l r) b (bl, br, il, ir) n =
        elim (one_of (is c q) (count q l) (count q r) n) [
          | inl m ↦ subst (λ x. nonneg (cmp a x) ≡ true) (sym (same_node c q m)) b
          | inr (inl m) ↦ order.transitive a c q b (under_counted c q l bl il m)
          | inr (inr m) ↦ order.transitive a c q b (under_counted c q r br ir m)
        ]

    from_root_of :
        (z : Ptr) (t : Tree)
        → ((q : Ptr) → 0 < count q t → 0 < q)
        → (0 < root_of t → nonneg (cmp z (root_of t)) ≡ true)
        → Below z t
    from_root_of z leaf pos some = tt
    from_root_of z (node a l r) pos some = some (pos a (root_counted a l r))

    sift_under :
        (x : Ptr) (t : Tree)
        → 0 < root_of t
        → IsHeap t
        → nonneg (cmp (root_of t) x) ≡ true
        → Below (root_of t) (sift cmp x t)
    unfolding IsHeap
    sift_under x leaf some i e = absurd (omega arith)
    sift_under x (node a l r) some (bl, br, il, ir) e = sift-Below a x a l r e bl br

    -- The tree with another node for its root becomes a heap.
    pub sift-IsHeap :
        (x : Ptr) (t : Tree)
        → ((q : Ptr) → 0 < count q t → 0 < q)
        → IsHeap t
        → IsHeap (sift cmp x t)
    unfolding IsHeap sift count
    sift-IsHeap x leaf pos i = tt
    sift-IsHeap x (node y l r) pos (bl, br, il, ir) =
        let posl = λ (q : Ptr) (n : 0 < count q l). pos q (omega arith) in
        let posr = λ (q : Ptr) (n : 0 < count q r). pos q (omega arith) in
        elim (choose-cases cmp x (root_of l) (root_of r)) [
          | inl (c, a, b) ↦ rw (c, sift) (from_root_of x l posl a, from_root_of x r posr b, il, ir)
          | inr (inl (c, some, a, b)) ↦
              rw (c, sift)
                (let up = order.total x (root_of l) a in
                  (
                    sift_under x l some il up,
                    from_root_of (root_of l) r posr (λ n. elim (b n) [
                      | inl e ↦ order.transitive (root_of l) x (root_of r) up e
                      | inr e ↦ e
                    ]),
                    sift-IsHeap x l posl il,
                    ir,
                  ))
          | inr (inr (c, some, a, b)) ↦
              rw (c, sift)
                (let up = order.total x (root_of r) a in
                  (
                    from_root_of (root_of r) l posl (λ n. elim (b n) [
                      | inl e ↦ order.transitive (root_of r) x (root_of l) up e
                      | inr e ↦ order.total (root_of l) (root_of r) e
                    ]),
                    sift_under x r some ir up,
                    il,
                    sift-IsHeap x r posr ir,
                  ))
        ]

    -- The root of a heap is above all its nodes.
    pub root_above :
        (a q : Ptr) (l r : Tree)
        → IsHeap (node a l r)
        → 0 < count q (node a l r)
        → (q ≡ a) ⊎ (nonneg (cmp a q) ≡ true)
    unfolding IsHeap count
    root_above a q l r (bl, br, il, ir) n = elim (one_of (is a q) (count q l) (count q r) n) [
      | inl m ↦ inl (same_node a q m)
      | inr (inl m) ↦ inr (under_counted a q l bl il m)
      | inr (inr m) ↦ inr (under_counted a q r br ir m)
    ]
