-- ===== src/HeapInterface/Destroy.antt =====
-- What `heapDestruct` of clib/heap_interface.c does: the heap from its creation to its end.
use chenghualearning.Common.{
  ℕ, zero, suc, ◌+◌, ◌<◌, ◌≡◌, refl, ap, ◌∙◌, inl, inr, true, false, List, [], ◌∷◌, arith, ◌==◌, ok,
  Returns,
}
use chenghualearning.Common.Int.{ℤ}
use chenghualearning.HeapInterface.{Ptr, Heap, nonneg, new_heap, heap_get, heap_destruct}
use chenghualearning.HeapInterface.Tree.{Tree, leaf, node, is, count, IsTree}
use chenghualearning.HeapInterface.Place.{is_self}
use chenghualearning.HeapInterface.Complete.{Fits}
use chenghualearning.HeapInterface.Order.{IsOrder, IsHeap}
use chenghualearning.HeapInterface.Valid.{IsValid}
use chenghualearning.HeapInterface.Climb.{not_null}
use chenghualearning.HeapInterface.Take.{heap_get_lem}

-- How often a node is in a list.
unfoldable pub occurs : Ptr → List Ptr → ℕ
occurs q [] = 0
occurs q (a ∷ rest) = is a q + occurs q rest

-- Each node comes before all that it is above.
unfoldable pub Descending : (cmp : Ptr → Ptr → ℤ) → List Ptr → Type 0
Descending cmp [] = Unit
Descending cmp (a ∷ rest) =
    ((q : Ptr) → 0 < occurs q rest → nonneg (cmp a q) ≡ true) × Descending cmp rest

-- All nodes of `t` were taken out, once each and in order, and the heap is empty.
abbrev pub Emptied : (cmp : Ptr → Ptr → ℤ) → Tree → List Ptr × Heap → Type 0
Emptied cmp t (nodes, h') =
    ((q : Ptr) → occurs q nodes ≡ count q t) × Descending cmp nodes × (h'.root ≡ 0) × (h'.cnt ≡ 0)

-- The heap that `heapCreate` makes is valid, whatever the caller's nodes hold.
pub new_heap-IsValid : (cmp : Ptr → Ptr → ℤ) (h : Heap) → IsValid cmp (new_heap h) leaf
unfolding new_heap Fits IsTree IsHeap count
new_heap-IsValid cmp h = record {
  tree = tt;
  root_eq = refl;
  fits = omega arith;
  small = omega arith;
  once = λ q. omega arith;
  heap = tt;
}

module _ (cmp : Ptr → Ptr → ℤ) where
  ends :
      (fuel : ℕ) (h h' : Heap)
      → heap_get cmp h ≡ ok (0, h')
      → heap_destruct cmp (suc fuel) h ≡ ok ([], record h' { root = 0; cnt = 0 })
  unfolding heap_destruct
  ends fuel h h' run = rw run refl

  goes_on :
      (fuel : ℕ) (h h' h'' : Heap) (a : Ptr) (nodes : List Ptr)
      → heap_get cmp h ≡ ok (a, h')
      → (a == 0) ≡ false
      → heap_destruct cmp fuel h' ≡ ok (nodes, h'')
      → heap_destruct cmp (suc fuel) h ≡ ok (a ∷ nodes, h'')
  unfolding heap_destruct
  goes_on fuel h h' h'' a nodes run some rest = ground (arith, run, some, rest)

  -- With fuel for more rounds than the heap has nodes, taking a valid heap down returns: all its
  -- nodes come out, once each, in the order of the comparison, and the heap is empty.
  pub heap_destruct_lem :
      (order : IsOrder cmp) (fuel : ℕ) (h : Heap) (t : Tree)
      → IsValid cmp h t
      → h.cnt < fuel
      → Returns (heap_destruct cmp fuel h) (Emptied cmp t)
  unfolding occurs Descending count IsTree
  heap_destruct_lem order zero h t v enough = absurd (omega arith)
  heap_destruct_lem order (suc fuel) h leaf v enough =
      let ((a, h'), run, (none, same)) = heap_get_lem cmp order h leaf v in
      (
        ([], record h' { root = 0; cnt = 0 }),
        ends fuel h h' (run ∙ ap (λ b. ok (b, h')) none),
        (λ q. refl, tt, refl, refl),
      )
  heap_destruct_lem order (suc fuel) h (node b l r) v enough =
      let ((a, h'), run, (same, above, got)) = heap_get_lem cmp order h (node b l r) v in
      let ((nodes, h''), rest, (all, sorted, root, none)) =
        heap_destruct_lem order fuel h' got.tree got.valid (omega (arith, got.counted)) in
      let (pb, lb, ub, elb, erb, il, ir) = v.tree in
      let above_rest : (q : Ptr) → 0 < count q got.tree → nonneg (cmp a q) ≡ true = λ q n.
        elim (above q (omega (arith, got.nodes q))) [
          | inr e ↦ e
          | inl e ↦
              absurd
                (omega (arith, ap (λ z. count z got.tree) e, got.nodes a, v.once a, is_self a 0))
        ] in
      (
        (a ∷ nodes, h''),
        goes_on fuel h h' h'' a nodes run (ap (λ d. d == 0) same ∙ not_null b pb) rest,
        (
          λ q. omega (arith, all q, got.nodes q),
          (λ q n. above_rest q (omega (arith, all q)), sorted),
          root,
          none,
        ),
      )
