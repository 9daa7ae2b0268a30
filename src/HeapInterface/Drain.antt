-- ===== src/HeapInterface/Drain.antt =====
-- The life of a heap of clib/heap_interface.c: created, filled node by node, taken down.
use chenghualearning.Common.{
  suc, ◌+◌, ◌<◌, ◌≤◌, ◌≡◌, refl, ◌∙◌, true, List, [], ◌∷◌, length, arith, Run, ok, Returns, ◌>>=◌,
}
use chenghualearning.Common.Int.{ℤ}
use chenghualearning.Common.Cint.{int_max}
use chenghualearning.HeapInterface.{Ptr, Heap, new_heap, heap_add, heap_destruct}
use chenghualearning.HeapInterface.Tree.{Tree, leaf, count}
use chenghualearning.HeapInterface.Place.{is_self}
use chenghualearning.HeapInterface.Order.{IsOrder}
use chenghualearning.HeapInterface.Valid.{IsValid}
use chenghualearning.HeapInterface.Insert.{heap_add_lem}
use chenghualearning.HeapInterface.Destroy.{occurs, Descending, new_heap-IsValid, heap_destruct_lem}

-- The nodes are added from the first on, and then the heap is taken down.
unfoldable pub add_all : (cmp : Ptr → Ptr → ℤ) → Heap → List Ptr → Run Heap
add_all cmp h [] = ok h
add_all cmp h (x ∷ xs) = do h ← heap_add cmp h x; add_all cmp h xs

unfoldable pub life : (cmp : Ptr → Ptr → ℤ) → Heap → List Ptr → Run (List Ptr × Heap)
life cmp h xs = do h ← add_all cmp (new_heap h) xs; heap_destruct cmp (suc (length xs)) h

-- What adding the nodes leaves.
record Filled (cmp : Ptr → Ptr → ℤ) (h : Heap) (t : Tree) (xs : List Ptr) (h' : Heap) : Type 0 where
  tree : Tree
  valid : IsValid cmp h' tree
  nodes : (q : Ptr) → count q tree ≡ occurs q xs + count q t
  counted : h'.cnt ≡ h.cnt + length xs

module _ (cmp : Ptr → Ptr → ℤ) (order : IsOrder cmp) where
  fills :
      (h : Heap) (t : Tree) (xs : List Ptr)
      → IsValid cmp h t
      → h.cnt + length xs ≤ int_max
      → ((q : Ptr) → occurs q xs + count q t ≤ 1)
      → ((q : Ptr) → 0 < occurs q xs → (0 < q) × (h.live q ≡ true))
      → Returns (add_all cmp h xs) (Filled cmp h t xs)
  unfolding add_all occurs
  fills h t [] v room once live =
      (h, refl, record { tree = t; valid = v; nodes = λ q. omega arith; counted = omega arith })
  fills h t (x ∷ xs) v room once live =
      let (px, lx) = live x (is_self x _) in
      let (g, run, a) =
        heap_add_lem cmp order h t x v (omega arith) px lx (omega (arith, once x, is_self x 0)) in
      let (h', rest, f) =
        fills g a.tree xs a.valid (omega (arith, a.counted)) (λ q. omega (arith, once q, a.nodes q))
          (λ q n.
            let (pq, lq) = live q (omega arith) in
            let (same, el, er, eu) = a.others q pq (omega (arith, once q)) in (pq, same ∙ lq)) in
      (
        h',
        rw run rest,
        record {
          tree = f.tree;
          valid = f.valid;
          nodes = λ q. omega (arith, f.nodes q, a.nodes q);
          counted = omega (arith, f.counted, a.counted);
        },
      )

  -- Different live nodes that are added to a heap just created, at most INT_MAX of them, come out
  -- when it is taken down: each of them once, in the order of the comparison.
  pub life_lem :
      (h : Heap) (xs : List Ptr)
      → length xs ≤ int_max
      → ((q : Ptr) → occurs q xs ≤ 1)
      → ((q : Ptr) → 0 < occurs q xs → (0 < q) × (h.live q ≡ true))
      → Returns (life cmp h xs) (λ (nodes, h').
        ((q : Ptr) → occurs q nodes ≡ occurs q xs) × Descending cmp nodes × (h'.cnt ≡ 0))
  unfolding new_heap count life occurs
  life_lem h xs room once live =
      let (h', run, f) =
        fills (new_heap h) leaf xs (new_heap-IsValid cmp h) (omega arith)
          (λ q. omega (arith, once q)) live in
      let ((nodes, h''), rest, (all, sorted, root, none)) =
        heap_destruct_lem cmp order (suc (length xs)) h' f.tree f.valid
          (omega (arith, f.counted)) in
      ((nodes, h''), rw run rest, (λ q. omega (arith, all q, f.nodes q), sorted, none))
