-- ===== src/Heap/Tests.antt =====
-- Runs of the heap of clib/heap.c.
use chenghualearning.Common.{
  ℕ, zero, suc, ◌+◌, ◌≡◌, refl, true, false, some, List, [], ◌∷◌, ◌++◌, arith, ◌==◌, if◌then◌else◌,
  Run, ok, fault, out_of_fuel, Returns, ◌>>=◌,
}
use chenghualearning.Common.Int.{ℤ, pos}
use chenghualearning.Heap.{
  Status, heap_ok, heap_err_empty, Heap, by_val, insert, heap_add, heap_get, my_heap_cmp,
}
use chenghualearning.Heap.Order.{my_heap_cmp-IsCompare}
use chenghualearning.Heap.Ops.{Stored, Fetched, heap_add-Stored, heap_get-Fetched}
use chenghualearning.HeapInterface.{Ptr}
use chenghualearning.HeapInterface
use chenghualearning.HeapInterface.Tree.{Tree, leaf, node, IsTree, count}
use chenghualearning.HeapInterface.Complete.{Fits}
use chenghualearning.HeapInterface.Order.{IsHeap}
use chenghualearning.HeapInterface.Valid.{IsValid}

-- 3 over 8, in the nodes 7 and 5
abbrev two_values : Heap
two_values = record {
  nodes = record {
    parent = λ q. if q == 5 then 7 else 0;
    left = λ q. if q == 7 then 5 else 0;
    right = λ q. 0;
    live = λ q. if q == 5 then true else q == 7;
    root = 7;
    cnt = 2;
  };
  val = λ q. if q == 7 then pos 3 else pos 8;
}

abbrev tree_of_values : Tree
tree_of_values = node 7 (node 5 leaf leaf) leaf

two_values-IsValid : IsValid (by_val my_heap_cmp two_values.val) two_values.nodes tree_of_values
unfolding IsTree Fits count IsHeap my_heap_cmp
two_values-IsValid = record {
  tree = (omega arith, refl, refl, refl, refl, (omega arith, refl, refl, refl, refl, tt, tt), tt);
  root_eq = refl;
  fits = (omega arith, (omega arith, omega arith, omega arith), omega arith);
  small = omega arith;
  once = λ q. ground arith;
  heap = (refl, tt, (tt, tt, tt, tt), tt);
}

heap_add-Stored_example :
    Returns
      (heap_add my_heap_cmp (some 6) two_values (pos 1))
      (Stored my_heap_cmp two_values tree_of_values 6 (pos 1))
unfolding count
heap_add-Stored_example =
    heap_add-Stored my_heap_cmp two_values tree_of_values 6 (pos 1) my_heap_cmp-IsCompare
      two_values-IsValid (omega arith) (omega arith) refl

heap_get-Fetched_example :
    Returns
      (heap_get my_heap_cmp two_values (pos 0))
      (Fetched my_heap_cmp two_values tree_of_values)
heap_get-Fetched_example =
    heap_get-Fetched my_heap_cmp two_values 7 (node 5 leaf leaf) leaf (pos 0) my_heap_cmp-IsCompare
      two_values-IsValid

abbrev blank : Heap
blank = record {
  nodes = record {
    parent = λ q. 0;
    left = λ q. 0;
    right = λ q. 0;
    live = λ q. false;
    root = 0;
    cnt = 0;
  };
  val = λ q. pos 0;
}

-- `pre_traverse`, as the values that it prints.
unfoldable pre_traverse : (fuel : ℕ) → Heap → Ptr → Run (List ℤ)
pre_traverse zero s p = fault out_of_fuel
pre_traverse (suc fuel) s p = elim (p == 0) [
  | true ↦ ok []
  | false ↦ (do
    l ← HeapInterface.get_left s.nodes p
    below_left ← pre_traverse fuel s l
    r ← HeapInterface.get_right s.nodes p
    below_right ← pre_traverse fuel s r
    ok (s.val p ∷ (below_left ++ below_right)))
]

-- The loops of `main`: the value `i` goes into the node `i`, and what comes out is collected.
unfoldable fill : (rounds i : ℕ) → Heap → Run Heap
fill zero i s = ok s
fill (suc rounds) i s = do
  (status, s) ← heap_add my_heap_cmp (some i) s (pos i)
  fill rounds (i + 1) s

unfoldable drain : (rounds : ℕ) → Heap → ℤ → Run (List (Status × ℤ))
drain zero s v = ok []
drain (suc rounds) s v = do
  (status, v, s) ← heap_get my_heap_cmp s v
  rest ← drain rounds s v
  ok ((status, v) ∷ rest)

unfoldable main : (num : ℕ) → Run (List ℤ × List (Status × ℤ))
main num = do
  s ← fill num 1 blank
  printed ← pre_traverse (suc num) s s.nodes.root
  out ← drain (suc num) s (pos 0)
  ok (printed, out)

main_of_ten :
    main 10
    ≡ ok (
      pos 1 ∷ pos 2 ∷ pos 4 ∷ pos 8 ∷ pos 9 ∷ pos 5 ∷ pos 10 ∷ pos 3 ∷ pos 6 ∷ pos 7 ∷ [],
      (heap_ok, pos 1)
          ∷ (heap_ok, pos 2)
          ∷ (heap_ok, pos 3)
          ∷ (heap_ok, pos 4)
          ∷ (heap_ok, pos 5)
          ∷ (heap_ok, pos 6)
          ∷ (heap_ok, pos 7)
          ∷ (heap_ok, pos 8)
          ∷ (heap_ok, pos 9)
          ∷ (heap_ok, pos 10)
          ∷ (heap_err_empty, pos 10)
          ∷ [],
    )
unfolding main fill drain pre_traverse heap_add heap_get my_heap_cmp HeapInterface.get_left
    HeapInterface.get_right HeapInterface.get_parent HeapInterface.set_left HeapInterface.set_right
    HeapInterface.set_parent insert HeapInterface.adopt HeapInterface.relink
    HeapInterface.offset_loop HeapInterface.heap_get_offset HeapInterface.descend
    HeapInterface.take_place HeapInterface.swap_up HeapInterface.exchange_left
    HeapInterface.exchange_right HeapInterface.up_loop HeapInterface.heap_adjust_up
    HeapInterface.choose HeapInterface.down_loop HeapInterface.heap_adjust_down
    HeapInterface.replace_root
main_of_ten = refl
