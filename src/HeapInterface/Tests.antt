-- ===== src/HeapInterface/Tests.antt =====
-- Runs of the heap of clib/heap_interface.c on nodes that are compared by their addresses.
use chenghualearning.Common.{
  ◌-◌, ◌≤◌, ◌<◌, ◌≡◌, refl, true, Bool-cases, inl, inr, List, [], ◌∷◌, arith, ◌==◌, leb,
  if◌then◌else◌, Returns,
}
use chenghualearning.Common.Int.{ℤ, pos, negsuc}
use chenghualearning.HeapInterface.{Ptr, Heap, nonneg, heap_add, heap_get, heap_destruct}
use chenghualearning.HeapInterface.Tree.{Tree, leaf, node, IsTree, count}
use chenghualearning.HeapInterface.Complete.{Fits}
use chenghualearning.HeapInterface.Order.{IsOrder, IsHeap}
use chenghualearning.HeapInterface.Valid.{IsValid}
use chenghualearning.HeapInterface.Add.{Added}
use chenghualearning.HeapInterface.Insert.{heap_add_lem}
use chenghualearning.HeapInterface.Take.{Took, heap_get_lem}
use chenghualearning.HeapInterface.Destroy.{occurs, Descending, Emptied, heap_destruct_lem}
use chenghualearning.HeapInterface.Refine.{
  Call, add, get, perform, Serves, adds, additions, perform_lem,
}
use chenghualearning.HeapInterface.Drain.{life, life_lem}

-- The greatest address is on top.
abbrev by_address : Ptr → Ptr → ℤ
by_address a b = if leb b a then pos (a - b) else negsuc (b - a - 1)

by_address-nonneg : (a b : Ptr) → nonneg (by_address a b) ≡ leb b a
by_address-nonneg a b = elim (Bool-cases (leb b a)) [ inl e ↦ rw e refl | inr e ↦ rw e refl ]

by_address-IsOrder : IsOrder by_address
by_address-IsOrder = record {
  total = λ a b e. ground (arith, e, by_address-nonneg a b, by_address-nonneg b a);
  transitive = λ a b c e f.
      ground (arith, e, f, by_address-nonneg a b, by_address-nonneg b c, by_address-nonneg a c);
}

abbrev blank : Heap
blank = record {
  parent = λ q. 0;
  left = λ q. 0;
  right = λ q. 0;
  live = λ q. true;
  root = 0;
  cnt = 0;
}

-- 7 over 5
abbrev two_nodes : Heap
two_nodes = record {
  parent = λ q. if q == 5 then 7 else 0;
  left = λ q. if q == 7 then 5 else 0;
  right = λ q. 0;
  live = λ q. true;
  root = 7;
  cnt = 2;
}

abbrev tree_of_two : Tree
tree_of_two = node 7 (node 5 leaf leaf) leaf

two_nodes-IsValid : IsValid by_address two_nodes tree_of_two
unfolding IsTree Fits count IsHeap
two_nodes-IsValid = record {
  tree = (omega arith, refl, refl, refl, refl, (omega arith, refl, refl, refl, refl, tt, tt), tt);
  root_eq = refl;
  fits = (omega arith, (omega arith, omega arith, omega arith), omega arith);
  small = omega arith;
  once = λ q. ground arith;
  heap = (refl, tt, (tt, tt, tt, tt), tt);
}

heap_add_lem_example :
    Returns (heap_add by_address two_nodes 6) (Added by_address two_nodes tree_of_two 6)
unfolding count
heap_add_lem_example =
    heap_add_lem by_address by_address-IsOrder two_nodes tree_of_two 6 two_nodes-IsValid
      (omega arith) (omega arith) refl refl

heap_get_lem_example :
    Returns (heap_get by_address two_nodes) (Took by_address two_nodes tree_of_two)
heap_get_lem_example =
    heap_get_lem by_address by_address-IsOrder two_nodes tree_of_two two_nodes-IsValid

heap_destruct_lem_example :
    Returns (heap_destruct by_address 3 two_nodes) (Emptied by_address tree_of_two)
heap_destruct_lem_example =
    heap_destruct_lem by_address by_address-IsOrder 3 two_nodes tree_of_two two_nodes-IsValid
      (omega arith)

abbrev four : List Ptr
four = 2 ∷ 9 ∷ 4 ∷ 6 ∷ []

four-once : (q : Ptr) → occurs q four ≤ 1
unfolding occurs
four-once q = ground arith

four-live : (q : Ptr) → 0 < occurs q four → (0 < q) × (blank.live q ≡ true)
unfolding occurs
four-live q n = (ground arith, refl)

life_lem_example : Returns (life by_address blank four) (λ (nodes, h').
    ((q : Ptr) → occurs q nodes ≡ occurs q four) × Descending by_address nodes × (h'.cnt ≡ 0))
life_lem_example =
    life_lem by_address by_address-IsOrder blank four (omega arith) four-once four-live

-- 6 goes between 7 and 5.
abbrev three_calls : List Call
three_calls = add 6 ∷ get ∷ get ∷ []

perform_lem_example :
    Returns
      (perform by_address two_nodes three_calls)
      (λ (taken, h'). Serves by_address (λ q. count q tree_of_two) three_calls taken)
unfolding count adds additions
perform_lem_example =
    perform_lem by_address by_address-IsOrder two_nodes tree_of_two (λ q. count q tree_of_two)
      three_calls two_nodes-IsValid (λ q. refl) (omega arith) (λ q. ground arith)
      (λ q n. (ground arith, refl))
