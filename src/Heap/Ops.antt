-- ===== src/Heap/Ops.antt =====
-- What `heapAdd` and `heapGet` of clib/heap.c do.
use chenghualearning.Common.{
  ◌+◌, ◌-◌, ◌<◌, ◌≡◌, refl, sym, ap, subst, ◌∙◌, ◌⊎◌, true, false, some, arith, ◌==◌, ok, Returns,
}
use chenghualearning.Common.Int.{ℤ}
use chenghualearning.Common.Cint.{int_max}
use chenghualearning.Heap.{
  Status, heap_ok, Heap, by_val, allocate, mark, insert, heap_add, heap_get,
}
use chenghualearning.Heap.Order.{IsCompare, by_val-IsOrder, IsHeap-agree}
use chenghualearning.HeapInterface.{
  Ptr, write, nonneg, set_left, set_right, heap_get_offset, descend, replace_root, heap_adjust_down,
  deep,
}
use chenghualearning.HeapInterface
use chenghualearning.HeapInterface.Tree.{Tree, node, is, count, IsTree}
use chenghualearning.HeapInterface.Place.{AllKept, IsTree-same}
use chenghualearning.HeapInterface.Complete.{Fits}
use chenghualearning.HeapInterface.Turn.{not_it}
use chenghualearning.HeapInterface.Climb.{not_null}
use chenghualearning.HeapInterface.Order.{root_above}
use chenghualearning.HeapInterface.Valid.{IsValid}
use chenghualearning.HeapInterface.Add.{Added, apart_new}
use chenghualearning.HeapInterface.Insert.{heap_add_lem}
use chenghualearning.HeapInterface.Get.{settle_lem}
use chenghualearning.HeapInterface.Reach.{reach_lem}

-- A node that is not in a valid heap may be allocated.
allocate-IsValid :
    (cmp : ℤ → ℤ → ℤ) (s : Heap) (t : Tree) (x : Ptr) (v : ℤ)
    → IsValid (by_val cmp s.val) s.nodes t
    → count x t ≡ 0
    → IsValid (by_val cmp (allocate cmp s x v).val) (allocate cmp s x v).nodes t
allocate-IsValid cmp s t x v w new =
    let away : (q : Ptr) → 0 < count q t → (q == x) ≡ false =
      λ q n. not_it x q (apart_new t x q new n) in
    let val' = (allocate cmp s x v).val in
    let old : (q : Ptr) → 0 < count q t → s.val q ≡ val' q =
      λ q n. (let e = away q n in ground (arith, e)) in
    record {
      tree =
          IsTree-same s.nodes (allocate cmp s x v).nodes 0 t w.tree
            (λ q n. let e = away q n in (ground (arith, e), refl, refl, refl)) w.once;
      root_eq = w.root_eq;
      fits = w.fits;
      small = w.small;
      once = w.once;
      heap =
          IsHeap-agree (by_val cmp s.val) (by_val cmp (allocate cmp s x v).val) t
            (λ a b m n. ap (λ z. cmp z (s.val b)) (old a m) ∙ ap (cmp (val' a)) (old b n)) w.heap;
    }

-- What `heapAdd` leaves: `OK`, the value in the node, and the nodes as `Added` says.
pub record Stored (cmp : ℤ → ℤ → ℤ) (s : Heap) (t : Tree) (x : Ptr) (v : ℤ) (out : Status × Heap)
    : Type 0 where
  pub status : out.0 ≡ heap_ok
  pub value : out.1.val x ≡ v
  pub values : (q : Ptr) → is x q ≡ 0 → out.1.val q ≡ s.val q
  pub added : Added (by_val cmp out.1.val) (allocate cmp s x v).nodes t x out.1.nodes

-- The same code in both files.
insert-heap_add :
    (cmp : ℤ → ℤ → ℤ) (val : Ptr → ℤ) (h : HeapInterface.Heap) (x : Ptr)
    → insert cmp val h x ≡ HeapInterface.heap_add (by_val cmp val) h x
unfolding insert HeapInterface.heap_add HeapInterface.attach
insert-heap_add cmp val h x = refl

add-run :
    (cmp : ℤ → ℤ → ℤ) (s : Heap) (x : Ptr) (v : ℤ) (h : HeapInterface.Heap)
    → HeapInterface.heap_add (by_val cmp (allocate cmp s x v).val) (allocate cmp s x v).nodes x
      ≡ ok h
    → heap_add cmp (some x) s v ≡ ok (heap_ok, record (allocate cmp s x v) { nodes = h })
unfolding heap_add
add-run cmp s x v h run =
    rw (insert-heap_add cmp (allocate cmp s x v).val (allocate cmp s x v).nodes x, run) refl

-- In a valid heap that is not full, adding a value in a node that `malloc` gives returns `OK`. The
-- node holds the value, all others keep theirs, and the heap is valid again, with a tree of the
-- nodes there were and this one, and one more in its count.
pub heap_add-Stored :
    (cmp : ℤ → ℤ → ℤ) (s : Heap) (t : Tree) (x : Ptr) (v : ℤ)
    → IsCompare cmp
    → IsValid (by_val cmp s.val) s.nodes t
    → s.nodes.cnt < int_max
    → 0 < x
    → count x t ≡ 0
    → Returns (heap_add cmp (some x) s v) (Stored cmp s t x v)
heap_add-Stored cmp s t x v order w room pos new =
    let s' = allocate cmp s x v in
    let (h, run, added) =
      heap_add_lem (by_val cmp s'.val) (by_val-IsOrder cmp s'.val order) s'.nodes t x
        (allocate-IsValid cmp s t x v w new) room pos (ground arith) new in
    (
      (heap_ok, record s' { nodes = h }),
      add-run cmp s x v h run,
      record {
        status = refl;
        value = ground arith;
        values = λ q e. let d = not_it x q e in ground (arith, d);
        added = added;
      },
    )

-- What `heapGet` returns and leaves.
pub record Fetched (cmp : ℤ → ℤ → ℤ) (s : Heap) (t : Tree) (out : Status × ℤ × Heap) : Type 0 where
  pub status : out.0 ≡ heap_ok
  pub value : out.1 ≡ s.val s.nodes.root
  pub highest :
      (q : Ptr) → 0 < count q t → (q ≡ s.nodes.root) ⊎ (nonneg (cmp out.1 (s.val q)) ≡ true)
  pub left_over : Tree
  pub valid : IsValid (by_val cmp out.2.val) out.2.nodes left_over
  pub counted : out.2.nodes.cnt + 1 ≡ s.nodes.cnt
  pub nodes : (q : Ptr) → count q t ≡ is s.nodes.root q + count q left_over
  pub freed : out.2.nodes.live s.nodes.root ≡ false
  pub values : out.2.val ≡ s.val
  pub others : (q : Ptr) → 0 < q → count q t ≡ 0 → AllKept s.nodes out.2.nodes q

-- The fields of the root as `heapGet` leaves them, with the node given back.
abbrev let_go : HeapInterface.Heap → Ptr → HeapInterface.Heap
let_go g a = record g {
  left = write g.left a 0;
  right = write g.right a 0;
  cnt = g.cnt - 1;
  live = mark g.live a false;
}

get-run :
    (cmp : ℤ → ℤ → ℤ) (s : Heap) (val : ℤ) (g h : HeapInterface.Heap) (offset last : Ptr)
    → (s.nodes.root == 0) ≡ false
    → heap_get_offset s.nodes.cnt ≡ ok offset
    → descend (deep (by_val cmp s.val)) s.nodes s.nodes.cnt offset s.nodes.root ≡ ok last
    → replace_root (by_val cmp s.val) s.nodes s.nodes.root last ≡ ok g
    → g.live s.nodes.root ≡ true
    → heap_adjust_down (by_val cmp s.val) (deep (by_val cmp s.val)) (let_go g s.nodes.root) ≡ ok h
    → heap_get cmp s val ≡ ok (heap_ok, s.val s.nodes.root, record s { nodes = h })
unfolding heap_get set_left set_right
get-run cmp s val g h offset last filled off walk rep live run =
    rw (filled, off, walk, rep, live, live, run, heap_get) refl

-- In a valid heap with nodes `heapGet` returns `OK` and the value of the root, which no value in
-- the heap is above. The node of the root is freed, and the heap is valid again, with a tree of all
-- other nodes, one less in its count, and all values as they were.
pub heap_get-Fetched :
    (cmp : ℤ → ℤ → ℤ) (s : Heap) (b : Ptr) (l r : Tree) (val : ℤ)
    → IsCompare cmp
    → IsValid (by_val cmp s.val) s.nodes (node b l r)
    → Returns (heap_get cmp s val) (Fetched cmp s (node b l r))
unfolding Fits IsTree
heap_get-Fetched cmp s b l r val order v =
    let c = by_val cmp s.val in
    let h = s.nodes in
    let (counted, fl, fr) = v.fits in
    let (pb, lb, ub, elb, erb, il, ir) = v.tree in
    let ordered = by_val-IsOrder cmp s.val order in
    let w = reach_lem c ordered h b l r v in
    let g = w.replaced in
    let (h', run, d) =
      settle_lem c h g (let_go g h.root) (node b l r) h.root ordered v counted w.state
        (λ q n.
          let e = not_it h.root q n in
          (ground (arith, e), ground (arith, e), ground (arith, e), refl))
        refl (ap (λ n. n - 1) w.state.same) in
    let filled = ap (λ p. p == 0) v.root_eq ∙ not_null b pb in
    let (live, e1, e2, e3) = d.own in
    (
      (heap_ok, s.val h.root, record s { nodes = h' }),
      get-run cmp s val g h' w.offset w.last filled w.off w.walk w.run w.state.live run,
      record {
        status = refl;
        value = refl;
        highest = λ q n.
            subst (λ a. (q ≡ a) ⊎ (nonneg (c a q) ≡ true)) (sym v.root_eq)
              (root_above c ordered b q l r v.heap n);
        left_over = d.tree;
        valid = d.valid;
        counted = d.counted;
        nodes = d.nodes;
        freed = live ∙ ground arith;
        values = refl;
        others = d.others;
      },
    )
