-- ===== src/HeapInterface/Take.antt =====
-- What `heapGet` of clib/heap_interface.c does.
use chenghualearning.Common.{
  ◌+◌, ◌-◌, ◌<◌, ◌≡◌, refl, sym, ap, subst, ◌∙◌, ◌⊎◌, true, false, arith, ◌==◌, ok, Returns,
}
use chenghualearning.Common.Int.{ℤ}
use chenghualearning.HeapInterface.{
  Ptr, Heap, nonneg, heap_get_offset, descend, replace_root, heap_get, heap_adjust_down, deep,
  set_parent, set_left, set_right,
}
use chenghualearning.HeapInterface.Tree.{Tree, leaf, node, plug, is, count, IsTree}
use chenghualearning.HeapInterface.Place.{AllKept}
use chenghualearning.HeapInterface.Complete.{Fits}
use chenghualearning.HeapInterface.Order.{IsOrder, root_above}
use chenghualearning.HeapInterface.Valid.{IsValid}
use chenghualearning.HeapInterface.Climb.{not_null}
use chenghualearning.HeapInterface.Get.{settle_lem}
use chenghualearning.HeapInterface.Attach.{cleared, cleared-kept}
use chenghualearning.HeapInterface.Reach.{reach_lem}

-- What `heapGet` leaves of a heap with nodes.
pub record Got (cmp : Ptr → Ptr → ℤ) (h : Heap) (t : Tree) (a : Ptr) (h' : Heap) : Type 0 where
  pub tree : Tree
  pub valid : IsValid cmp h' tree
  pub counted : h'.cnt + 1 ≡ h.cnt
  pub nodes : (q : Ptr) → count q t ≡ is a q + count q tree
  pub unlinked : (h'.parent a ≡ 0) × (h'.left a ≡ 0) × (h'.right a ≡ 0)
  pub others : (q : Ptr) → 0 < q → count q t ≡ 0 → AllKept h h' q

-- What `heapGet` returns and leaves: `NULL` and the same heap, or the root, which is above all.
abbrev pub Took : (cmp : Ptr → Ptr → ℤ) → Heap → Tree → Ptr × Heap → Type 0
Took cmp h leaf (a, h') = (a ≡ 0) × (h' ≡ h)
Took cmp h (node b l r) (a, h') =
    (a ≡ b)
    × ((q : Ptr) → 0 < count q (node b l r) → (q ≡ a) ⊎ (nonneg (cmp a q) ≡ true))
    × Got cmp h (node b l r) a h'

module _ (cmp : Ptr → Ptr → ℤ) (order : IsOrder cmp) (h : Heap) where
  get-empty : h.root ≡ 0 → heap_get cmp h ≡ ok (0, h)
  unfolding heap_get
  get-empty none = ground (arith, none)

  get-run :
      (g h' : Heap) (offset x : Ptr)
      → (h.root == 0) ≡ false
      → heap_get_offset h.cnt ≡ ok offset
      → descend (deep cmp) h h.cnt offset h.root ≡ ok x
      → replace_root cmp h h.root x ≡ ok g
      → g.live h.root ≡ true
      → heap_adjust_down cmp (deep cmp) (record (cleared g h.root) { cnt = g.cnt - 1 }) ≡ ok h'
      → heap_get cmp h ≡ ok (h.root, h')
  unfolding heap_get set_parent set_left set_right
  get-run g h' offset x some off walk rep live run =
      rw (some, off, walk, rep, live, live, live, run, heap_get) refl

  -- In a valid heap `heapGet` returns. From an empty heap it returns `NULL` and changes nothing.
  -- Otherwise it returns the root, which no node of the heap is above in the order; the heap is
  -- valid again, with a tree of all other nodes, the count is one less, the fields of the root are
  -- `NULL`, and those of the nodes outside are as they were.
  pub heap_get_lem : (t : Tree) → IsValid cmp h t → Returns (heap_get cmp h) (Took cmp h t)
  unfolding Fits IsTree plug
  heap_get_lem leaf v = ((0, h), get-empty v.root_eq, (refl, refl))
  heap_get_lem (node b l r) v =
      let (some, fl, fr) = v.fits in
      let (pb, lb, ub, elb, erb, il, ir) = v.tree in
      let w = reach_lem cmp order h b l r v in
      let g = w.replaced in
      let k = record (cleared g h.root) { cnt = g.cnt - 1 } in
      let (h', run, s) =
        settle_lem cmp h g k (node b l r) h.root order v some w.state
          (λ q n. cleared-kept g h.root q n) refl (ap (λ n. n - 1) w.state.same) in
      let filled = ap (λ p. p == 0) v.root_eq ∙ not_null b pb in
      let (e1, e2, e3, e4) = s.own in
      (
        (h.root, h'),
        get-run g h' w.offset w.last filled w.off w.walk w.run w.state.live run,
        (
          v.root_eq,
          λ q n.
              subst (λ d. (q ≡ d) ⊎ (nonneg (cmp d q) ≡ true)) (sym v.root_eq)
                (root_above cmp order b q l r v.heap n),
          record {
            tree = s.tree;
            valid = s.valid;
            counted = s.counted;
            nodes = s.nodes;
            unlinked = (e4 ∙ ground arith, e2 ∙ ground arith, e3 ∙ ground arith);
            others = s.others;
          },
        ),
      )
