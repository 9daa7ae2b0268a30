-- ===== src/HeapInterface/Get.antt =====
-- The end of `heapGet` of clib/heap_interface.c: the node is cleared, and the new root goes down.
use chenghualearning.Common.{
  ◌+◌, ◌-◌, ◌<◌, ◌≤◌, ◌≡◌, refl, sym, ap, subst, ◌∙◌, true, false, arith, ◌==◌, ok, Returns,
}
use chenghualearning.Common.Int.{ℤ}
use chenghualearning.Common.Cint.{int_max}
use chenghualearning.HeapInterface.{Ptr, Heap, heap_adjust_down, down_loop, deep}
use chenghualearning.HeapInterface.Tree.{
  root_of, Tree, leaf, node, top, plug, is, count, count_around, IsTree, IsPlace,
}
use chenghualearning.HeapInterface.Place.{AllKept, AllKept-trans, IsTree-same, is_self}
use chenghualearning.HeapInterface.Sift.{sift, count-sift}
use chenghualearning.HeapInterface.Complete.{Fits, Fits-sift, height-Fits}
use chenghualearning.HeapInterface.Order.{IsOrder, IsHeap}
use chenghualearning.HeapInterface.Valid.{IsValid}
use chenghualearning.HeapInterface.Climb.{not_null}
use chenghualearning.HeapInterface.Down.{down_loop_lem}

-- The heap `g`, in which the last node has taken the place of the root `a` of `h`.
pub record Replaced (cmp : Ptr → Ptr → ℤ) (h : Heap) (t : Tree) (a : Ptr) (g : Heap) : Type 0 where
  pub left_over : Tree
  pub live : g.live a ≡ true
  pub pos : 0 < a
  pub same : g.cnt ≡ h.cnt
  pub rooted : g.root ≡ root_of left_over
  pub tree : IsTree g 0 left_over
  pub fits : Fits 1 (h.cnt - 1) left_over
  pub ordered : IsHeap cmp (sift cmp (root_of left_over) left_over)
  pub split : (q : Ptr) → count q t ≡ is a q + count q left_over
  pub kept : (q : Ptr) → 0 < q → count q t ≡ 0 → AllKept h g q

-- What `heapGet` leaves of a heap with nodes, when the fields of the root were as in `k`.
pub record Settled (cmp : Ptr → Ptr → ℤ) (h : Heap) (t : Tree) (a : Ptr) (k : Heap) (h' : Heap)
    : Type 0 where
  pub tree : Tree
  pub valid : IsValid cmp h' tree
  pub counted : h'.cnt + 1 ≡ h.cnt
  pub nodes : (q : Ptr) → count q t ≡ is a q + count q tree
  pub own : AllKept k h' a
  pub others : (q : Ptr) → 0 < q → count q t ≡ 0 → AllKept h h' q

module _ (cmp : Ptr → Ptr → ℤ) where
  adjust-down :
      (k : Heap) (x : Ptr)
      → (x == 0) ≡ false
      → k.root ≡ x
      → heap_adjust_down cmp (deep cmp) k ≡ down_loop cmp (deep cmp) k x
  unfolding heap_adjust_down
  adjust-down k x some rooted =
      let filled : (k.root == 0) ≡ false = ap (λ p. p == 0) rooted ∙ some in
      rw (filled, heap_adjust_down) (ap (down_loop cmp (deep cmp) k) rooted)

  adjust-empty : (k : Heap) → k.root ≡ 0 → heap_adjust_down cmp (deep cmp) k ≡ ok k
  unfolding heap_adjust_down
  adjust-empty k none = ground (arith, none)

  module _ (order : IsOrder cmp) (h g k : Heap) (t : Tree) (a : Ptr) (some : 0 < h.cnt)
      (small : h.cnt ≤ int_max) (once : (q : Ptr) → count q t ≤ 1) (pos : 0 < a)
      (kept : (q : Ptr) → 0 < q → count q t ≡ 0 → AllKept h g q)
      (but : (q : Ptr) → is a q ≡ 0 → AllKept g k q) (cnt : k.cnt ≡ h.cnt - 1) where
    settles :
        (u : Tree)
        → k.root ≡ root_of u
        → IsTree g 0 u
        → Fits 1 (h.cnt - 1) u
        → IsHeap cmp (sift cmp (root_of u) u)
        → ((q : Ptr) → count q t ≡ is a q + count q u)
        → Returns (heap_adjust_down cmp (deep cmp) k) (Settled cmp h t a k)
    unfolding count plug count_around IsPlace IsTree sift
    settles leaf rooted i fits ordered split = (
      k,
      adjust-empty k rooted,
      record {
        tree = leaf;
        valid = record {
          tree = tt;
          root_eq = rooted;
          fits = subst (λ n. Fits 1 n leaf) (sym cnt) fits;
          small = omega arith;
          once = λ q. omega arith;
          heap = ordered;
        };
        counted = omega arith;
        nodes = split;
        own = (refl, refl, refl, refl);
        others = λ q n e. AllKept-trans h g k q (kept q n e) (but q (omega (arith, split q)));
      },
    )
    settles (node x l r) rooted i fits ordered split =
        let (px, lx, ux, el, er, il, ir) = i in
        let there : IsTree k 0 (node x l r) =
          IsTree-same g k 0 (node x l r) i (λ q n. but q (omega (arith, split q, once q)))
            (λ q. omega (arith, split q, once q)) in
        let levels = height-Fits 31 1 (h.cnt - 1) (node x l r) (omega arith) fits in
        let (h', run, s) =
          down_loop_lem cmp (deep cmp) k top x l r there tt (λ q. omega (arith, split q, once q))
            (omega arith) rooted in
        let counts = λ (q : Ptr). count-sift cmp q x (node x l r) px in
        let own = is_self a 0 in
        (
          h',
          adjust-down k x (not_null x px) rooted ∙ run,
          record {
            tree = sift cmp x (node x l r);
            valid = record {
              tree = s.tree;
              root_eq = s.rooted;
              fits =
                  subst (λ n. Fits 1 n (sift cmp x (node x l r))) (sym (s.cnt_kept ∙ cnt))
                    (Fits-sift cmp 1 (h.cnt - 1) x (node x l r) fits);
              small = omega (arith, s.cnt_kept);
              once = λ q. omega (arith, counts q, split q, once q);
              heap = ordered;
            };
            counted = omega (arith, s.cnt_kept);
            nodes = λ q. omega (arith, counts q, split q);
            own = s.others a pos (omega (arith, own, split a, once a));
            others = λ q n e. AllKept-trans h g h' q (kept q n e) (
                AllKept-trans g k h' q (but q (omega (arith, split q)))
                  (s.others q n (omega (arith, split q))));
          },
        )

  -- However the fields of the root are left, the rest of the run ends in a valid heap.
  pub settle_lem :
      (h g k : Heap) (t : Tree) (a : Ptr)
      → IsOrder cmp
      → IsValid cmp h t
      → 0 < h.cnt
      → Replaced cmp h t a g
      → ((q : Ptr) → is a q ≡ 0 → AllKept g k q)
      → k.root ≡ g.root
      → k.cnt ≡ h.cnt - 1
      → Returns (heap_adjust_down cmp (deep cmp) k) (Settled cmp h t a k)
  settle_lem h g k t a order v some r but root cnt =
      settles order h g k t a some v.small v.once r.pos r.kept but cnt r.left_over (root ∙ r.rooted)
        r.tree r.fits r.ordered r.split
