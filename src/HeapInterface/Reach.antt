-- ===== src/HeapInterface/Reach.antt =====
-- `heapGet` of clib/heap_interface.c puts the last node in the place of the root.
use chenghualearning.Common.{
  ◌+◌, ◌-◌, ◌*◌, ◌/◌, ◌^◌, ◌<◌, ◌≤◌, ◌≡◌, refl, sym, ap, subst, ◌∙◌, true, false, arith, ◌==◌, ok,
}
use native.Mathlib.Nat.{div-one}
use chenghualearning.Common.Int.{ℤ}
use chenghualearning.HeapInterface.{
  Ptr, Heap, get_parent, heap_get_offset, descend, replace_root, deep, relink, set_parent, set_left,
  set_right, get_left, get_right, adopt,
}
use chenghualearning.HeapInterface.Tree.{
  Tree, leaf, node, Place, top, left_of, right_of, plug, above, root_of, root_from, root_of-plug,
  is, count, count_around, count-plug, IsTree, IsPlace, IsTree-plug, IsTree-unplug, not_is,
  IsTree-fields,
}
use chenghualearning.HeapInterface.Place.{AllKept, AllKept-trans, IsPlace-Rehung, is_self}
use chenghualearning.HeapInterface.Links.{
  Hangs, hung, relink_lem, live-hung, parent-hung, left-hung, right-hung, cnt-hung,
}
use chenghualearning.HeapInterface.Sift.{sift}
use chenghualearning.HeapInterface.Complete.{Fits, Fits-less, Fits-empty}
use chenghualearning.HeapInterface.Turn.{IsTree-positive, not_counted}
use chenghualearning.HeapInterface.Raise.{Rehung-hung}
use chenghualearning.HeapInterface.Once.{IsPlace-Hangs, root-Safe}
use chenghualearning.HeapInterface.Walk.{heap_get_offset_lem, descend_lem}
use chenghualearning.HeapInterface.Order.{
  IsOrder, IsHeap, IsHeap-plug, IsHeap-unplug, Over-leaf, sift-IsHeap,
}
use chenghualearning.HeapInterface.Valid.{IsValid, highest}
use chenghualearning.HeapInterface.Succeed.{
  succeeded, succeed-run, succeeded-IsTree, succeeded-kept,
}
use chenghualearning.HeapInterface.Get.{Replaced}
use chenghualearning.HeapInterface.Attach.{cleared, cleared-kept}

-- The last node leaves its parent.
module _ (h : Heap) (c : Place) (x : Ptr) (i : IsPlace h c x)
    (once : (q : Ptr) → is x q + count_around q c ≤ 1) where
  away-kept : (q : Ptr) → (q == above c) ≡ false → AllKept h (hung h c 0) q
  away-kept q e =
      (live-hung h c 0 q, left-hung h c 0 q e, right-hung h c 0 q e, parent-hung h c 0 q)

  away-IsTree : IsTree (hung h c 0) 0 (plug leaf c)
  unfolding IsTree
  away-IsTree = IsTree-plug (hung h c 0) leaf c tt (
      IsPlace-Rehung h (hung h c 0) c x 0 i
        (Rehung-hung h (hung h c 0) c 0 (live-hung h c 0 (above c)) (parent-hung h c 0 (above c))
          refl refl)
        (λ q n e. away-kept q e) (λ q. omega (arith, once q)))

module _ (cmp : Ptr → Ptr → ℤ) where
  replace-run :
      (h : Heap) (c : Place) (a x : Ptr) (l r : Tree)
      → h.live x ≡ true
      → h.parent x ≡ above c
      → Hangs h c x
      → 0 < x
      → (a == x) ≡ false
      → IsTree (hung h c 0) 0 (node a l r)
      → replace_root cmp h a x
        ≡ ok (record (succeeded (hung h c 0) x (root_of l) (root_of r)) { root = x })
  unfolding replace_root get_parent IsTree
  replace-run h c a x l r live up hangs pos apart (pa, la, ua, el, er, il, ir) =
      let g = hung h c 0 in
      let run =
        succeed-run g a x pos (live-hung h c 0 x ∙ live) la apart (rw el (root-Safe g a l il))
          (rw er (root-Safe g a r ir)) in
      rw (live, up, relink_lem h c x 0 hangs)
        (run
          ∙ ap (λ u. ok (record (succeeded g x u (g.right a)) { root = x })) el
          ∙ ap (λ v. ok (record (succeeded g x (root_of l) v) { root = x })) er)

  replace-last :
      (h : Heap) (x : Ptr)
      → h.live x ≡ true
      → h.parent x ≡ 0
      → h.left x ≡ 0
      → h.right x ≡ 0
      → replace_root cmp h x x ≡ ok (record (cleared h x) { root = 0 })
  unfolding replace_root get_parent relink set_parent set_left set_right get_left get_right adopt
  replace-last h x live up el er = ground (arith, live, up, el, er)

-- The way to the last node, and what `replace_root` leaves.
pub record Reached (cmp : Ptr → Ptr → ℤ) (h : Heap) (t : Tree) : Type 0 where
  pub offset : Ptr
  pub last : Ptr
  pub replaced : Heap
  pub off : heap_get_offset h.cnt ≡ ok offset
  pub walk : descend (deep cmp) h h.cnt offset h.root ≡ ok last
  pub run : replace_root cmp h h.root last ≡ ok replaced
  pub state : Replaced cmp h t h.root replaced

module _ (cmp : Ptr → Ptr → ℤ) (order : IsOrder cmp) (h : Heap) (t : Tree) (offset : Ptr)
    (v : IsValid cmp h t) (filled : 0 < h.root) (some : 0 < h.cnt)
    (off : heap_get_offset h.cnt ≡ ok offset) where
  -- The walk has found the last node, which is not the root.
  taken_inner :
      (x : Ptr) (c : Place) (u : Tree)
      → plug (node x leaf leaf) c ≡ t
      → plug leaf c ≡ u
      → root_from c x ≡ root_from c 0
      → Fits 1 (h.cnt - 1) (plug leaf c)
      → descend (deep cmp) h h.cnt offset h.root ≡ ok x
      → Reached cmp h t
  unfolding Fits sift count IsTree IsHeap
  taken_inner x c leaf e eu deeper fits walk = absurd (
      omega (
        arith,
        v.root_eq,
        ap root_of e,
        root_of-plug (node x leaf leaf) c,
        ap root_of eu,
        root_of-plug leaf c,
        deeper,
      ))
  taken_inner x c (node a l r) e eu deeper fits walk =
      let (i, j) = IsTree-unplug h (node x leaf leaf) c (subst (IsTree h 0) (sym e) v.tree) in
      let (px, lx, ux, el, er, n1, n2) = i in
      let around = λ (q : Ptr). ap (count q) (sym e) ∙ count-plug q (node x leaf leaf) c in
      let inside = λ (q : Ptr). ap (count q) (sym eu) ∙ count-plug q leaf c in
      let once : (q : Ptr) → is x q + (is a q + (count q l + count q r)) ≤ 1 =
        λ q. omega (arith, around q, inside q, v.once q) in
      let few : (q : Ptr) → is x q + count_around q c ≤ 1 =
        λ q. omega (arith, around q, v.once q) in
      let away = subst (IsTree (hung h c 0) 0) eu (away-IsTree h c x j few) in
      let (pa, la, ua, ela, era, il, ir) = away in
      let live = live-hung h c 0 x ∙ lx in
      let apart = not_is x a _ (once a) (is_self a _) in
      let hangs = IsPlace-Hangs h c x 0 j px few in
      let g = record (succeeded (hung h c 0) x (root_of l) (root_of r)) { root = x } in
      let ea : h.root ≡ a =
        v.root_eq
        ∙ ap root_of (sym e)
        ∙ root_of-plug (node x leaf leaf) c
        ∙ deeper
        ∙ sym (root_of-plug leaf c)
        ∙ ap root_of eu in
      let tree =
        IsTree-fields (succeeded (hung h c 0) x (root_of l) (root_of r)) 0 x (hung h c 0).cnt
          (node x l r) (succeeded-IsTree (hung h c 0) a x l r away px live once) in
      let (h1, heaps, over) =
        IsHeap-unplug cmp (node x leaf leaf) c (subst (IsHeap cmp) (sym e) v.heap) in
      let heap = subst (IsHeap cmp) eu (IsHeap-plug cmp leaf c tt heaps (Over-leaf cmp c)) in
      let rep = replace-run cmp h c a x l r lx ux hangs px apart away in
      record {
        offset = offset;
        last = x;
        replaced = g;
        off = off;
        walk = walk;
        run = ap (λ b. replace_root cmp h b x) ea ∙ rep;
        state =
            subst (λ b. Replaced cmp h t b g) (sym ea)
              (record {
                left_over = node x l r;
                live = la;
                pos = pa;
                same = cnt-hung h c 0;
                rooted = refl;
                tree = tree;
                fits = subst (Fits 1 (h.cnt - 1)) eu fits;
                ordered =
                    sift-IsHeap cmp order x (node a l r)
                      (λ q. IsTree-positive (hung h c 0) 0 q (node a l r) away) heap;
                split = λ q. omega (arith, around q, inside q);
                kept = λ q n none.
                    AllKept-trans h (hung h c 0) g q
                      (away-kept h c x j few q (not_counted c q (omega (arith, around q)) n))
                      (succeeded-kept (hung h c 0) a x l r away px live once q
                        (omega (arith, around q, inside q)));
              });
      }

  taken_found :
      (x : Ptr) (c : Place)
      → plug (node x leaf leaf) c ≡ t
      → Fits 1 (h.cnt - 1) (plug leaf c)
      → descend (deep cmp) h h.cnt offset h.root ≡ ok x
      → Reached cmp h t
  unfolding Fits IsTree plug count sift IsHeap
  taken_found x top e fits walk =
      let v' = subst (IsValid cmp h) (sym e) v in
      let (px, lx, ux, el, er, n1, n2) = v'.tree in
      let g = record (cleared h x) { root = 0 } in
      let root : h.root ≡ x = v'.root_eq in
      let rep = replace-last cmp h x lx ux el er in
      record {
        offset = offset;
        last = x;
        replaced = g;
        off = off;
        walk = walk;
        run = ap (λ b. replace_root cmp h b x) root ∙ rep;
        state =
            subst (λ b. Replaced cmp h t b g) (sym root)
              (record {
                left_over = leaf;
                live = lx;
                pos = px;
                same = refl;
                rooted = refl;
                tree = tt;
                fits = fits;
                ordered = tt;
                split = λ q. sym (ap (count q) e);
                kept = λ q n none. cleared-kept h x q (omega (arith, none, ap (count q) e));
              });
      }
  taken_found x (left_of p r c) e fits walk =
      taken_inner x (left_of p r c) (plug leaf (left_of p r c)) e refl refl fits walk
  taken_found x (right_of p l c) e fits walk =
      taken_inner x (right_of p l c) (plug leaf (right_of p l c)) e refl refl fits walk

  taken_at :
      (f : Tree) (c : Place)
      → plug f c ≡ t
      → Fits h.cnt h.cnt f
      → Fits 1 (h.cnt - 1) (plug leaf c)
      → descend (deep cmp) h h.cnt offset h.root ≡ ok (root_of f)
      → Reached cmp h t
  unfolding Fits
  taken_at leaf c e fit rest walk = absurd (omega (arith, fit))
  taken_at (node x l r) c e (le, fl, fr) rest walk =
      let no_l = Fits-empty (2 * h.cnt) h.cnt l fl (omega arith) in
      let no_r = Fits-empty (2 * h.cnt + 1) h.cnt r fr (omega arith) in
      taken_found x c
        (subst (λ r. plug (node x leaf r) c ≡ t) no_r (subst (λ l. plug (node x l r) c ≡ t) no_l e))
        rest walk

-- In a valid heap with nodes the walk ends at the last node.
pub reach_lem :
    (cmp : Ptr → Ptr → ℤ) (order : IsOrder cmp) (h : Heap) (b : Ptr) (l r : Tree)
    → IsValid cmp h (node b l r)
    → Reached cmp h (node b l r)
unfolding Fits IsTree plug
reach_lem cmp order h b l r v =
    let (some, fl, fr) = v.fits in
    let (pb, lb, ub, elb, erb, il, ir) = v.tree in
    let k = highest h.cnt some v.small in
    let off = heap_get_offset_lem h.cnt k.exponent k.low k.high k.word in
    let walk =
      descend_lem k.exponent (deep cmp) h 1 h.cnt h.cnt (h.cnt - 1) h.cnt 0 (node b l r) top
        (omega (arith, k.word)) (omega arith) k.lead (omega arith) (omega arith) (div-one h.cnt)
        (λ a s out f. Fits-less a h.cnt (h.cnt - 1) s (omega arith) out f) v.fits v.tree
        (λ s g. g) in
    taken_at cmp order h (node b l r) (2 ^ k.exponent / 2) v (omega (arith, v.root_eq)) some off
      walk.found walk.place walk.whole_eq walk.fits (walk.refit leaf (omega arith))
      (ap (descend (deep cmp) h h.cnt (2 ^ k.exponent / 2)) v.root_eq ∙ walk.run)
