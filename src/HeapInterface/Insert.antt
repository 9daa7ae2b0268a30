-- ===== src/HeapInterface/Insert.antt =====
-- What `heapAdd` of clib/heap_interface.c does.
use native.Mathlib.Nat.{div-one}
use chenghualearning.Common.{
  ℕ, ◌+◌, ◌*◌, ◌/◌, ◌%◌, ◌^◌, ◌<◌, ◌≡◌, refl, sym, ap, ◌∙◌, subst, true, false, arith, ◌==◌, ltb,
  ok, Returns, Returns-as, ℕ_discrete,
}
use chenghualearning.Common.Int.{ℤ}
use chenghualearning.Common.Cint.{int_max}
use chenghualearning.HeapInterface.{
  heap_get_offset, Ptr, Heap, write, set_left, set_right, descend, attach, heap_add, deep,
}
use chenghualearning.HeapInterface.Tree.{
  Tree, leaf, node, Place, top, plug, root_of, count, IsTree, IsTree-unplug,
}
use chenghualearning.HeapInterface.Complete.{Fits, Fits-more, Fits-empty}
use chenghualearning.HeapInterface.Walk.{
  heap_get_offset_lem, descend_lem, left-Outside, right-Outside,
}
use chenghualearning.HeapInterface.Order.{IsOrder, IsHeap}
use chenghualearning.HeapInterface.Valid.{IsValid, highest}
use chenghualearning.HeapInterface.Climb.{not_null}
use chenghualearning.HeapInterface.Attach.{cleared, cleared-kept}
use chenghualearning.HeapInterface.Add.{
  Added, once_more, add-empty, add-run, place-left, place-right, cleared-IsNew, cleared-IsTree,
}

room_test : (n : ℕ) → n < int_max → ltb n int_max ≡ true
room_test n h = ground arith

module _ (cmp : Ptr → Ptr → ℤ) (order : IsOrder cmp) (h : Heap) (x : Ptr) (room : h.cnt < int_max)
    (some_x : 0 < x) (live : h.live x ≡ true) where
  add_first : IsValid cmp h leaf → Returns (heap_add cmp h x) (Added cmp h leaf x)
  unfolding Fits IsTree IsHeap count
  add_first v =
      let none : h.cnt ≡ 0 = omega (arith, v.fits) in
      let (px, lx, ux, el, er) = cleared-IsNew cmp order h leaf x v room some_x live refl in
      (
        record (cleared h x) { root = x; cnt = h.cnt + 1 },
        add-empty cmp h x 0 0 live (room_test h.cnt room) (ground (arith, v.root_eq)),
        record {
          tree = node x leaf leaf;
          valid = record {
            tree = (px, lx, ux, el, er, tt, tt);
            root_eq = refl;
            fits = (omega arith, omega arith, omega arith);
            small = omega arith;
            once = λ q. (let z = once_more x q 0 (omega arith) (λ e. refl) in omega (arith, z));
            heap = (tt, tt, tt, tt);
          };
          counted = refl;
          nodes = λ q. refl;
          others = λ q n none. cleared-kept h x q (omega (arith, none));
        },
      )

attach-left :
    (cmp : Ptr → Ptr → ℤ) (g : Heap) (child y x : Ptr)
    → child ≡ 0
    → g.live y ≡ true
    → attach cmp g child y x ≡ ok (record g { left = write g.left y x })
unfolding attach set_left
attach-left cmp g child y x e live = ground (arith, e, live)

attach-right :
    (cmp : Ptr → Ptr → ℤ) (g : Heap) (child y x : Ptr)
    → child ≡ 1
    → g.live y ≡ true
    → attach cmp g child y x ≡ ok (record g { right = write g.right y x })
unfolding attach set_right
attach-right cmp g child y x e live = ground (arith, e, live)

module _ (cmp : Ptr → Ptr → ℤ) (order : IsOrder cmp) (h : Heap) (t : Tree) (x offset : Ptr)
    (v : IsValid cmp h t) (room : h.cnt < int_max) (some_x : 0 < x) (live : h.live x ≡ true)
    (new : count x t ≡ 0) (filled : (h.root == 0) ≡ false)
    (off : heap_get_offset ((h.cnt + 1) / 2) ≡ ok offset) (pos : 0 < h.cnt) where
  -- The walk has found the parent of the new node.
  placed :
      (m : ℕ) (f : Tree) (c : Place)
      → m ≡ (h.cnt + 1) / 2
      → plug f c ≡ t
      → Fits m h.cnt f
      → ((s : Tree) → Fits m (h.cnt + 1) s → Fits 1 (h.cnt + 1) (plug s c))
      → descend (deep cmp) (cleared h x) ((h.cnt + 1) / 2) offset h.root ≡ ok (root_of f)
      → Returns (heap_add cmp h x) (Added cmp h t x)
  unfolding Fits IsTree
  placed m leaf c em e fit refit walk = absurd (omega (arith, fit))
  placed m (node y l r) c em e (le, fl, fr) refit walk =
      let full = cleared-IsTree cmp order h t x v room some_x live new in
      let ((py, ly, ur, elr, err, il, ir), j) =
        IsTree-unplug (cleared h x) (node y l r) c (subst (IsTree (cleared h x) 0) (sym e) full) in
      let goes = add-run cmp h x y offset live (room_test h.cnt room) in
      elim (ℕ_discrete ((h.cnt + 1) % 2) 0) [
        | yes even ↦
            (let none = Fits-empty (2 * m) h.cnt l fl (omega (arith, even)) in
              let fr' =
                Fits-more (2 * m + 1) h.cnt (h.cnt + 1) r (omega arith)
                  (left-Outside m (h.cnt + 1) 0 (omega arith)
                    (div-one (h.cnt + 1) ∙ omega (arith, even)))
                  fr in
              let att =
                attach-left cmp (cleared h x) ((h.cnt + 1) % 2) y x (omega (arith, even)) ly in
              Returns-as
                (goes (record (cleared h x) { left = write (cleared h x).left y x }) filled off walk
                  att live)
                (place-left cmp order h t x v room some_x live new y r c
                  (subst (λ s. plug (node y s r) c ≡ t) none e)
                  (refit (node y (node x leaf leaf) r) (
                    omega arith,
                    (omega (arith, even), omega (arith, even), omega (arith, even)),
                    fr',
                  ))))
        | no odd ↦
            (let none = Fits-empty (2 * m + 1) h.cnt r fr (omega (arith, odd)) in
              let fl' =
                Fits-more (2 * m) h.cnt (h.cnt + 1) l (omega arith)
                  (right-Outside m (h.cnt + 1) 0 (omega arith)
                    (div-one (h.cnt + 1) ∙ omega (arith, odd)))
                  fl in
              let att =
                attach-right cmp (cleared h x) ((h.cnt + 1) % 2) y x (omega (arith, odd)) ly in
              Returns-as
                (goes (record (cleared h x) { right = write (cleared h x).right y x }) filled off
                  walk att live)
                (place-right cmp order h t x v room some_x live new y l c
                  (subst (λ s. plug (node y l s) c ≡ t) none e)
                  (refit (node y l (node x leaf leaf)) (
                    omega arith,
                    fl',
                    (omega (arith, odd), omega (arith, odd), omega (arith, odd)),
                  ))))
      ]

module _ (cmp : Ptr → Ptr → ℤ) (order : IsOrder cmp) (h : Heap) where
  -- In a valid heap that is not full, adding a live node that is not in it returns. The heap is
  -- valid again, with a tree of the nodes there were and this one, the count is one more, and the
  -- fields of all other nodes are as they were.
  pub heap_add_lem :
      (t : Tree) (x : Ptr)
      → IsValid cmp h t
      → h.cnt < int_max
      → 0 < x
      → h.live x ≡ true
      → count x t ≡ 0
      → Returns (heap_add cmp h x) (Added cmp h t x)
  unfolding Fits IsTree plug
  heap_add_lem leaf x v room some_x live new = add_first cmp order h x room some_x live v
  heap_add_lem (node a l r) x v room some_x live new =
      let (le, fl, fr) = v.fits in
      let (pa, la, ua, el, er, il, ir) = v.tree in
      let filled = ap (λ p. p == 0) v.root_eq ∙ not_null a pa in
      let m = (h.cnt + 1) / 2 in
      let t = highest m (omega arith) (omega arith) in
      let off = heap_get_offset_lem m t.exponent t.low t.high t.word in
      let walk =
        descend_lem t.exponent (deep cmp) (cleared h x) 1 m h.cnt (h.cnt + 1) (h.cnt + 1) 1
          (node a l r) top (omega (arith, t.word)) (omega arith) t.lead (omega arith) (omega arith)
          (ap (λ d. (h.cnt + 1) / d) refl)
          (λ b s out f. Fits-more b h.cnt (h.cnt + 1) s (omega arith) out f) v.fits
          (cleared-IsTree cmp order h (node a l r) x v room some_x live new) (λ s g. g) in
      placed cmp order h (node a l r) x (2 ^ t.exponent / 2) v room some_x live new filled off
        (omega arith) m walk.found walk.place refl walk.whole_eq walk.fits walk.refit
        (ap (descend (deep cmp) (cleared h x) m (2 ^ t.exponent / 2)) v.root_eq ∙ walk.run)
