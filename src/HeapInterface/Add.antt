-- ===== src/HeapInterface/Add.antt =====
-- `heapAdd` of clib/heap_interface.c.
use chenghualearning.Common.{
  ℕ, ◌+◌, ◌/◌, ◌%◌, ◌<◌, ◌≤◌, ◌≡◌, refl, sym, ap, ◌∙◌, subst, true, false, arith, ◌==◌, ltb, ok,
  Returns, ℕ_discrete,
}
use chenghualearning.Common.Int.{ℤ}
use chenghualearning.Common.Cint.{int_max}
use chenghualearning.HeapInterface.{
  Ptr, Heap, write, set_parent, set_left, set_right, heap_get_offset, descend, attach,
  heap_adjust_up, heap_add, deep,
}
use chenghualearning.HeapInterface.Tree.{
  Tree, leaf, node, Place, top, left_of, right_of, plug, root_of, root_from, root_of-plug, above,
  is, count, count_around, count-plug, depth, height, IsTree, IsPlace, IsTree-unplug,
}
use chenghualearning.HeapInterface.Place.{AllKept, AllKept-trans, IsTree-same}
use chenghualearning.HeapInterface.Sift.{climb, count-climb}
use chenghualearning.HeapInterface.Complete.{Fits, Fits-climb, height-Fits}
use chenghualearning.HeapInterface.Order.{IsOrder, IsHeap, IsHeap-unplug, climb-IsHeap}
use chenghualearning.HeapInterface.Valid.{IsValid}
use chenghualearning.HeapInterface.Up.{heap_adjust_up_lem}
use chenghualearning.HeapInterface.Turn.{not_it}
use chenghualearning.HeapInterface.Attach.{
  cleared, cleared-kept, left_child, right_child, IsNew, two_kept_left, two_kept_right,
  left_child-linked, right_child-linked,
}

pub height-plug : (t : Tree) (c : Place) → depth c + height t ≤ height (plug t c)
unfolding height depth plug
height-plug t top = omega arith
height-plug t (left_of p r c) = omega (arith, height-plug (node p t r) c)
height-plug t (right_of p l c) = omega (arith, height-plug (node p l t) c)

pub once_more : (x q n : ℕ) → n ≤ 1 → (q ≡ x → n ≡ 0) → is x q + n ≤ 1
once_more x q n few new = ground arith

-- What `heapAdd` leaves.
pub record Added (cmp : Ptr → Ptr → ℤ) (h : Heap) (t : Tree) (x : Ptr) (h' : Heap) : Type 0 where
  pub tree : Tree
  pub valid : IsValid cmp h' tree
  pub counted : h'.cnt ≡ h.cnt + 1
  pub nodes : (q : Ptr) → count q tree ≡ is x q + count q t
  pub others : (q : Ptr) → 0 < q → is x q + count q t ≡ 0 → AllKept h h' q

module _ (cmp : Ptr → Ptr → ℤ) (order : IsOrder cmp) where
  -- From the place below the parent on.
  finish :
      (h g : Heap) (t : Tree) (x : Ptr) (c : Place)
      → IsValid cmp h t
      → h.cnt < int_max
      → IsTree g (above c) (node x leaf leaf)
      → IsPlace g c x
      → ((y : Ptr) → g.root ≡ root_from c y)
      → g.cnt ≡ h.cnt + 1
      → ((q : Ptr) → count_around q c ≡ count q t)
      → count x t ≡ 0
      → depth c < deep cmp
      → Fits 1 (h.cnt + 1) (plug (node x leaf leaf) c)
      → IsHeap cmp (plug leaf c)
      → ((q : Ptr) → 0 < q → is x q + count q t ≡ 0 → AllKept h g q)
      → Returns (heap_adjust_up cmp (deep cmp) g x) (Added cmp h t x)
  unfolding IsHeap count
  finish h g t x c v room i j rooted cnt around new low fits heap kept =
      let few =
        λ (q : Ptr). once_more x q (count q t) (v.once q) (λ e. ap (λ z. count z t) e ∙ new) in
      let (h', run, (tree, root, same, others)) =
        heap_adjust_up_lem cmp (deep cmp) g c x leaf leaf i j (λ q. omega (arith, around q, few q))
          low rooted in
      let (none, ordered, over) = IsHeap-unplug cmp leaf c heap in
      let counts = λ (q : Ptr). count-climb cmp q x leaf leaf c in
      (
        h',
        run,
        record {
          tree = climb cmp x leaf leaf c;
          valid = record {
            tree = tree;
            root_eq = root;
            fits = rw (same, cnt) (Fits-climb cmp (h.cnt + 1) x leaf leaf c fits);
            small = omega arith;
            once = λ q. omega (arith, counts q, around q, few q);
            heap = climb-IsHeap cmp order x leaf leaf c (tt, tt, tt, tt) ordered over over;
          };
          counted = same ∙ cnt;
          nodes = λ q. omega (arith, counts q, around q);
          others = λ q n none.
              let (a1, l1, r1, p1) = kept q n none in
              let (a2, l2, r2, p2) = others q n (omega (arith, around q)) in
              (a2 ∙ a1, l2 ∙ l1, r2 ∙ r1, p2 ∙ p1);
        },
      )

module _ (cmp : Ptr → Ptr → ℤ) (h : Heap) (x y offset : Ptr) (live : h.live x ≡ true)
    (room : ltb h.cnt int_max ≡ true) where
  pub add-empty :
      (h.root == 0) ≡ true
      → heap_add cmp h x ≡ ok (record (cleared h x) { root = x; cnt = h.cnt + 1 })
  unfolding heap_add set_parent set_left set_right
  add-empty none = ground (arith, live, room, none)

  pub add-run :
      (g : Heap)
      → (h.root == 0) ≡ false
      → heap_get_offset ((h.cnt + 1) / 2) ≡ ok offset
      → descend (deep cmp) (cleared h x) ((h.cnt + 1) / 2) offset h.root ≡ ok y
      → attach cmp (cleared h x) ((h.cnt + 1) % 2) y x ≡ ok g
      → g.live x ≡ true
      → heap_add cmp h x
        ≡ heap_adjust_up cmp
            (deep cmp)
            (record g { parent = write g.parent x y; cnt = g.cnt + 1 })
            x
  unfolding heap_add set_parent set_left set_right
  add-run g some off walk att live' = ground (arith, live, room, some, off, walk, att, live')

pub apart_new : (t : Tree) (x q : Ptr) → count x t ≡ 0 → 0 < count q t → is x q ≡ 0
apart_new t x q new n = elim (ℕ_discrete x q) [
  | yes same ↦ absurd (omega (arith, ap (λ z. count z t) same))
  | no other ↦ ground (arith, other)
]

module _ (cmp : Ptr → Ptr → ℤ) (order : IsOrder cmp) (h : Heap) (t : Tree) (x : Ptr)
    (v : IsValid cmp h t) (room : h.cnt < int_max) (some_x : 0 < x) (live : h.live x ≡ true)
    (new : count x t ≡ 0) where
  pub cleared-IsTree : IsTree (cleared h x) 0 t
  cleared-IsTree =
      IsTree-same h (cleared h x) 0 t v.tree (λ q n. cleared-kept h x q (apart_new t x q new n))
        v.once

  pub cleared-IsNew : IsNew (cleared h x) x
  cleared-IsNew = (some_x, live, ground arith, ground arith, ground arith)

  -- The new node as the left child of the node that the walk found.
  pub place-left :
      (y : Ptr) (r : Tree) (c : Place)
      → plug (node y leaf r) c ≡ t
      → Fits 1 (h.cnt + 1) (plug (node y (node x leaf leaf) r) c)
      → Returns (heap_adjust_up cmp (deep cmp) (left_child (cleared h x) y x) x) (Added cmp h t x)
  unfolding plug count count_around height
  place-left y r c e fits =
      let g = left_child (cleared h x) y x in
      let (i, j) =
        IsTree-unplug (cleared h x) (node y leaf r) c
          (subst (IsTree (cleared h x) 0) (sym e) cleared-IsTree) in
      let around = λ (q : Ptr). sym (count-plug q (node y leaf r) c) ∙ ap (count q) e in
      let few =
        λ (q : Ptr). once_more x q (count q t) (v.once q) (λ e. ap (λ z. count z t) e ∙ new) in
      let (i', j') =
        left_child-linked (cleared h x) y x r c cleared-IsNew i j
          (λ q. omega (arith, few q, around q)) in
      let tall = height-plug (node x leaf leaf) (left_of y r c) in
      let levels =
        height-Fits 31 1 (h.cnt + 1) (plug (node x leaf leaf) (left_of y r c)) (omega arith) fits in
      finish cmp order h g t x (left_of y r c) v room i' j'
        (λ z. v.root_eq ∙ ap root_of (sym e) ∙ root_of-plug (node y leaf r) c) refl
        (λ q. omega (arith, around q)) new (omega arith) fits (subst (IsHeap cmp) (sym e) v.heap)
        (λ q n none. AllKept-trans h (cleared h x) g q (cleared-kept h x q (omega arith)) (
          two_kept_left (cleared h x) y x q (not_it x q (omega arith))
            (not_it y q (omega (arith, around q)))))

  -- The new node as the right child of the node that the walk found.
  pub place-right :
      (y : Ptr) (l : Tree) (c : Place)
      → plug (node y l leaf) c ≡ t
      → Fits 1 (h.cnt + 1) (plug (node y l (node x leaf leaf)) c)
      → Returns (heap_adjust_up cmp (deep cmp) (right_child (cleared h x) y x) x) (Added cmp h t x)
  unfolding plug count count_around height
  place-right y l c e fits =
      let g = right_child (cleared h x) y x in
      let (i, j) =
        IsTree-unplug (cleared h x) (node y l leaf) c
          (subst (IsTree (cleared h x) 0) (sym e) cleared-IsTree) in
      let around = λ (q : Ptr). sym (count-plug q (node y l leaf) c) ∙ ap (count q) e in
      let few =
        λ (q : Ptr). once_more x q (count q t) (v.once q) (λ e. ap (λ z. count z t) e ∙ new) in
      let (i', j') =
        right_child-linked (cleared h x) y x l c cleared-IsNew i j
          (λ q. omega (arith, few q, around q)) in
      let tall = height-plug (node x leaf leaf) (right_of y l c) in
      let levels =
        height-Fits 31 1 (h.cnt + 1) (plug (node x leaf leaf) (right_of y l c)) (omega arith)
          fits in
      finish cmp order h g t x (right_of y l c) v room i' j'
        (λ z. v.root_eq ∙ ap root_of (sym e) ∙ root_of-plug (node y l leaf) c) refl
        (λ q. omega (arith, around q)) new (omega arith) fits (subst (IsHeap cmp) (sym e) v.heap)
        (λ q n none. AllKept-trans h (cleared h x) g q (cleared-kept h x q (omega arith)) (
          two_kept_right (cleared h x) y x q (not_it x q (omega arith))
            (not_it y q (omega (arith, around q)))))
