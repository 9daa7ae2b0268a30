-- ===== src/HeapInterface/Attach.antt =====
-- How `heapAdd` of clib/heap_interface.c links a new node below its parent.
use chenghualearning.Common.{◌+◌, ◌<◌, ◌≤◌, ◌≡◌, refl, true, false, arith, ◌==◌}
use chenghualearning.HeapInterface.{Ptr, Heap, write}
use chenghualearning.HeapInterface.Tree.{
  Tree, leaf, node, Place, left_of, right_of, above, is, count, count_around, IsTree, IsPlace,
}
use chenghualearning.HeapInterface.Place.{AllKept, IsTree-same, IsPlace-same, is_self}
use chenghualearning.HeapInterface.Tree.{not_is}
use chenghualearning.HeapInterface.Turn.{not_it}

-- The node `x` with its three fields cleared.
abbrev pub cleared : Heap → Ptr → Heap
cleared h x = record h {
  parent = write h.parent x 0;
  left = write h.left x 0;
  right = write h.right x 0;
}

pub cleared-kept : (h : Heap) (x q : Ptr) → is x q ≡ 0 → AllKept h (cleared h x) q
cleared-kept h x q none =
    let e = not_it x q none in (refl, ground (arith, e), ground (arith, e), ground (arith, e))

-- The node `x` is linked as a child of `y`, and counted.
abbrev pub left_child : Heap → (y x : Ptr) → Heap
left_child h y x = record h {
  left = write h.left y x;
  parent = write h.parent x y;
  cnt = h.cnt + 1;
}

abbrev pub right_child : Heap → (y x : Ptr) → Heap
right_child h y x = record h {
  right = write h.right y x;
  parent = write h.parent x y;
  cnt = h.cnt + 1;
}

abbrev pub IsNew : Heap → Ptr → Type 0
IsNew h x = (0 < x) × (h.live x ≡ true) × (h.parent x ≡ 0) × (h.left x ≡ 0) × (h.right x ≡ 0)

pub two_kept_left :
    (h : Heap) (y x q : Ptr) → (q == x) ≡ false → (q == y) ≡ false → AllKept h (left_child h y x) q
two_kept_left h y x q ex ey = (refl, ground (arith, ey), refl, ground (arith, ex))

pub two_kept_right :
    (h : Heap) (y x q : Ptr) → (q == x) ≡ false → (q == y) ≡ false → AllKept h (right_child h y x) q
two_kept_right h y x q ex ey = (refl, refl, ground (arith, ey), ground (arith, ex))

-- A linked child hangs at its place.
pub left_child-linked :
    (h : Heap) (y x : Ptr) (r : Tree) (c : Place)
    → IsNew h x
    → IsTree h (above c) (node y leaf r)
    → IsPlace h c y
    → ((q : Ptr) → is x q + (is y q + (count q r + count_around q c)) ≤ 1)
    → IsTree (left_child h y x) y (node x leaf leaf) × IsPlace (left_child h y x) (left_of y r c) x
unfolding IsTree IsPlace
left_child-linked h y x r c (px, lx, ux, el, er) (py, ly, uy, ely, ery, il, ir) j once =
    let h' = left_child h y x in
    let xy = not_is y x (is x x) (omega (arith, once x)) (omega (arith, is_self x 0)) in
    let kept = λ (q : Ptr) (n : 0 < count q r + count_around q c).
      two_kept_left h y x q (not_is x q _ (once q) (omega arith))
        (not_is y q _ (omega (arith, once q)) n) in
    (
      (px, lx, ground arith, ground (arith, xy, el), er, tt, tt),
      (
        py,
        ly,
        ground (arith, xy, uy),
        ground arith,
        ery,
        IsTree-same h h' y r ir (λ q n. kept q (omega arith)) (λ q. omega (arith, once q)),
        IsPlace-same h h' c y j (λ q n. kept q (omega arith)) (λ q. omega (arith, once q)),
      ),
    )

pub right_child-linked :
    (h : Heap) (y x : Ptr) (l : Tree) (c : Place)
    → IsNew h x
    → IsTree h (above c) (node y l leaf)
    → IsPlace h c y
    → ((q : Ptr) → is x q + (is y q + (count q l + count_around q c)) ≤ 1)
    → IsTree (right_child h y x) y (node x leaf leaf)
      × IsPlace (right_child h y x) (right_of y l c) x
unfolding IsTree IsPlace
right_child-linked h y x l c (px, lx, ux, el, er) (py, ly, uy, ely, ery, il, ir) j once =
    let h' = right_child h y x in
    let xy = not_is y x (is x x) (omega (arith, once x)) (omega (arith, is_self x 0)) in
    let kept = λ (q : Ptr) (n : 0 < count q l + count_around q c).
      two_kept_right h y x q (not_is x q _ (once q) (omega arith))
        (not_is y q _ (omega (arith, once q)) n) in
    (
      (px, lx, ground arith, el, ground (arith, xy, er), tt, tt),
      (
        py,
        ly,
        ground (arith, xy, uy),
        ely,
        ground arith,
        IsTree-same h h' y l il (λ q n. kept q (omega arith)) (λ q. omega (arith, once q)),
        IsPlace-same h h' c y j (λ q n. kept q (omega arith)) (λ q. omega (arith, once q)),
      ),
    )
