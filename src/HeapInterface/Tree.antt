-- ===== src/HeapInterface/Tree.antt =====
-- The trees that the nodes of clib/heap_interface.c are linked in, and the places in them.
use chenghualearning.Common.{
  ℕ, suc, ◌+◌, ◌<◌, ◌≤◌, ◌≡◌, refl, ◌∙◌, true, false, arith, ◌==◌, if◌then◌else◌,
}
use Prim.Native.Nat.{max}
use chenghualearning.HeapInterface.{Ptr, Heap}

pub data Tree : Type 0 where
  leaf : Tree
  node : Ptr → Tree → Tree → Tree

-- A place in a tree: below `p`, with the other child of `p`, or at the top.
pub data Place : Type 0 where
  top : Place
  left_of : Ptr → Tree → Place → Place
  right_of : Ptr → Tree → Place → Place

abbrev pub root_of : Tree → Ptr
root_of leaf = 0
root_of (node a l r) = a

-- The tree with `t` at the place.
unfoldable pub plug : Tree → Place → Tree
plug t top = t
plug t (left_of p r c) = plug (node p t r) c
plug t (right_of p l c) = plug (node p l t) c

abbrev pub above : Place → Ptr
above top = 0
above (left_of p r c) = p
above (right_of p l c) = p

-- How often `q` occurs.
abbrev pub is : Ptr → Ptr → ℕ
is a q = if a == q then 1 else 0

unfoldable pub count : Ptr → Tree → ℕ
count q leaf = 0
count q (node a l r) = is a q + (count q l + count q r)

unfoldable pub count_around : Ptr → Place → ℕ
count_around q top = 0
count_around q (left_of p r c) = is p q + (count q r + count_around q c)
count_around q (right_of p l c) = is p q + (count q l + count_around q c)

pub count-plug :
    (q : Ptr) (t : Tree) (c : Place) → count q (plug t c) ≡ count q t + count_around q c
unfolding plug count count_around
count-plug q t top = omega arith
count-plug q t (left_of p r c) = omega (arith, count-plug q (node p t r) c)
count-plug q t (right_of p l c) = omega (arith, count-plug q (node p l t) c)

-- The levels of a tree, and those above a place.
unfoldable pub height : Tree → ℕ
height leaf = 0
height (node a l r) = suc (max (height l) (height r))

unfoldable pub depth : Place → ℕ
depth top = 0
depth (left_of p r c) = suc (depth c)
depth (right_of p l c) = suc (depth c)

-- The nodes of `t` are live and linked as it says, its root below `p`.
unfoldable pub IsTree : Heap → Ptr → Tree → Type 0
IsTree h p leaf = Unit {0}
IsTree h p (node a l r) =
    (0 < a)
    × (h.live a ≡ true)
    × (h.parent a ≡ p)
    × (h.left a ≡ root_of l)
    × (h.right a ≡ root_of r)
    × IsTree h a l
    × IsTree h a r

-- So are those around a place with `x` at it.
unfoldable pub IsPlace : Heap → Place → Ptr → Type 0
IsPlace h top x = Unit {0}
IsPlace h (left_of p r c) x =
    (0 < p)
    × (h.live p ≡ true)
    × (h.parent p ≡ above c)
    × (h.left p ≡ x)
    × (h.right p ≡ root_of r)
    × IsTree h p r
    × IsPlace h c p
IsPlace h (right_of p l c) x =
    (0 < p)
    × (h.live p ≡ true)
    × (h.parent p ≡ above c)
    × (h.left p ≡ root_of l)
    × (h.right p ≡ x)
    × IsTree h p l
    × IsPlace h c p

pub IsTree-plug :
    (h : Heap) (t : Tree) (c : Place)
    → IsTree h (above c) t
    → IsPlace h c (root_of t)
    → IsTree h 0 (plug t c)
unfolding IsTree IsPlace plug
IsTree-plug h t top i j = i
IsTree-plug h t (left_of p r c) i (pos, live, up, l, e, k, j) =
    IsTree-plug h (node p t r) c (pos, live, up, l, e, i, k) j
IsTree-plug h t (right_of p l c) i (pos, live, up, e, r, k, j) =
    IsTree-plug h (node p l t) c (pos, live, up, e, r, k, i) j

pub IsTree-unplug :
    (h : Heap) (t : Tree) (c : Place)
    → IsTree h 0 (plug t c)
    → IsTree h (above c) t × IsPlace h c (root_of t)
unfolding IsTree IsPlace plug
IsTree-unplug h t top i = (i, tt)
IsTree-unplug h t (left_of p r c) i =
    let ((pos, live, up, l, e, k, m), j) = IsTree-unplug h (node p t r) c i in
    (k, (pos, live, up, l, e, m, j))
IsTree-unplug h t (right_of p l c) i =
    let ((pos, live, up, e, r, m, k), j) = IsTree-unplug h (node p l t) c i in
    (k, (pos, live, up, e, r, m, j))

-- The root of the whole tree, with `x` at the place.
abbrev pub root_from : Place → Ptr → Ptr
root_from top x = x
root_from (left_of p r c) x = root_from c p
root_from (right_of p l c) x = root_from c p

pub root_of-plug : (t : Tree) (c : Place) → root_of (plug t c) ≡ root_from c (root_of t)
unfolding plug
root_of-plug t top = refl
root_of-plug t (left_of p r c) = root_of-plug (node p t r) c
root_of-plug t (right_of p l c) = root_of-plug (node p l t) c

-- `h'` links and keeps the node `q` as `h` does, but for what is above it.
abbrev pub Kept : Heap → Heap → Ptr → Type 0
Kept h h' q = (h'.live q ≡ h.live q) × (h'.left q ≡ h.left q) × (h'.right q ≡ h.right q)

pub count-root_of : (t : Tree) → 0 < root_of t → 0 < count (root_of t) t
unfolding count
count-root_of leaf h = omega arith
count-root_of (node a l r) h = ground arith

pub parent-root_of :
    (h : Heap) (p : Ptr) (t : Tree) → IsTree h p t → 0 < root_of t → h.parent (root_of t) ≡ p
unfolding IsTree
parent-root_of h p leaf i pos = omega arith
parent-root_of h p (node a l r) (pos, live, up, el, er, il, ir) h0 = up

pub not_is : (a q n : ℕ) → is a q + n ≤ 1 → 0 < n → (q == a) ≡ false
not_is a q n once h = ground arith

-- A tree stays as it is where its nodes do, and its root may get another parent.
pub IsTree-Kept :
    (h h' : Heap) (p p' : Ptr) (t : Tree)
    → IsTree h p t
    → ((q : Ptr) → 0 < count q t → Kept h h' q)
    → ((q : Ptr) → 0 < count q t → (q == root_of t) ≡ false → h'.parent q ≡ h.parent q)
    → (0 < root_of t → h'.parent (root_of t) ≡ p')
    → ((q : Ptr) → count q t ≤ 1)
    → IsTree h' p' t
unfolding IsTree count
IsTree-Kept h h' p p' leaf i kept parents own once = tt
IsTree-Kept h h' p p' (node a l r) (pos, live, up, el, er, il, ir) kept parents own once =
    let (klive, kl, kr) = kept a (count-root_of (node a l r) pos) in
    let apart = λ (q : Ptr) (c : 0 < count q l + count q r). not_is a q _ (once q) c in
    (
      pos,
      klive ∙ live,
      own pos,
      kl ∙ el,
      kr ∙ er,
      IsTree-Kept h h' a a l il (λ q c. kept q (omega arith))
          (λ q c e. parents q (omega arith) (apart q (omega arith)))
          (λ nonleaf.
            let c = count-root_of l nonleaf in
            parents (root_of l) (omega arith) (apart (root_of l) (omega arith))
            ∙ parent-root_of h a l il nonleaf)
          (λ q. omega (arith, once q)),
      IsTree-Kept h h' a a r ir (λ q c. kept q (omega arith))
          (λ q c e. parents q (omega arith) (apart q (omega arith)))
          (λ nonleaf.
            let c = count-root_of r nonleaf in
            parents (root_of r) (omega arith) (apart (root_of r) (omega arith))
            ∙ parent-root_of h a r ir nonleaf)
          (λ q. omega (arith, once q)),
    )

-- The fields of the heap itself do not matter.
pub IsTree-fields :
    (h : Heap) (p x : Ptr) (n : ℕ) (t : Tree)
    → IsTree h p t
    → IsTree (record h { root = x; cnt = n }) p t
unfolding IsTree
IsTree-fields h p x n leaf i = tt
IsTree-fields h p x n (node a l r) (pos, live, up, el, er, il, ir) =
    (pos, live, up, el, er, IsTree-fields h a x n l il, IsTree-fields h a x n r ir)

pub IsPlace-fields :
    (h : Heap) (x : Ptr) (n : ℕ) (c : Place) (y : Ptr)
    → IsPlace h c y
    → IsPlace (record h { root = x; cnt = n }) c y
unfolding IsPlace
IsPlace-fields h x n top y i = tt
IsPlace-fields h x n (left_of p r c) y (pos, live, up, el, er, ir, ic) =
    (pos, live, up, el, er, IsTree-fields h p x n r ir, IsPlace-fields h x n c p ic)
IsPlace-fields h x n (right_of p l c) y (pos, live, up, el, er, il, ic) =
    (pos, live, up, el, er, IsTree-fields h p x n l il, IsPlace-fields h x n c p ic)
