-- ===== src/HeapInterface/Place.antt =====
-- What around a place survives a change of the nodes of clib/heap_interface.c.
use chenghualearning.Common.{ℕ, ◌+◌, ◌<◌, ◌≤◌, ◌≡◌, ◌∙◌, false, arith, ◌==◌}
use chenghualearning.HeapInterface.{Ptr, Heap}
use chenghualearning.HeapInterface.Tree.{
  Tree, Place, top, left_of, right_of, root_of, above, is, count, count_around, IsTree, IsPlace,
  IsTree-Kept, count-root_of, parent-root_of, not_is,
}

abbrev pub AllKept : Heap → Heap → Ptr → Type 0
AllKept h h' q =
    (h'.live q ≡ h.live q)
    × (h'.left q ≡ h.left q)
    × (h'.right q ≡ h.right q)
    × (h'.parent q ≡ h.parent q)

pub AllKept-trans :
    (h h' h'' : Heap) (q : Ptr) → AllKept h h' q → AllKept h' h'' q → AllKept h h'' q
AllKept-trans h h' h'' q (a, l, r, p) (a', l', r', p') = (a' ∙ a, l' ∙ l, r' ∙ r, p' ∙ p)

pub is_self : (a n : ℕ) → 0 < is a a + n
is_self a n = ground arith

pub IsTree-same :
    (h h' : Heap) (p : Ptr) (t : Tree)
    → IsTree h p t
    → ((q : Ptr) → 0 < count q t → AllKept h h' q)
    → ((q : Ptr) → count q t ≤ 1)
    → IsTree h' p t
IsTree-same h h' p t i kept once =
    IsTree-Kept h h' p p t i (λ q c. let (a, l, r, u) = kept q c in (a, l, r))
      (λ q c e. let (a, l, r, u) = kept q c in u)
      (λ nonleaf.
        let (a, l, r, u) = kept (root_of t) (count-root_of t nonleaf) in
        u ∙ parent-root_of h p t i nonleaf)
      once

pub IsPlace-same :
    (h h' : Heap) (c : Place) (x : Ptr)
    → IsPlace h c x
    → ((q : Ptr) → 0 < count_around q c → AllKept h h' q)
    → ((q : Ptr) → count_around q c ≤ 1)
    → IsPlace h' c x
unfolding IsPlace count_around
IsPlace-same h h' top x i kept once = tt
IsPlace-same h h' (left_of p r c) x (pos, live, up, el, er, ir, ic) kept once =
    let (ka, kl, kr, ku) = kept p (is_self p _) in
    (
      pos,
      ka ∙ live,
      ku ∙ up,
      kl ∙ el,
      kr ∙ er,
      IsTree-same h h' p r ir (λ q n. kept q (omega arith)) (λ q. omega (arith, once q)),
      IsPlace-same h h' c p ic (λ q n. kept q (omega arith)) (λ q. omega (arith, once q)),
    )
IsPlace-same h h' (right_of p l c) x (pos, live, up, el, er, il, ic) kept once =
    let (ka, kl, kr, ku) = kept p (is_self p _) in
    (
      pos,
      ka ∙ live,
      ku ∙ up,
      kl ∙ el,
      kr ∙ er,
      IsTree-same h h' p l il (λ q n. kept q (omega arith)) (λ q. omega (arith, once q)),
      IsPlace-same h h' c p ic (λ q n. kept q (omega arith)) (λ q. omega (arith, once q)),
    )

-- In `h'` the place leads to `y`.
abbrev pub Rehung : Heap → Heap → Place → Ptr → Type 0
Rehung h h' top y = Unit {0}
Rehung h h' (left_of p r c) y =
    (h'.live p ≡ h.live p) × (h'.parent p ≡ h.parent p) × (h'.left p ≡ y) × (h'.right p ≡ h.right p)
Rehung h h' (right_of p l c) y =
    (h'.live p ≡ h.live p) × (h'.parent p ≡ h.parent p) × (h'.left p ≡ h.left p) × (h'.right p ≡ y)

-- Where the place leads to something else, the rest may stay.
pub IsPlace-Rehung :
    (h h' : Heap) (c : Place) (x y : Ptr)
    → IsPlace h c x
    → Rehung h h' c y
    → ((q : Ptr) → 0 < count_around q c → (q == above c) ≡ false → AllKept h h' q)
    → ((q : Ptr) → count_around q c ≤ 1)
    → IsPlace h' c y
unfolding IsPlace count_around
IsPlace-Rehung h h' top x y i hung kept once = tt
IsPlace-Rehung h h' (left_of p r c) x y (pos, live, up, el, er, ir, ic) (ka, ku, kl, kr) kept once =
    let apart = λ (q : Ptr) (n : 0 < count q r + count_around q c). not_is p q _ (once q) n in
    (
      pos,
      ka ∙ live,
      ku ∙ up,
      kl,
      kr ∙ er,
      IsTree-same h h' p r ir (λ q n. kept q (omega arith) (apart q (omega arith)))
          (λ q. omega (arith, once q)),
      IsPlace-same h h' c p ic (λ q n. kept q (omega arith) (apart q (omega arith)))
          (λ q. omega (arith, once q)),
    )
IsPlace-Rehung h h' (right_of p l c) x y (pos, live, up, el, er, il, ic) (ka, ku, kl, kr) kept
      once =
    let apart = λ (q : Ptr) (n : 0 < count q l + count_around q c). not_is p q _ (once q) n in
    (
      pos,
      ka ∙ live,
      ku ∙ up,
      kl ∙ el,
      kr,
      IsTree-same h h' p l il (λ q n. kept q (omega arith) (apart q (omega arith)))
          (λ q. omega (arith, once q)),
      IsPlace-same h h' c p ic (λ q n. kept q (omega arith) (apart q (omega arith)))
          (λ q. omega (arith, once q)),
    )
