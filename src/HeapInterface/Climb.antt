-- ===== src/HeapInterface/Climb.antt =====
-- One turn of the loop of `heapAdjustUp` of clib/heap_interface.c, and those after it.
use chenghualearning.Common.{
  ℕ, ◌+◌, ◌<◌, ◌≤◌, ◌≡◌, refl, sym, subst, ◌∙◌, ◌⊎◌, inl, inr, true, false, arith, ◌==◌, Returns,
}
use chenghualearning.HeapInterface.{Ptr, Heap, write, swap_up}
use chenghualearning.HeapInterface.Tree.{
  Tree, node, Place, left_of, right_of, plug, root_of, root_from, root_of-plug, above, is, count,
  count_around, IsTree, IsPlace, IsTree-plug,
}
use chenghualearning.HeapInterface.Place.{AllKept}
use chenghualearning.HeapInterface.Links.{
  root-hung, swapped_left, swapped_right, swap_up-left, swap_up-right,
}
use chenghualearning.HeapInterface.Turn.{Turned, Turned-to}
use chenghualearning.HeapInterface.Raise.{Apart, swapped_left-Turned, swapped_right-Turned}
use chenghualearning.HeapInterface.Once.{once-Apart, root-Safe, IsPlace-Hangs}

-- One iteration with the node on the left of its parent, and on the right.
abbrev Turns : Heap → Place → (a p u v l r s : Ptr) → Type 0
Turns h c a p u v l r s =
    Returns (swap_up h a p (above c)) (λ h'. Turned h h' c a p u v l r s × (h'.root ≡ h.root))

pub turn-left :
    (h : Heap) (c : Place) (a p : Ptr) (l r s : Tree)
    → IsTree h p (node a l r)
    → IsPlace h (left_of p s c) a
    → ((q : Ptr)
        → is a q + (is p q + (count q l + (count q r + (count q s + count_around q c)))) ≤ 1)
    → Turns h c a p p (root_of s) (root_of l) (root_of r) (root_of s)
unfolding IsTree IsPlace
turn-left h c a p l r s (pa, la, ua, el, er, il, ir) (pp, lp, up, epl, epr, is_, ic) once =
    let d = once-Apart c a p l r s pa pp once in
    let d' : Apart c a p (h.left a) (h.right a) (h.right p) = rw (el, er, epr) d in
    let hangs = IsPlace-Hangs h c p 0 ic pp (λ q. omega (arith, once q)) in
    let run =
      swap_up-left h c a p la lp hangs d.p_c (rw el (root-Safe h a l il))
        (rw er (root-Safe h a r ir)) (ground (arith, epl)) (rw epr (root-Safe h p s is_)) in
    let t = swapped_left-Turned h a p c d' in
    let g = record h { parent = write h.parent a (above c) } in
    (swapped_left h c a p, run, (Turned-to refl epr el er epr t, root-hung g c a))

pub turn-right :
    (h : Heap) (c : Place) (a p : Ptr) (l r s : Tree)
    → IsTree h p (node a l r)
    → IsPlace h (right_of p s c) a
    → ((q : Ptr)
        → is a q + (is p q + (count q l + (count q r + (count q s + count_around q c)))) ≤ 1)
    → Turns h c a p (root_of s) p (root_of l) (root_of r) (root_of s)
unfolding IsTree IsPlace
turn-right h c a p l r s (pa, la, ua, el, er, il, ir) (pp, lp, up, epl, epr, is_, ic) once =
    let d = once-Apart c a p l r s pa pp once in
    let d' : Apart c a p (h.left a) (h.right a) (h.left p) = rw (el, er, epl) d in
    let hangs = IsPlace-Hangs h c p 0 ic pp (λ q. omega (arith, once q)) in
    let s_a = d.s_a in
    let run =
      swap_up-right h c a p la lp hangs d.p_c (rw el (root-Safe h a l il))
        (rw er (root-Safe h a r ir)) (ground (arith, epl, s_a)) (ground (arith, epr))
        (rw epl (root-Safe h p s is_)) in
    let t = swapped_right-Turned h a p c d' in
    let g = record h { parent = write h.parent a (above c) } in
    (swapped_right h c a p, run, (Turned-to epl refl el er epl t, root-hung g c a))

pub reorder :
    (a l r p s c : ℕ) → a + (l + (r + (p + (s + c)))) ≤ 1 → a + (p + (l + (r + (s + c)))) ≤ 1
reorder a l r p s c h = omega arith

-- Where the loop leaves the root: at the node, or as it was.
abbrev pub Rooted : Heap → (whole : Ptr) → Place → Ptr → Type 0
Rooted h whole c a =
    ((h.parent a ≡ 0) × (whole ≡ a)) ⊎ ((0 < h.parent a) × ((x : Ptr) → whole ≡ root_from c x))

-- What the loop makes of a node that was added.
pub record Climbed (h : Heap) (whole : Tree) (c : Place) (a : Ptr) (inside : Ptr → ℕ) (h' : Heap)
    : Type 0 where
  pub tree : IsTree h' 0 whole
  pub live_node : h'.live a ≡ true
  pub rooted : Rooted h' (root_of whole) c a
  pub root_kept : h'.root ≡ h.root
  pub cnt_kept : h'.cnt ≡ h.cnt
  pub others : (q : Ptr) → 0 < q → inside q ≡ 0 → AllKept h h' q

-- Where the loop stops below `p`.
pub stays :
    (h : Heap) (c : Place) (a p : Ptr) (l r : Tree) (inside : Ptr → ℕ)
    → IsTree h p (node a l r)
    → above c ≡ p
    → 0 < p
    → ((x y : Ptr) → root_from c x ≡ root_from c y)
    → IsPlace h c a
    → Climbed h (plug (node a l r) c) c a inside h
unfolding IsTree
stays h c a p l r inside i e pp fixed j =
    let (pa, la, ua, el, er, il, ir) = i in
    record {
      tree = IsTree-plug h (node a l r) c (subst (λ x. IsTree h x (node a l r)) (sym e) i) j;
      live_node = la;
      rooted = inr (omega arith, λ x. root_of-plug (node a l r) c ∙ fixed a x);
      root_kept = refl;
      cnt_kept = refl;
      others = λ q n none. (refl, refl, refl, refl);
    }

pub root_positive : (h : Heap) (p a : Ptr) (l r : Tree) → IsTree h p (node a l r) → 0 < a
unfolding IsTree
root_positive h p a l r i = i.0

pub is_null : (q : Ptr) → q ≡ 0 → (q == 0) ≡ true
is_null q e = ground (arith, e)

pub not_null : (q : Ptr) → 0 < q → (q == 0) ≡ false
not_null q e = ground (arith, e)

-- What a turn and the rest of the loop make together.
pub Climbed-after :
    (h h' h'' : Heap) (whole : Tree) (c c' : Place) (a p : Ptr) (inside inside' : Ptr → ℕ)
    → Climbed h' whole c a inside h''
    → h'.root ≡ h.root
    → h'.cnt ≡ h.cnt
    → ((q : Ptr) → 0 < q → inside' q ≡ 0 → AllKept h h' q)
    → ((q : Ptr) → inside q ≡ inside' q)
    → ((x : Ptr) → root_from c' x ≡ root_from c p)
    → Climbed h whole c' a inside' h''
Climbed-after h h' h'' whole c c' a p inside inside' l er ec kept same from = record {
  tree = l.tree;
  live_node = l.live_node;
  rooted = elim (l.rooted) [
    | inl both ↦ inl both
    | inr (some_parent, f) ↦ inr (some_parent, λ x. f p ∙ sym (from x))
  ];
  root_kept = l.root_kept ∙ er;
  cnt_kept = l.cnt_kept ∙ ec;
  others = λ q n none.
      let (a1, l1, r1, p1) = kept q n none in
      let (a2, l2, r2, p2) = l.others q n (same q ∙ none) in (a2 ∙ a1, l2 ∙ l1, r2 ∙ r1, p2 ∙ p1);
}
