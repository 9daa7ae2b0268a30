-- ===== src/HeapInterface/Fall.antt =====
-- One turn of the loop of `heapAdjustDown` of clib/heap_interface.c, and those after it.
use chenghualearning.Common.{
  ℕ, ◌+◌, ◌<◌, ◌≤◌, ◌≡◌, refl, ap, ◌∙◌, arith, ◌==◌, if◌then◌else◌, Run, Returns,
}
use chenghualearning.HeapInterface.{Ptr, Heap}
use chenghualearning.HeapInterface.Tree.{
  Tree, node, Place, top, left_of, right_of, root_of, root_from, above, is, count, count_around,
  IsTree, IsPlace, not_is,
}
use chenghualearning.HeapInterface.Place.{AllKept, is_self}
use chenghualearning.HeapInterface.Links.{root-hung}
use chenghualearning.HeapInterface.Turn.{Turned, Turned-to}
use chenghualearning.HeapInterface.Raise.{Apart}
use chenghualearning.HeapInterface.{exchange_left, exchange_right}
use chenghualearning.HeapInterface.Lowering.{
  lowered, exchanged, exchange_left_lem, exchange_right_lem,
}
use chenghualearning.HeapInterface.Lower.{exchanged-Turned}
use chenghualearning.HeapInterface.Once.{once-Apart, root-Safe, IsPlace-Hangs, symm_false}

-- One iteration that exchanges the node `p` with its child `a`.
abbrev Falls : Run Heap → Heap → Place → (a p u v l r s : Ptr) → Type 0
Falls run h c a p u v l r s =
    Returns run
      (λ h'. Turned h h' c a p u v l r s × (h'.root ≡ (if h.root == p then a else h.root)))

pub fall-left :
    (h : Heap) (c : Place) (a p : Ptr) (l r s : Tree)
    → IsTree h (above c) (node p (node a l r) s)
    → IsPlace h c p
    → ((q : Ptr)
        → is a q + (is p q + (count q l + (count q r + (count q s + count_around q c)))) ≤ 1)
    → Falls
        (exchange_left h p (above c) a (root_of s))
        h
        c
        a
        p
        p
        (root_of s)
        (root_of l)
        (root_of r)
        (root_of s)
unfolding IsTree
fall-left h c a p l r s i j once =
    let (pp, lp, up, epl, epr, (pa, la, ua, el, er, il, ir), is_) = i in
    let d = once-Apart c a p l r s pa pp once in
    let d' : Apart c a p (h.left a) (h.right a) (root_of s) = rw (el, er) d in
    let hangs = IsPlace-Hangs h c p 0 j pp (λ q. omega (arith, once q)) in
    let run =
      exchange_left_lem h c p a (root_of s) lp la hangs d.a_c (symm_false p (above c) d.p_c) d.a_p
        (rw el (root-Safe h a l il)) (rw er (root-Safe h a r ir)) (root-Safe h p s is_) in
    let t = exchanged-Turned h c a p p (root_of s) (root_of s) d' in
    (
      exchanged h c p a p (root_of s) (root_of s),
      run,
      (
        Turned-to refl refl el er refl t,
        ap (λ x. if x == p then a else x) (root-hung (lowered h p a) c a),
      ),
    )

pub fall-right :
    (h : Heap) (c : Place) (a p : Ptr) (l r s : Tree)
    → IsTree h (above c) (node p s (node a l r))
    → IsPlace h c p
    → ((q : Ptr)
        → is a q + (is p q + (count q l + (count q r + (count q s + count_around q c)))) ≤ 1)
    → Falls
        (exchange_right h p (above c) (root_of s) a)
        h
        c
        a
        p
        (root_of s)
        p
        (root_of l)
        (root_of r)
        (root_of s)
unfolding IsTree
fall-right h c a p l r s i j once =
    let (pp, lp, up, epl, epr, is_, (pa, la, ua, el, er, il, ir)) = i in
    let d = once-Apart c a p l r s pa pp once in
    let d' : Apart c a p (h.left a) (h.right a) (root_of s) = rw (el, er) d in
    let hangs = IsPlace-Hangs h c p 0 j pp (λ q. omega (arith, once q)) in
    let run =
      exchange_right_lem h c p a (root_of s) lp la hangs d.a_c (symm_false p (above c) d.p_c) d.a_p
        (rw el (root-Safe h a l il)) (rw er (root-Safe h a r ir)) (root-Safe h p s is_) in
    let t = exchanged-Turned h c a p (root_of s) p (root_of s) d' in
    (
      exchanged h c p a (root_of s) p (root_of s),
      run,
      (
        Turned-to refl refl el er refl t,
        ap (λ x. if x == p then a else x) (root-hung (lowered h p a) c a),
      ),
    )

-- The root of the whole tree is above the place, or at it.
root_in : (c : Place) (p : Ptr) → 0 < is p (root_from c p) + count_around (root_from c p) c
unfolding count_around
root_in top p = omega (arith, is_self p 0)
root_in (left_of q r c) p = omega (arith, root_in c q)
root_in (right_of q l c) p = omega (arith, root_in c q)

-- Where the node at the place changes, so does the root if it was that node.
pub root_changed :
    (c : Place) (p a : Ptr)
    → ((q : Ptr) → is p q + count_around q c ≤ 1)
    → (if root_from c p == p then a else root_from c p) ≡ root_from c a
unfolding count_around
root_changed top p a once = ground arith
root_changed (left_of q r c) p a once =
    let e = not_is p (root_from c q) _ (once (root_from c q)) (omega (arith, root_in c q)) in
    rw e refl
root_changed (right_of q l c) p a once =
    let e = not_is p (root_from c q) _ (once (root_from c q)) (omega (arith, root_in c q)) in
    rw e refl

pub spread : (p a l r s c : ℕ) → p + (a + (l + r) + (s + c)) ≤ 1 → a + (p + (l + (r + (s + c)))) ≤ 1
spread p a l r s c h = omega arith

pub spread_right :
    (p a l r s c : ℕ) → p + (s + (a + (l + r) + c)) ≤ 1 → a + (p + (l + (r + (s + c)))) ≤ 1
spread_right p a l r s c h = omega arith

-- What the loop makes of a node that came to the place.
pub record Sifted (h : Heap) (whole : Tree) (inside : Ptr → ℕ) (h' : Heap) : Type 0 where
  pub tree : IsTree h' 0 whole
  pub rooted : h'.root ≡ root_of whole
  pub cnt_kept : h'.cnt ≡ h.cnt
  pub others : (q : Ptr) → 0 < q → inside q ≡ 0 → AllKept h h' q

pub Sifted-after :
    (h h' h'' : Heap) (whole : Tree) (inside inside' : Ptr → ℕ)
    → Sifted h' whole inside h''
    → h'.cnt ≡ h.cnt
    → ((q : Ptr) → 0 < q → inside' q ≡ 0 → AllKept h h' q)
    → ((q : Ptr) → inside q ≡ inside' q)
    → Sifted h whole inside' h''
Sifted-after h h' h'' whole inside inside' l ec kept same = record {
  tree = l.tree;
  rooted = l.rooted;
  cnt_kept = l.cnt_kept ∙ ec;
  others = λ q n none.
      let (a1, l1, r1, p1) = kept q n none in
      let (a2, l2, r2, p2) = l.others q n (same q ∙ none) in (a2 ∙ a1, l2 ∙ l1, r2 ∙ r1, p2 ∙ p1);
}
