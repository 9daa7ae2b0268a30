-- ===== src/HeapInterface/Down.antt =====
-- `heapAdjustDown` of clib/heap_interface.c moves the root to where `sift` does.
use chenghualearning.Common.{
  ℕ, zero, suc, ◌+◌, ◌<◌, ◌≤◌, ◌≡◌, refl, sym, ap, ◌∙◌, inl, inr, true, false, arith, ◌==◌,
  if◌then◌else◌, ok, Returns,
}
use chenghualearning.Common.Int.{ℤ}
use chenghualearning.HeapInterface.{Ptr, Heap, get_parent}
use chenghualearning.HeapInterface.Tree.{
  Tree, leaf, node, Place, left_of, right_of, plug, root_of, root_from, root_of-plug, above, is,
  count, count_around, IsTree, IsPlace, IsTree-plug,
}
use chenghualearning.HeapInterface.Turn.{sunk, sibling, around, outside}
use chenghualearning.HeapInterface.{
  no_exchange, ex_left, ex_right, choose, exchange_left, exchange_right, down_loop, get_left,
  get_right,
}
use chenghualearning.HeapInterface.Sift.{sift, choose-cases}
use chenghualearning.HeapInterface.Tree.{height}
use chenghualearning.HeapInterface.Climb.{not_null}
use chenghualearning.HeapInterface.Fall.{
  fall-right, Sifted, spread_right, root_changed, Sifted-after, spread, fall-left,
}

module _ (cmp : Ptr → Ptr → ℤ) where
  module _ (fuel : ℕ) (h : Heap) (x u l r : Ptr) (some_x : (x == 0) ≡ false)
      (live : h.live x ≡ true) (eu : h.parent x ≡ u) (el : h.left x ≡ l) (er : h.right x ≡ r) where
    loop-rests : choose cmp x l r ≡ no_exchange → down_loop cmp (suc fuel) h x ≡ ok h
    unfolding down_loop get_parent get_left get_right
    loop-rests e = ground (arith, some_x, live, eu, el, er, e)

    loop-left :
        (h' : Heap)
        → choose cmp x l r ≡ ex_left
        → exchange_left h x u l r ≡ ok h'
        → down_loop cmp (suc fuel) h x ≡ down_loop cmp fuel h' x
    unfolding down_loop get_parent get_left get_right
    loop-left h' e run = ground (arith, some_x, live, eu, el, er, e, run)

    loop-right :
        (h' : Heap)
        → choose cmp x l r ≡ ex_right
        → exchange_right h x u l r ≡ ok h'
        → down_loop cmp (suc fuel) h x ≡ down_loop cmp fuel h' x
    unfolding down_loop get_parent get_left get_right
    loop-right h' e run = ground (arith, some_x, live, eu, el, er, e, run)

  -- The claim for a bound on the steps.
  abbrev Sifts : ℕ → Ptr → Type 0
  Sifts fuel x =
      (h : Heap) (c : Place) (l r : Tree)
      → IsTree h (above c) (node x l r)
      → IsPlace h c x
      → ((q : Ptr) → is x q + (count q l + (count q r + count_around q c)) ≤ 1)
      → height (node x l r) ≤ fuel
      → h.root ≡ root_from c x
      → Returns (down_loop cmp fuel h x) (
          Sifted h (plug (sift cmp x (node x l r)) c)
            (λ q. is x q + (count q l + (count q r + count_around q c))))

  step-left :
      (fuel : ℕ) (h : Heap) (c : Place) (p : Ptr) (t s : Tree)
      → Sifts fuel p
      → IsTree h (above c) (node p t s)
      → IsPlace h c p
      → ((q : Ptr) → is p q + (count q t + (count q s + count_around q c)) ≤ 1)
      → height (node p t s) ≤ suc fuel
      → h.root ≡ root_from c p
      → choose cmp p (root_of t) (root_of s) ≡ ex_left
      → 0 < root_of t
      → Returns (down_loop cmp (suc fuel) h p) (
          Sifted h
            (plug (sift cmp p (node p t s)) c)
            (λ q. is p q + (count q t + (count q s + count_around q c))))
  unfolding sift height IsTree IsPlace count count_around plug
  step-left fuel h c p leaf s rec i j once enough rooted e some = absurd (omega arith)
  step-left fuel h c p (node a l r) s rec i j once enough rooted e some =
      let (px, lx, ux, el, er, (pa, la, ua, ela, era, il, ir), is_) = i in
      let once' = λ (q : Ptr).
        spread (is p q) (is a q) (count q l) (count q r) (count q s) (count_around q c) (once q) in
      let (h', run, (t, er')) = fall-left h c a p l r s i j once' in
      let (h'', run', l') =
        rec h' (left_of a s c) l r (sunk h h' c a p l r s p (root_of s) once' t il ir is_ j px lx)
          (
            pa,
            t.live a ∙ la,
            t.parent_a,
            t.left_a,
            t.right_a,
            sibling h h' c a p l r s p (root_of s) once' t il ir is_ j,
            around h h' c a p l r s p (root_of s) once' t il ir is_ j,
          )
          (λ q. omega (arith, once q)) (omega arith)
          (er'
            ∙ ap (λ x. if x == p then a else x) rooted
            ∙ root_changed c p a (λ q. omega (arith, once q))) in
      (
        h'',
        loop-left fuel h p (above c) a (root_of s) (not_null p px) lx ux el er h' e run ∙ run',
        rw (e, sift)
            (Sifted-after h h' h'' _ _ _ l' t.count_kept
              (λ q n none.
                outside h h' c a p l r s p (root_of s) once' t il ir is_ j q n (omega arith))
              (λ q. omega arith)),
      )

  step-right :
      (fuel : ℕ) (h : Heap) (c : Place) (p : Ptr) (s t : Tree)
      → Sifts fuel p
      → IsTree h (above c) (node p s t)
      → IsPlace h c p
      → ((q : Ptr) → is p q + (count q s + (count q t + count_around q c)) ≤ 1)
      → height (node p s t) ≤ suc fuel
      → h.root ≡ root_from c p
      → choose cmp p (root_of s) (root_of t) ≡ ex_right
      → 0 < root_of t
      → Returns (down_loop cmp (suc fuel) h p) (
          Sifted h
            (plug (sift cmp p (node p s t)) c)
            (λ q. is p q + (count q s + (count q t + count_around q c))))
  unfolding sift height IsTree IsPlace count count_around plug
  step-right fuel h c p s leaf rec i j once enough rooted e some = absurd (omega arith)
  step-right fuel h c p s (node a l r) rec i j once enough rooted e some =
      let (px, lx, ux, el, er, is_, (pa, la, ua, ela, era, il, ir)) = i in
      let once' = λ (q : Ptr).
        spread_right (is p q) (is a q) (count q l) (count q r) (count q s) (count_around q c)
          (once q) in
      let (h', run, (t, er')) = fall-right h c a p l r s i j once' in
      let (h'', run', l') =
        rec h' (right_of a s c) l r (sunk h h' c a p l r s (root_of s) p once' t il ir is_ j px lx)
          (
            pa,
            t.live a ∙ la,
            t.parent_a,
            t.left_a,
            t.right_a,
            sibling h h' c a p l r s (root_of s) p once' t il ir is_ j,
            around h h' c a p l r s (root_of s) p once' t il ir is_ j,
          )
          (λ q. omega (arith, once q)) (omega arith)
          (er'
            ∙ ap (λ x. if x == p then a else x) rooted
            ∙ root_changed c p a (λ q. omega (arith, once q))) in
      (
        h'',
        loop-right fuel h p (above c) (root_of s) a (not_null p px) lx ux el er h' e run ∙ run',
        rw (e, sift)
            (Sifted-after h h' h'' _ _ _ l' t.count_kept
              (λ q n none.
                outside h h' c a p l r s (root_of s) p once' t il ir is_ j q n (omega arith))
              (λ q. omega arith)),
      )

  pub down_loop_lem :
      (fuel : ℕ) (h : Heap) (c : Place) (x : Ptr) (l r : Tree)
      → IsTree h (above c) (node x l r)
      → IsPlace h c x
      → ((q : Ptr) → is x q + (count q l + (count q r + count_around q c)) ≤ 1)
      → height (node x l r) ≤ fuel
      → h.root ≡ root_from c x
      → Returns (down_loop cmp fuel h x) (
          Sifted h
            (plug (sift cmp x (node x l r)) c)
            (λ q. is x q + (count q l + (count q r + count_around q c))))
  unfolding sift height IsTree IsPlace count count_around plug
  down_loop_lem zero h c x l r i j once enough rooted = absurd (omega arith)
  down_loop_lem (suc fuel) h c x l r i j once enough rooted =
      let (px, lx, ux, el, er, il, ir) = i in
      let some_x = not_null x px in
      elim (choose-cases cmp x (root_of l) (root_of r)) [
        | inl (e, a, b) ↦ (
          h,
          loop-rests fuel h x (above c) (root_of l) (root_of r) some_x lx ux el er e,
          rw (e, sift)
              (record {
                tree = IsTree-plug h (node x l r) c i j;
                rooted = rooted ∙ sym (root_of-plug (node x l r) c);
                cnt_kept = refl;
                others = λ q n none. (refl, refl, refl, refl);
              }),
        )
        | inr (inl (e, some_l, a, b)) ↦
            step-left fuel h c x l r (λ h c l r. down_loop_lem fuel h c x l r) i j once enough
              rooted e some_l
        | inr (inr (e, some_r, a, b)) ↦
            step-right fuel h c x l r (λ h c l r. down_loop_lem fuel h c x l r) i j once enough
              rooted e some_r
      ]
