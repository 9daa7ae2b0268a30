-- ===== src/HeapInterface/Up.antt =====
-- `heapAdjustUp` of clib/heap_interface.c moves a node to where `climb` does.
use chenghualearning.Common.{
  ℕ, zero, suc, ◌+◌, ◌<◌, ◌≤◌, ◌≡◌, refl, sym, ap, ◌∙◌, inl, inr, true, false, Bool-cases, arith,
  ◌==◌, if◌then◌else◌, ok, Returns,
}
use chenghualearning.Common.Int.{ℤ}
use chenghualearning.HeapInterface.{Ptr, Heap, nonneg, get_parent, swap_up, up_loop, heap_adjust_up}
use chenghualearning.HeapInterface.Tree.{
  Tree, node, Place, top, left_of, right_of, root_of, root_from, above, is, count, count_around,
  depth, IsTree, IsPlace, IsTree-fields,
}
use chenghualearning.HeapInterface.Place.{AllKept}
use chenghualearning.HeapInterface.Sift.{climb}
use chenghualearning.HeapInterface.Turn.{sunk, sibling, around, outside}
use chenghualearning.HeapInterface.Climb.{
  stays, not_null, root_positive, Climbed, Climbed-after, turn-right, is_null, reorder, turn-left,
}

module _ (cmp : Ptr → Ptr → ℤ) where
  loop-stays :
      (fuel : ℕ) (h : Heap) (a p : Ptr)
      → h.live a ≡ true
      → h.parent a ≡ p
      → 0 < p
      → h.live p ≡ true
      → nonneg (cmp p a) ≡ true
      → up_loop cmp (suc fuel) h a ≡ ok h
  unfolding up_loop get_parent
  loop-stays fuel h a p la ua pp lp e =
      let some_p : (p == 0) ≡ false = ground arith in ground (arith, la, ua, some_p, lp, e)

  loop-swaps :
      (fuel : ℕ) (h h' : Heap) (a p u : Ptr)
      → h.live a ≡ true
      → h.parent a ≡ p
      → 0 < p
      → h.live p ≡ true
      → h.parent p ≡ u
      → nonneg (cmp p a) ≡ false
      → swap_up h a p u ≡ ok h'
      → up_loop cmp (suc fuel) h a ≡ up_loop cmp fuel h' a
  unfolding up_loop get_parent
  loop-swaps fuel h h' a p u la ua pp lp up e run =
      let some_p : (p == 0) ≡ false = ground arith in ground (arith, la, ua, some_p, lp, up, e, run)

  up_loop_lem :
      (fuel : ℕ) (h : Heap) (c : Place) (a : Ptr) (l r : Tree)
      → IsTree h (above c) (node a l r)
      → IsPlace h c a
      → ((q : Ptr) → is a q + (count q l + (count q r + count_around q c)) ≤ 1)
      → depth c < fuel
      → Returns (up_loop cmp fuel h a) (
          Climbed h
            (climb cmp a l r c)
            c
            a
            (λ q. is a q + (count q l + (count q r + count_around q c))))
  unfolding up_loop get_parent climb depth IsPlace IsTree count_around count
  up_loop_lem zero h c a l r i j once enough = elim enough [ ]
  up_loop_lem (suc fuel) h top a l r (pos, live, up, el, er, il, ir) j once enough = (
    h,
    rw (live, up) refl,
    record {
      tree = (pos, live, up, el, er, il, ir);
      live_node = live;
      rooted = inl (up, refl);
      root_kept = refl;
      cnt_kept = refl;
      others = λ q n none. (refl, refl, refl, refl);
    },
  )
  up_loop_lem (suc fuel) h (left_of p s c) a l r i j once enough =
      let (pa, la, ua, el, er, il, ir) = i in
      let (pp, lp, up, epl, epr, is_, ic) = j in
      elim (Bool-cases (nonneg (cmp p a))) [
        | inl e ↦ (
          h,
          loop-stays fuel h a p la ua pp lp e,
          rw (e, climb) (stays h (left_of p s c) a p l r _ i refl pp (λ x y. refl) j),
        )
        | inr e ↦
            (let once' = λ (q : Ptr).
                reorder (is a q) (count q l) (count q r) (is p q) (count q s) (count_around q c)
                  (once q) in
              let (h', run, (t, rk)) = turn-left h c a p l r s i j once' in
              let (h'', run', l') =
                up_loop_lem fuel h' c a (node p l r) s
                  (
                    pa,
                    t.live a ∙ la,
                    t.parent_a,
                    t.left_a,
                    t.right_a,
                    sunk h h' c a p l r s p (root_of s) once' t il ir is_ ic pp lp,
                    sibling h h' c a p l r s p (root_of s) once' t il ir is_ ic,
                  )
                  (around h h' c a p l r s p (root_of s) once' t il ir is_ ic)
                  (λ q. omega (arith, once q)) (omega arith) in
              (
                h'',
                loop-swaps fuel h h' a p (above c) la ua pp lp up e run ∙ run',
                rw (e, climb)
                    (Climbed-after h h' h'' _ c (left_of p s c) a p _ _ l' rk t.count_kept
                      (λ q n none.
                        outside h h' c a p l r s p (root_of s) once' t il ir is_ ic q n
                          (omega arith))
                      (λ q. omega arith) (λ x. refl)),
              ))
      ]
  up_loop_lem (suc fuel) h (right_of p s c) a l r i j once enough =
      let (pa, la, ua, el, er, il, ir) = i in
      let (pp, lp, up, epl, epr, is_, ic) = j in
      elim (Bool-cases (nonneg (cmp p a))) [
        | inl e ↦ (
          h,
          loop-stays fuel h a p la ua pp lp e,
          rw (e, climb) (stays h (right_of p s c) a p l r _ i refl pp (λ x y. refl) j),
        )
        | inr e ↦
            (let once' = λ (q : Ptr).
                reorder (is a q) (count q l) (count q r) (is p q) (count q s) (count_around q c)
                  (once q) in
              let (h', run, (t, rk)) = turn-right h c a p l r s i j once' in
              let (h'', run', l') =
                up_loop_lem fuel h' c a s (node p l r)
                  (
                    pa,
                    t.live a ∙ la,
                    t.parent_a,
                    t.left_a,
                    t.right_a,
                    sibling h h' c a p l r s (root_of s) p once' t il ir is_ ic,
                    sunk h h' c a p l r s (root_of s) p once' t il ir is_ ic pp lp,
                  )
                  (around h h' c a p l r s (root_of s) p once' t il ir is_ ic)
                  (λ q. omega (arith, once q)) (omega arith) in
              (
                h'',
                loop-swaps fuel h h' a p (above c) la ua pp lp up e run ∙ run',
                rw (e, climb)
                    (Climbed-after h h' h'' _ c (right_of p s c) a p _ _ l' rk t.count_kept
                      (λ q n none.
                        outside h h' c a p l r s (root_of s) p once' t il ir is_ ic q n
                          (omega arith))
                      (λ q. omega arith) (λ x. refl)),
              ))
      ]

  adjust_run :
      (fuel : ℕ) (h h' : Heap) (a : Ptr)
      → (a == 0) ≡ false
      → up_loop cmp fuel h a ≡ ok h'
      → h'.live a ≡ true
      → heap_adjust_up cmp fuel h a ≡ ok (if h'.parent a == 0 then record h' { root = a } else h')
  unfolding heap_adjust_up get_parent
  adjust_run fuel h h' a some run live = ground (arith, some, run, live)

  -- The loop and the assignment of `root` after it.
  pub heap_adjust_up_lem :
      (fuel : ℕ) (h : Heap) (c : Place) (a : Ptr) (l r : Tree)
      → IsTree h (above c) (node a l r)
      → IsPlace h c a
      → ((q : Ptr) → is a q + (count q l + (count q r + count_around q c)) ≤ 1)
      → depth c < fuel
      → ((x : Ptr) → h.root ≡ root_from c x)
      → Returns (heap_adjust_up cmp fuel h a) (λ h'.
        IsTree h' 0 (climb cmp a l r c)
        × (h'.root ≡ root_of (climb cmp a l r c))
        × (h'.cnt ≡ h.cnt)
        × ((q : Ptr)
            → 0 < q
            → is a q + (count q l + (count q r + count_around q c)) ≡ 0
            → AllKept h h' q))
  unfolding heap_adjust_up get_parent
  heap_adjust_up_lem fuel h c a l r i j once enough rooted =
      let (h', run, t) = up_loop_lem fuel h c a l r i j once enough in
      (let some_a : (a == 0) ≡ false = not_null a (root_positive h (above c) a l r i) in
        elim (t.rooted) [
          | inl (none, at_a) ↦ (
            record h' { root = a },
            adjust_run fuel h h' a some_a run t.live_node
                ∙ ap (λ b. ok (if b then record h' { root = a } else h'))
                    (is_null (h'.parent a) none),
            (IsTree-fields h' 0 a h'.cnt _ t.tree, sym at_a, t.cnt_kept, t.others),
          )
          | inr (some_parent, f) ↦ (
            h',
            adjust_run fuel h h' a some_a run t.live_node
                ∙ ap (λ b. ok (if b then record h' { root = a } else h'))
                    (not_null (h'.parent a) some_parent),
            (t.tree, t.root_kept ∙ rooted 0 ∙ sym (f 0), t.cnt_kept, t.others),
          )
        ])
