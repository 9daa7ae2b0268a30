-- ===== src/HeapInterface/Turn.antt =====
-- A turn of either loop of clib/heap_interface.c: the node `a` rises above its parent `p`.
use chenghualearning.Common.{
  ℕ, zero, suc, ◌+◌, ◌<◌, ◌≤◌, ◌≡◌, subst, ◌∙◌, ◌⊎◌, inl, inr, true, false, Bool-cases, arith, ◌==◌,
}
use chenghualearning.HeapInterface.{Ptr, Heap}
use chenghualearning.HeapInterface.Tree.{
  Tree, leaf, node, Place, top, left_of, right_of, root_of, above, is, count, count_around, IsTree,
  IsPlace, IsTree-Kept, count-root_of, not_is,
}
use chenghualearning.HeapInterface.Place.{AllKept, Rehung, IsPlace-Rehung}

-- In `h'` the node `a` stands at the place `c` over `u` and `v`, and `p` over `l` and `r`; of the
-- two, `s` has changed its parent to `a`.
pub record Turned (h h' : Heap) (c : Place) (a p u v l r s : Ptr) : Type 0 where
  pub live : (q : Ptr) → h'.live q ≡ h.live q
  pub count_kept : h'.cnt ≡ h.cnt
  pub left_a : h'.left a ≡ u
  pub right_a : h'.right a ≡ v
  pub left_p : h'.left p ≡ l
  pub right_p : h'.right p ≡ r
  pub links :
      (q : Ptr)
      → (q == a) ≡ false
      → (q == p) ≡ false
      → (q == above c) ≡ false
      → (h'.left q ≡ h.left q) × (h'.right q ≡ h.right q)
  pub rehung : Rehung h h' c a
  pub parent_a : h'.parent a ≡ above c
  pub parent_p : h'.parent p ≡ a
  pub parent_l : 0 < l → h'.parent l ≡ p
  pub parent_r : 0 < r → h'.parent r ≡ p
  pub parent_s : 0 < s → h'.parent s ≡ a
  pub parents :
      (q : Ptr)
      → (q == a) ≡ false
      → (q == p) ≡ false
      → (0 < l → (q == l) ≡ false)
      → (0 < r → (q == r) ≡ false)
      → (0 < s → (q == s) ≡ false)
      → h'.parent q ≡ h.parent q

pub Turned-to :
    {h h' : Heap} {c : Place} {a p u u' v v' l l' r r' s s' : Ptr}
    → u ≡ u'
    → v ≡ v'
    → l ≡ l'
    → r ≡ r'
    → s ≡ s'
    → Turned h h' c a p u v l r s
    → Turned h h' c a p u' v' l' r' s'
Turned-to {h} {h'} {c} {a} {p} {u} {u'} {v} {v'} {l} {l'} {r} {r'} {s} {s'} eu ev el er es t =
    subst (λ x. Turned h h' c a p u' v' l' r' x) es
      (subst (λ x. Turned h h' c a p u' v' l' x s) er
        (subst (λ x. Turned h h' c a p u' v' x r s) el
          (subst (λ x. Turned h h' c a p u' x l r s) ev
            (subst (λ x. Turned h h' c a p x v l r s) eu t))))

-- What is counted elsewhere is not the root.
pub elsewhere :
    (t : Tree) (q n : ℕ) → count q t + n ≤ 1 → 0 < n → 0 < root_of t → (q == root_of t) ≡ false
elsewhere t q n once some nonleaf = elim (Bool-cases (q == root_of t)) [
  | inr e ↦ e
  | inl e ↦
      (let same : q ≡ root_of t = ground (arith, e) in
        let inside : 0 < count q t = rw same (count-root_of t nonleaf) in absurd (omega arith))
]

pub one_of : (k m n : ℕ) → 0 < k + (m + n) → (0 < k) ⊎ ((0 < m) ⊎ (0 < n))
one_of (suc k) m n h = inl (omega arith)
one_of zero (suc m) n h = inr (inl (omega arith))
one_of zero zero (suc n) h = inr (inr (omega arith))
one_of zero zero zero h = absurd (omega arith)

at_root : (a q : ℕ) → 0 < a → 0 < is a q → 0 < q
at_root a q pos m = ground arith

pub IsTree-positive : (h : Heap) (p q : Ptr) (t : Tree) → IsTree h p t → 0 < count q t → 0 < q
unfolding IsTree count
IsTree-positive h p q leaf i n = omega arith
IsTree-positive h p q (node a l r) (pos, live, up, el, er, il, ir) n =
    elim (one_of (is a q) (count q l) (count q r) n) [
      | inl m ↦ at_root a q pos m
      | inr (inl m) ↦ IsTree-positive h a q l il m
      | inr (inr m) ↦ IsTree-positive h a q r ir m
    ]

-- The node above a place is one around it, or there is none.
pub not_above :
    (c : Place) (q n : ℕ) → n + count_around q c ≤ 1 → 0 < n → 0 < q → (q == above c) ≡ false
unfolding count_around
not_above top q n once some pos = ground arith
not_above (left_of p r c) q n once some pos = ground arith
not_above (right_of p l c) q n once some pos = ground arith

pub not_it : (a q : ℕ) → is a q ≡ 0 → (q == a) ≡ false
not_it a q h = ground arith

pub not_root : (t : Tree) (q : Ptr) → count q t ≡ 0 → 0 < root_of t → (q == root_of t) ≡ false
not_root t q none nonleaf = elsewhere t q 1 (omega arith) (omega arith) nonleaf

pub not_counted : (c : Place) (q : Ptr) → count_around q c ≡ 0 → 0 < q → (q == above c) ≡ false
not_counted c q none pos = not_above c q 1 (omega arith) (omega arith) pos

module _ (h h' : Heap) (c : Place) (a p : Ptr) (l r s : Tree) (u v : Ptr)
    (once : (q : Ptr)
      → is a q + (is p q + (count q l + (count q r + (count q s + count_around q c)))) ≤ 1)
    (t : Turned h h' c a p u v (root_of l) (root_of r) (root_of s)) where
  -- The nodes that are neither `a` nor `p` nor above the place keep their children, and all but
  -- the three roots their parent.
  inner :
      (b b' : Ptr) (x : Tree)
      → ((q : Ptr) → 0 < count q x → (q == above c) ≡ false)
      → ((q : Ptr) → is a q + (is p q + count q x) ≤ 1)
      → ((q : Ptr) → 0 < count q x → (q == root_of x) ≡ false → h'.parent q ≡ h.parent q)
      → (0 < root_of x → h'.parent (root_of x) ≡ b')
      → IsTree h b x
      → IsTree h' b' x
  inner b b' x low few parents own i =
      IsTree-Kept h h' b b' x i
        (λ q n.
          let (el, er) =
            t.links q (not_is a q _ (few q) (omega arith)) (not_is p q _ (omega (arith, few q)) n)
              (low q n) in
          (t.live q, el, er))
        parents own (λ q. omega (arith, few q))

  module _ (il : IsTree h a l) (ir : IsTree h a r) (is_ : IsTree h p s) (ic : IsPlace h c p) where
    sunk_left : IsTree h' p l
    sunk_left =
        inner a p l
          (λ q n.
            not_above c q (count q l) (omega (arith, once q)) n (IsTree-positive h a q l il n))
          (λ q. omega (arith, once q))
          (λ q n e.
            t.parents q (not_is a q _ (once q) (omega arith))
              (not_is p q _ (omega (arith, once q)) n) (λ z. e)
              (elsewhere r q _ (omega (arith, once q)) n)
              (elsewhere s q _ (omega (arith, once q)) n))
          t.parent_l il

    sunk_right : IsTree h' p r
    sunk_right =
        inner a p r
          (λ q n.
            not_above c q (count q r) (omega (arith, once q)) n (IsTree-positive h a q r ir n))
          (λ q. omega (arith, once q))
          (λ q n e.
            t.parents q (not_is a q _ (once q) (omega arith))
              (not_is p q _ (omega (arith, once q)) n) (elsewhere l q _ (omega (arith, once q)) n)
              (λ z. e) (elsewhere s q _ (omega (arith, once q)) n))
          t.parent_r ir

    pub sibling : IsTree h' a s
    sibling =
        inner p a s
          (λ q n.
            not_above c q (count q s) (omega (arith, once q)) n (IsTree-positive h p q s is_ n))
          (λ q. omega (arith, once q))
          (λ q n e.
            t.parents q (not_is a q _ (once q) (omega arith))
              (not_is p q _ (omega (arith, once q)) n) (elsewhere l q _ (omega (arith, once q)) n)
              (elsewhere r q _ (omega (arith, once q)) n) (λ z. e))
          t.parent_s is_

    pub around : IsPlace h' c a
    around =
        IsPlace-Rehung h h' c p a ic t.rehung
          (λ q n e.
            let ea = not_is a q _ (once q) (omega arith) in
            let ep = not_is p q (count_around q c) (omega (arith, once q)) n in
            let (kl, kr) = t.links q ea ep e in
            (
              t.live q,
              kl,
              kr,
              t.parents q ea ep (elsewhere l q _ (omega (arith, once q)) n)
                  (elsewhere r q _ (omega (arith, once q)) n)
                  (elsewhere s q _ (omega (arith, once q)) n),
            ))
          (λ q. omega (arith, once q))

    pub sunk : 0 < p → h.live p ≡ true → IsTree h' a (node p l r)
    unfolding IsTree
    sunk pp lp = (pp, t.live p ∙ lp, t.parent_p, t.left_p, t.right_p, sunk_left, sunk_right)

    -- No other node changes.
    pub outside :
        (q : Ptr)
        → 0 < q
        → is a q + (is p q + (count q l + (count q r + (count q s + count_around q c)))) ≡ 0
        → AllKept h h' q
    outside q pos none =
        let ea : (q == a) ≡ false = not_it a q (omega arith) in
        let ep : (q == p) ≡ false = not_it p q (omega arith) in
        let (kl, kr) = t.links q ea ep (not_counted c q (omega arith) pos) in
        (
          t.live q,
          kl,
          kr,
          t.parents q ea ep (not_root l q (omega arith)) (not_root r q (omega arith))
              (not_root s q (omega arith)),
        )
