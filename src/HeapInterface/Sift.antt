-- ===== src/HeapInterface/Sift.antt =====
-- What the two adjustments of clib/heap_interface.c do to trees.
use chenghualearning.Common.{◌+◌, ◌<◌, ◌≡◌, ◌⊎◌, inl, inr, Bool-cases, true, false, arith, ◌==◌}
use chenghualearning.Common.Int.{ℤ}
use chenghualearning.HeapInterface.{Ptr, nonneg, no_exchange, ex_left, ex_right, choose}
use chenghualearning.HeapInterface.Tree.{
  Tree, leaf, node, Place, top, left_of, right_of, plug, root_of, is, count, count_around,
  count-plug,
}

module _ (cmp : Ptr → Ptr → ℤ) where
  -- The tree with `x` in place of its root, moved down to where it belongs.
  unfoldable pub sift : Ptr → Tree → Tree
  sift x leaf = leaf
  sift x (node y l r) = elim (choose cmp x (root_of l) (root_of r)) [
    | no_exchange ↦ node x l r
    | ex_left ↦ node (root_of l) (sift x l) r
    | ex_right ↦ node (root_of r) l (sift x r)
  ]

  -- The whole tree with the node `x` over `l` and `r` at the place, moved up to where it belongs.
  unfoldable pub climb : Ptr → Tree → Tree → Place → Tree
  climb x l r top = node x l r
  climb x l r (left_of p s c) = elim (nonneg (cmp p x)) [
    | true ↦ plug (node x l r) (left_of p s c)
    | false ↦ climb x (node p l r) s c
  ]
  climb x l r (right_of p s c) = elim (nonneg (cmp p x)) [
    | true ↦ plug (node x l r) (right_of p s c)
    | false ↦ climb x s (node p l r) c
  ]

  -- What a choice means: no child is above `x`, or one is, and it is the one above the other.
  pub choose-cases :
      (x l r : Ptr)
      → ((choose cmp x l r ≡ no_exchange)
          × (0 < l → nonneg (cmp x l) ≡ true)
          × (0 < r → nonneg (cmp x r) ≡ true))
        ⊎ (((choose cmp x l r ≡ ex_left)
              × (0 < l)
              × (nonneg (cmp x l) ≡ false)
              × (0 < r → (nonneg (cmp x r) ≡ true) ⊎ (nonneg (cmp l r) ≡ true)))
            ⊎ ((choose cmp x l r ≡ ex_right)
                × (0 < r)
                × (nonneg (cmp x r) ≡ false)
                × (0 < l → (nonneg (cmp x l) ≡ true) ⊎ (nonneg (cmp l r) ≡ false))))
  unfolding choose
  choose-cases x l r = elim (Bool-cases (l == 0)) [
    | inl zl ↦ elim (Bool-cases (r == 0)) [
      | inl zr ↦ ground arith
      | inr sr ↦ elim (Bool-cases (nonneg (cmp x r))) [
        | inl a ↦ ground arith
        | inr b ↦ ground arith
      ]
    ]
    | inr sl ↦ elim (Bool-cases (r == 0)) [
      | inl zr ↦ elim (Bool-cases (nonneg (cmp x l))) [
        | inl a ↦ ground arith
        | inr b ↦ ground arith
      ]
      | inr sr ↦ elim (Bool-cases (nonneg (cmp x l))) [
        | inl a ↦ elim (Bool-cases (nonneg (cmp x r))) [
          | inl b ↦ ground arith
          | inr b ↦ ground arith
        ]
        | inr a ↦ elim (Bool-cases (nonneg (cmp x r))) [
          | inl b ↦ ground arith
          | inr b ↦ elim (Bool-cases (nonneg (cmp l r))) [
            | inl c ↦ ground arith
            | inr c ↦ ground arith
          ]
        ]
      ]
    ]
  ]

  pub count-sift :
      (q x : Ptr) (t : Tree)
      → 0 < root_of t
      → count q (sift x t) + is (root_of t) q ≡ is x q + count q t
  unfolding sift count
  count-sift q x leaf h = omega arith
  count-sift q x (node y l r) h = elim (choose-cases x (root_of l) (root_of r)) [
    | inl (e, a, b) ↦ rw (e, sift) (omega arith)
    | inr (inl (e, some_left, a, b)) ↦ rw (e, sift) (omega (arith, count-sift q x l some_left))
    | inr (inr (e, some_right, a, b)) ↦ rw (e, sift) (omega (arith, count-sift q x r some_right))
  ]

  pub count-climb :
      (q x : Ptr) (l r : Tree) (c : Place)
      → count q (climb x l r c) ≡ is x q + (count q l + count q r) + count_around q c
  unfolding climb count count_around
  count-climb q x l r top = omega arith
  count-climb q x l r (left_of p s c) = elim (Bool-cases (nonneg (cmp p x))) [
    | inl e ↦ rw (e, climb) (omega (arith, count-plug q (node x l r) (left_of p s c)))
    | inr e ↦ rw (e, climb) (omega (arith, count-climb q x (node p l r) s c))
  ]
  count-climb q x l r (right_of p s c) = elim (Bool-cases (nonneg (cmp p x))) [
    | inl e ↦ rw (e, climb) (omega (arith, count-plug q (node x l r) (right_of p s c)))
    | inr e ↦ rw (e, climb) (omega (arith, count-climb q x s (node p l r) c))
  ]
