-- ===== src/HeapInterface/Once.antt =====
-- The nodes of clib/heap_interface.c that occur once are apart, and where they hang.
use chenghualearning.Common.{ℕ, ◌+◌, ◌<◌, ◌≤◌, ◌≡◌, refl, inl, inr, false, Bool-cases, arith, ◌==◌}
use chenghualearning.HeapInterface.{Ptr, Heap}
use chenghualearning.HeapInterface.Tree.{
  Tree, leaf, node, Place, top, left_of, right_of, root_of, is, count, count_around, IsTree,
  IsPlace, not_is, count-root_of,
}
use chenghualearning.HeapInterface.Place.{is_self}
use chenghualearning.HeapInterface.Links.{Safe, Hangs}
use chenghualearning.HeapInterface.Turn.{elsewhere, not_above}
use chenghualearning.HeapInterface.Raise.{Apart}

pub root_apart : (t : Tree) (q n : ℕ) → count q t + n ≤ 1 → 0 < n → 0 < q → (root_of t == q) ≡ false
root_apart t q n once some pos = elim (Bool-cases (root_of t == 0)) [
  | inl e ↦ ground (arith, e, pos)
  | inr e ↦ ground (arith, elsewhere t q n once some (ground (arith, e)))
]

pub symm_false : (a b : ℕ) → (a == b) ≡ false → (b == a) ≡ false
symm_false a b e = ground (arith, e)

-- Nodes that occur once are apart.
pub once-Apart :
    (c : Place) (a p : Ptr) (l r s : Tree)
    → 0 < a
    → 0 < p
    → ((q : Ptr)
        → is a q + (is p q + (count q l + (count q r + (count q s + count_around q c)))) ≤ 1)
    → Apart c a p (root_of l) (root_of r) (root_of s)
once-Apart c a p l r s pa pp once =
    let sa = is_self a 0 in
    let sp = is_self p 0 in
    record {
      a_p = not_is p a (is a a) (omega (arith, once a)) (omega arith);
      a_c = not_above c a (is a a) (omega (arith, once a)) (omega arith) pa;
      p_c = not_above c p (is p p) (omega (arith, once p)) (omega arith) pp;
      l_a = root_apart l a (is a a) (omega (arith, once a)) (omega arith) pa;
      l_p = root_apart l p (is p p) (omega (arith, once p)) (omega arith) pp;
      r_a = root_apart r a (is a a) (omega (arith, once a)) (omega arith) pa;
      r_p = root_apart r p (is p p) (omega (arith, once p)) (omega arith) pp;
      s_a = root_apart s a (is a a) (omega (arith, once a)) (omega arith) pa;
      s_p = root_apart s p (is p p) (omega (arith, once p)) (omega arith) pp;
      l_c = λ n. not_above c (root_of l) _ (omega (arith, once (root_of l))) (count-root_of l n) n;
      r_c = λ n. not_above c (root_of r) _ (omega (arith, once (root_of r))) (count-root_of r n) n;
      s_c = λ n. not_above c (root_of s) _ (omega (arith, once (root_of s))) (count-root_of s n) n;
      l_r = λ n.
          symm_false _ _
            (root_apart r (root_of l) _ (omega (arith, once (root_of l))) (count-root_of l n) n);
      l_s = λ n.
          symm_false _ _
            (root_apart s (root_of l) _ (omega (arith, once (root_of l))) (count-root_of l n) n);
      r_s = λ n.
          symm_false _ _
            (root_apart s (root_of r) _ (omega (arith, once (root_of r))) (count-root_of r n) n);
    }

-- The root of a linked tree is `NULL` or live.
pub root-Safe : (h : Heap) (p : Ptr) (t : Tree) → IsTree h p t → Safe h (root_of t)
unfolding IsTree
root-Safe h p leaf i = refl
root-Safe h p (node a l r) (pos, live, up, el, er, il, ir) = ground (arith, live)

pub IsPlace-Hangs :
    (h : Heap) (c : Place) (x : Ptr) (n : ℕ)
    → IsPlace h c x
    → 0 < x
    → ((q : Ptr) → is x q + count_around q c ≤ 1)
    → Hangs h c x
unfolding IsPlace count_around
IsPlace-Hangs h top x n i pos once = tt
IsPlace-Hangs h (left_of p r c) x n (pp, live, up, el, er, ir, ic) pos once =
    (ground arith, live, ground (arith, el))
IsPlace-Hangs h (right_of p l c) x n (pp, live, up, el, er, il, ic) pos once =
    let far = root_apart l x (is x x) (omega (arith, once x)) (omega (arith, is_self x 0)) pos in
    (ground arith, live, ground (arith, el, far), ground (arith, er))
