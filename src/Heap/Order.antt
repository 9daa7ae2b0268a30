-- ===== src/Heap/Order.antt =====
-- The comparisons of clib/heap.c.
use chenghualearning.Common.{◌+◌, ◌<◌, ◌≡◌, ap, sym, ◌∙◌, true, false, arith}
use chenghualearning.Common.Int.{ℤ}
use chenghualearning.Heap.{by_val, my_heap_cmp, my_heap_cmp_reverse}
use chenghualearning.HeapInterface.{Ptr, nonneg}
use chenghualearning.HeapInterface.Tree.{Tree, leaf, node, count}
use chenghualearning.HeapInterface.Place.{is_self}
use chenghualearning.HeapInterface.Order.{IsOrder, IsHeap, Below}

-- A comparison that orders the ints.
pub record IsCompare (cmp : ℤ → ℤ → ℤ) : Type 0 where
  pub total : (a b : ℤ) → nonneg (cmp a b) ≡ false → nonneg (cmp b a) ≡ true
  pub transitive :
      (a b c : ℤ) → nonneg (cmp a b) ≡ true → nonneg (cmp b c) ≡ true → nonneg (cmp a c) ≡ true

pub by_val-IsOrder : (cmp : ℤ → ℤ → ℤ) (val : Ptr → ℤ) → IsCompare cmp → IsOrder (by_val cmp val)
by_val-IsOrder cmp val c = record {
  total = λ a b. c.total (val a) (val b);
  transitive = λ a b d. c.transitive (val a) (val b) (val d);
}

pub my_heap_cmp-IsCompare : IsCompare my_heap_cmp
unfolding my_heap_cmp
my_heap_cmp-IsCompare = record {
  total = λ a b e. ground (arith, e);
  transitive = λ a b c e f. ground (arith, e, f);
}

pub my_heap_cmp_reverse-IsCompare : IsCompare my_heap_cmp_reverse
unfolding my_heap_cmp_reverse
my_heap_cmp_reverse-IsCompare = record {
  total = λ a b e. ground (arith, e);
  transitive = λ a b c e f. ground (arith, e, f);
}

Below-agree :
    (cmp cmp' : Ptr → Ptr → ℤ) (a : Ptr) (t : Tree)
    → ((b : Ptr) → 0 < count b t → cmp a b ≡ cmp' a b)
    → Below cmp a t
    → Below cmp' a t
unfolding count
Below-agree cmp cmp' a leaf same b = tt
Below-agree cmp cmp' a (node c l r) same b = ap nonneg (sym (same c (is_self c _))) ∙ b

-- The order of a tree depends on the comparisons of its nodes only.
pub IsHeap-agree :
    (cmp cmp' : Ptr → Ptr → ℤ) (t : Tree)
    → ((a b : Ptr) → 0 < count a t → 0 < count b t → cmp a b ≡ cmp' a b)
    → IsHeap cmp t
    → IsHeap cmp' t
unfolding IsHeap count
IsHeap-agree cmp cmp' leaf same i = tt
IsHeap-agree cmp cmp' (node a l r) same (bl, br, il, ir) =
    let own = is_self a (count a l + count a r) in
    (
      Below-agree cmp cmp' a l (λ b n. same a b own (omega arith)) bl,
      Below-agree cmp cmp' a r (λ b n. same a b own (omega arith)) br,
      IsHeap-agree cmp cmp' l (λ b d m n. same b d (omega arith) (omega arith)) il,
      IsHeap-agree cmp cmp' r (λ b d m n. same b d (omega arith) (omega arith)) ir,
    )
