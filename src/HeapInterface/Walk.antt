-- ===== src/HeapInterface/Walk.antt =====
-- The ways that `heapAdd` and `heapGet` of clib/heap_interface.c go down the tree.
use Prim.Native.Nat.{bit_and}
use native.Mathlib.Nat.{div-div-eq-div-mul, div-one, two-pow-succ, pow-le-pow_right}
use chenghualearning.Common.{
  ℕ, zero, suc, ◌+◌, ◌-◌, ◌*◌, ◌/◌, ◌%◌, ◌^◌, ◌<◌, ◌≤◌, ◌≡◌, ◌⊎◌, inl, inr, refl, sym, ap, ◌∙◌,
  subst, true, false, dec_lt, ℕ_discrete, arith, ◌==◌, leb, Run, ok,
}
use chenghualearning.Common.Bits.{two-pow_add, and-mask, bit_and_step, div-pow-suc}
use chenghualearning.HeapInterface.{
  Ptr, Heap, get_left, get_right, offset_loop, heap_get_offset, descend,
}
use chenghualearning.HeapInterface.Tree.{
  Tree, leaf, node, Place, left_of, right_of, plug, root_of, above, IsTree,
}
use chenghualearning.HeapInterface.Complete.{Fits, Outside, div_half}

le_leb : (a b : ℕ) → a ≤ b → leb a b ≡ true
le_leb a b h = ground arith

offset_loop_lem :
    (fuel m i k n : ℕ)
    → m < fuel
    → i + m ≡ k
    → n < 2 ^ k
    → 2 ^ k ≤ 2 * n + 1
    → offset_loop fuel n (2 ^ i) ≡ ok (2 ^ k)
unfolding offset_loop
offset_loop_lem zero m i k n enough at small least = absurd (omega arith)
offset_loop_lem (suc fuel) zero i k n enough at small least =
    let same : 2 ^ i ≡ 2 ^ k = ap (λ x. 2 ^ x) (omega arith) in
    let over : leb (2 ^ i) n ≡ false = ground arith in rw (over, same) refl
offset_loop_lem (suc fuel) (suc m) i k n enough at small least =
    let more = pow-le-pow_right {n = 2} (omega arith) {i = suc i} {j = k} (omega arith) in
    let double = two-pow-succ i in
    let under : leb (2 ^ i) n ≡ true = le_leb (2 ^ i) n (omega arith) in
    let next : 2 ^ i * 2 ≡ 2 ^ suc i = omega arith in
    rw (under, next) (offset_loop_lem fuel m (suc i) k n (omega arith) (omega arith) small least)

-- The offset is the second highest power of two in `n`, or 0 for 1.
pub heap_get_offset_lem :
    (n k : ℕ) → 2 ^ k ≤ n → n < 2 ^ suc k → k ≤ 30 → heap_get_offset n ≡ ok (2 ^ k / 2)
unfolding heap_get_offset
heap_get_offset_lem n k least small word =
    let double = two-pow-succ k in
    let run : offset_loop 31 (n / 2) 1 ≡ ok (2 ^ k) =
      offset_loop_lem 31 k 0 k (n / 2) (omega arith) (omega arith) (omega arith) (omega arith) in
    rw run refl

div_pow-add : (x i d : ℕ) → x / 2 ^ (i + d) ≡ x / 2 ^ i / 2 ^ d
div_pow-add x i d = ap (λ y. x / y) (two-pow_add i d) ∙ sym (div-div-eq-div-mul x (2 ^ i) (2 ^ d))

div_pow-le : (x d : ℕ) → x / 2 ^ d ≤ x
div_pow-le x zero = omega (arith, div-one x)
div_pow-le x (suc d) = omega (arith, div_half x d, div_pow-le x d)

-- Two numbers that `m` is below are the same, or one is at most half the other.
lines : (m i d x y : ℕ) → m / 2 ^ i ≡ x → m / 2 ^ (i + d) ≡ y → (x ≡ y) ⊎ (y ≤ x / 2)
lines m i zero x y e e' = inl (sym e ∙ ap (λ k. m / 2 ^ k) (omega arith) ∙ e')
lines m i (suc d) x y e e' =
    let f : x / 2 ^ suc d ≡ y =
      ap (λ z. z / 2 ^ suc d) (sym e) ∙ sym (div_pow-add m i (suc d)) ∙ e' in
    inr (omega (arith, f, div_half x d, div_pow-le x d))

compared : (m i i' x y : ℕ) → m / 2 ^ i ≡ x → m / 2 ^ i' ≡ y → (x ≡ y) ⊎ ((y ≤ x / 2) ⊎ (x ≤ y / 2))
compared m i i' x y e e' = elim (dec_lt i i') [
  | yes before ↦ elim (lines m i (i' - i) x y e (ap (λ k. m / 2 ^ k) (omega arith) ∙ e')) [
    | inl same ↦ inl same
    | inr half ↦ inr (inl half)
  ]
  | no after ↦ elim (lines m i' (i - i') y x e' (ap (λ k. m / 2 ^ k) (omega arith) ∙ e)) [
    | inl same ↦ inl (sym same)
    | inr half ↦ inr (inr half)
  ]
]

-- A number is below one of two siblings only.
pub left-Outside : (a m i : ℕ) → 0 < a → m / 2 ^ i ≡ 2 * a → Outside (2 * a + 1) m
left-Outside a m i pos e i' e' = omega (arith, compared m i i' (2 * a) (2 * a + 1) e e')

pub right-Outside : (a m i : ℕ) → 0 < a → m / 2 ^ i ≡ 2 * a + 1 → Outside (2 * a) m
right-Outside a m i pos e i' e' = omega (arith, compared m i i' (2 * a + 1) (2 * a) e e')

pow_pos : (j : ℕ) → 0 < 2 ^ j
pow_pos zero = omega arith
pow_pos (suc j) = omega (arith, two-pow-succ j, pow_pos j)

half_pow : (j : ℕ) → (2 ^ suc j / 2 ≡ 2 ^ j) × (2 ^ suc j % 2 ≡ 0)
half_pow j = let double = two-pow-succ j in (omega arith, omega arith)

bit_even : (j m a : ℕ) → m / 2 ^ j ≡ 2 * a → bit_and m (2 ^ j) ≡ 0
bit_even zero m a e = omega (arith, and-mask 1 m, div-one m)
bit_even (suc j) m a e =
    let h : bit_and (m / 2) (2 ^ j) ≡ 0 = bit_even j (m / 2) a (sym (div-pow-suc m j) ∙ e) in
    let (half, even) = half_pow j in
    let same = ap (bit_and (m / 2)) half in omega (arith, bit_and_step m (2 ^ suc j), even)

bit_odd : (j m a : ℕ) → m / 2 ^ j ≡ 2 * a + 1 → 0 < bit_and m (2 ^ j)
bit_odd zero m a e = omega (arith, and-mask 1 m, div-one m)
bit_odd (suc j) m a e =
    let h : 0 < bit_and (m / 2) (2 ^ j) = bit_odd j (m / 2) a (sym (div-pow-suc m j) ∙ e) in
    let (half, even) = half_pow j in
    let same = ap (bit_and (m / 2)) half in omega (arith, bit_and_step m (2 ^ suc j), even)

module _ (fuel : ℕ) (h : Heap) (m j x : ℕ) (live : h.live x ≡ true) where
  descend-left :
      bit_and m (2 ^ j) ≡ 0
      → descend (suc fuel) h m (2 ^ suc j / 2) x ≡ descend fuel h m (2 ^ j / 2) (h.left x)
  unfolding descend get_left get_right
  descend-left bit =
      let (half, even) = half_pow j in
      let some : (2 ^ j == 0) ≡ false = let pos = pow_pos j in ground arith in
      rw half (ground (arith, some, live, bit))

  descend-right :
      0 < bit_and m (2 ^ j)
      → descend (suc fuel) h m (2 ^ suc j / 2) x ≡ descend fuel h m (2 ^ j / 2) (h.right x)
  unfolding descend get_left get_right
  descend-right bit =
      let (half, even) = half_pow j in
      let some : (2 ^ j == 0) ≡ false = let pos = pow_pos j in ground arith in
      rw half (ground (arith, some, live, bit))

stops : (fuel : ℕ) (h : Heap) (m x : ℕ) → descend (suc fuel) h m 0 x ≡ ok x
unfolding descend
stops fuel h m x = refl

-- The node number `m` of a tree with `n` nodes: where the walk ends, and that a tree put there
-- makes one with `n'` nodes, if only number `big` comes or goes.
pub record Found (whole : Tree) (m n n' : ℕ) (r : Run Ptr) : Type 0 where
  pub place : Place
  pub found : Tree
  pub whole_eq : plug found place ≡ whole
  pub fits : Fits m n found
  pub refit : (t : Tree) → Fits m n' t → Fits 1 n' (plug t place)
  pub run : r ≡ ok (root_of found)

pub descend_lem :
    (j fuel : ℕ) (h : Heap) (a m n n' big i : ℕ) (t : Tree) (c : Place)
    → j < fuel
    → 0 < a
    → m / 2 ^ j ≡ a
    → m ≤ n
    → m ≤ suc n'
    → big / 2 ^ i ≡ m
    → ((b : ℕ) (s : Tree) → Outside b big → Fits b n s → Fits b n' s)
    → Fits a n t
    → IsTree h (above c) t
    → ((s : Tree) → Fits a n' s → Fits 1 n' (plug s c))
    → Found (plug t c) m n n' (descend fuel h m (2 ^ j / 2) (root_of t))
unfolding Fits IsTree plug
descend_lem j zero h a m n n' big i t c enough pos up le le' up' shift f it refit =
    absurd (omega arith)
descend_lem zero (suc fuel) h a m n n' big i t c enough pos up le le' up' shift f it refit =
    let same : a ≡ m = omega (arith, div-one m) in
    record {
      place = c;
      found = t;
      whole_eq = refl;
      fits = subst (λ b. Fits b n t) same f;
      refit = λ s g. refit s (subst (λ b. Fits b n' s) (sym same) g);
      run = stops fuel h m (root_of t);
    }
descend_lem (suc j) (suc fuel) h a m n n' big i leaf c enough pos up le le' up' shift f it refit =
    absurd (omega (arith, div_pow-le m (suc j)))
descend_lem (suc j) (suc fuel) h a m n n' big i (node x l r) c enough pos up le le' up' shift f it
      refit =
    let (le_a, fl, fr) = f in
    let (px, lx, ux, el, er, il, ir) = it in
    let half = div_half m j in
    let low = div_pow-le m j in
    let follow = ap (λ k. k / 2 ^ j) up' in
    let both = div_pow-add big i j in
    elim (ℕ_discrete (m / 2 ^ j) (2 * a)) [
      | yes even ↦
          (let rec : Found (plug l (left_of x r c)) m n n'
                (descend fuel h m (2 ^ j / 2) (root_of l)) =
              descend_lem j fuel h (2 * a) m n n' big i l (left_of x r c) (omega arith)
                (omega arith) even le le' up' shift fl il
                (λ s g. refit (node x s r) (
                  omega arith,
                  g,
                  shift (2 * a + 1) r (left-Outside a big (i + j) pos (both ∙ follow ∙ even)) fr,
                )) in
            record {
              place = rec.place;
              found = rec.found;
              whole_eq = rec.whole_eq;
              fits = rec.fits;
              refit = rec.refit;
              run =
                  descend-left fuel h m j x lx (bit_even j m a even)
                  ∙ ap (descend fuel h m (2 ^ j / 2)) el
                  ∙ rec.run;
            })
      | no other ↦
          (let odd : m / 2 ^ j ≡ 2 * a + 1 = omega arith in
            let rec : Found (plug r (right_of x l c)) m n n'
                (descend fuel h m (2 ^ j / 2) (root_of r)) =
              descend_lem j fuel h (2 * a + 1) m n n' big i r (right_of x l c) (omega arith)
                (omega arith) odd le le' up' shift fr ir
                (λ s g. refit (node x l s) (
                  omega arith,
                  shift (2 * a) l (right-Outside a big (i + j) pos (both ∙ follow ∙ odd)) fl,
                  g,
                )) in
            record {
              place = rec.place;
              found = rec.found;
              whole_eq = rec.whole_eq;
              fits = rec.fits;
              refit = rec.refit;
              run =
                  descend-right fuel h m j x lx (bit_odd j m a odd)
                  ∙ ap (descend fuel h m (2 ^ j / 2)) er
                  ∙ rec.run;
            })
    ]
