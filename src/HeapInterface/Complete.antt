-- ===== src/HeapInterface/Complete.antt =====
-- Complete trees: the nodes of clib/heap_interface.c are numbered from 1 level by level, the
-- children of `a` being 2a and 2a + 1, and `n` nodes have the numbers 1 to n.
use chenghualearning.Common.{
  ℕ, zero, suc, ◌+◌, ◌*◌, ◌/◌, ◌^◌, ◌<◌, ◌≤◌, ◌≡◌, ◌≢◌, inl, inr, refl, sym, ap, subst, ◌∙◌,
  Bool-cases, arith,
}
use native.Mathlib.Nat.{div-div-eq-div-mul, div-one, pow-suc}
use chenghualearning.Common.Int.{ℤ}
use chenghualearning.HeapInterface.{Ptr, nonneg}
use chenghualearning.HeapInterface.Tree.{
  Tree, leaf, node, Place, top, left_of, right_of, plug, root_of, height,
}
use chenghualearning.HeapInterface.Sift.{sift, climb, choose-cases}

-- Below number `a` the nodes are those with numbers up to `n`.
unfoldable pub Fits : (a n : ℕ) → Tree → Type 0
Fits a n leaf = n < a
Fits a n (node x l r) = (a ≤ n) × Fits (2 * a) n l × Fits (2 * a + 1) n r

-- The number `m` is not below `b`.
abbrev pub Outside : (b m : ℕ) → Type 0
Outside b m = (i : ℕ) → m / 2 ^ i ≢ b

pub div_half : (m i : ℕ) → m / 2 ^ suc i ≡ m / 2 ^ i / 2
div_half m i = ap (λ d. m / d) (pow-suc 2 i) ∙ sym (div-div-eq-div-mul m (2 ^ i) 2)

Outside-left : (b m : ℕ) → Outside b m → Outside (2 * b) m
Outside-left b m out i e = out (suc i) (div_half m i ∙ omega (arith, e))

Outside-right : (b m : ℕ) → Outside b m → Outside (2 * b + 1) m
Outside-right b m out i e = out (suc i) (div_half m i ∙ omega (arith, e))

out_self : (b m : ℕ) → Outside b m → m ≢ b
out_self b m out e = out 0 (div-one m ∙ e)

-- One number more or less changes nothing outside.
pub Fits-suc : (b n : ℕ) (t : Tree) → Outside b (suc n) → Fits b n t → Fits b (suc n) t
unfolding Fits
Fits-suc b n leaf out f = omega (arith, out_self b (suc n) out)
Fits-suc b n (node x l r) out (le, fl, fr) = (
  omega arith,
  Fits-suc (2 * b) n l (Outside-left b (suc n) out) fl,
  Fits-suc (2 * b + 1) n r (Outside-right b (suc n) out) fr,
)

pub Fits-pred : (b n : ℕ) (t : Tree) → Outside b (suc n) → Fits b (suc n) t → Fits b n t
unfolding Fits
Fits-pred b n leaf out f = omega arith
Fits-pred b n (node x l r) out (le, fl, fr) = (
  omega (arith, out_self b (suc n) out),
  Fits-pred (2 * b) n l (Outside-left b (suc n) out) fl,
  Fits-pred (2 * b + 1) n r (Outside-right b (suc n) out) fr,
)

pub Fits-more : (b n n' : ℕ) (t : Tree) → n' ≡ suc n → Outside b n' → Fits b n t → Fits b n' t
Fits-more b n n' t e out f =
    subst (λ k. Fits b k t) (sym e) (Fits-suc b n t (subst (Outside b) e out) f)

pub Fits-less : (b n n' : ℕ) (t : Tree) → n ≡ suc n' → Outside b n → Fits b n t → Fits b n' t
Fits-less b n n' t e out f =
    Fits-pred b n' t (subst (Outside b) e out) (subst (λ k. Fits b k t) e f)

pub Fits-empty : (a n : ℕ) (t : Tree) → Fits a n t → n < a → t ≡ leaf
unfolding Fits
Fits-empty a n leaf f small = refl
Fits-empty a n (node x l r) (le, fl, fr) small = absurd (omega arith)

module _ (cmp : Ptr → Ptr → ℤ) where
  pub Fits-sift : (a n : ℕ) (x : Ptr) (t : Tree) → Fits a n t → Fits a n (sift cmp x t)
  unfolding Fits sift
  Fits-sift a n x leaf f = f
  Fits-sift a n x (node y l r) (le, fl, fr) = elim (choose-cases cmp x (root_of l) (root_of r)) [
    | inl (e, p, q) ↦ rw (e, sift) (le, fl, fr)
    | inr (inl (e, s, p, q)) ↦ rw (e, sift) (le, Fits-sift (2 * a) n x l fl, fr)
    | inr (inr (e, s, p, q)) ↦ rw (e, sift) (le, fl, Fits-sift (2 * a + 1) n x r fr)
  ]

  -- Only the shape counts.
  pub Fits-plug :
      (n : ℕ) (t t' : Tree) (c : Place)
      → ((a : ℕ) → Fits a n t → Fits a n t')
      → Fits 1 n (plug t c)
      → Fits 1 n (plug t' c)
  unfolding Fits plug
  Fits-plug n t t' top same f = same 1 f
  Fits-plug n t t' (left_of p r c) same f =
      Fits-plug n (node p t r) (node p t' r) c (λ a (le, fl, fr). (le, same (2 * a) fl, fr)) f
  Fits-plug n t t' (right_of p l c) same f =
      Fits-plug n (node p l t) (node p l t') c (λ a (le, fl, fr). (le, fl, same (2 * a + 1) fr)) f

  pub Fits-climb :
      (n : ℕ) (x : Ptr) (l r : Tree) (c : Place)
      → Fits 1 n (plug (node x l r) c)
      → Fits 1 n (climb cmp x l r c)
  unfolding Fits climb plug
  Fits-climb n x l r top f = f
  Fits-climb n x l r (left_of p s c) f = elim (Bool-cases (nonneg (cmp p x))) [
    | inl e ↦ rw (e, climb) f
    | inr e ↦
        rw (e, climb)
          (Fits-climb n x (node p l r) s c
            (Fits-plug n (node p (node x l r) s) (node x (node p l r) s) c (λ a f. f) f))
  ]
  Fits-climb n x l r (right_of p s c) f = elim (Bool-cases (nonneg (cmp p x))) [
    | inl e ↦ rw (e, climb) f
    | inr e ↦
        rw (e, climb)
          (Fits-climb n x s (node p l r) c
            (Fits-plug n (node p s (node x l r)) (node x s (node p l r)) c (λ a f. f) f))
  ]

-- The levels of a complete tree.
pub height-Fits : (k a n : ℕ) (t : Tree) → n / 2 ^ k < a → Fits a n t → height t ≤ k
unfolding Fits height
height-Fits k a n leaf small f = omega arith
height-Fits zero a n (node x l r) small (le, fl, fr) = omega (arith, div-one n)
height-Fits (suc k) a n (node x l r) small (le, fl, fr) =
    let half = div_half n k in
    omega (
      arith,
      height-Fits k (2 * a) n l (omega arith) fl,
      height-Fits k (2 * a + 1) n r (omega arith) fr,
    )
