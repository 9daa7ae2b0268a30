-- ===== src/Buckets/Chain.antt =====
-- One chain of entries, read through an equality test on keys.
use chenghualearning.Common.{
  ℕ, ◌+◌, ◌≤◌, ◌≡◌, refl, Bool, true, false, Option, none, some, List, [], ◌∷◌, arith,
  if◌then◌else◌, length,
}

-- A key test that is an equivalence.
pub record KeyEq {ℓ} (K : Type ℓ) : Type ℓ where
  pub eq : K → K → Bool
  pub eq_refl : (a : K) → eq a a ≡ true
  pub eq_symm : (a b : K) → eq a b ≡ eq b a
  pub eq_trans : (a b c : K) → eq a b ≡ true → eq b c ≡ true → eq a c ≡ true

abbrev pub Chain {ℓ} : Type ℓ → Type ℓ → Type ℓ
Chain K V = List (K × V)

abbrev pub to_ℕ : Bool → ℕ
to_ℕ true = 1
to_ℕ false = 0

module _ {ℓ} {K : Type ℓ} (e : KeyEq K) where
  open e use {eq, eq_symm, eq_trans}

  pub eq_congr_left : (a b c : K) → eq a b ≡ true → eq a c ≡ eq b c
  eq_congr_left a b c h = ground (arith, eq_symm a b, eq_trans a b c, eq_trans b a c)

  pub eq_congr_right : (a b c : K) → eq b c ≡ true → eq a b ≡ eq a c
  eq_congr_right a b c h = ground (arith, eq_symm b c, eq_trans a b c, eq_trans a c b)

module _ {ℓ} {K V : Type ℓ} (e : KeyEq K) where
  open e use {eq, eq_symm, eq_trans}

  unfoldable pub find : K → Chain K V → Option V
  find k [] = none
  find k (x ∷ c) = if eq k x.0 then some x.1 else find k c

  -- How many entries have a key that is equal to `k`.
  unfoldable pub count : K → Chain K V → ℕ
  count k [] = 0
  count k (x ∷ c) = to_ℕ (eq k x.0) + count k c

  -- The value of the first entry for `k` is replaced.
  unfoldable pub assign : K → V → Chain K V → Chain K V
  assign k v [] = []
  assign k v (x ∷ c) = if eq k x.0 then (x.0, v) ∷ c else x ∷ assign k v c

  -- The first entry for `k` is dropped.
  unfoldable pub erase : K → Chain K V → Chain K V
  erase k [] = []
  erase k (x ∷ c) = if eq k x.0 then c else x ∷ erase k c

  pub find-eq-none : (k : K) (c : Chain K V) → count k c ≡ 0 → find k c ≡ none
  unfolding find count
  find-eq-none k [] h = refl
  find-eq-none k (x ∷ c) h = ground (arith, find-eq-none k c)

  pub count-eq-zero : (k : K) (c : Chain K V) → find k c ≡ none → count k c ≡ 0
  unfolding find count
  count-eq-zero k [] h = refl
  count-eq-zero k (x ∷ c) h = ground (arith, count-eq-zero k c)

  pub find_congr : (q k : K) (c : Chain K V) → eq q k ≡ true → find q c ≡ find k c
  unfolding find
  find_congr q k [] h = refl
  find_congr q k (x ∷ c) h = ground (arith, eq_congr_left e q k x.0, find_congr q k c)

  pub count_congr : (q k : K) (c : Chain K V) → eq q k ≡ true → count q c ≡ count k c
  unfolding count
  count_congr q k [] h = refl
  count_congr q k (x ∷ c) h = ground (arith, eq_congr_left e q k x.0, count_congr q k c)

  pub find-assign :
      (k q : K) (v old : V) (c : Chain K V)
      → find k c ≡ some old
      → find q (assign k v c) ≡ (if eq q k then some v else find q c)
  unfolding find assign
  find-assign k q v old [] h = ground arith
  find-assign k q v old (x ∷ c) h =
      ground
        (arith, find-assign k q v old c, eq_congr_left e q k x.0, eq_trans q x.0 k, eq_symm k x.0)

  pub count-assign : (k q : K) (v : V) (c : Chain K V) → count q (assign k v c) ≡ count q c
  unfolding count assign
  count-assign k q v [] = refl
  count-assign k q v (x ∷ c) = ground (arith, count-assign k q v c)

  pub length-assign :
      (key : K) (value : V) (chain : Chain K V) → length (assign key value chain) ≡ length chain
  unfolding assign
  length-assign key value [] = refl
  length-assign key value (x ∷ chain) = ground (arith, length-assign key value chain)

  pub find-erase :
      (k q : K) (c : Chain K V)
      → count q c ≤ 1
      → find q (erase k c) ≡ (if eq q k then none else find q c)
  unfolding find erase count
  find-erase k q [] h = ground arith
  find-erase k q (x ∷ c) h = ground (
    arith,
    find-erase k q c,
    find-eq-none q c,
    eq_congr_left e q k x.0,
    eq_trans q x.0 k,
    eq_symm k x.0,
  )

  pub count-erase : (k q : K) (c : Chain K V) → count q (erase k c) ≤ count q c
  unfolding count erase
  count-erase k q [] = ground arith
  count-erase k q (x ∷ c) = ground (arith, count-erase k q c)

  pub length-erase :
      (k : K) (old : V) (c : Chain K V) → find k c ≡ some old → length (erase k c) + 1 ≡ length c
  unfolding find erase
  length-erase k old [] h = ground arith
  length-erase k old (x ∷ c) h = ground (arith, length-erase k old c)
