-- ===== src/Buckets/Placed.antt =====
-- An array of chains: every key sits at most once, and only in its home chain.
use chenghualearning.Common.{
  ℕ, zero, suc, ◌+◌, ◌≤◌, ◌<◌, ◌≡◌, ◌≢◌, refl, true, Option, none, List, [], ◌∷◌, arith,
  if◌then◌else◌, length, get_or, set, replicate, get_or-set, get_or-replicate,
}
use chenghualearning.Buckets.Replace.{Replaces}
use chenghualearning.Buckets.Chain.{KeyEq, Chain, find, count}

module _ {ℓ} {K V : Type ℓ} where
  abbrev pub bucket : List (Chain K V) → ℕ → Chain K V
  bucket bs i = get_or bs i []

  unfoldable pub entries : List (Chain K V) → ℕ
  entries [] = 0
  entries (c ∷ bs) = length c + entries bs

  pub entries-set :
      (bs : List (Chain K V)) (i : ℕ) (c : Chain K V)
      → i < length bs
      → entries (set bs i c) + length (bucket bs i) ≡ entries bs + length c
  unfolding entries
  entries-set [] i c h = absurd (omega arith)
  entries-set (b ∷ bs) zero c h = omega arith
  entries-set (b ∷ bs) (suc i) c h = omega (arith, entries-set bs i c (omega arith))

pub entries-replicate {ℓ} : (K V : Type ℓ) (n : ℕ) → entries {K = K} {V = V} (replicate n []) ≡ 0
unfolding entries
entries-replicate K V zero = refl
entries-replicate K V (suc n) = omega (arith, entries-replicate K V n)

module _ {ℓ} {K V : Type ℓ} (e : KeyEq K) (home : K → ℕ) where
  open e use {eq}

  abbrev pub IsPlaced : List (Chain K V) → Type ℓ
  IsPlaced bs =
      (q : K) (i : ℕ) → (count e q (bucket bs i) ≤ 1) × (home q ≢ i → count e q (bucket bs i) ≡ 0)

  unfoldable pub view : List (Chain K V) → K → Option V
  view bs q = find e q (bucket bs (home q))

module _ {ℓ} {K : Type ℓ} (V : Type ℓ) (e : KeyEq K) (home : K → ℕ) where
  pub replicate-IsPlaced : (n : ℕ) → IsPlaced {V = V} e home (replicate n [])
  unfolding count
  replicate-IsPlaced n q i = rw (get_or-replicate {A = Chain K V} n i []) (omega arith, λ _. refl)

  pub view-replicate : (n : ℕ) (q : K) → view {V = V} e home (replicate n []) q ≡ none
  unfolding view find
  view-replicate n q = rw (get_or-replicate {A = Chain K V} n (home q) [])

-- Every update of the dictionaries replaces the home chain of one key.
module _ {ℓ} {K V : Type ℓ} (e : KeyEq K) (home : K → ℕ)
    (home_congr : (a b : K) → e.eq a b ≡ true → home a ≡ home b) (bs : List (Chain K V)) (k : K)
    (inside : home k < length bs) {v : Option V} {c : Chain K V}
    (new : Replaces e k v (bucket bs (home k)) c) where
  open e use {eq}

  pub set-IsPlaced : IsPlaced e home bs → IsPlaced e home (set bs (home k) c)
  set-IsPlaced placed q i =
      rw (get_or-set bs (home k) i c [] inside)
        (ground (arith, placed q i, new.same q, new.other q, home_congr q k))

  pub view-set :
      (q : K) → view e home (set bs (home k) c) q ≡ (if eq q k then v else view e home bs q)
  unfolding view
  view-set q =
      rw (get_or-set bs (home k) (home q) c [] inside) (ground (arith, new.reads q, home_congr q k))
