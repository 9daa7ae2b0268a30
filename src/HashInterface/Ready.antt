-- ===== src/HashInterface/Ready.antt =====
-- Tables of clib/hash_interface.c whose slots have all been written.
use chenghualearning.Common.{
  ℕ, zero, suc, ◌<◌, ◌≡◌, refl, ap, none, some, List, [], ◌∷◌, arith, length, get_or, set,
  replicate,
}
use chenghualearning.Buckets.Chain.{Chain}
use chenghualearning.HashInterface.{Slot}

-- The table that holds the chains `bs`.
abbrev pub written : {K V : Type 0} → List (Chain K V) → List (Slot K V)
written [] = []
written (c ∷ bs) = some c ∷ written bs

module _ {K V : Type 0} where
  pub length-written : (bs : List (Chain K V)) → length (written bs) ≡ length bs
  length-written [] = refl
  length-written (c ∷ bs) = ap suc (length-written bs)

  pub get_or-written :
      (bs : List (Chain K V)) (i : ℕ)
      → i < length bs
      → get_or (written bs) i none ≡ some (get_or bs i [])
  get_or-written [] i h = absurd (omega arith)
  get_or-written (c ∷ bs) zero h = refl
  get_or-written (c ∷ bs) (suc i) h = get_or-written bs i (omega arith)

  pub set-written :
      (bs : List (Chain K V)) (i : ℕ) (c : Chain K V)
      → set (written bs) i (some c) ≡ written (set bs i c)
  set-written [] i c = refl
  set-written (b ∷ bs) zero c = refl
  set-written (b ∷ bs) (suc i) c = ap (λ l. some b ∷ l) (set-written bs i c)

pub replicate-written :
    (K V : Type 0) (n : ℕ)
    → replicate {A = Slot K V} n (some []) ≡ written (replicate {A = Chain K V} n [])
replicate-written K V zero = refl
replicate-written K V (suc n) = ap (λ l. some [] ∷ l) (replicate-written K V n)
