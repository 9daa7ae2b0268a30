-- ===== src/Common/Family.antt =====
-- Families indexed by thread: what changes at one index, and sums over the first `n`.
use Prim.Native.Nat.{ℕ, zero, suc, ◌+◌, ◌*◌, ◌≤◌, ◌<◌}
use mathlib.Core.Path.{◌≡◌, refl, sym, ap, ◌∙◌, subst}
use mathlib.Core.Logic.{◌≢◌, ◌⊎◌, inl, inr}
use native.Mathlib.Decide.{dec_lt, ℕ_discrete}
use native.Mathlib.Nat.{suc-mul}
use native.Mathlib.Omega.{arith}
use chenghualearning.Common.Tests.{Bool-cases, ◌==◌, if◌then◌else◌}

abbrev pub update {ℓ} : {A : Type ℓ} → (ℕ → A) → ℕ → A → ℕ → A
update f j a k = if j == k then a else f k

-- What holds of the new element and of the others holds of all.
pub update-all {ℓ κ} :
    {A : Type ℓ} (P : A → Type κ) (n : ℕ) (f : ℕ → A) (j : ℕ) (a : A)
    → P a
    → ((i : ℕ) → i < n → i ≢ j → P (f i))
    → (i : ℕ) → i < n
    → P (update f j a i)
update-all P n f j a new old i h = elim (Bool-cases (j == i)) [
  | inl e ↦ rw e new
  | inr e ↦ rw e (old i h (ground (arith, e)))
]

module _ {ℓ} {A : Type ℓ} (w : A → ℕ) where
  unfoldable pub total : ℕ → (ℕ → A) → ℕ
  total zero f = 0
  total (suc n) f = total n f + w (f n)

  total-update_above :
      (n : ℕ) (f : ℕ → A) (j : ℕ) (a : A) → n ≤ j → total n (update f j a) ≡ total n f
  unfolding total
  total-update_above zero f j a h = refl
  total-update_above (suc n) f j a h = ground (arith, total-update_above n f j a)

  pub total-update :
      (n : ℕ) (f : ℕ → A) (j : ℕ) (a : A)
      → j < n
      → total n (update f j a) + w (f j) ≡ total n f + w a
  unfolding total
  total-update zero f j a h = absurd (omega arith)
  total-update (suc n) f j a h = elim (dec_lt j n) [
    | yes below ↦ ground (arith, total-update n f j a below)
    | no last ↦ ground (arith, total-update_above n f j a)
  ]

  pub total-const : (n c : ℕ) (f : ℕ → A) → ((j : ℕ) → j < n → w (f j) ≡ c) → total n f ≡ n * c
  unfolding total
  total-const zero c f all = omega arith
  total-const (suc n) c f all =
      omega
        (arith, suc-mul n c, all n (omega arith), total-const n c f (λ j h. all j (omega arith)))

  -- Each of the first `n` has weight 0, or one has more.
  pub total-search :
      (n : ℕ) (f : ℕ → A) → ((j : ℕ) → j < n → w (f j) ≡ 0) ⊎ ((j : ℕ) × (j < n) × (0 < w (f j)))
  total-search zero f = inl (λ j h. absurd (omega arith))
  total-search (suc n) f = elim (total-search n f) [
    | inr (j, low, some) ↦ inr (j, omega arith, some)
    | inl none ↦ elim (ℕ_discrete (w (f n)) 0) [
      | no some ↦ inr (n, omega arith, omega arith)
      | yes last ↦ inl (λ j h. elim (ℕ_discrete j n) [
        | yes same ↦ rw same last
        | no other ↦ none j (omega arith)
      ])
    ]
  ]

  pub total-member : (n : ℕ) (f : ℕ → A) (j : ℕ) → j < n → w (f j) ≤ total n f
  unfolding total
  total-member zero f j h = absurd (omega arith)
  total-member (suc n) f j h = elim (ℕ_discrete j n) [
    | yes same ↦ rw same (omega arith)
    | no other ↦ omega (arith, total-member n f j (omega arith))
  ]

  -- The index `j` goes from `p` to `q`.
  pub total-move :
      (n : ℕ) (f : ℕ → A) (j : ℕ) (p q : A)
      → j < n
      → f j ≡ p
      → total n (update f j q) + w p ≡ total n f + w q
  total-move n f j p q low e =
      ap (λ a. total n (update f j q) + w a) (sym e) ∙ total-update n f j q low

  pub total-bound : (n c : ℕ) (f : ℕ → A) → ((j : ℕ) → j < n → w (f j) ≤ c) → total n f ≤ n * c
  unfolding total
  total-bound zero c f all = omega arith
  total-bound (suc n) c f all =
      omega
        (arith, suc-mul n c, all n (omega arith), total-bound n c f (λ j h. all j (omega arith)))

  -- Where one is under the bound, so is the sum.
  pub total-under :
      (n c : ℕ) (f : ℕ → A) (j : ℕ)
      → ((i : ℕ) → i < n → w (f i) ≤ c)
      → j < n
      → w (f j) < c
      → total n f < n * c
  unfolding total
  total-under zero c f j all low under = absurd (omega arith)
  total-under (suc n) c f j all low under = elim (ℕ_discrete j n) [
    | yes same ↦
        (let last : w (f n) < c = subst (λ i. w (f i) < c) same under in
          omega (arith, suc-mul n c, total-bound n c f (λ i h. all i (omega arith))))
    | no other ↦ omega (
      arith,
      suc-mul n c,
      all n (omega arith),
      total-under n c f j (λ i h. all i (omega arith)) (omega arith) under,
    )
  ]

  pub total-pair :
      (n : ℕ) (f : ℕ → A) (i j : ℕ) → i < n → j < n → i ≢ j → w (f i) + w (f j) ≤ total n f
  unfolding total
  total-pair zero f i j hi hj apart = absurd (omega arith)
  total-pair (suc n) f i j hi hj apart = elim (ℕ_discrete i n) [
    | yes same ↦ rw same (omega (arith, total-member n f j (omega arith)))
    | no i_low ↦ elim (ℕ_discrete j n) [
      | yes same ↦ rw same (omega (arith, total-member n f i (omega arith)))
      | no j_low ↦ omega (arith, total-pair n f i j (omega arith) (omega arith) apart)
    ]
  ]
