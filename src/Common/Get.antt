-- ===== src/Common/Get.antt =====
-- Reads after writes, and appends under the list operations of `Lists`.
use Prim.Native.Nat.{ℕ, zero, suc, ◌+◌, ◌-◌, ◌≤◌, ◌<◌}
use mathlib.Core.Path.{◌≡◌, refl, ap, ap₂, ◌∙◌}
use mathlib.Core.List.{List, [], ◌∷◌, ◌++◌}
use native.Mathlib.Omega.{arith}
use chenghualearning.Common.Lists.{length, get_or, set, take, drop, replicate}
use chenghualearning.Common.Tests.{◌==◌, if◌then◌else◌}

module _ {ℓ} {A : Type ℓ} where
  pub get_or-set :
      (xs : List A) (i j : ℕ) (v d : A)
      → i < length xs
      → get_or (set xs i v) j d ≡ (if i == j then v else get_or xs j d)
  get_or-set [] i j v d h = absurd (omega arith)
  get_or-set (x ∷ xs) zero zero v d h = refl
  get_or-set (x ∷ xs) zero (suc j) v d h = ground arith
  get_or-set (x ∷ xs) (suc i) zero v d h = ground arith
  get_or-set (x ∷ xs) (suc i) (suc j) v d h = ground (arith, get_or-set xs i j v d)

  pub get_or-replicate : (n i : ℕ) (a : A) → get_or (replicate n a) i a ≡ a
  get_or-replicate zero i a = refl
  get_or-replicate (suc n) zero a = refl
  get_or-replicate (suc n) (suc i) a = get_or-replicate n i a

  -- `f 0, f 1, …, f (n - 1)`
  abbrev pub tabulate : ℕ → (ℕ → A) → List A
  tabulate zero f = []
  tabulate (suc n) f = f 0 ∷ tabulate n (λ i. f (suc i))

  pub length-tabulate : (n : ℕ) (f : ℕ → A) → length (tabulate n f) ≡ n
  length-tabulate zero f = refl
  length-tabulate (suc n) f = ap suc (length-tabulate n (λ i. f (suc i)))

  pub tabulate_congr :
      (n : ℕ) (f g : ℕ → A) → ((i : ℕ) → i < n → f i ≡ g i) → tabulate n f ≡ tabulate n g
  tabulate_congr zero f g h = refl
  tabulate_congr (suc n) f g h =
      ap₂ ◌∷◌ (h 0 (omega arith))
        (tabulate_congr n (λ i. f (suc i)) (λ i. g (suc i)) (λ i p. h (suc i) (omega arith)))

  pub tabulate-add :
      (m n : ℕ) (f : ℕ → A) → tabulate (m + n) f ≡ tabulate m f ++ tabulate n (λ i. f (m + i))
  tabulate-add zero n f =
      let e : 0 + n ≡ n = omega arith in
      rw e (tabulate_congr n f (λ i. f (0 + i)) (λ i p. ap f (omega arith)))
  tabulate-add (suc m) n f =
      let e : suc m + n ≡ suc (m + n) = omega arith in
      rw e (
        ap (λ l. f 0 ∷ l)
          (tabulate-add m n (λ i. f (suc i))
            ∙ ap (λ l. tabulate m (λ i. f (suc i)) ++ l)
                (tabulate_congr n (λ i. f (suc (m + i))) (λ i. f (suc m + i))
                  (λ i p. ap f (omega arith)))))

  pub take-tabulate : (m n : ℕ) (f : ℕ → A) → m ≤ n → take m (tabulate n f) ≡ tabulate m f
  take-tabulate zero n f h = refl
  take-tabulate (suc m) zero f h = absurd (omega arith)
  take-tabulate (suc m) (suc n) f h =
      ap (λ l. f 0 ∷ l) (take-tabulate m n (λ i. f (suc i)) (omega arith))

  pub drop-tabulate :
      (m n : ℕ) (f : ℕ → A) → m ≤ n → drop m (tabulate n f) ≡ tabulate (n - m) (λ i. f (m + i))
  drop-tabulate zero n f h =
      let e : n - 0 ≡ n = omega arith in
      rw e (tabulate_congr n f (λ i. f (0 + i)) (λ i p. ap f (omega arith)))
  drop-tabulate (suc m) zero f h = absurd (omega arith)
  drop-tabulate (suc m) (suc n) f h =
      let e : suc n - suc m ≡ n - m = omega arith in
      rw e (
        drop-tabulate m n (λ i. f (suc i)) (omega arith)
        ∙ tabulate_congr (n - m) (λ i. f (suc (m + i))) (λ i. f (suc m + i))
            (λ i p. ap f (omega arith)))

  pub take-eq-tabulate :
      (n : ℕ) (xs : List A) (d : A) → n ≤ length xs → take n xs ≡ tabulate n (λ i. get_or xs i d)
  take-eq-tabulate zero xs d h = refl
  take-eq-tabulate (suc n) [] d h = absurd (omega arith)
  take-eq-tabulate (suc n) (x ∷ xs) d h = ap (λ l. x ∷ l) (take-eq-tabulate n xs d (omega arith))

  pub eq_tabulate : (xs : List A) (d : A) → xs ≡ tabulate (length xs) (λ i. get_or xs i d)
  eq_tabulate [] d = refl
  eq_tabulate (x ∷ xs) d = ap (λ l. x ∷ l) (eq_tabulate xs d)

  pub drop-eq-tabulate :
      (n : ℕ) (xs : List A) (d : A)
      → n ≤ length xs
      → drop n xs ≡ tabulate (length xs - n) (λ i. get_or xs (n + i) d)
  drop-eq-tabulate n xs d h =
      ap (drop n) (eq_tabulate xs d) ∙ drop-tabulate n (length xs) (λ i. get_or xs i d) h

  pub append_assoc : (xs ys zs : List A) → (xs ++ ys) ++ zs ≡ xs ++ (ys ++ zs)
  append_assoc [] ys zs = refl
  append_assoc (x ∷ xs) ys zs = ap (λ us. x ∷ us) (append_assoc xs ys zs)
