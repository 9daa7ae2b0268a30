-- ===== src/Buckets/Replace.antt =====
-- The three ways in which a chain changes: a value is assigned, an entry added, an entry erased.
use chenghualearning.Common.{
  ◌≤◌, ◌≡◌, ◌∙◌, true, false, Option, none, some, ◌∷◌, arith, if◌then◌else◌,
}
use chenghualearning.Buckets.Chain.{
  KeyEq, Chain, find, count, assign, erase, count-eq-zero, count_congr, find-assign, count-assign,
  find-erase, count-erase, eq_congr_right,
}

-- `c` is `old` with `v` at `k`; it has no more entries for any other key, and one at most for `k`.
pub record Replaces {ℓ} {K V : Type ℓ} (e : KeyEq K) (k : K) (v : Option V) (old c : Chain K V)
    : Type ℓ where
  pub reads : (q : K) → find e q c ≡ (if e.eq q k then v else find e q old)
  pub same : (q : K) → e.eq q k ≡ true → count e q c ≤ 1
  pub other : (q : K) → e.eq q k ≡ false → count e q c ≤ count e q old

module _ {ℓ} {K V : Type ℓ} (e : KeyEq K) (k : K) (c : Chain K V) where
  pub assign-Replaces :
      (v old : V)
      → find e k c ≡ some old
      → ((q : K) → count e q c ≤ 1)
      → Replaces e k (some v) c (assign e k v c)
  assign-Replaces v old found once = record {
    reads = λ q. find-assign e k q v old c found;
    same = λ q h. omega (arith, count-assign e k q v c, once q);
    other = λ q h. omega (arith, count-assign e k q v c);
  }

  pub cons-Replaces : (v : V) → find e k c ≡ none → Replaces e k (some v) c ((k, v) ∷ c)
  unfolding find count
  cons-Replaces v absent = record {
    reads = λ q. ground arith;
    same = λ q h. ground (arith, count-eq-zero e k c absent, count_congr e q k c);
    other = λ q h. ground arith;
  }

  pub erase-Replaces : ((q : K) → count e q c ≤ 1) → Replaces e k none c (erase e k c)
  erase-Replaces once = record {
    reads = λ q. find-erase e k q c (once q);
    same = λ q h. omega (arith, count-erase e k q c, once q);
    other = λ q h. count-erase e k q c;
  }

-- An equal key serves as well.
pub Replaces-congr {ℓ} :
    {K V : Type ℓ} (e : KeyEq K) (k k' : K) {v : Option V} {old c : Chain K V}
    → e.eq k' k ≡ true
    → Replaces e k' v old c
    → Replaces e k v old c
Replaces-congr {K} e k k' h new =
    let swap : (q : K) → e.eq q k' ≡ e.eq q k = λ q. eq_congr_right e q k' k h in
    record {
      reads = λ q. rw (← swap q) (new.reads q);
      same = λ q p. new.same q (swap q ∙ p);
      other = λ q p. new.other q (swap q ∙ p);
    }
