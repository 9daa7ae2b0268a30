-- ===== src/HashInterface/Valid.antt =====
-- What the dictionary of clib/hash_interface.c relies on of its callbacks, the representation
-- invariant, and the slot of a key.
use native.Mathlib.Nat.{pow-le-pow_right, one-le-pow, mod-lt}
use Prim.Native.Nat.{bit_and}
use chenghualearning.Common.{
  ℕ, ◌+◌, ◌-◌, ◌%◌, ◌^◌, ◌≤◌, ◌<◌, ◌≡◌, sym, ap, ◌∙◌, Bool, true, Option, none, some, List, arith,
  ltb, if◌then◌else◌, length, get_or, ok,
}
use chenghualearning.Common.Bits.{and-mask, wrap-mod}
use chenghualearning.Buckets.Chain.{KeyEq, Chain}
use chenghualearning.Buckets.Placed.{IsPlaced, entries, view, bucket}
use chenghualearning.HashInterface.Ready.{written, length-written, get_or-written}
use chenghualearning.HashInterface.{DictType, Dict, compare_keys, stored_key, index_of, chain_at}

-- The callbacks compare keys by the equivalence `e`, hash equal keys alike, and copy a key to an
-- equal one.
pub record IsLawful {K V : Type 0} (same : K → K → Bool) (e : KeyEq K) (t : DictType K V)
    : Type 0 where
  pub compares : (a b : K) → compare_keys same t a b ≡ e.eq a b
  pub hashes : (a b : K) → e.eq a b ≡ true → t.hash_function a ≡ t.hash_function b
  pub copies : (k : K) → e.eq (stored_key t k) k ≡ true

-- The slot of a key in a table of `n` slots.
abbrev pub home : {K V : Type 0} → DictType K V → ℕ → K → ℕ
home t n key = t.hash_function key % 2 ^ 32 % n

-- `chains` are the chains that the table holds.
pub record IsValid {K V : Type 0} (e : KeyEq K) (d : Dict K V) : Type 0 where
  pub chains : List (Chain K V)
  pub table : d.table ≡ written chains
  pub exponent : ℕ
  pub power : d.size ≡ 2 ^ exponent
  pub small : exponent ≤ 31
  pub slots : length chains ≡ d.size
  pub mask : d.sizemask ≡ d.size - 1
  pub placed : IsPlaced e (home d.type d.size) chains
  pub counted : d.used ≡ entries chains
  pub used_word : entries chains < 2 ^ 64

-- The sign extension of the hash does not reach the digits of the mask.
extended :
    (k h : ℕ)
    → k ≤ 31
    → h < 2 ^ 32
    → (if ltb h (2 ^ 31) then h else h + (2 ^ 64 - 2 ^ 32)) % 2 ^ k ≡ h % 2 ^ k
extended k h small word =
    let wide : ℕ = if ltb h (2 ^ 31) then h else h + (2 ^ 64 - 2 ^ 32) in
    let low : wide % 2 ^ 32 ≡ h = ground arith in
    sym (wrap-mod k wide (omega arith)) ∙ ap (λ x. x % 2 ^ k) low

-- The index of a key in a table of 2^k slots, written or not.
pub index_of-mask :
    {K V : Type 0} (d : Dict K V) (k : ℕ)
    → k ≤ 31
    → d.sizemask ≡ 2 ^ k - 1
    → length d.table ≡ 2 ^ k
    → (key : K) → index_of d key ≡ ok (home d.type (2 ^ k) key)
unfolding index_of
index_of-mask d k small ones width key =
    let h : ℕ = d.type.hash_function key % 2 ^ 32 in
    let wide : ℕ = if ltb h (2 ^ 31) then h else h + (2 ^ 64 - 2 ^ 32) in
    let i : bit_and wide d.sizemask ≡ home d.type (2 ^ k) key =
      rw ones (and-mask k wide ∙ extended k h small (omega arith)) in
    let pos = one-le-pow k 2 (omega arith) in
    let bound = pow-le-pow_right {n = 2} (omega arith) small in
    let below : home d.type (2 ^ k) key < 2 ^ k = mod-lt h pos in
    let kept : home d.type (2 ^ k) key % 2 ^ 32 ≡ home d.type (2 ^ k) key = omega arith in
    rw (i, kept, width) (ground arith)

module _ {K V : Type 0} {e : KeyEq K} {d : Dict K V} (valid : IsValid e d) where
  -- The value stored for a key.
  abbrev pub lookup : K → Option V
  lookup = view e (home d.type d.size) valid.chains

  pub size_bounds : (0 < d.size) × (d.size ≤ 2 ^ 31)
  size_bounds = rw valid.power (
    one-le-pow valid.exponent 2 (omega arith),
    pow-le-pow_right {n = 2} (omega arith) valid.small,
  )

  pub home-lt : (key : K) → home d.type d.size key < length valid.chains
  home-lt key = rw valid.slots (mod-lt _ size_bounds.0)

  pub index_of-home : (key : K) → index_of d key ≡ ok (home d.type d.size key)
  index_of-home key =
      let width : length d.table ≡ 2 ^ valid.exponent =
        ap length valid.table ∙ length-written valid.chains ∙ valid.slots ∙ valid.power in
      let ones : d.sizemask ≡ 2 ^ valid.exponent - 1 = omega (arith, valid.mask, valid.power) in
      index_of-mask d valid.exponent valid.small ones width key
      ∙ ap (λ n. ok (home d.type n key)) (sym valid.power)

  pub chain_at-home :
      (key : K)
      → chain_at d (home d.type d.size key) ≡ ok (bucket valid.chains (home d.type d.size key))
  unfolding chain_at
  chain_at-home key =
      let e : get_or d.table (home d.type d.size key) none
          ≡ some (bucket valid.chains (home d.type d.size key)) =
        ap (λ table. get_or table (home d.type d.size key) none) valid.table
        ∙ get_or-written valid.chains _ (home-lt key) in
      rw (e, chain_at)
