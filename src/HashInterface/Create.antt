-- ===== src/HashInterface/Create.antt =====
-- `dictCreate` of clib/hash_interface.c.
use native.Mathlib.Nat.{two-pow-succ, pow-le-pow_right, one-le-pow}
use mathlib.Core.List.{append-nil}
use chenghualearning.Common.{
  ℕ, zero, suc, ◌-◌, ◌*◌, ◌/◌, ◌%◌, ◌^◌, ◌≤◌, ◌<◌, ◌≡◌, ◌⊎◌, inl, inr, refl, sym, ap, ◌∙◌, Bool,
  true, none, some, [], ◌++◌, arith, length, get_or, replicate, length-replicate, length-append,
  leb, get_or-replicate, ok, fault, uninitialised_read, ◌>>=◌, dec_lt,
}
use chenghualearning.Buckets.Chain.{KeyEq, Chain}
use chenghualearning.Buckets.Placed.{entries-replicate, replicate-IsPlaced, view-replicate}
use chenghualearning.HashInterface.Power.{dict_next_power_lem}
use chenghualearning.HashInterface.Ready.{replicate-written}
use chenghualearning.HashInterface.Valid.{IsValid, home, lookup, index_of-mask}
use chenghualearning.HashInterface.{
  DictType, Dict, Slot, dict_bytes, mem_add, dict_malloc, dict_next_power, dict_create, dict_find,
  chain_at,
}

-- Powers of two are in order as their exponents.
pow-lt_of_lt : (j k : ℕ) → 2 ^ j < 2 ^ k → j < k
pow-lt_of_lt j k h = elim (dec_lt j k) [
  | yes p ↦ p
  | no p ↦
      absurd (omega (arith, pow-le-pow_right {n = 2} (omega arith) {i = k} {j = j} (omega arith)))
]

exponent : (k j : ℕ) → 2 ≤ k → 2 ^ k ≤ 2 ^ j → ((j ≡ 2) ⊎ (2 ^ j < 2 * 2 ^ k)) → j ≡ k
exponent k j two above (inl e) =
    let fours : 2 ^ k < 2 ^ 3 = omega (arith, ap (λ i. 2 ^ i) e) in
    omega (arith, pow-lt_of_lt k 3 fours)
exponent k j two above (inr below) = omega (
  arith,
  pow-lt_of_lt j (suc k) (omega (arith, two-pow-succ k)),
  pow-lt_of_lt k (suc j) (omega (arith, two-pow-succ j, one-le-pow j 2)),
)

-- A power of two from 4 on is its own size.
dict_next_power-pow : (k : ℕ) → 2 ≤ k → k ≤ 31 → dict_next_power (2 ^ k) ≡ ok (2 ^ k)
dict_next_power-pow k two small = elim (dict_next_power_lem (2 ^ k)) [
  | inl (large, ran) ↦ absurd (omega (arith, pow-le-pow_right {n = 2} (omega arith) small))
  | inr (below, j, ran, (two', word, above, least)) ↦
      ran ∙ ap (λ i. ok (2 ^ i)) (exponent k j two above least)
]

-- Behind the cleared slots none is written.
get_or-behind :
    {K V : Type 0} (m n i : ℕ)
    → m ≤ i
    → get_or {A = Slot K V} (replicate m (some []) ++ replicate n none) i none ≡ none
get_or-behind {K} {V} zero n i h = get_or-replicate {A = Slot K V} n i none
get_or-behind (suc m) n zero h = absurd (omega arith)
get_or-behind {K} {V} (suc m) n (suc i) h = get_or-behind {K = K} {V = V} m n i (omega arith)

module _ {K V : Type 0} (malloc : ℕ → Bool) (t : DictType K V) (size k mem : ℕ)
    (got : malloc dict_bytes ≡ true) (got_table : malloc (8 * 2 ^ k) ≡ true) (small : k ≤ 31)
    (enough : size ≤ 2 ^ k) (power : dict_next_power size ≡ ok (2 ^ k)) where
  abbrev created : Dict K V
  created = record {
    table = replicate size (some []) ++ replicate (2 ^ k - size) none;
    type = t;
    size = 2 ^ k;
    sizemask = 2 ^ k - 1;
    used = 0;
  }

  bound : 2 ^ k ≤ 2 ^ 31
  bound = pow-le-pow_right {n = 2} (omega arith) small

  pub dict_create-created :
      dict_create malloc t size mem
      ≡ ok (some created, mem_add (8 * 2 ^ k) (mem_add dict_bytes mem))
  unfolding dict_create dict_malloc
  dict_create-created =
      let bytes : 8 * 2 ^ k % 2 ^ 64 ≡ 8 * 2 ^ k = omega (arith, bound) in
      let cleared : 8 * size % 2 ^ 64 ≡ 8 * size = omega (arith, bound) in
      let first : 8 * size / 8 ≡ size = omega arith in
      let rest : (8 * 2 ^ k - 8 * size) / 8 ≡ 2 ^ k - size = omega arith in
      let fits : leb (8 * size) (8 * 2 ^ k) ≡ true = ground arith in
      rw (got, power, ◌>>=◌, bytes, got_table, cleared, first, rest, fits)

  length-created : length created.table ≡ 2 ^ k
  length-created =
      length-append (replicate {A = Slot K V} size (some [])) (replicate (2 ^ k - size) none)
      ∙ omega (
        arith,
        length-replicate {A = Slot K V} size (some []),
        length-replicate {A = Slot K V} (2 ^ k - size) none,
      )

  dict_find-uninitialised :
      (same : K → K → Bool) (key : K)
      → size ≤ home t (2 ^ k) key
      → dict_find same created key ≡ fault uninitialised_read
  unfolding dict_find chain_at
  dict_find-uninitialised same key behind =
      let raw : get_or created.table (home t (2 ^ k) key) none ≡ none =
        get_or-behind size (2 ^ k - size) (home t (2 ^ k) key) behind in
      rw (index_of-mask created k small refl length-created key, ◌>>=◌) (rw (raw, chain_at) refl)

  -- `dictCreate` clears as many slots as are asked for, not as many as it makes: a key whose slot
  -- lies behind them makes `dictFind` on the new dictionary read memory that was never written.
  pub dict_create-uninitialised :
      (same : K → K → Bool)
      → (d : Dict K V) × (dict_create malloc t size mem
          ≡ ok (some d, mem_add (8 * 2 ^ k) (mem_add dict_bytes mem)))
        × ((key : K) → size ≤ home t (2 ^ k) key → dict_find same d key ≡ fault uninitialised_read)
  dict_create-uninitialised same = (created, dict_create-created, dict_find-uninitialised same)

module _ {K V : Type 0} (e : KeyEq K) (t : DictType K V) (k : ℕ) where
  -- The dictionary in which every slot is written.
  abbrev pub fresh : Dict K V
  fresh = record {
    table = replicate (2 ^ k) (some []);
    type = t;
    size = 2 ^ k;
    sizemask = 2 ^ k - 1;
    used = 0;
  }

  pub fresh-IsValid : k ≤ 31 → IsValid e fresh
  fresh-IsValid small =
      let none_yet = entries-replicate K V (2 ^ k) in
      record {
        chains = replicate (2 ^ k) [];
        table = replicate-written K V (2 ^ k);
        exponent = k;
        power = refl;
        small = small;
        slots = length-replicate {A = Chain K V} (2 ^ k) [];
        mask = refl;
        placed = replicate-IsPlaced V e (home t (2 ^ k)) (2 ^ k);
        counted = sym none_yet;
        used_word = omega (arith, none_yet);
      }

  pub lookup-fresh : (small : k ≤ 31) (q : K) → lookup (fresh-IsValid small) q ≡ none
  unfolding fresh-IsValid
  lookup-fresh small q = view-replicate V e (home t (2 ^ k)) (2 ^ k) q

  -- A size 2^k from 4 to 2^31 is taken as it is: with memory, `dictCreate` returns a valid
  -- dictionary of that many slots in which no key is found, and counts its memory.
  pub dict_create-valid :
      (malloc : ℕ → Bool) (mem : ℕ)
      → malloc dict_bytes ≡ true
      → malloc (8 * 2 ^ k) ≡ true
      → 2 ≤ k
      → k ≤ 31
      → (d : Dict K V) × (valid : IsValid e d) × (dict_create malloc t (2 ^ k) mem
          ≡ ok (some d, mem_add (8 * 2 ^ k) (mem_add dict_bytes mem)))
        × (d.type ≡ t)
        × (d.size ≡ 2 ^ k)
        × (d.used ≡ 0)
        × ((q : K) → lookup valid q ≡ none)
  dict_create-valid malloc mem got got_table two small = (
    fresh,
    fresh-IsValid small,
    dict_create-created malloc t (2 ^ k) k mem got got_table small (omega arith)
          (dict_next_power-pow k two small)
        ∙ ap
            (λ table.
              ok (
                some (record fresh { table = table }),
                mem_add (8 * 2 ^ k) (mem_add dict_bytes mem),
              ))
            all_cleared,
    refl,
    refl,
    refl,
    lookup-fresh small,
  )
    where
      none_left : 2 ^ k - 2 ^ k ≡ 0
      none_left = omega arith

      all_cleared :
          replicate {A = Slot K V} (2 ^ k) (some []) ++ replicate (2 ^ k - 2 ^ k) none
          ≡ replicate (2 ^ k) (some [])
      all_cleared = rw none_left (append-nil (replicate {A = Slot K V} (2 ^ k) (some [])))
