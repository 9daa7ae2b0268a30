-- ===== src/HashInterface/Ops.antt =====
-- What each operation of clib/hash_interface.c does to a valid dictionary.
use chenghualearning.Common.{
  ℕ, ◌+◌, ◌-◌, ◌%◌, ◌^◌, ◌≤◌, ◌<◌, ◌≡◌, inl, inr, refl, ap, ◌∙◌, Bool, true, false, Option, none,
  some, ◌∷◌, arith, if◌then◌else◌, length, set, length-set, Option-cases, ok, fault,
  null_dereference, Returns, ◌>>=◌, Bool-cases,
}
use chenghualearning.Buckets.Chain.{
  KeyEq, Chain, find, count, assign, erase, length-assign, length-erase, find_congr,
}
use chenghualearning.Buckets.Placed.{bucket, entries, view, entries-set, set-IsPlaced, view-set}
use chenghualearning.Buckets.Replace.{
  Replaces, assign-Replaces, cons-Replaces, erase-Replaces, Replaces-congr,
}
use chenghualearning.HashInterface.Ready.{set-written}
use chenghualearning.HashInterface.Loops.{find_loop-find, find_loop-eq, add_loop-eq, del_loop-eq}
use chenghualearning.HashInterface.Valid.{
  IsLawful, IsValid, home, lookup, home-lt, index_of-home, chain_at-home,
}
use chenghualearning.HashInterface.{
  DictType, Dict, Status, dict_ok, dict_exist, dict_not_exist, entry_bytes, mem_add, dict_malloc,
  stored_key, stored_val, free_val, free_entry, find_loop, dict_add, dict_find, dict_del,
}

-- The status of `dictAdd` and the growth of `used`, from what the key had before.
abbrev pub add_status : {V : Type 0} → Option V → Status
add_status none = dict_ok
add_status (some _) = dict_exist

abbrev pub added : {V : Type 0} → Option V → ℕ
added none = 1
added (some _) = 0

-- `MemTotal` after `dictAdd`: a new entry, or the old value freed.
abbrev pub add_mem : {K V : Type 0} → DictType K V → Option V → ℕ → ℕ
add_mem t none mem = mem_add entry_bytes mem
add_mem t (some old) mem = free_val t old mem

-- The same for `dictDel`.
abbrev pub del_status : {V : Type 0} → Option V → Status
del_status none = dict_not_exist
del_status (some _) = dict_ok

abbrev pub removed : {V : Type 0} → Option V → ℕ
removed none = 0
removed (some _) = 1

-- `MemTotal` after `dictDel`, from the entry that is removed.
abbrev pub del_mem : {K V : Type 0} → DictType K V → Option (K × V) → ℕ → ℕ
del_mem t none mem = mem
del_mem t (some entry) mem = free_entry t entry mem

-- `d'` is `d` with `v` at `key`, in a table of the same size.
pub record Updates {K V : Type 0} (e : KeyEq K) {d : Dict K V} (valid : IsValid e d) (key : K)
    (v : Option V) (d' : Dict K V) : Type 0 where
  pub type : d'.type ≡ d.type
  pub size : d'.size ≡ d.size
  pub valid' : IsValid e d'
  pub reads : (q : K) → lookup valid' q ≡ (if e.eq q key then v else lookup valid q)

module _ {K V : Type 0} {same : K → K → Bool} {e : KeyEq K} {d : Dict K V}
    (law : IsLawful same e d.type) (valid : IsValid e d) (key : K) where
  abbrev at : ℕ
  at = home d.type d.size key

  abbrev chain : Chain K V
  chain = bucket valid.chains at

  once : (q : K) → count e q chain ≤ 1
  once q = (valid.placed q at).0

  home_congr : (a b : K) → e.eq a b ≡ true → home d.type d.size a ≡ home d.type d.size b
  home_congr a b h = ap (λ x. x % 2 ^ 32 % d.size) (law.hashes a b h)

  -- A new chain in the slot of the key.
  replaced :
      {v : Option V} {c : Chain K V} (n : ℕ)
      → Replaces e key v chain c
      → n ≡ entries (set valid.chains at c)
      → entries (set valid.chains at c) < 2 ^ 64
      → Updates e valid key v (record d { table = set d.table at (some c); used = n })
  replaced {c} n new counted word = record {
    type = refl;
    size = refl;
    valid' = record {
      chains = set valid.chains at c;
      table = ap (λ table. set table at (some c)) valid.table ∙ set-written valid.chains at c;
      exponent = valid.exponent;
      power = valid.power;
      small = valid.small;
      slots = length-set valid.chains at c ∙ valid.slots;
      mask = valid.mask;
      placed =
          set-IsPlaced e (home d.type d.size) home_congr valid.chains key (home-lt valid key) new
            valid.placed;
      counted = counted;
      used_word = word;
    };
    reads = view-set e (home d.type d.size) home_congr valid.chains key (home-lt valid key) new;
  }

  entries-at :
      (c : Chain K V)
      → entries (set valid.chains at c) + length chain ≡ entries valid.chains + length c
  entries-at c = entries-set valid.chains at c (home-lt valid key)

  copied : find e key chain ≡ none → find e (stored_key d.type key) chain ≡ none
  copied absent = find_congr e (stored_key d.type key) key chain (law.copies key) ∙ absent

  -- `dictAdd` reports whether the key was there; it stores the value, freeing the one before it, or
  -- adds an entry. It wants memory for a new entry only.
  pub dict_add-Updates :
      (malloc : ℕ → Bool) (val : V) (mem : ℕ)
      → (lookup valid key ≡ none
          → (malloc entry_bytes ≡ true) × (entries valid.chains + 1 < 2 ^ 64))
      → Returns (dict_add same malloc d key val mem) λ (s, d', mem').
        (s ≡ add_status (lookup valid key))
        × (d'.used ≡ d.used + added (lookup valid key))
        × (mem' ≡ add_mem d.type (lookup valid key) mem)
        × Updates e valid key (some (stored_val d.type val)) d'
  unfolding dict_add view dict_malloc
  dict_add-Updates malloc val mem room = elim (Option-cases (lookup valid key)) [
    | inl absent ↦
        let c = (stored_key d.type key, stored_val d.type val) ∷ chain in
        let size = entries-at c in
        let (got, below) = room absent in
        let grown : (d.used + 1) % 2 ^ 64 ≡ entries (set valid.chains at c) =
          omega (arith, valid.counted) in
        (
          (
            dict_ok,
            record d { table = set d.table at (some c); used = (d.used + 1) % 2 ^ 64 },
            mem_add entry_bytes mem,
          ),
          rw (index_of-home valid key, ◌>>=◌, chain_at-home valid key)
              (rw (add_loop-eq law, absent, got) refl),
          (
            rw absent,
            rw absent (omega (arith, valid.counted)),
            rw absent,
            replaced ((d.used + 1) % 2 ^ 64)
                (Replaces-congr e key (stored_key d.type key) (law.copies key) (
                  cons-Replaces e (stored_key d.type key) chain (stored_val d.type val)
                    (copied absent)))
                grown (omega arith),
          ),
        )
    | inr (old, found) ↦
        let c = assign e key (stored_val d.type val) chain in
        let size = entries-at c in
        let kept : entries (set valid.chains at c) ≡ entries valid.chains =
          omega (arith, length-assign e key (stored_val d.type val) chain) in
        (
          (dict_exist, record d { table = set d.table at (some c) }, free_val d.type old mem),
          rw (index_of-home valid key, ◌>>=◌, chain_at-home valid key)
              (rw (add_loop-eq law, found) refl),
          (
            rw found,
            rw found (omega arith),
            rw found,
            replaced d.used (assign-Replaces e key chain (stored_val d.type val) old found once)
                (omega (arith, valid.counted)) (omega (arith, valid.used_word)),
          ),
        )
  ]

  -- A new entry is written through the null pointer if its allocation fails.
  pub dict_add_null :
      (malloc : ℕ → Bool) (val : V) (mem : ℕ)
      → lookup valid key ≡ none
      → malloc entry_bytes ≡ false
      → dict_add same malloc d key val mem ≡ fault null_dereference
  unfolding dict_add view dict_malloc
  dict_add_null malloc val mem absent failed =
      rw (index_of-home valid key, ◌>>=◌, chain_at-home valid key)
        (rw (add_loop-eq law, absent, failed) refl)

  unchanged :
      lookup valid key ≡ none
      → (q : K) → lookup valid q ≡ (if e.eq q key then none else lookup valid q)
  unfolding view
  unchanged absent q = elim (Bool-cases (e.eq q key)) [
    | inl h ↦ rw h (
        ap (λ i. find e q (bucket valid.chains i)) (home_congr q key h)
        ∙ find_congr e q key chain h
        ∙ absent)
    | inr h ↦ rw h
  ]

  -- `dictFind` returns an entry with an equal key and the value that is stored, or `NULL`.
  pub dict_find_lem : Returns (dict_find same d key) λ r.
      (lookup valid key ≡ elim r [ none ↦ none | some x ↦ some x.1 ])
      × ((x : K × V) → r ≡ some x → e.eq key x.0 ≡ true)
  unfolding dict_find view
  dict_find_lem = (
    find_loop same d.type key chain,
    rw (index_of-home valid key, ◌>>=◌, chain_at-home valid key),
    (find_loop-find law key chain, find_loop-eq law key chain),
  )

  -- `dictDel` reports whether the key was there; it removes the entry that `dictFind` finds and
  -- frees its key, its value and the entry.
  pub dict_del-Updates :
      (mem : ℕ)
      → Returns (dict_del same d key mem) λ (s, d', mem').
        (s ≡ del_status (lookup valid key))
        × (d'.used + removed (lookup valid key) ≡ d.used)
        × (dict_find same d key >>= (λ x. ok (del_mem d.type x mem)) ≡ ok mem')
        × Updates e valid key none d'
  unfolding dict_del dict_find view free_entry
  dict_del-Updates mem = elim (Option-cases (find_loop same d.type key chain)) [
    | inl absent ↦
        let missing : lookup valid key ≡ none = rw (find_loop-find law key chain, absent) in
        (
          (dict_not_exist, d, mem),
          rw (index_of-home valid key, ◌>>=◌, chain_at-home valid key)
              (rw (del_loop-eq law, absent) refl),
          (
            rw missing,
            rw missing (omega arith),
            rw (index_of-home valid key, ◌>>=◌, chain_at-home valid key, absent) refl,
            record { type = refl; size = refl; valid' = valid; reads = unchanged missing },
          ),
        )
    | inr (entry, found) ↦
        let there : lookup valid key ≡ some entry.1 = rw (find_loop-find law key chain, found) in
        let c = erase e key chain in
        let size = entries-at c in
        let shorter = length-erase e key entry.1 chain there in
        let less : (d.used + 2 ^ 64 - 1) % 2 ^ 64 + 1 ≡ d.used =
          omega (arith, valid.counted, valid.used_word) in
        (
          (
            dict_ok,
            record d { table = set d.table at (some c); used = (d.used + 2 ^ 64 - 1) % 2 ^ 64 },
            free_entry d.type entry mem,
          ),
          rw (index_of-home valid key, ◌>>=◌, chain_at-home valid key)
              (rw (del_loop-eq law, found) refl),
          (
            rw there,
            rw there less,
            rw (index_of-home valid key, ◌>>=◌, chain_at-home valid key, found) refl,
            replaced ((d.used + 2 ^ 64 - 1) % 2 ^ 64) (erase-Replaces e key chain once)
                (omega (arith, valid.counted)) (omega (arith, valid.used_word)),
          ),
        )
  ]
