-- ===== src/Hash/Ops.antt =====
-- What each operation of clib/hash.c does to a valid dictionary.
use chenghualearning.Common.{
  ℕ, ◌+◌, ◌*◌, ◌≤◌, ◌<◌, ◌≡◌, ◌≢◌, refl, sym, ap, ◌∙◌, ◌-◌, ◌/◌, ◌%◌, ◌^◌, Bool, true, false,
  Option, none, some, [], ◌∷◌, inl, inr, arith, if◌then◌else◌, length, set, replicate, length-set,
  length-replicate, Option-cases, Bool-cases, ok, fault, out_of_bounds, null_dereference, Returns,
  ◌>>=◌,
}
use chenghualearning.Common.Int.{ℤ, pos, eq_ℤ, eq_ℤ_iff, ◌+ℤ◌, neg_part}
use chenghualearning.Common.Cint.{int_max, int_inc, int_dec, to_size_t}
use chenghualearning.Buckets.Chain.{count, assign, erase, length-assign, length-erase}
use chenghualearning.Buckets.Placed.{
  bucket, entries, view, entries-set, entries-replicate, replicate-IsPlaced, view-replicate,
  set-IsPlaced, view-set,
}
use chenghualearning.Buckets.Replace.{Replaces, assign-Replaces, cons-Replaces, erase-Replaces}
use chenghualearning.Hash.Loops.{int_keys, add_loop-eq, del_chain-eq, get_loop-eq}
use chenghualearning.Hash.Valid.{
  home, IsHashable, IsValid, lookup, home-lt, locate-home, locate-fault,
}
use chenghualearning.Hash.{
  Dict, Entries, Status, dict_ok, dict_exist, dict_not_exist, dict_create, dict_add, dict_del,
  dict_get,
}

-- Where both allocations succeed, a positive capacity gives a valid dictionary with this many
-- slots, in which no key is found.
pub dict_create-IsValid :
    (malloc : ℕ → Bool) (n : ℕ)
    → 0 < n
    → n ≤ int_max
    → malloc 16 ≡ true
    → malloc (8 * n) ≡ true
    → (d : Dict) × (dict_create malloc (pos n) ≡ some d)
      × IsValid d
      × (length d.table ≡ n)
      × ((q : ℤ) → lookup d q ≡ none)
unfolding dict_create to_size_t
dict_create-IsValid malloc n lo hi got_dict got_table =
    let bytes : 8 * ((n + 2 ^ 64 - 0) % 2 ^ 64) % 2 ^ 64 ≡ 8 * n = omega arith in
    let slots : 8 * n / 8 ≡ n = omega arith in
    let width : length (replicate {A = Entries} n []) ≡ n = length-replicate {A = Entries} n [] in
    let none_yet = entries-replicate ℤ ℤ n in
    (
      record { table = replicate n []; cap = pos n; cnt = pos 0 },
      rw (bytes, got_dict, got_table, slots),
      record {
        nonempty = omega arith;
        capacity = rw width;
        cap_int = omega arith;
        placed = replicate-IsPlaced ℤ int_keys _ n;
        counted = rw none_yet;
        cnt_int = omega arith;
      },
      width,
      λ q. view-replicate ℤ int_keys _ n q,
    )

-- The status of `dictAdd` and the growth of `cnt`, from what the key had before.
abbrev pub add_status : Option ℤ → Status
add_status none = dict_ok
add_status (some _) = dict_exist

abbrev pub added : Option ℤ → ℕ
added none = 1
added (some _) = 0

-- The status of `dictDel` and of `dictGet`.
abbrev pub found_status : Option ℤ → Status
found_status none = dict_not_exist
found_status (some _) = dict_ok

abbrev pub removed : Option ℤ → ℕ
removed none = 0
removed (some _) = 1

-- `d'` is `d` with `v` at `key`, in a table of the same size.
pub record Updates (d : Dict) (key : ℤ) (v : Option ℤ) (d' : Dict) : Type 0 where
  pub size : length d'.table ≡ length d.table
  pub valid : IsValid d'
  pub reads : (q : ℤ) → lookup d' q ≡ (if eq_ℤ key q then v else lookup d q)

module _ {d : Dict} (valid : IsValid d) (key : ℤ) where
  abbrev at : ℕ
  at = home (length d.table) key

  abbrev chain : Entries
  chain = bucket d.table at

  once : (q : ℤ) → count int_keys q chain ≤ 1
  once q = (valid.placed q at).0

  home_congr : (a b : ℤ) → eq_ℤ b a ≡ true → home (length d.table) a ≡ home (length d.table) b
  home_congr a b h = ap (home (length d.table)) (sym ((eq_ℤ_iff b a).0 h))

  -- A new chain in the slot of the key.
  replaced :
      {v : Option ℤ} {c : Entries} (n : ℤ)
      → Replaces int_keys key v chain c
      → n ≡ pos (entries (set d.table at c))
      → entries (set d.table at c) ≤ int_max
      → Updates d key v (record d { table = set d.table at c; cnt = n })
  replaced {c} n new counted fits =
      let width = length-set d.table at c in
      record {
        size = width;
        valid = record {
          nonempty = omega (arith, valid.nonempty);
          capacity = rw width valid.capacity;
          cap_int = omega (arith, valid.cap_int);
          placed = rw width (
              set-IsPlaced int_keys (home (length d.table)) home_congr d.table key
                (home-lt valid key) new valid.placed);
          counted = counted;
          cnt_int = fits;
        };
        reads = rw width (
            view-set int_keys (home (length d.table)) home_congr d.table key (home-lt valid key)
              new);
      }

  entries-at :
      (c : Entries) → entries (set d.table at c) + length chain ≡ entries d.table + length c
  entries-at c = entries-set d.table at c (home-lt valid key)

  unchanged : lookup d key ≡ none → (q : ℤ) → lookup d q ≡ (if eq_ℤ key q then none else lookup d q)
  unchanged absent q = elim (Bool-cases (eq_ℤ key q)) [
    | inl e ↦ rw e (ap (lookup d) (sym ((eq_ℤ_iff key q).0 e)) ∙ absent)
    | inr e ↦ rw e
  ]

  -- `dictAdd` reports whether the key was there, stores the value, and counts a new key. It wants
  -- memory and room in the counter for a new key only.
  pub dict_add_lem :
      (allocated : Bool) (value : ℤ)
      → IsHashable (length d.table) key
      → (lookup d key ≡ none → (allocated ≡ true) × (entries d.table < int_max))
      → Returns (dict_add allocated d key value) λ (s, d').
        (s ≡ add_status (lookup d key))
        × (entries d'.table ≡ entries d.table + added (lookup d key))
        × Updates d key (some value) d'
  unfolding dict_add int_inc ◌+ℤ◌ view
  dict_add_lem allocated value hashable room = elim (Option-cases (lookup d key)) [
    | inl absent ↦
        let c = (key, value) ∷ chain in
        let size = entries-at c in
        let (got, below) = room absent in
        let grown : entries (set d.table at c) ≡ entries d.table + 1 = omega arith in
        (
          (dict_ok, record d { table = set d.table at c; cnt = pos (entries d.table + 1) }),
          rw (locate-home valid key hashable, ◌>>=◌, add_loop-eq, absent, got, valid.counted)
              (ground arith),
          (
            rw absent,
            rw absent grown,
            replaced (pos (entries d.table + 1)) (cons-Replaces int_keys key chain value absent)
                (rw grown) (omega arith),
          ),
        )
    | inr (old, found) ↦
        let c = assign int_keys key value chain in
        let size = entries-at c in
        let kept : entries (set d.table at c) ≡ entries d.table =
          omega (arith, length-assign int_keys key value chain) in
        (
          (dict_exist, record d { table = set d.table at c }),
          rw (locate-home valid key hashable, ◌>>=◌, add_loop-eq, found),
          (
            rw found,
            rw found (omega arith),
            replaced d.cnt (assign-Replaces int_keys key chain value old found once)
                (rw kept valid.counted) (omega (arith, valid.cnt_int)),
          ),
        )
  ]

  -- `dictDel` reports whether the key was there, removes it, and counts one key less.
  pub dict_del_lem :
      IsHashable (length d.table) key
      → Returns (dict_del d key) λ (s, d').
        (s ≡ found_status (lookup d key))
        × (entries d'.table + removed (lookup d key) ≡ entries d.table)
        × Updates d key none d'
  unfolding dict_del int_dec ◌+ℤ◌ view
  dict_del_lem hashable = elim (Option-cases (lookup d key)) [
    | inl absent ↦ (
      (dict_not_exist, d),
      rw (locate-home valid key hashable, ◌>>=◌, del_chain-eq, absent),
      (
        rw absent,
        rw absent (omega arith),
        record { size = refl; valid = valid; reads = unchanged absent },
      ),
    )
    | inr (old, found) ↦
        let c = erase int_keys key chain in
        let size = entries-at c in
        let less : entries (set d.table at c) + 1 ≡ entries d.table =
          omega (arith, length-erase int_keys key old chain found) in
        (
          (dict_ok, record d { table = set d.table at c; cnt = pos (entries d.table - 1) }),
          rw (locate-home valid key hashable, ◌>>=◌, del_chain-eq, found, valid.counted)
              (ground arith),
          (
            rw found,
            rw found less,
            replaced (pos (entries d.table - 1)) (erase-Replaces int_keys key chain once)
                (ap pos (omega arith)) (omega (arith, valid.cnt_int)),
          ),
        )
  ]

  -- `dictGet` stores the value of the key in `*value`, and leaves `*value` alone if there is none.
  pub dict_get_lem :
      (value : ℤ)
      → IsHashable (length d.table) key
      → dict_get d key value
        ≡ ok (elim (lookup d key) [ none ↦ (dict_not_exist, value) | some v ↦ (dict_ok, v) ])
  unfolding dict_get view
  dict_get_lem value hashable = rw (locate-home valid key hashable, get_loop-eq)

  -- A key whose remainder is negative makes each operation read outside the table.
  pub dict_fault :
      (allocated : Bool) (value : ℤ)
      → neg_part key % length d.table ≢ 0
      → (dict_add allocated d key value ≡ fault out_of_bounds)
        × (dict_del d key ≡ fault out_of_bounds)
        × (dict_get d key value ≡ fault out_of_bounds)
  unfolding dict_add dict_del dict_get
  dict_fault allocated value h = rw (locate-fault valid key h) (refl, refl, refl)

  -- A new key is written through the null pointer if its allocation fails.
  pub dict_add_no_memory :
      (value : ℤ)
      → IsHashable (length d.table) key
      → lookup d key ≡ none
      → dict_add false d key value ≡ fault null_dereference
  unfolding dict_add view
  dict_add_no_memory value hashable absent =
      rw (locate-home valid key hashable, ◌>>=◌, add_loop-eq, absent)
