-- ===== src/HashInterface.antt =====
-- clib/hash_interface.c: a dictionary over the callbacks of a `dictType`.
-- A key or a value is what its pointer leads to, and a chain of `dictEntry` nodes is the list of
-- its keys and values. `privdata`, which the callbacks of the file ignore, is left out. A callback
-- that frees acts on the counter `MemTotal`, the only state of the program that it reaches.
pub mod Power
pub mod Types
pub mod Ready
pub mod Valid
pub mod Loops
pub mod Ops
pub mod Create
pub mod Destroy
pub mod Refine
pub mod Session
mod Tests
mod StringTests
use Prim.Native.Nat.{bit_and}
use chenghualearning.Common.{
  ℕ, zero, suc, ◌+◌, ◌-◌, ◌*◌, ◌/◌, ◌%◌, ◌^◌, Bool, true, false, Option, none, some, List, [], ◌∷◌,
  ◌++◌, leb, ltb, ◌==◌, ◌&&◌, if◌then◌else◌, length, get_or, get_elem?, set, replicate, Run, ok,
  fault, out_of_bounds, out_of_fuel, null_dereference, uninitialised_read, assertion_failed,
  signed_overflow, ensure, check, ◌>>=◌, ◌>>◌,
}
use chenghualearning.Common.Cint.{int_max}
use chenghualearning.Buckets.Chain.{Chain}

-- `DICT_OK`, `DICT_EXIST`, `DICT_NOT_EXIST`; no function returns `DICT_ERR`.
pub data Status : Type 0 where
  dict_ok : Status
  dict_exist : Status
  dict_not_exist : Status

-- The callbacks; `none` is a null pointer. A destructor takes `MemTotal` to its new value.
pub record DictType (K V : Type 0) : Type 0 where
  pub hash_function : K → ℕ
  pub key_dup : Option (K → K)
  pub val_dup : Option (V → V)
  pub key_compare : Option (K → K → Bool)
  pub key_destructor : Option (K → ℕ → ℕ)
  pub val_destructor : Option (V → ℕ → ℕ)

-- A slot of the table: a chain, or memory that nothing was written to.
abbrev pub Slot : Type 0 → Type 0 → Type 0
Slot K V = Option (Chain K V)

pub record Dict (K V : Type 0) : Type 0 where
  pub table : List (Slot K V)
  pub type : DictType K V
  pub size : ℕ
  pub sizemask : ℕ
  pub used : ℕ

-- `MemTotal += size` and `MemTotal -= size`, as the bit pattern of an `int`.
abbrev pub mem_add : ℕ → ℕ → ℕ
mem_add size mem = (mem + size) % 2 ^ 32

abbrev pub mem_sub : ℕ → ℕ → ℕ
mem_sub size mem = (mem + 2 ^ 32 - size % 2 ^ 32) % 2 ^ 32

-- `malloc n` tells whether the allocation succeeds.
pub dict_malloc : (malloc : ℕ → Bool) → ℕ → ℕ → Bool × ℕ
dict_malloc malloc size mem = if malloc size then (true, mem_add size mem) else (false, mem)

pub dict_free : ℕ → ℕ → ℕ
dict_free size mem = mem_sub size mem

-- sizeof(dict), sizeof(dictEntry) and sizeof(dictEntry*)
abbrev pub dict_bytes : ℕ
dict_bytes = 48

abbrev pub entry_bytes : ℕ
entry_bytes = 24

abbrev pub pointer_bytes : ℕ
pointer_bytes = 8

abbrev pub long_max : ℕ
long_max = 2 ^ 63 - 1

-- The loop of `_dictNextPower`; `i *= 2` wraps at 2^64.
pub next_power_loop : (fuel : ℕ) → (size i : ℕ) → Run ℕ
next_power_loop zero size i = fault out_of_fuel
next_power_loop (suc fuel) size i =
    let rest = next_power_loop fuel size (i * 2 % 2 ^ 64) in if leb size i then ok i else rest

-- From 4 the loop doubles 61 times at most.
pub dict_next_power : ℕ → Run ℕ
dict_next_power size = if leb long_max size then ok long_max else next_power_loop 62 size 4

module _ {K V : Type 0} where
  -- The `memset` clears `size` pointers, however many slots there are.
  pub dict_create :
      (malloc : ℕ → Bool) → DictType K V → (size mem : ℕ) → Run (Option (Dict K V) × ℕ)
  dict_create malloc type size mem = do
    let (got, mem) = dict_malloc malloc dict_bytes mem
    if got
        then (do
          realsize ← dict_next_power size
          let bytes : ℕ = pointer_bytes * realsize % 2 ^ 64
          let (got_table, mem') = dict_malloc malloc bytes mem
          let cleared : ℕ = pointer_bytes * size % 2 ^ 64
          if got_table
              then (do
                ensure (leb cleared bytes) out_of_bounds
                ok (
                  some (record {
                    table =
                        replicate (cleared / 8) (some []) ++ replicate ((bytes - cleared) / 8) none;
                    type = type;
                    size = realsize;
                    sizemask = realsize - 1;
                    used = 0;
                  }),
                  mem',
                ))
              else ok (none, dict_free dict_bytes mem'))
        else ok (none, mem)

module _ {K V : Type 0} (same : K → K → Bool) where
  -- `dictCompareHashKeys`; without a callback the pointers are compared, by `same`.
  pub compare_keys : DictType K V → K → K → Bool
  compare_keys t a b = elim t.key_compare [ none ↦ same a b | some compare ↦ compare a b ]

module _ {K V : Type 0} where
  -- `dictSetHashKey` and `dictSetHashVal`: what the entry stores.
  pub stored_key : DictType K V → K → K
  stored_key t key = elim t.key_dup [ none ↦ key | some dup ↦ dup key ]

  pub stored_val : DictType K V → V → V
  stored_val t val = elim t.val_dup [ none ↦ val | some dup ↦ dup val ]

  -- `dictFreeEntryKey` and `dictFreeEntryVal`
  pub free_key : DictType K V → K → ℕ → ℕ
  free_key t key mem = elim t.key_destructor [ none ↦ mem | some free ↦ free key mem ]

  pub free_val : DictType K V → V → ℕ → ℕ
  free_val t val mem = elim t.val_destructor [ none ↦ mem | some free ↦ free val mem ]

  -- The hash as an `int`, `&=` with the mask, and the access `d->table[idx]`: the 64-bit operand
  -- is the sign-extended `int`, and a result from 2^31 on is a negative index.
  pub index_of : Dict K V → K → Run ℕ
  index_of d key = do
    let hash : ℕ = d.type.hash_function key % 2 ^ 32
    let wide : ℕ = if ltb hash (2 ^ 31) then hash else hash + (2 ^ 64 - 2 ^ 32)
    let idx : ℕ = bit_and wide d.sizemask % 2 ^ 32
    ensure (ltb idx (2 ^ 31) && ltb idx (length d.table)) out_of_bounds
    ok idx

  -- `d->table[idx]`
  pub chain_at : Dict K V → ℕ → Run (Chain K V)
  chain_at d idx = elim (get_or d.table idx none) [
    | none ↦ fault uninitialised_read
    | some chain ↦ ok chain
  ]

module _ {K V : Type 0} (same : K → K → Bool) where
  -- The loop of `dictAdd`: the chain with the new value, and the value that was freed.
  pub add_loop : DictType K V → K → V → Chain K V → Option (Chain K V × V)
  add_loop t key val [] = none
  add_loop t key val ((k, v) ∷ next) =
      if compare_keys same t key k
      then some ((k, stored_val t val) ∷ next, v)
      else elim (add_loop t key val next) [ none ↦ none | some (c, old) ↦ some ((k, v) ∷ c, old) ]

  -- The `malloc` of the new entry is not checked.
  pub dict_add : (malloc : ℕ → Bool) → Dict K V → K → V → ℕ → Run (Status × Dict K V × ℕ)
  dict_add malloc d key val mem = do
    idx ← index_of d key
    chain ← chain_at d idx
    elim (add_loop d.type key val chain) [
      | some (c, old) ↦
          ok (dict_exist, record d { table = set d.table idx (some c) }, free_val d.type old mem)
      | none ↦ (do
        let (got, mem) = dict_malloc malloc entry_bytes mem
        ensure got null_dereference
        ok (
          dict_ok,
          record d {
            table = set d.table idx (some ((stored_key d.type key, stored_val d.type val) ∷ chain));
            used = (d.used + 1) % 2 ^ 64;
          },
          mem,
        ))
    ]

  pub find_loop : DictType K V → K → Chain K V → Option (K × V)
  find_loop t key [] = none
  find_loop t key ((k, v) ∷ next) =
      if compare_keys same t key k then some (k, v) else find_loop t key next

  -- The entry, or `none` for `NULL`.
  pub dict_find : Dict K V → K → Run (Option (K × V))
  dict_find d key = do idx ← index_of d key; chain ← chain_at d idx; ok (find_loop d.type key chain)

  -- The loop of `dictDel`: the chain without the entry, and the entry.
  pub del_loop : DictType K V → K → Chain K V → Option (Chain K V × (K × V))
  del_loop t key [] = none
  del_loop t key ((k, v) ∷ next) =
      if compare_keys same t key k
      then some (next, (k, v))
      else elim (del_loop t key next) [ none ↦ none | some (c, e) ↦ some ((k, v) ∷ c, e) ]

  pub dict_del : Dict K V → K → ℕ → Run (Status × Dict K V × ℕ)
  dict_del d key mem = do
    idx ← index_of d key
    chain ← chain_at d idx
    elim (del_loop d.type key chain) [
      | none ↦ ok (dict_not_exist, d, mem)
      | some (c, (k, v)) ↦ ok (
        dict_ok,
        record d { table = set d.table idx (some c); used = (d.used + 2 ^ 64 - 1) % 2 ^ 64 },
        dict_free entry_bytes (free_val d.type v (free_key d.type k mem)),
      )
    ]

module _ {K V : Type 0} where
  -- `dictFreeEntryKey`, `dictFreeEntryVal` and `dictFree` of one entry.
  pub free_entry : DictType K V → K × V → ℕ → ℕ
  free_entry t (k, v) mem = dict_free entry_bytes (free_val t v (free_key t k mem))

  -- The inner loop of `dictDestroy`, on `d->used` and `MemTotal`.
  pub destroy_chain : DictType K V → Chain K V → ℕ × ℕ → ℕ × ℕ
  destroy_chain t [] (used, mem) = (used, mem)
  destroy_chain t (entry ∷ next) (used, mem) =
      destroy_chain t next ((used + 2 ^ 64 - 1) % 2 ^ 64, free_entry t entry mem)

  -- The outer loop: `slots` are those from `d->table[i]` on, and `rounds` is `d->size - i`. The index
  -- is an `int`.
  pub destroy_slots : DictType K V → List (Slot K V) → (rounds i : ℕ) → ℕ × ℕ → Run (ℕ × ℕ)
  destroy_slots t slots zero i s = ok s
  destroy_slots t [] (suc rounds) i s = fault out_of_bounds
  destroy_slots t (none ∷ slots) (suc rounds) i s = fault uninitialised_read
  destroy_slots t (some chain ∷ slots) (suc rounds) i s =
      ensure (ltb i int_max) signed_overflow
      >> destroy_slots t slots rounds (i + 1) (destroy_chain t chain s)

  pub dict_destroy : Dict K V → ℕ → Run (Dict K V × ℕ)
  dict_destroy d mem = do
    (used, mem) ← destroy_slots d.type d.table d.size 0 (d.used, mem)
    check (used == 0)
    ok (record d { table = replicate (length d.table) (some []); used = used }, mem)

  -- The dictionary is gone afterwards; what is left is `MemTotal`.
  pub dict_destruct : Dict K V → ℕ → Run ℕ
  dict_destruct d mem = do
    (d, mem) ← dict_destroy d mem
    ok (dict_free dict_bytes (dict_free (pointer_bytes * d.size % 2 ^ 64) mem))
