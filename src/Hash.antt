-- ===== src/Hash.antt =====
-- clib/hash.c: a dictionary from `int` to `int` with separate chaining.
-- A chain of `dictEntry` nodes, which only its slot of the table reaches, is the list of the
-- keys and values along `next`. A store through a pointer into a chain rebuilds that list.
pub mod Loops
pub mod Valid
pub mod Ops
pub mod Refine
mod Tests
use chenghualearning.Common.{
  ℕ, ◌+◌, ◌*◌, ◌/◌, ◌%◌, ◌^◌, Bool, true, false, not, Option, none, some, List, [], ◌∷◌, ltb,
  if◌then◌else◌, length, get_or, set, replicate, Run, ok, fault, out_of_bounds, null_dereference,
  ensure, ◌>>=◌, ◌>>◌,
}
use chenghualearning.Common.Int.{ℤ, pos, negsuc, eq_ℤ}
use chenghualearning.Common.Cint.{c_rem, int_inc, int_dec, to_size_t}
use chenghualearning.Buckets.Chain.{Chain}

-- `DICT_OK`, `DICT_EXIST`, `DICT_NOT_EXIST`
pub data Status : Type 0 where
  dict_ok : Status
  dict_exist : Status
  dict_not_exist : Status

-- The `dictEntry` nodes from one pointer on: `key`, `value`, and `next` as the rest.
abbrev pub Entries : Type 0
Entries = Chain ℤ ℤ

pub record Dict : Type 0 where
  pub table : List Entries
  pub cap : ℤ
  pub cnt : ℤ

-- `malloc n` tells whether the allocation of `n` bytes succeeds. The `memset` covers the whole
-- table, so that each of its pointers is `NULL`.
pub dict_create : (malloc : ℕ → Bool) → ℤ → Option Dict
dict_create malloc cap =
    let bytes : ℕ = 8 * to_size_t cap % 2 ^ 64 in
    if not (malloc 16)
    then none
    else if not (malloc bytes)
    then none
    else some (record { table = replicate (bytes / 8) []; cap = cap; cnt = pos 0 })

-- An access `d->table[index]`: the index, if it lies inside the table.
pub slot : List Entries → ℤ → Run ℕ
slot table (pos i) = ensure (ltb i (length table)) out_of_bounds >> ok i
slot table (negsuc i) = fault out_of_bounds

-- `key % d->cap`, and the first access at this index.
pub locate : Dict → ℤ → Run ℕ
locate d key = do index ← c_rem key d.cap; slot d.table index

-- The loop of `dictAdd`: the chain with the value stored at the first entry for the key, or
-- `none` if the loop ends at `NULL`.
pub add_loop : ℤ → ℤ → Entries → Option Entries
add_loop key value [] = none
add_loop key value ((k, v) ∷ next) =
    if eq_ℤ k key
    then some ((k, value) ∷ next)
    else elim (add_loop key value next) [ none ↦ none | some c ↦ some ((k, v) ∷ c) ]

-- `allocated` tells whether the `malloc` of the new entry succeeds; its result is not checked.
pub dict_add : (allocated : Bool) → Dict → ℤ → ℤ → Run (Status × Dict)
dict_add allocated d key value = do
  i ← locate d key
  let chain : Entries = get_or d.table i []
  elim (add_loop key value chain) [
    | some c ↦ ok (dict_exist, record d { table = set d.table i c })
    | none ↦ (do
      ensure allocated null_dereference
      n ← int_inc d.cnt
      ok (dict_ok, record d { table = set d.table i ((key, value) ∷ chain); cnt = n }))
  ]

-- The loop of `dictDel` after the head: the chain from `entry` on with the first later entry
-- for the key cut out, or `none` if there is none.
pub del_loop : ℤ → ℤ × ℤ → Entries → Option Entries
del_loop key entry [] = none
del_loop key entry (next ∷ rest) =
    if eq_ℤ next.0 key
    then some (entry ∷ rest)
    else elim (del_loop key next rest) [ none ↦ none | some c ↦ some (entry ∷ c) ]

-- What `dictDel` makes of the chain, if it finds the key.
pub del_chain : ℤ → Entries → Option Entries
del_chain key [] = none
del_chain key (entry ∷ next) = if eq_ℤ entry.0 key then some next else del_loop key entry next

pub dict_del : Dict → ℤ → Run (Status × Dict)
dict_del d key = do
  i ← locate d key
  elim (del_chain key (get_or d.table i [])) [
    | some c ↦ (do n ← int_dec d.cnt; ok (dict_ok, record d { table = set d.table i c; cnt = n }))
    | none ↦ ok (dict_not_exist, d)
  ]

-- The loop of `dictGet`; the second number is what `*value` holds before the call.
pub get_loop : ℤ → ℤ → Entries → Status × ℤ
get_loop key value [] = (dict_not_exist, value)
get_loop key value ((k, v) ∷ next) = if eq_ℤ k key then (dict_ok, v) else get_loop key value next

pub dict_get : Dict → ℤ → ℤ → Run (Status × ℤ)
dict_get d key value = do i ← locate d key; ok (get_loop key value (get_or d.table i []))
