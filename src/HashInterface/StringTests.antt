-- ===== src/HashInterface/StringTests.antt =====
-- `test_string` of clib/hash_interface.c. A key or a value is the bytes of its string; the keys are
-- not copied, so that a write to one is a write to the key of its entry, which is the only one with
-- these bytes.
use chenghualearning.Common.{
  ℕ, zero, suc, ◌+◌, ◌≡◌, refl, Bool, true, false, none, some, List, [], ◌∷◌, map, ◌==◌,
  if◌then◌else◌, replicate, Run, ok, fault, null_dereference, uninitialised_read, ensure, check,
  ◌>>=◌, ◌>>◌,
}
use chenghualearning.Buckets.Chain.{Chain}
use chenghualearning.HashInterface.Types.{
  gen_hash_loop, dict_gen_hash_function, dict_string_hash, dict_string_key_cmp,
  dict_string_destructor, dict_type_string,
}
use chenghualearning.HashInterface.{
  Dict, Slot, Status, dict_ok, dict_exist, dict_not_exist, dict_malloc, dict_free, next_power_loop,
  dict_next_power, dict_create, compare_keys, stored_key, stored_val, free_key, free_val, index_of,
  chain_at, add_loop, dict_add, find_loop, dict_find, del_loop, dict_del, free_entry, destroy_chain,
  destroy_slots, dict_destroy, dict_destruct,
}

program : Unit {0}
unfolding gen_hash_loop dict_gen_hash_function dict_string_hash dict_string_key_cmp
    dict_string_destructor dict_type_string dict_malloc dict_free next_power_loop dict_next_power
    dict_create compare_keys stored_key stored_val free_key free_val index_of chain_at add_loop
    dict_add find_loop dict_find del_loop dict_del free_entry destroy_chain destroy_slots
    dict_destroy dict_destruct
program = tt

abbrev Str : Type 0
Str = List ℕ

abbrev StrDict : Type 0
StrDict = Dict Str Str × ℕ

abbrev is_ok : Status → Bool
is_ok dict_ok = true
is_ok dict_exist = false
is_ok dict_not_exist = false

-- `dictMalloc(i+1)`, `memset(s, i, i)` and the terminating 0, with `MemTotal`.
make_string : (malloc : ℕ → Bool) → (i mem : ℕ) → Run (Str × ℕ)
unfolding dict_malloc
make_string malloc i mem = do
  let (allocated, mem') = dict_malloc malloc (i + 1) mem
  ensure allocated null_dereference
  ok (replicate i i, mem')

-- The loops of `test_string` over the keys 0, 1, … below `n`.
add_strings : (malloc : ℕ → Bool) → ℕ → StrDict → Run StrDict
unfolding make_string dict_add
add_strings malloc zero s = ok s
add_strings malloc (suc n) s = do
  (d, mem) ← add_strings malloc n s
  (key, mem) ← make_string malloc n mem
  (val, mem) ← make_string malloc n mem
  (ret, d, mem) ← dict_add dict_string_key_cmp malloc d key val mem
  check (is_ok ret)
  ok (d, mem)

find_strings : ℕ → Dict Str Str → Run (Unit {0})
unfolding dict_find
find_strings zero d = ok tt
find_strings (suc n) d = do
  find_strings n d
  entry ← dict_find dict_string_key_cmp d (replicate n n)
  elim entry [ none ↦ check false | some x ↦ check (dict_string_key_cmp (replicate n n) (x.1)) ]

del_strings : ℕ → StrDict → Run StrDict
unfolding dict_del
del_strings zero s = ok s
del_strings (suc n) s = do
  (d, mem) ← del_strings n s
  (ret, d, mem) ← dict_del dict_string_key_cmp d (replicate n n) mem
  check (is_ok ret)
  ok (d, mem)

-- A write to the string `old`, which becomes `new`, in the entry that has it for its key.
poke_chain : (old new : Str) → Chain Str Str → Chain Str Str
poke_chain old new [] = []
poke_chain old new ((k, v) ∷ next) =
    (if dict_string_key_cmp k old then new else k, v) ∷ poke_chain old new next

poke_slot : (old new : Str) → Slot Str Str → Slot Str Str
poke_slot old new none = none
poke_slot old new (some chain) = some (poke_chain old new chain)

poke : (old new : Str) → Dict Str Str → Dict Str Str
poke old new d = record d { table = map (poke_slot old new) d.table }

-- `(*keys[test_cnt-1])--`
abbrev last_key : Str
last_key = replicate 6 6

abbrev last_poked : Str
last_poked = 5 ∷ replicate 5 6

-- `test_string`, where `MemTotal` starts at 0; the source asks for 3 slots.
test_string : (malloc : ℕ → Bool) → (size : ℕ) → Run (Unit {0})
unfolding dict_create dict_find dict_destruct add_strings find_strings del_strings poke
    dict_type_string
test_string malloc size = do
  (created, mem) ← dict_create malloc dict_type_string size 0
  elim created [
    | none ↦ fault null_dereference
    | some d ↦ (do
      check (d.size == 4)
      (d, mem) ← add_strings malloc 7 (d, mem)
      find_strings 7 d
      let poked : Dict Str Str = poke last_key last_poked d
      entry ← dict_find dict_string_key_cmp poked last_poked
      check (elim entry [ none ↦ true | some _ ↦ false ])
      let d : Dict Str Str = poke last_poked last_key poked
      (d, mem) ← del_strings 3 (d, mem)
      mem ← dict_destruct d mem
      check (mem == 0))
  ]

-- With 4 slots the calls pass every check.
test_string_passes : test_string (λ _. true) 4 ≡ ok tt
unfolding test_string program add_strings find_strings del_strings make_string poke poke_slot
    poke_chain
test_string_passes = refl

-- With the 3 slots of the source the one that is never written is read.
test_string_reads_garbage : test_string (λ _. true) 3 ≡ fault uninitialised_read
unfolding test_string program add_strings find_strings del_strings make_string poke poke_slot
    poke_chain
test_string_reads_garbage = refl
