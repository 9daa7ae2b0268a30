-- ===== src/HashInterface/Tests.antt =====
-- `test_int` of clib/hash_interface.c, and the theorems about it at concrete dictionaries.
use chenghualearning.Common.{
  ◌<◌, leb, signed_overflow, if◌then◌else◌, ℕ, zero, suc, ◌+◌, ◌-◌, ◌*◌, ◌%◌, ◌^◌, ◌≤◌, ◌≡◌, ◌⊎◌,
  refl, sym, Bool, true, false, none, some, List, [], ◌∷◌, arith, ◌==◌, Run, ok, fault,
  null_dereference, uninitialised_read, ap, subst, ==_iff, check, Returns, ◌>>=◌, ◌>>◌,
}
use chenghualearning.Buckets.Chain.{KeyEq}
use chenghualearning.HashInterface.Types.{
  gen_hash_loop, dict_gen_hash_function, bytes_of, dict_int_hash, dict_int_key_cmp, dict_type_int,
  horner, dict_gen_hash-horner,
}
use chenghualearning.HashInterface.Power.{IsLeast, dict_next_power_lem}
use chenghualearning.HashInterface.Create.{
  dict_create-valid, dict_create-uninitialised, fresh, fresh-IsValid,
}
use chenghualearning.HashInterface.Destroy.{IsPlain, free_all, dict_destruct-free_all}
use chenghualearning.HashInterface.Valid.{IsLawful, IsValid, home, lookup}
use chenghualearning.HashInterface.Ops.{
  add_status, added, add_mem, del_status, removed, del_mem, Updates, dict_add-Updates,
  dict_find_lem, dict_del-Updates,
}
use chenghualearning.HashInterface.Refine.{Call, add, del, find, replies_of}
use chenghualearning.HashInterface.Session.{session, session-balanced}
use chenghualearning.Common.Cint.{int_max}
use chenghualearning.HashInterface.{
  DictType, mem_sub, Dict, Status, dict_ok, dict_exist, dict_not_exist, dict_bytes, long_max,
  mem_add, dict_malloc, dict_free, next_power_loop, dict_next_power, dict_create, compare_keys,
  stored_key, stored_val, free_key, free_val, index_of, chain_at, add_loop, dict_add, find_loop,
  dict_find, del_loop, dict_del, free_entry, destroy_chain, destroy_slots, dict_destroy,
  dict_destruct,
}

program : Unit {0}
unfolding gen_hash_loop dict_gen_hash_function bytes_of dict_int_hash dict_int_key_cmp dict_type_int
    dict_malloc dict_free next_power_loop dict_next_power dict_create compare_keys stored_key
    stored_val free_key free_val index_of chain_at add_loop dict_add find_loop dict_find del_loop
    dict_del free_entry destroy_chain destroy_slots dict_destroy dict_destruct
program = tt

abbrev same : Status → Status → Bool
same dict_ok dict_ok = true
same dict_exist dict_exist = true
same dict_not_exist dict_not_exist = true
same _ _ = false

abbrev IntDict : Type 0
IntDict = Dict ℕ ℕ × ℕ

-- The loops of `test_int` over the keys 0, 1, … below `n`, each with the check of its round.
add_all : (malloc : ℕ → Bool) → ℕ → IntDict → Run IntDict
unfolding dict_add
add_all malloc zero s = ok s
add_all malloc (suc n) s = do
  (d, mem) ← add_all malloc n s
  (ret, d, mem) ← dict_add ◌==◌ malloc d n n mem
  check (same ret dict_ok)
  ok (d, mem)

find_all : ℕ → Dict ℕ ℕ → Run (Unit {0})
unfolding dict_find
find_all zero d = ok tt
find_all (suc n) d = do
  find_all n d
  entry ← dict_find ◌==◌ d n
  elim entry [ none ↦ check false | some x ↦ check (x.1 == n) ]

del_all : ℕ → IntDict → Run IntDict
unfolding dict_del
del_all zero s = ok s
del_all (suc n) s = do
  (d, mem) ← del_all n s
  (ret, d, mem) ← dict_del ◌==◌ d n mem
  check (same ret dict_ok)
  ok (d, mem)

-- `(void*)-1`
abbrev minus_one : ℕ
minus_one = 2 ^ 64 - 1

-- `test_int`, where `MemTotal` starts at 0; the source asks for 3 slots.
test_int : (malloc : ℕ → Bool) → (size : ℕ) → Run (Unit {0})
unfolding dict_create dict_add dict_find dict_del dict_destruct add_all find_all del_all
    dict_type_int
test_int malloc size = do
  (created, mem) ← dict_create malloc dict_type_int size 0
  elim created [
    | none ↦ fault null_dereference
    | some d ↦ (do
      check (d.size == 4)
      (d, mem) ← add_all malloc 7 (d, mem)
      find_all 7 d
      entry ← dict_find ◌==◌ d 7
      check (elim entry [ none ↦ true | some _ ↦ false ])
      (ret, d, mem) ← dict_add ◌==◌ malloc d 0 minus_one mem
      check (same ret dict_exist)
      entry ← dict_find ◌==◌ d 0
      check (elim entry [ none ↦ false | some x ↦ minus_one == x.1 ])
      (ret, d, mem) ← dict_del ◌==◌ d 7 mem
      check (same ret dict_not_exist)
      (d, mem) ← del_all 7 (d, mem)
      mem ← dict_destruct d mem
      check (mem == 0))
  ]

-- With the 3 slots of the source the key 2 falls into the slot that is never written.
test_int_reads_garbage : test_int (λ _. true) 3 ≡ fault uninitialised_read
unfolding test_int program
test_int_reads_garbage = refl

-- With 4 slots the same calls pass every check.
test_int_passes : test_int (λ _. true) 4 ≡ ok tt
unfolding test_int program
test_int_passes = refl

-- Equality of numbers, as the key test.
nat_refl : (a : ℕ) → (a == a) ≡ true
nat_refl a = ground arith

nat_symm : (a b : ℕ) → a == b ≡ b == a
nat_symm a b = ground arith

nat_trans : (a b c : ℕ) → (a == b) ≡ true → (b == c) ≡ true → (a == c) ≡ true
nat_trans a b c p q = ground arith

nat_keys : KeyEq ℕ
nat_keys = record { eq = ◌==◌; eq_refl = nat_refl; eq_symm = nat_symm; eq_trans = nat_trans }

-- The callbacks of `DictTypeInt` are lawful.
int-IsLawful : IsLawful ◌==◌ nat_keys dict_type_int
unfolding dict_type_int dict_int_key_cmp compare_keys stored_key nat_keys
int-IsLawful = record {
  compares = λ a b. ground arith;
  hashes = λ a b h. ap dict_int_hash ((==_iff a b).0 h);
  copies = nat_refl;
}

int-IsPlain : IsPlain dict_type_int
unfolding dict_type_int
int-IsPlain = record { no_key = refl; no_val = refl }

abbrev calls : List (Call ℕ ℕ)
calls = add 3 30 ∷ add 7 70 ∷ find 3 ∷ add 3 31 ∷ find 3 ∷ del 7 ∷ del 7 ∷ find 7 ∷ []

session-balanced_example :
    session ◌==◌ (λ _. true) dict_type_int (2 ^ 2) calls 5
    ≡ ok (replies_of nat_keys dict_type_int (λ _. none) calls, 5)
session-balanced_example =
    session-balanced ◌==◌ (λ _. true) nat_keys dict_type_int 2 5 calls refl refl refl int-IsLawful
      int-IsPlain (omega arith) (omega arith) (omega arith) (omega arith)

dict_create-valid_example :
    (d : Dict ℕ ℕ) × (valid : IsValid nat_keys d) × (dict_create (λ _. true) dict_type_int (2 ^ 2) 0
      ≡ ok (some d, mem_add (8 * 2 ^ 2) (mem_add dict_bytes 0)))
    × (d.type ≡ dict_type_int)
    × (d.size ≡ 2 ^ 2)
    × (d.used ≡ 0)
    × ((q : ℕ) → lookup valid q ≡ none)
dict_create-valid_example =
    dict_create-valid nat_keys dict_type_int 2 (λ _. true) 0 refl refl (omega arith) (omega arith)

dict_create-uninitialised_example :
    (d : Dict ℕ ℕ) × (dict_create (λ _. true) dict_type_int 3 0
      ≡ ok (some d, mem_add (8 * 2 ^ 2) (mem_add dict_bytes 0)))
    × ((key : ℕ)
        → 3 ≤ home dict_type_int (2 ^ 2) key
        → dict_find ◌==◌ d key ≡ fault uninitialised_read)
unfolding program
dict_create-uninitialised_example =
    dict_create-uninitialised (λ _. true) dict_type_int 3 2 0 refl refl (omega arith) (omega arith)
      refl ◌==◌

abbrev empty : Dict ℕ ℕ
empty = fresh nat_keys dict_type_int 2

abbrev empty-IsValid : IsValid nat_keys empty
empty-IsValid = fresh-IsValid nat_keys dict_type_int 2 (omega arith)

dict_add-Updates_example : Returns (dict_add ◌==◌ (λ _. true) empty 9 1 32) λ (s, d', mem').
    (s ≡ add_status (lookup empty-IsValid 9))
    × (d'.used ≡ 0 + added (lookup empty-IsValid 9))
    × (mem' ≡ add_mem dict_type_int (lookup empty-IsValid 9) 32)
    × Updates nat_keys empty-IsValid 9 (some (stored_val dict_type_int 1)) d'
dict_add-Updates_example =
    dict_add-Updates int-IsLawful empty-IsValid 9 (λ _. true) 1 32
      (λ _. (refl, omega (arith, empty-IsValid.counted)))

-- The dictionary after `dictAdd(d, 9, 1)`.
abbrev one : Dict ℕ ℕ
one = dict_add-Updates_example.0.1

abbrev one-IsValid : IsValid nat_keys one
one-IsValid = dict_add-Updates_example.2.3.valid'

one-IsLawful : IsLawful ◌==◌ nat_keys one.type
one-IsLawful = subst (IsLawful ◌==◌ nat_keys) (sym dict_add-Updates_example.2.3.type) int-IsLawful

dict_find_lem_example : Returns (dict_find ◌==◌ one 9) λ r.
    (lookup one-IsValid 9 ≡ elim r [ none ↦ none | some x ↦ some x.1 ])
    × ((x : ℕ × ℕ) → r ≡ some x → nat_keys.eq 9 x.0 ≡ true)
dict_find_lem_example = dict_find_lem one-IsLawful one-IsValid 9

dict_del-Updates_example : Returns (dict_del ◌==◌ one 9 56) λ (s, d', mem').
    (s ≡ del_status (lookup one-IsValid 9))
    × (d'.used + removed (lookup one-IsValid 9) ≡ one.used)
    × (dict_find ◌==◌ one 9 >>= (λ x. ok (del_mem one.type x 56)) ≡ ok mem')
    × Updates nat_keys one-IsValid 9 none d'
dict_del-Updates_example = dict_del-Updates one-IsLawful one-IsValid 9 56

-- Keys of 8 bytes and values of 16, which the dictionary gives back.
abbrev owning : DictType ℕ ℕ
owning = record {
  hash_function = dict_int_hash;
  key_dup = none;
  val_dup = none;
  key_compare = none;
  key_destructor = some (λ key mem. mem_sub 8 mem);
  val_destructor = some (λ val mem. mem_sub 16 mem);
}

owning-IsLawful : IsLawful ◌==◌ nat_keys owning
unfolding compare_keys stored_key nat_keys
owning-IsLawful = record {
  compares = λ a b. ground arith;
  hashes = λ a b h. ap dict_int_hash ((==_iff a b).0 h);
  copies = nat_refl;
}

abbrev owner_empty-IsValid : IsValid nat_keys (fresh nat_keys owning 2)
owner_empty-IsValid = fresh-IsValid nat_keys owning 2 (omega arith)

owner_added : Returns (dict_add ◌==◌ (λ _. true) (fresh nat_keys owning 2) 9 1 104) λ (s, d', mem').
    (s ≡ add_status (lookup owner_empty-IsValid 9))
    × (d'.used ≡ 0 + added (lookup owner_empty-IsValid 9))
    × (mem' ≡ add_mem owning (lookup owner_empty-IsValid 9) 104)
    × Updates nat_keys owner_empty-IsValid 9 (some (stored_val owning 1)) d'
owner_added =
    dict_add-Updates owning-IsLawful owner_empty-IsValid 9 (λ _. true) 1 104
      (λ _. (refl, omega (arith, owner_empty-IsValid.counted)))

-- The dictionary with an entry for the key 9.
abbrev owner_one : Dict ℕ ℕ
owner_one = owner_added.0.1

abbrev owner_one-IsValid : IsValid nat_keys owner_one
owner_one-IsValid = owner_added.2.3.valid'

dict_destruct-free_all_example : dict_destruct owner_one 128 ≡ (
    if leb owner_one.size int_max
    then ok (
        mem_sub 48
          (mem_sub (8 * owner_one.size) (free_all owner_one.type owner_one-IsValid.chains 128)))
    else fault signed_overflow)
dict_destruct-free_all_example = dict_destruct-free_all owner_one-IsValid 128

-- The same dictionary, written out: 128 bytes are 48 and 32, and for the entry 24, 8 and 16.
owner_given_back :
    dict_destruct
      (record {
        table = some [] ∷ some ((9, 1) ∷ []) ∷ some [] ∷ some [] ∷ [];
        type = owning;
        size = 4;
        sizemask = 3;
        used = 1;
      })
      128
    ≡ ok 0
unfolding program
owner_given_back = refl

dict_next_power_lem_example :
    ((long_max ≤ 100) × (dict_next_power 100 ≡ ok long_max))
    ⊎ ((100 < long_max) × (k : ℕ) × (dict_next_power 100 ≡ ok (2 ^ k)) × IsLeast 100 k)
dict_next_power_lem_example = dict_next_power_lem 100

dict_gen_hash-horner_example :
    dict_gen_hash_function (97 ∷ 98 ∷ []) ≡ horner 5381 (97 ∷ 98 ∷ []) % 2 ^ 32
dict_gen_hash-horner_example = dict_gen_hash-horner (97 ∷ 98 ∷ [])
