-- ===== src/Hash/Tests.antt =====
-- `main` of clib/hash.c, and the theorems about it at concrete dictionaries.
use chenghualearning.Common.{
  ℕ, ◌≡◌, ◌∷◌, [], refl, true, false, List, none, some, Run, ok, fault, out_of_bounds, ◌+◌, Bool,
  subst, sym, ap, null_dereference, check, Returns, arith, ◌>>=◌, ◌>>◌,
}
use chenghualearning.Common.Int.{ℤ, pos, negsuc, ◌+ℤ◌}
use chenghualearning.Common.Cint.{c_rem, int_inc, int_dec, to_size_t}
use chenghualearning.Hash.{
  Dict, Status, dict_ok, dict_exist, dict_not_exist, dict_create, dict_add, dict_del, dict_get,
  slot, locate, add_loop, del_loop, del_chain, get_loop,
}
use chenghualearning.Hash.Ops.{dict_add_lem, dict_fault, Updates, add_status, added}
use chenghualearning.Hash.Loops.{int_keys}
use chenghualearning.Buckets.Placed.{entries, replicate-IsPlaced}
use chenghualearning.Hash.Valid.{IsValid, lookup}
use chenghualearning.Hash.Refine.{Call, add, del, get, run, replies_of, run-replies_of}

-- All that a run of the code computes with.
program : Unit {0}
unfolding to_size_t dict_create c_rem int_inc int_dec ◌+ℤ◌ slot locate add_loop dict_add del_loop
    del_chain dict_del get_loop dict_get
program = tt

abbrev same : Status → Status → Bool
same dict_ok dict_ok = true
same dict_exist dict_exist = true
same dict_not_exist dict_not_exist = true
same _ _ = false

-- The dictionary that `dictCreate(7)` returns.
abbrev empty : Dict
empty = record { table = [] ∷ [] ∷ [] ∷ [] ∷ [] ∷ [] ∷ [] ∷ []; cap = pos 7; cnt = pos 0 }

-- `main`, with the asserts that it makes.
main : (malloc : ℕ → Bool) → Run (Unit {0})
unfolding dict_create dict_add dict_del dict_get
main malloc = elim (dict_create malloc (pos 7)) [
  | none ↦ fault null_dereference
  | some d ↦ (do
    (ret, d) ← dict_add true d (pos 3) (pos 3)
    check (same ret dict_ok)
    (ret, d) ← dict_add true d (pos 5) (pos 5)
    check (same ret dict_ok)
    (ret, d) ← dict_add true d (pos 12) (pos 12)
    check (same ret dict_ok)
    (ret, d) ← dict_del d (pos 5)
    check (same ret dict_ok)
    (ret, d) ← dict_add true d (pos 12) (pos 120)
    check (same ret dict_exist)
    (ret, v) ← dict_get d (pos 3) (pos 0)
    check (same ret dict_ok)
    (ret, v) ← dict_get d (pos 5) v
    check (same ret dict_not_exist)
    (ret, v) ← dict_get d (pos 12) v
    check (same ret dict_ok))
]

main_passes : main (λ _. true) ≡ ok tt
unfolding main program
main_passes = refl

empty-IsValid : IsValid empty
unfolding entries
empty-IsValid = record {
  nonempty = omega arith;
  capacity = refl;
  cap_int = omega arith;
  placed = replicate-IsPlaced ℤ int_keys _ 7;
  counted = refl;
  cnt_int = omega arith;
}

-- One entry, for the key 12, in slot 5.
abbrev one : Dict
one = record {
  table = [] ∷ [] ∷ [] ∷ [] ∷ [] ∷ ((pos 12, pos 1) ∷ []) ∷ [] ∷ [];
  cap = pos 7;
  cnt = pos 1;
}

add_twelve : Returns (dict_add true empty (pos 12) (pos 1)) λ (s, d').
    (s ≡ add_status (lookup empty (pos 12)))
    × (entries d'.table ≡ entries empty.table + added (lookup empty (pos 12)))
    × Updates empty (pos 12) (some (pos 1)) d'
add_twelve =
    dict_add_lem empty-IsValid (pos 12) true (pos 1) refl
      (λ _. (refl, unfold entries in omega arith))

abbrev dict_of : Run (Status × Dict) → Dict
dict_of (ok r) = r.1
dict_of (fault e) = empty

one-IsValid : IsValid one
unfolding program
one-IsValid =
    let (r, ran, (st, size, up)) = add_twelve in subst IsValid (sym (ap dict_of ran)) up.valid

dict_fault_example :
    (dict_add true one (negsuc 2) (pos 0) ≡ fault out_of_bounds)
    × (dict_del one (negsuc 2) ≡ fault out_of_bounds)
    × (dict_get one (negsuc 2) (pos 0) ≡ fault out_of_bounds)
dict_fault_example = dict_fault one-IsValid (negsuc 2) true (pos 0) (omega arith)

abbrev calls : List Call
calls =
    add (pos 3) (pos 3)
    ∷ add (pos 12) (pos 4)
    ∷ del (pos 5)
    ∷ add (pos 12) (pos 120)
    ∷ get (pos 12) (pos 0)
    ∷ del (pos 12)
    ∷ get (pos 12) (pos 9)
    ∷ []

run-replies_of_example : run one calls ≡ ok (replies_of (lookup one) calls)
run-replies_of_example =
    run-replies_of calls one-IsValid (omega arith) (unfold entries in omega arith)
