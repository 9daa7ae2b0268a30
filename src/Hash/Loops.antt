-- ===== src/Hash/Loops.antt =====
-- The loops over one chain of clib/hash.c are the operations of a chain.
use chenghualearning.Common.{◌≡◌, refl, true, none, some, [], ◌∷◌, arith}
use chenghualearning.Common.Int.{ℤ, eq_ℤ, eq_ℤ_iff}
use chenghualearning.Buckets.Chain.{KeyEq, find, assign, erase}
use chenghualearning.Hash.{
  Entries, dict_ok, dict_not_exist, add_loop, del_loop, del_chain, get_loop,
}

pub eq_ℤ_refl : (a : ℤ) → eq_ℤ a a ≡ true
eq_ℤ_refl a = (eq_ℤ_iff a a).1 refl

pub eq_ℤ_symm : (a b : ℤ) → eq_ℤ a b ≡ eq_ℤ b a
eq_ℤ_symm a b = ground arith

pub eq_ℤ_trans : (a b c : ℤ) → eq_ℤ b a ≡ true → eq_ℤ c b ≡ true → eq_ℤ c a ≡ true
eq_ℤ_trans a b c h k = ground arith

-- The test of the loops, `iter->key == key`.
abbrev pub int_keys : KeyEq ℤ
int_keys = record {
  eq = λ a b. eq_ℤ b a;
  eq_refl = eq_ℤ_refl;
  eq_symm = λ a b. eq_ℤ_symm b a;
  eq_trans = λ a b c. eq_ℤ_trans a b c;
}

pub add_loop-eq :
    (key value : ℤ) (c : Entries)
    → add_loop key value c
      ≡ elim (find int_keys key c) [ none ↦ none | some _ ↦ some (assign int_keys key value c) ]
unfolding add_loop find assign
add_loop-eq key value [] = refl
add_loop-eq key value (x ∷ c) = ground (arith, add_loop-eq key value c)

pub del_loop-eq :
    (key : ℤ) (x : ℤ × ℤ) (c : Entries)
    → del_loop key x c
      ≡ elim (find int_keys key c) [ none ↦ none | some _ ↦ some (x ∷ erase int_keys key c) ]
unfolding del_loop find erase
del_loop-eq key x [] = refl
del_loop-eq key x (y ∷ c) = ground (arith, del_loop-eq key y c)

pub del_chain-eq :
    (key : ℤ) (c : Entries)
    → del_chain key c
      ≡ elim (find int_keys key c) [ none ↦ none | some _ ↦ some (erase int_keys key c) ]
unfolding del_chain find erase
del_chain-eq key [] = refl
del_chain-eq key (x ∷ c) = ground (arith, del_loop-eq key x c)

pub get_loop-eq :
    (key value : ℤ) (c : Entries)
    → get_loop key value c
      ≡ elim (find int_keys key c) [ none ↦ (dict_not_exist, value) | some v ↦ (dict_ok, v) ]
unfolding get_loop find
get_loop-eq key value [] = refl
get_loop-eq key value (x ∷ c) = ground (arith, get_loop-eq key value c)
