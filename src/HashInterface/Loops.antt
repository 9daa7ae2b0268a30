-- ===== src/HashInterface/Loops.antt =====
-- The loops over one chain of clib/hash_interface.c are the operations of a chain.
use chenghualearning.Common.{◌≡◌, refl, true, Bool, none, some, [], ◌∷◌, arith}
use chenghualearning.Buckets.Chain.{KeyEq, Chain, find, assign, erase}
use chenghualearning.HashInterface.Valid.{IsLawful}
use chenghualearning.HashInterface.{DictType, stored_val, add_loop, find_loop, del_loop}

module _ {K V : Type 0} {same : K → K → Bool} {e : KeyEq K} {t : DictType K V}
    (law : IsLawful same e t) (key : K) where
  -- What `dictFind` makes of an entry, as the value that is stored.
  pub find_loop-find :
      (c : Chain K V)
      → find e key c ≡ elim (find_loop same t key c) [ none ↦ none | some x ↦ some x.1 ]
  unfolding find_loop find
  find_loop-find [] = refl
  find_loop-find (x ∷ c) = ground (arith, law.compares key x.0, find_loop-find c)

  -- The entry that is found has an equal key.
  pub find_loop-eq :
      (c : Chain K V) (x : K × V) → find_loop same t key c ≡ some x → e.eq key x.0 ≡ true
  unfolding find_loop
  find_loop-eq [] x h = ground arith
  find_loop-eq (y ∷ c) x h = ground (arith, law.compares key y.0, find_loop-eq c x)

  pub add_loop-eq :
      (val : V) (c : Chain K V)
      → add_loop same t key val c ≡ elim (find e key c) [
        | none ↦ none
        | some old ↦ some (assign e key (stored_val t val) c, old)
      ]
  unfolding add_loop find assign
  add_loop-eq val [] = refl
  add_loop-eq val (x ∷ c) = ground (arith, law.compares key x.0, add_loop-eq val c)

  pub del_loop-eq :
      (c : Chain K V)
      → del_loop same t key c
        ≡ elim (find_loop same t key c) [ none ↦ none | some x ↦ some (erase e key c, x) ]
  unfolding del_loop find_loop erase
  del_loop-eq [] = refl
  del_loop-eq (x ∷ c) = ground (arith, law.compares key x.0, del_loop-eq c)
