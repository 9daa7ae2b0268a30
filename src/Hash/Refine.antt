-- ===== src/Hash/Refine.antt =====
-- A sequence of calls of clib/hash.c against a partial function from keys to values.
use chenghualearning.Common.{
  ℕ, ◌+◌, ◌≤◌, ◌≡◌, refl, true, Option, none, some, List, [], ◌∷◌, arith, if◌then◌else◌, length,
  Run, ok, ◌>>=◌, fun_ext,
}
use chenghualearning.Common.Int.{ℤ, eq_ℤ}
use chenghualearning.Common.Cint.{int_max}
use chenghualearning.Buckets.Placed.{entries}
use chenghualearning.Hash.Valid.{IsHashable, IsValid, lookup}
use chenghualearning.Hash.Ops.{
  add_status, added, found_status, dict_add_lem, dict_del_lem, dict_get_lem,
}
use chenghualearning.Hash.{Dict, Status, dict_ok, dict_not_exist, dict_add, dict_del, dict_get}

-- A call of a client: `dictAdd`, `dictDel`, or `dictGet` with what `*value` holds.
pub data Call : Type 0 where
  add : ℤ → ℤ → Call
  del : ℤ → Call
  get : ℤ → ℤ → Call

pub data Reply : Type 0 where
  status : Status → Reply
  got : Status × ℤ → Reply

-- The calls in order, while every allocation succeeds.
pub run : Dict → List Call → Run (List Reply)
run d [] = ok []
run d (add k v ∷ calls) = do
  (s, d') ← dict_add true d k v
  replies ← run d' calls
  ok (status s ∷ replies)
run d (del k ∷ calls) = do (s, d') ← dict_del d k; replies ← run d' calls; ok (status s ∷ replies)
run d (get k v ∷ calls) = do r ← dict_get d k v; replies ← run d calls; ok (got r ∷ replies)

abbrev pub update : (ℤ → Option ℤ) → ℤ → Option ℤ → ℤ → Option ℤ
update f k v q = if eq_ℤ k q then v else f q

-- What a map from keys to values replies.
pub replies_of : (ℤ → Option ℤ) → List Call → List Reply
replies_of f [] = []
replies_of f (add k v ∷ calls) = status (add_status (f k)) ∷ replies_of (update f k (some v)) calls
replies_of f (del k ∷ calls) = status (found_status (f k)) ∷ replies_of (update f k none) calls
replies_of f (get k v ∷ calls) =
    got (elim (f k) [ none ↦ (dict_not_exist, v) | some w ↦ (dict_ok, w) ]) ∷ replies_of f calls

-- Every key of the calls maps to a slot.
abbrev pub AllHashable : ℕ → List Call → Type 0
AllHashable n [] = Unit
AllHashable n (add k v ∷ calls) = IsHashable n k × AllHashable n calls
AllHashable n (del k ∷ calls) = IsHashable n k × AllHashable n calls
AllHashable n (get k v ∷ calls) = IsHashable n k × AllHashable n calls

added-le : (o : Option ℤ) → added o ≤ 1
added-le none = omega arith
added-le (some v) = omega arith

-- A valid dictionary replies to any sequence of calls as the map of its keys and values does, if
-- every key maps to a slot, memory suffices, and the calls cannot push `cnt` past INT_MAX.
pub run-replies_of :
    (calls : List Call) {d : Dict}
    → IsValid d
    → AllHashable (length d.table) calls
    → entries d.table + length calls ≤ int_max
    → run d calls ≡ ok (replies_of (lookup d) calls)
unfolding run replies_of
run-replies_of [] valid keys room = refl
run-replies_of (add k v ∷ calls) {d} valid (key, keys) room =
    let ((s, d'), ran, (st, size, up)) =
      dict_add_lem valid k true v key (λ _. (refl, omega arith)) in
    rw (ran, ◌>>=◌)
      (rw (run-replies_of calls up.valid (rw up.size keys) (omega (arith, added-le (lookup d k))))
        (rw (st, fun_ext up.reads)))
run-replies_of (del k ∷ calls) {d} valid (key, keys) room =
    let ((s, d'), ran, (st, size, up)) = dict_del_lem valid k key in
    rw (ran, ◌>>=◌)
      (rw (run-replies_of calls up.valid (rw up.size keys) (omega arith))
        (rw (st, fun_ext up.reads)))
run-replies_of (get k v ∷ calls) {d} valid (key, keys) room =
    rw (dict_get_lem valid k v key, ◌>>=◌, run-replies_of calls valid keys (omega arith))
