-- ===== src/HashInterface/Refine.antt =====
-- A sequence of calls of clib/hash_interface.c against a partial function from keys to values, and
-- the memory that the dictionary accounts for.
use chenghualearning.Common.{
  ℕ, ◌+◌, ◌*◌, ◌%◌, ◌^◌, ◌≤◌, ◌<◌, ◌≡◌, refl, sym, subst, ap, ap₂, ◌∙◌, Bool, true, Option, none,
  some, List, [], ◌∷◌, arith, if◌then◌else◌, length, Run, ok, Returns, ◌>>=◌, fun_ext,
}
use chenghualearning.Buckets.Chain.{KeyEq}
use chenghualearning.HashInterface.Destroy.{IsPlain, free_val-plain, free_entry-plain}
use chenghualearning.HashInterface.Valid.{IsLawful, IsValid, lookup}
use chenghualearning.HashInterface.Ops.{
  add_status, added, add_mem, del_status, removed, del_mem, dict_add-Updates, dict_find_lem,
  dict_del-Updates,
}
use chenghualearning.HashInterface.{
  DictType, Dict, Status, dict_bytes, entry_bytes, stored_val, dict_add, dict_find, dict_del,
}

pub data Call (K V : Type 0) : Type 0 where
  add : K → V → Call K V
  del : K → Call K V
  find : K → Call K V

-- A status, or the value of the entry that was found.
pub data Reply (V : Type 0) : Type 0 where
  status : Status → Reply V
  found : Option V → Reply V

abbrev pub value_of : {K V : Type 0} → Option (K × V) → Option V
value_of none = none
value_of (some x) = some x.1

module _ {K V : Type 0} (same : K → K → Bool) (malloc : ℕ → Bool) where
  -- The calls in order, with the dictionary and `MemTotal` passed along.
  pub run : List (Call K V) → Dict K V → ℕ → Run (List (Reply V) × Dict K V × ℕ)
  run [] d mem = ok ([], d, mem)
  run (add k v ∷ calls) d mem = do
    (s, d', mem') ← dict_add same malloc d k v mem
    (replies, last, total) ← run calls d' mem'
    ok (status s ∷ replies, last, total)
  run (del k ∷ calls) d mem = do
    (s, d', mem') ← dict_del same d k mem
    (replies, last, total) ← run calls d' mem'
    ok (status s ∷ replies, last, total)
  run (find k ∷ calls) d mem = do
    r ← dict_find same d k
    (replies, last, total) ← run calls d mem
    ok (found (value_of r) ∷ replies, last, total)

module _ {K V : Type 0} (e : KeyEq K) (t : DictType K V) where
  abbrev pub update : (K → Option V) → K → Option V → K → Option V
  update f k v q = if e.eq q k then v else f q

  -- What a map from keys to values replies.
  pub replies_of : (K → Option V) → List (Call K V) → List (Reply V)
  replies_of f [] = []
  replies_of f (add k v ∷ calls) =
      status (add_status (f k)) ∷ replies_of (update f k (some (stored_val t v))) calls
  replies_of f (del k ∷ calls) = status (del_status (f k)) ∷ replies_of (update f k none) calls
  replies_of f (find k ∷ calls) = found (f k) ∷ replies_of f calls

added-le : {V : Type 0} (o : Option V) → added o ≤ 1
added-le none = omega arith
added-le (some v) = omega arith

-- What the program has counted in `MemTotal` for a dictionary, above `base`.
abbrev pub Accounted : {K V : Type 0} → ℕ → Dict K V → ℕ → Type 0
Accounted base d mem = mem ≡ (base + (dict_bytes + 8 * d.size + 24 * d.used)) % 2 ^ 32

-- The end of a run: the replies, a valid dictionary, and its memory accounted for.
pub record Ends {K V : Type 0} (e : KeyEq K) (t : DictType K V) (base size : ℕ)
    (replies : List (Reply V)) (r : List (Reply V) × Dict K V × ℕ) : Type 0 where
  pub answers : r.0 ≡ replies
  pub valid : IsValid e r.1
  pub type : r.1.type ≡ t
  pub same_size : r.1.size ≡ size
  pub accounted : Accounted base r.1 r.2

add-Accounted :
    {K V : Type 0} (base : ℕ) (d d' : Dict K V) (o : Option V) (mem mem' : ℕ)
    → IsPlain d.type
    → d'.size ≡ d.size
    → d'.used ≡ d.used + added o
    → mem' ≡ add_mem d.type o mem
    → Accounted base d mem
    → Accounted base d' mem'
add-Accounted base d d' none mem mem' plain size used step before = omega arith
add-Accounted base d d' (some old) mem mem' plain size used step before =
    omega (arith, free_val-plain d.type plain old mem)

del-Accounted :
    {K V : Type 0} (base : ℕ) (d d' : Dict K V) (r : Option (K × V)) (mem mem' : ℕ)
    → IsPlain d.type
    → d'.size ≡ d.size
    → d'.used + removed (value_of r) ≡ d.used
    → del_mem d.type r mem ≡ mem'
    → Accounted base d mem
    → Accounted base d' mem'
del-Accounted base d d' none mem mem' plain size used step before = omega arith
del-Accounted base d d' (some x) mem mem' plain size used step before =
    omega (arith, free_entry-plain d.type plain x mem)

ok-injective : {A : Type 0} {x y : A} → ok x ≡ ok y → x ≡ y
ok-injective h = cc

module _ {K V : Type 0} {e : KeyEq K} (same : K → K → Bool) (malloc : ℕ → Bool)
    (memory : malloc entry_bytes ≡ true) (base : ℕ) where
  -- A valid dictionary without destructors replies to any sequence of calls as the map of its keys
  -- and values does, stays valid, and keeps its memory accounted for, while memory suffices.
  pub run-Ends :
      (calls : List (Call K V)) {d : Dict K V} (valid : IsValid e d) (mem : ℕ)
      → IsLawful same e d.type
      → IsPlain d.type
      → d.used + length calls < 2 ^ 64
      → Accounted base d mem
      → Returns
          (run same malloc calls d mem)
          (Ends e d.type base d.size (replies_of e d.type (lookup valid) calls))
  unfolding run replies_of
  run-Ends [] {d} valid mem law plain room before = (
    ([], d, mem),
    refl,
    record { answers = refl; valid = valid; type = refl; same_size = refl; accounted = before },
  )
  run-Ends (add k v ∷ calls) {d} valid mem law plain room before =
      let ((s, d', mem'), ran, (st, grown, step, up)) =
        dict_add-Updates law valid k malloc v mem (λ _. (memory, omega (arith, valid.counted))) in
      let (r, rest, end) =
        run-Ends calls up.valid' mem' (subst (IsLawful same e) (sym up.type) law)
          (subst IsPlain (sym up.type) plain) (omega (arith, added-le (lookup valid k)))
          (add-Accounted base d d' (lookup valid k) mem mem' plain up.size grown step before) in
      (
        (status s ∷ r.0, r.1, r.2),
        rw (ran, ◌>>=◌, rest),
        record {
          answers =
              ap₂ ◌∷◌ (ap status st)
                (end.answers ∙ ap₂ (λ t f. replies_of e t f calls) up.type (fun_ext up.reads));
          valid = end.valid;
          type = end.type ∙ up.type;
          same_size = end.same_size ∙ up.size;
          accounted = end.accounted;
        },
      )
  run-Ends (del k ∷ calls) {d} valid mem law plain room before =
      let ((s, d', mem'), ran, (st, less, step, up)) = dict_del-Updates law valid k mem in
      let (x, looked, (value, _)) = dict_find_lem law valid k in
      let freed : del_mem d.type x mem ≡ mem' =
        ok-injective (ap (λ r. r >>= (λ x. ok (del_mem d.type x mem))) (sym looked) ∙ step) in
      let fewer : d'.used + removed (value_of x) ≡ d.used =
        ap (λ o. d'.used + removed o) (sym value) ∙ less in
      let (r, rest, end) =
        run-Ends calls up.valid' mem' (subst (IsLawful same e) (sym up.type) law)
          (subst IsPlain (sym up.type) plain) (omega arith)
          (del-Accounted base d d' x mem mem' plain up.size fewer freed before) in
      (
        (status s ∷ r.0, r.1, r.2),
        rw (ran, ◌>>=◌, rest),
        record {
          answers =
              ap₂ ◌∷◌ (ap status st)
                (end.answers ∙ ap₂ (λ t f. replies_of e t f calls) up.type (fun_ext up.reads));
          valid = end.valid;
          type = end.type ∙ up.type;
          same_size = end.same_size ∙ up.size;
          accounted = end.accounted;
        },
      )
  run-Ends (find k ∷ calls) {d} valid mem law plain room before =
      let (x, looked, (value, _)) = dict_find_lem law valid k in
      let (r, rest, end) = run-Ends calls valid mem law plain (omega arith) before in
      (
        (found (value_of x) ∷ r.0, r.1, r.2),
        rw (looked, ◌>>=◌, rest),
        record {
          answers = ap₂ ◌∷◌ (ap found (sym value)) end.answers;
          valid = end.valid;
          type = end.type;
          same_size = end.same_size;
          accounted = end.accounted;
        },
      )
