-- ===== src/HashInterface/Session.antt =====
-- A whole life of a dictionary of clib/hash_interface.c, from `dictCreate` to `dictDestruct`.
use native.Mathlib.Nat.{pow-le-pow_right}
use chenghualearning.Common.{
  ℕ, ◌*◌, ◌^◌, ◌≤◌, ◌<◌, ◌≡◌, sym, subst, ap, ap₂, ◌∙◌, Bool, true, none, some, List, [], arith,
  length, Run, ok, ◌>>=◌, fun_ext,
}
use chenghualearning.Buckets.Chain.{KeyEq}
use chenghualearning.HashInterface.Create.{dict_create-valid}
use chenghualearning.HashInterface.Destroy.{IsPlain, dict_destruct-plain}
use chenghualearning.HashInterface.Valid.{IsLawful}
use chenghualearning.HashInterface.Refine.{Call, Reply, run, replies_of, run-Ends}
use chenghualearning.HashInterface.{
  DictType, dict_bytes, entry_bytes, mem_add, dict_create, dict_destruct,
}

-- The calls of a client on a new dictionary, which it destructs at the end.
pub session :
    {K V : Type 0} (same : K → K → Bool) (malloc : ℕ → Bool) (t : DictType K V) (size : ℕ)
    → List (Call K V)
    → ℕ
    → Run (List (Reply V) × ℕ)
session same malloc t size calls mem = do
  (created, mem) ← dict_create malloc t size mem
  elim created [
    | none ↦ ok ([], mem)
    | some d ↦ (do
      (replies, d, mem) ← run same malloc calls d mem
      mem ← dict_destruct d mem
      ok (replies, mem))
  ]

module _ {K V : Type 0} (same : K → K → Bool) (malloc : ℕ → Bool) (e : KeyEq K) (t : DictType K V)
    (k base : ℕ) where
  -- With memory, lawful callbacks and no destructors, a dictionary of 2^k slots, from 4 to 2^30,
  -- replies to every sequence of calls as a map that starts empty does, and `MemTotal` ends where
  -- it began.
  pub session-balanced :
      (calls : List (Call K V))
      → malloc dict_bytes ≡ true
      → malloc (8 * 2 ^ k) ≡ true
      → malloc entry_bytes ≡ true
      → IsLawful same e t
      → IsPlain t
      → 2 ≤ k
      → k ≤ 30
      → length calls < 2 ^ 64
      → base < 2 ^ 32
      → session same malloc t (2 ^ k) calls base ≡ ok (replies_of e t (λ _. none) calls, base)
  unfolding session
  session-balanced calls got got_table got_entry law plain two small count word =
      let bound = pow-le-pow_right {n = 2} (omega arith) small in
      let (d, valid, made, type, size, used, empty) =
        dict_create-valid e t k malloc base got got_table two (omega arith) in
      let (r, ran, end) =
        run-Ends same malloc got_entry base calls valid
          (mem_add (8 * 2 ^ k) (mem_add dict_bytes base)) (subst (IsLawful same e) (sym type) law)
          (subst IsPlain (sym type) plain) (omega arith) (omega arith) in
      let freed : dict_destruct r.1 r.2 ≡ ok base =
        ap (dict_destruct r.1) end.accounted
        ∙ dict_destruct-plain end.valid base (omega (arith, end.same_size))
            (subst IsPlain (sym (end.type ∙ type)) plain) word in
      let answers : r.0 ≡ replies_of e t (λ _. none) calls =
        end.answers ∙ ap₂ (λ t f. replies_of e t f calls) type (fun_ext empty) in
      rw (made, ◌>>=◌, ran, freed, answers)
