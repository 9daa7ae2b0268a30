-- ===== src/HashInterface/Destroy.antt =====
-- `dictDestroy` and `dictDestruct` of clib/hash_interface.c, and the memory that they give back.
use chenghualearning.Common.{
  ℕ, suc, ◌+◌, ◌-◌, ◌*◌, ◌%◌, ◌^◌, ◌≤◌, ◌<◌, ◌≡◌, refl, sym, ap, ◌∙◌, inl, inr, Bool-cases, leb→le,
  ltb, if◌then◌else◌, Option, none, some, List, [], ◌∷◌, arith, leb, length, ok, fault,
  signed_overflow, true, false, ◌>>=◌,
}
use chenghualearning.Common.Cint.{int_max}
use chenghualearning.Buckets.Chain.{KeyEq, Chain}
use chenghualearning.Buckets.Placed.{entries}
use chenghualearning.HashInterface.Ready.{written}
use chenghualearning.HashInterface.Valid.{IsValid}
use chenghualearning.HashInterface.{
  DictType, Dict, dict_bytes, entry_bytes, mem_sub, dict_free, free_key, free_val, free_entry,
  destroy_chain, destroy_slots, dict_destroy, dict_destruct,
}

module _ {K V : Type 0} (t : DictType K V) where
  -- A callback that is not null, on what it is for.
  abbrev pub called : {A : Type 0} → Option (A → ℕ → ℕ) → A → ℕ → ℕ
  called none a mem = mem
  called (some free) a mem = free a mem

  -- `MemTotal` once the key of an entry, then its value and then its own 24 bytes are given back.
  abbrev pub released : K × V → ℕ → ℕ
  released (k, v) mem =
      (called t.val_destructor v (called t.key_destructor k mem) + 2 ^ 32 - 24) % 2 ^ 32

  -- Every entry of a chain, and of all chains, in order.
  abbrev pub free_chain : Chain K V → ℕ → ℕ
  free_chain [] mem = mem
  free_chain (entry ∷ next) mem = free_chain next (released entry mem)

  abbrev pub free_all : List (Chain K V) → ℕ → ℕ
  free_all [] mem = mem
  free_all (c ∷ bs) mem = free_all bs (free_chain c mem)

  free_key-called : (k : K) (mem : ℕ) → free_key t k mem ≡ called t.key_destructor k mem
  unfolding free_key
  free_key-called k mem = by_case t.key_destructor
    where
      by_case :
          (f : Option (K → ℕ → ℕ)) → elim f [ none ↦ mem | some free ↦ free k mem ] ≡ called f k mem
      by_case none = refl
      by_case (some free) = refl

  free_val-called : (v : V) (mem : ℕ) → free_val t v mem ≡ called t.val_destructor v mem
  unfolding free_val
  free_val-called v mem = by_case t.val_destructor
    where
      by_case :
          (f : Option (V → ℕ → ℕ)) → elim f [ none ↦ mem | some free ↦ free v mem ] ≡ called f v mem
      by_case none = refl
      by_case (some free) = refl

  free_entry-released : (x : K × V) (mem : ℕ) → free_entry t x mem ≡ released x mem
  unfolding free_entry dict_free
  free_entry-released (k, v) mem = rw (free_key-called, free_val-called) refl

  destroy_chain-eq :
      (c : Chain K V) (used mem : ℕ)
      → length c ≤ used
      → used < 2 ^ 64
      → destroy_chain t c (used, mem) ≡ (used - length c, free_chain c mem)
  unfolding destroy_chain
  destroy_chain-eq [] used mem le word = ap (λ u. (u, mem)) (omega arith)
  destroy_chain-eq (x ∷ c) used mem le word =
      ap (λ m. destroy_chain t c ((used + 2 ^ 64 - 1) % 2 ^ 64, m)) (free_entry-released x mem)
      ∙ destroy_chain-eq c ((used + 2 ^ 64 - 1) % 2 ^ 64) (released x mem) (omega arith)
          (omega arith)
      ∙ ap (λ u. (u, free_chain c (released x mem))) (omega arith)

  destroy_slots-eq :
      (bs : List (Chain K V)) (i used mem : ℕ)
      → i ≤ int_max
      → entries bs ≤ used
      → used < 2 ^ 64
      → destroy_slots t (written bs) (length bs) i (used, mem) ≡ (
          if leb (i + length bs) int_max
          then ok (used - entries bs, free_all bs mem)
          else fault signed_overflow)
  unfolding destroy_slots entries
  destroy_slots-eq [] i used mem low le word =
      let fits : leb (i + 0) int_max ≡ true = ground (arith, low) in
      rw fits (ap (λ u. ok (u, mem)) (omega arith))
  destroy_slots-eq (c ∷ bs) i used mem low le word = elim (Bool-cases (ltb i int_max)) [
    | inl more ↦
        (let sum : i + suc (length bs) ≡ i + 1 + length bs = omega arith in
          let rest : used - length c - entries bs ≡ used - (length c + entries bs) = omega arith in
          rw (more, destroy_chain-eq c used mem (omega arith) word, sum)
            (destroy_slots-eq bs (i + 1) (used - length c) (free_chain c mem) (ground (arith, more))
                (omega arith) (omega arith)
              ∙ rw rest refl))
    | inr last ↦
        (let over : leb (i + suc (length bs)) int_max ≡ false = ground (arith, last) in
          rw (last, over) refl)
  ]

  -- No callback frees anything.
  pub record IsPlain : Type 0 where
    pub no_key : t.key_destructor ≡ none
    pub no_val : t.val_destructor ≡ none

  module _ (plain : IsPlain) where
    pub free_val-plain : (v : V) (mem : ℕ) → free_val t v mem ≡ mem
    unfolding free_val
    free_val-plain v mem = rw plain.no_val refl

    pub free_entry-plain : (x : K × V) (mem : ℕ) → free_entry t x mem ≡ mem_sub entry_bytes mem
    unfolding free_entry free_key free_val dict_free
    free_entry-plain (k, v) mem = rw (plain.no_key, plain.no_val) refl

    free_chain-plain :
        (c : Chain K V) (mem : ℕ) → (free_chain c mem + 24 * length c) % 2 ^ 32 ≡ mem % 2 ^ 32
    free_chain-plain [] mem = omega arith
    free_chain-plain (x ∷ c) mem = omega (
      arith,
      free_chain-plain c (released x mem),
      sym (free_entry-released x mem) ∙ free_entry-plain x mem,
    )

    pub free_all-plain :
        (bs : List (Chain K V)) (mem : ℕ)
        → (free_all bs mem + 24 * entries bs) % 2 ^ 32 ≡ mem % 2 ^ 32
    unfolding entries
    free_all-plain [] mem = omega arith
    free_all-plain (c ∷ bs) mem =
        omega (arith, free_chain-plain c mem, free_all-plain bs (free_chain c mem))

module _ {K V : Type 0} {e : KeyEq K} {d : Dict K V} (valid : IsValid e d) where
  -- `dictDestruct` of a valid dictionary of at most INT_MAX slots gives back each entry once, its key,
  -- its value and itself, by the callbacks that are there, then the table of 8 bytes for a slot, and
  -- then the 48 bytes of the dictionary; its check that nothing is left passes. With more slots the
  -- index of its loop, an int, overflows.
  pub dict_destruct-free_all :
      (mem : ℕ)
      → dict_destruct d mem ≡ (
          if leb d.size int_max
          then ok (mem_sub 48 (mem_sub (8 * d.size) (free_all d.type valid.chains mem)))
          else fault signed_overflow)
  unfolding dict_destruct dict_destroy dict_free
  dict_destruct-free_all mem =
      let word : d.used < 2 ^ 64 = omega (arith, valid.counted, valid.used_word) in
      let slots : destroy_slots d.type d.table d.size 0 (d.used, mem) ≡ (
          if leb d.size int_max
          then ok (0, free_all d.type valid.chains mem)
          else fault signed_overflow) =
        let none_left : d.used - entries valid.chains ≡ 0 = omega (arith, valid.counted) in
        let run =
          destroy_slots-eq d.type valid.chains 0 d.used mem (omega arith)
            (omega (arith, valid.counted)) word in
        let from_zero : 0 + length valid.chains ≡ d.size = omega (arith, valid.slots) in
        rw (valid.table, sym valid.slots) (run ∙ rw (none_left, from_zero, valid.slots) refl) in
      elim (Bool-cases (leb d.size int_max)) [
        | inl fits ↦
            (let small : d.size ≤ int_max = leb→le d.size int_max fits in
              let bytes : 8 * d.size % 2 ^ 64 ≡ 8 * d.size = omega arith in
              rw (slots, fits, ◌>>=◌, bytes) refl)
        | inr large ↦ rw (slots, large, ◌>>=◌) refl
      ]

  -- Without destructors `dictDestruct` gives back exactly what was counted for the dictionary.
  pub dict_destruct-plain :
      (base : ℕ)
      → d.size ≤ int_max
      → IsPlain d.type
      → base < 2 ^ 32
      → dict_destruct d ((base + (dict_bytes + 8 * d.size + 24 * d.used)) % 2 ^ 32) ≡ ok base
  dict_destruct-plain base indexed plain small =
      let fits : leb d.size int_max ≡ true = ground arith in
      dict_destruct-free_all _
      ∙ rw fits (
          ap ok (
            omega (
              arith,
              valid.counted,
              free_all-plain d.type plain valid.chains
                  ((base + (dict_bytes + 8 * d.size + 24 * d.used)) % 2 ^ 32),
            )))
