-- ===== src/Hash/Valid.antt =====
-- The representation invariant of the dictionary of clib/hash.c, and where a key is looked up.
use chenghualearning.Common.{
  ℕ, ◌%◌, ◌≤◌, ◌<◌, ◌≡◌, ◌≢◌, Option, arith, length, ok, fault, out_of_bounds,
}
use chenghualearning.Common.Int.{ℤ, pos, pos_part, neg_part}
use chenghualearning.Common.Cint.{int_max, c_rem}
use chenghualearning.Buckets.Placed.{IsPlaced, entries, view}
use chenghualearning.Hash.Loops.{int_keys}
use chenghualearning.Hash.{Dict, slot, locate}

-- The slot of a key in a table of `n` slots.
abbrev pub home : ℕ → ℤ → ℕ
home n key = pos_part key % n

-- The keys whose remainder is not negative: those that C's `%` maps to a slot.
abbrev pub IsHashable : ℕ → ℤ → Type 0
IsHashable n key = neg_part key % n ≡ 0

pub record IsValid (d : Dict) : Type 0 where
  pub nonempty : 0 < length d.table
  pub capacity : d.cap ≡ pos (length d.table)
  pub cap_int : length d.table ≤ int_max
  pub placed : IsPlaced int_keys (home (length d.table)) d.table
  pub counted : d.cnt ≡ pos (entries d.table)
  pub cnt_int : entries d.table ≤ int_max

-- The value stored for a key.
abbrev pub lookup : Dict → ℤ → Option ℤ
lookup d = view int_keys (home (length d.table)) d.table

module _ {d : Dict} (valid : IsValid d) (key : ℤ) where
  pub home-lt : home (length d.table) key < length d.table
  home-lt = omega (arith, valid.nonempty)

  pub locate-home : IsHashable (length d.table) key → locate d key ≡ ok (home (length d.table) key)
  unfolding locate slot c_rem
  locate-home h = rw valid.capacity (ground (arith, valid.nonempty))

  pub locate-fault : neg_part key % length d.table ≢ 0 → locate d key ≡ fault out_of_bounds
  unfolding locate slot c_rem
  locate-fault h = rw valid.capacity (ground (arith, valid.nonempty))
