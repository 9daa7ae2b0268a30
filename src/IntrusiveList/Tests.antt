-- ===== src/IntrusiveList/Tests.antt =====
-- The theorems about clib/list.h at concrete lists.
use chenghualearning.Common.{◌≡◌, refl, false, some, [], ◌∷◌, arith, ok, Returns}
use chenghualearning.IntrusiveList.{Store, write, list_add_tail, list_del, list_for_each}
use chenghualearning.IntrusiveList.Linked.{has, IsRing}
use chenghualearning.IntrusiveList.Ops.{Spares, list_add_tail_lem}
use chenghualearning.IntrusiveList.Removal.{list_del_lem, list_for_each_lem}

-- Every address holds a node whose links are still those of address 0.
abbrev blank : Store
blank = record { prev = λ p. some 0; next = λ p. some 0 }

-- The list 1, 2, 3 with its head at 9.
abbrev three : Store
three = record {
  prev = write (write (write (write blank.prev 1 9) 2 1) 3 2) 9 3;
  next = write (write (write (write blank.next 1 2) 2 3) 3 9) 9 1;
}

three-IsRing : IsRing three 9 (1 ∷ 2 ∷ 3 ∷ [])
three-IsRing = record { linked = ground arith; distinct = ground arith }

list_add_tail_lem_example :
    Returns
      (list_add_tail three 9 4)
      (λ s'. IsRing s' 9 (1 ∷ 2 ∷ 3 ∷ 4 ∷ []) × Spares three s' (9 ∷ 4 ∷ 1 ∷ 2 ∷ 3 ∷ []))
list_add_tail_lem_example =
    list_add_tail_lem three 9 (1 ∷ 2 ∷ 3 ∷ []) 4 three-IsRing refl (0, 0, refl, refl)

list_del_lem_example : Returns (list_del three 2) (λ s'.
    IsRing s' 9 (1 ∷ 3 ∷ [])
    × IsRing s' 2 []
    × (has 2 (9 ∷ 1 ∷ 3 ∷ []) ≡ false)
    × Spares three s' (9 ∷ 1 ∷ 2 ∷ 3 ∷ []))
list_del_lem_example = list_del_lem three 9 (1 ∷ []) 2 (3 ∷ []) three-IsRing

list_for_each_lem_example : list_for_each 4 three 9 ≡ ok (1 ∷ 2 ∷ 3 ∷ [])
list_for_each_lem_example = list_for_each_lem 4 three 9 (1 ∷ 2 ∷ 3 ∷ []) three-IsRing (omega arith)
