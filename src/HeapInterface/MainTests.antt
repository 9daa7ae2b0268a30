-- ===== src/HeapInterface/MainTests.antt =====
-- The test at the end of clib/heap_interface.c: ten nodes with keys of one letter each go in and come
-- out by the order of their keys. A node is the address that is its letter.
use chenghualearning.Common.{
  ℕ, zero, suc, ◌+◌, ◌-◌, ◌≡◌, refl, true, false, List, [], ◌∷◌, ◌++◌, ◌==◌, ltb, if◌then◌else◌,
  replicate, set, Run, ok, fault, out_of_fuel, out_of_bounds, null_dereference, ensure, check,
  ◌>>=◌, ◌>>◌,
}
use chenghualearning.Common.Int.{ℤ, pos, negsuc}
use chenghualearning.Common.Cint.{int_max}
use chenghualearning.HeapInterface.{
  Ptr, Heap, get_left, get_right, get_parent, set_left, set_right, set_parent, adopt, relink,
  offset_loop, heap_get_offset, descend, take_place, swap_up, exchange_left, exchange_right,
  new_heap, up_loop, heap_adjust_up, attach, heap_add, choose, down_loop, heap_adjust_down,
  replace_root, heap_get, heap_destruct,
}

-- `strcmp`; the keys of the test are different in the first byte.
unfoldable strcmp : List ℕ → List ℕ → ℤ
strcmp [] [] = pos 0
strcmp [] (b ∷ t) = negsuc 0
strcmp (a ∷ s) [] = pos 1
strcmp (a ∷ s) (b ∷ t) = if a == b then strcmp s t else if ltb a b then negsuc 0 else pos 1

-- `n->key` after the loop that fills it and the write of '\n'.
abbrev key_of : (num key_len : ℕ) → Ptr → List ℕ
key_of num key_len p = set (replicate key_len p) (num - 1) 10

unfoldable test_heap_cmp : (num key_len : ℕ) → Ptr → Ptr → ℤ
test_heap_cmp num key_len a b = strcmp (key_of num key_len a) (key_of num key_len b)

-- `pre_traverse`, as the nodes that it prints.
unfoldable pre_traverse : (fuel : ℕ) → Heap → Ptr → Run (List Ptr)
pre_traverse zero h p = fault out_of_fuel
pre_traverse (suc fuel) h p = elim (p == 0) [
  | true ↦ ok []
  | false ↦ (do
    l ← get_left h p
    below_left ← pre_traverse fuel h l
    r ← get_right h p
    below_right ← pre_traverse fuel h r
    ok (p ∷ (below_left ++ below_right)))
]

-- The loops of `main`: `*(n->key+NUM-1) = '\n'` is a write into the `key_len` bytes of the key.
unfoldable fill : (num key_len : ℕ) → (rounds i : ℕ) → Heap → Run Heap
fill num key_len zero i h = ok h
fill num key_len (suc rounds) i h = do
  ensure (ltb (num - 1) key_len) out_of_bounds
  h ← heap_add (test_heap_cmp num key_len) h i
  fill num key_len rounds (i + 1) h

unfoldable drain : (num key_len : ℕ) → (rounds : ℕ) → Heap → (val : ℕ) → Run Heap
drain num key_len zero h val = ok h
drain num key_len (suc rounds) h val = do
  (node, h) ← heap_get (test_heap_cmp num key_len) h
  ensure (ltb 0 node) null_dereference
  check (ltb node val)
  drain num key_len rounds h node

abbrev blank : Heap
blank = record {
  parent = λ q. 0;
  left = λ q. 0;
  right = λ q. 0;
  live = λ q. true;
  root = 0;
  cnt = 0;
}

-- What `pre_traverse` prints, where `main` comes to its end.
unfoldable main : (num key_len : ℕ) → Run (List Ptr)
main num key_len = do
  h ← fill num key_len num 97 (new_heap blank)
  check (num == h.cnt)
  printed ← pre_traverse (suc num) h h.root
  h ← drain num key_len num h int_max
  (last, h) ← heap_get (test_heap_cmp num key_len) h
  check (last == 0)
  (nodes, h) ← heap_destruct (test_heap_cmp num key_len) 1 h
  ok printed

program : Unit {0}
unfolding main fill drain pre_traverse test_heap_cmp strcmp get_left get_right get_parent set_left
    set_right set_parent adopt relink offset_loop heap_get_offset descend take_place swap_up
    exchange_left exchange_right new_heap up_loop heap_adjust_up attach heap_add choose down_loop
    heap_adjust_down replace_root heap_get heap_destruct
program = tt

-- KEY_LEN is 5 and NUM is 10: the write is outside the key.
main_writes_outside : main 10 5 ≡ fault out_of_bounds
unfolding program
main_writes_outside = refl

-- With keys of 10 bytes the test passes.
main_passes : main 10 10 ≡ ok (106 ∷ 105 ∷ 103 ∷ 97 ∷ 100 ∷ 104 ∷ 99 ∷ 102 ∷ 98 ∷ 101 ∷ [])
unfolding program
main_passes = refl
