-- ===== src/HeapInterface/Refine.antt =====
-- The heap of clib/heap_interface.c as a priority queue.
use chenghualearning.Common.{
  ℕ, suc, ◌+◌, ◌<◌, ◌≤◌, ◌≡◌, ◌⊎◌, refl, sym, ap, subst, ◌∙◌, true, List, [], ◌∷◌, arith, Run, ok,
  Returns, ◌>>=◌,
}
use chenghualearning.Common.Int.{ℤ}
use chenghualearning.Common.Cint.{int_max}
use chenghualearning.HeapInterface.{Ptr, Heap, nonneg, heap_add, heap_get}
use chenghualearning.HeapInterface.Tree.{Tree, leaf, node, is, count, IsTree}
use chenghualearning.HeapInterface.Place.{is_self}
use chenghualearning.HeapInterface.Order.{IsOrder}
use chenghualearning.HeapInterface.Valid.{IsValid}
use chenghualearning.HeapInterface.Insert.{heap_add_lem}
use chenghualearning.HeapInterface.Take.{heap_get_lem}

-- A call of `heapAdd` or `heapGet`.
pub data Call : Type 0 where
  add : Ptr → Call
  get : Call

-- What the calls of `heapGet` return, one after the other.
unfoldable pub perform : (cmp : Ptr → Ptr → ℤ) → Heap → List Call → Run (List Ptr × Heap)
perform cmp h [] = ok ([], h)
perform cmp h (add x ∷ calls) = do h ← heap_add cmp h x; perform cmp h calls
perform cmp h (get ∷ calls) = do
  (a, h) ← heap_get cmp h
  (taken, h) ← perform cmp h calls
  ok (a ∷ taken, h)

-- A priority queue: a bag, given by how often each node is in it, from which a call takes a node
-- that no other is above, or `NULL` where it is empty.
pub data Serves (cmp : Ptr → Ptr → ℤ) : (Ptr → ℕ) → List Call → List Ptr → Type 0 where
  at_end : {bag : Ptr → ℕ} → Serves cmp bag [] []
  puts :
      {bag : Ptr → ℕ} {calls : List Call} {taken : List Ptr} (x : Ptr)
      → Serves cmp (λ q. is x q + bag q) calls taken
      → Serves cmp bag (add x ∷ calls) taken
  lacks :
      {bag : Ptr → ℕ} {calls : List Call} {taken : List Ptr}
      → ((q : Ptr) → bag q ≡ 0)
      → Serves cmp bag calls taken
      → Serves cmp bag (get ∷ calls) (0 ∷ taken)
  takes :
      {bag rest : Ptr → ℕ} {calls : List Call} {taken : List Ptr} (a : Ptr)
      → 0 < a
      → ((q : Ptr) → bag q ≡ is a q + rest q)
      → ((q : Ptr) → 0 < bag q → (q ≡ a) ⊎ (nonneg (cmp a q) ≡ true))
      → Serves cmp rest calls taken
      → Serves cmp bag (get ∷ calls) (a ∷ taken)

-- How often the calls add a node, and how many they add.
unfoldable pub adds : Ptr → List Call → ℕ
adds q [] = 0
adds q (add x ∷ calls) = is x q + adds q calls
adds q (get ∷ calls) = adds q calls

unfoldable pub additions : List Call → ℕ
additions [] = 0
additions (add x ∷ calls) = suc (additions calls)
additions (get ∷ calls) = additions calls

module _ (cmp : Ptr → Ptr → ℤ) where
  run-add :
      (h g h' : Heap) (x : Ptr) (calls : List Call) (taken : List Ptr)
      → heap_add cmp h x ≡ ok g
      → perform cmp g calls ≡ ok (taken, h')
      → perform cmp h (add x ∷ calls) ≡ ok (taken, h')
  unfolding perform
  run-add h g h' x calls taken run rest = rw run rest

  run-get :
      (h g h' : Heap) (a : Ptr) (calls : List Call) (taken : List Ptr)
      → heap_get cmp h ≡ ok (a, g)
      → perform cmp g calls ≡ ok (taken, h')
      → perform cmp h (get ∷ calls) ≡ ok (a ∷ taken, h')
  unfolding perform
  run-get h g h' a calls taken run rest = ground (arith, run, rest)

  module _ (order : IsOrder cmp) where
    -- On a valid heap, a sequence of calls that adds different live nodes, none of them in the
    -- heap, and not more than the count can hold, returns what a priority queue with the nodes of
    -- the heap does.
    pub perform_lem :
        (h : Heap) (t : Tree) (bag : Ptr → ℕ) (calls : List Call)
        → IsValid cmp h t
        → ((q : Ptr) → bag q ≡ count q t)
        → h.cnt + additions calls ≤ int_max
        → ((q : Ptr) → adds q calls + bag q ≤ 1)
        → ((q : Ptr) → 0 < adds q calls → (0 < q) × (h.live q ≡ true))
        → Returns (perform cmp h calls) (λ (taken, h'). Serves cmp bag calls taken)
    unfolding adds additions perform count IsTree
    perform_lem h t bag [] v same room once live = (([], h), refl, at_end)
    perform_lem h t bag (add x ∷ calls) v same room once live =
        let (px, lx) = live x (is_self x _) in
        let (g, run, a) =
          heap_add_lem cmp order h t x v (omega arith) px lx
            (omega (arith, once x, same x, is_self x 0)) in
        let ((taken, h'), rest, serves) =
          perform_lem g a.tree (λ q. is x q + bag q) calls a.valid
            (λ q. omega (arith, same q, a.nodes q)) (omega (arith, a.counted))
            (λ q. omega (arith, once q))
            (λ q n.
              let (pq, lq) = live q (omega arith) in
              let (kept, el, er, eu) = a.others q pq (omega (arith, once q, same q)) in
              (pq, kept ∙ lq)) in
        ((taken, h'), run-add h g h' x calls taken run rest, puts x serves)
    perform_lem h leaf bag (get ∷ calls) v same room once live =
        let ((a, g), run, (none_left, kept)) = heap_get_lem cmp order h leaf v in
        let ((taken, h'), rest, serves) = perform_lem h leaf bag calls v same room once live in
        let run' : heap_get cmp h ≡ ok (0, h) =
          run ∙ ap (λ b. ok (b, g)) none_left ∙ ap (λ k. ok (0, k)) kept in
        ((0 ∷ taken, h'), run-get h h h' 0 calls taken run' rest, lacks same serves)
    perform_lem h (node b l r) bag (get ∷ calls) v same room once live =
        let ((a, g), run, (root, above, got)) = heap_get_lem cmp order h (node b l r) v in
        let (pb, lb, ub, elb, erb, il, ir) = v.tree in
        let ((taken, h'), rest, serves) =
          perform_lem g got.tree (λ q. count q got.tree) calls got.valid (λ q. refl)
            (omega (arith, got.counted)) (λ q. omega (arith, once q, same q, got.nodes q))
            (λ q n.
              let (pq, lq) = live q n in
              let (kept, el, er, eu) = got.others q pq (omega (arith, once q, same q)) in
              (pq, kept ∙ lq)) in
        (
          (a ∷ taken, h'),
          run-get h g h' a calls taken run rest,
          takes a (subst (λ d. 0 < d) (sym root) pb) (λ q. same q ∙ got.nodes q)
              (λ q n. above q (omega (arith, same q))) serves,
        )
