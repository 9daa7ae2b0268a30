-- ===== src/IntrusiveList.antt =====
-- clib/list.h: circular doubly linked lists whose nodes lie inside the caller's structs.
-- A pointer is a number, and the memory holds the two fields of each node that exists; an access
-- to another address is a fault. Each assignment is one store, in the order of the source.
pub mod Linked
pub mod Ops
pub mod Removal
mod Tests
use chenghualearning.Common.{
  ℕ, zero, suc, Bool, Option, none, some, List, [], ◌∷◌, ◌==◌, if◌then◌else◌, Run, ok, fault,
  null_dereference, out_of_fuel, ◌>>=◌,
}

abbrev pub Ptr : Type 0
Ptr = ℕ

-- The fields `prev` and `next` of every node.
pub record Store : Type 0 where
  pub prev : Ptr → Option Ptr
  pub next : Ptr → Option Ptr

abbrev pub write : (Ptr → Option Ptr) → Ptr → Ptr → Ptr → Option Ptr
write field p v q = if p == q then some v else field q

-- `p->prev` and `p->next` as values.
unfoldable pub get_prev : Store → Ptr → Run Ptr
get_prev s p = elim (s.prev p) [ none ↦ fault null_dereference | some q ↦ ok q ]

unfoldable pub get_next : Store → Ptr → Run Ptr
get_next s p = elim (s.next p) [ none ↦ fault null_dereference | some q ↦ ok q ]

-- `p->prev = q` and `p->next = q`
unfoldable pub set_prev : Store → Ptr → Ptr → Run Store
set_prev s p q = elim (s.prev p) [
  | none ↦ fault null_dereference
  | some _ ↦ ok (record s { prev = write s.prev p q })
]

unfoldable pub set_next : Store → Ptr → Ptr → Run Store
set_next s p q = elim (s.next p) [
  | none ↦ fault null_dereference
  | some _ ↦ ok (record s { next = write s.next p q })
]

unfoldable pub list_init : Store → Ptr → Run Store
unfolding set_prev set_next
list_init s list = do s ← set_prev s list list; set_next s list list

unfoldable pub list_add : Store → Ptr → Ptr → Run Store
unfolding get_next set_prev set_next
list_add s list new = do
  first ← get_next s list
  s ← set_prev s first new
  first ← get_next s list
  s ← set_next s new first
  s ← set_prev s new list
  set_next s list new

unfoldable pub list_add_tail : Store → Ptr → Ptr → Run Store
unfolding get_prev set_prev set_next
list_add_tail s list new = do
  last ← get_prev s list
  s ← set_next s last new
  last ← get_prev s list
  s ← set_prev s new last
  s ← set_next s new list
  set_prev s list new

unfoldable pub list_del : Store → Ptr → Run Store
unfolding get_prev get_next set_prev set_next list_init
list_del s node = do
  after ← get_next s node
  before ← get_prev s node
  s ← set_prev s after before
  before ← get_prev s node
  after ← get_next s node
  s ← set_next s before after
  list_init s node

unfoldable pub list_empty : Store → Ptr → Run Bool
unfolding get_next
list_empty s list = do first ← get_next s list; ok (first == list)

unfoldable pub list_remove_head : Store → Ptr → Run (Option Ptr × Store)
unfolding list_empty get_next list_del
list_remove_head s list = do
  empty ← list_empty s list
  if empty
      then ok (none, s)
      else (do node ← get_next s list; s ← list_del s node; ok (some node, s))

-- The nodes that `list_for_each` visits from `pos` on.
unfoldable pub for_each : ℕ → Store → Ptr → Ptr → Run (List Ptr)
unfolding get_next
for_each zero s head pos = fault out_of_fuel
for_each (suc fuel) s head pos =
    let rest = (do
      pos' ← get_next s pos
      visited ← for_each fuel s head pos'
      ok (pos ∷ visited)) in
    if pos == head then ok [] else rest

unfoldable pub list_for_each : ℕ → Store → Ptr → Run (List Ptr)
unfolding get_next for_each
list_for_each fuel s head = do first ← get_next s head; for_each fuel s head first
