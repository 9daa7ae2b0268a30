-- ===== src/IntrusiveList/Ops.antt =====
-- Setting up a list of clib/list.h and adding to it: what is left behind, with no fault.
use chenghualearning.Common.{◌≡◌, false, some, List, [], ◌∷◌, ◌++◌, arith, ok, Returns}
use chenghualearning.IntrusiveList.{
  Ptr, Store, write, get_prev, get_next, set_prev, set_next, list_init, list_add, list_add_tail,
}
use chenghualearning.IntrusiveList.Linked.{
  has, Next, IsRing, Linked-frame, Linked-append, last_of, Linked-last, has-last_of,
  Linked-retarget, Distinct-insert, append_nil,
}

-- A node exists at `p`.
abbrev pub IsNode : Store → Ptr → Type 0
IsNode s p = (a : Ptr) × (b : Ptr) × (s.prev p ≡ some a) × (s.next p ≡ some b)

-- The nodes outside `ps` keep their links.
abbrev pub Spares : Store → Store → List Ptr → Type 0
Spares s s' ps = (p : Ptr) → has p ps ≡ false → (s'.prev p ≡ s.prev p) × (s'.next p ≡ s.next p)

-- `list_init` makes an existing node an empty ring and touches no other.
pub list_init_lem :
    (s : Store) (head : Ptr)
    → IsNode s head
    → Returns (list_init s head) (λ s'. IsRing s' head [] × Spares s s' (head ∷ []))
unfolding list_init set_prev set_next
list_init_lem s head (a, b, ep, en) = (
  record { prev = write s.prev head head; next = write s.next head head },
  ground (arith, ep, en),
  (record { linked = ground arith; distinct = ground arith }, λ p out. ground arith),
)

-- The stores of `list_add` before a node `first`.
abbrev inserted : Store → Ptr → Ptr → Ptr → Store
inserted s head first new = record {
  prev = write (write s.prev first new) new head;
  next = write (write s.next new first) head new;
}

list_add-inserted :
    (s : Store) (head first new : Ptr)
    → Next s head first
    → IsNode s new
    → list_add s head new ≡ ok (inserted s head first new)
unfolding list_add get_next set_prev set_next
list_add-inserted s head first new (en, ep) (a, b, np, nn) = ground (arith, en, ep, np, nn)

-- `list_add` puts an existing node that is not in the ring first, with no fault, and touches no
-- node outside; the ring stays linked both ways, its nodes distinct.
pub list_add_lem :
    (s : Store) (head : Ptr) (xs : List Ptr) (new : Ptr)
    → IsRing s head xs
    → has new (head ∷ xs) ≡ false
    → IsNode s new
    → Returns
        (list_add s head new)
        (λ s'. IsRing s' head (new ∷ xs) × Spares s s' (head ∷ new ∷ xs))
list_add_lem s head [] new ring out node =
    let linked = ring.linked in
    (
      inserted s head head new,
      list_add-inserted s head head new linked node,
      (record { linked = ground arith; distinct = ground arith }, λ p away. ground arith),
    )
list_add_lem s head (x ∷ xs) new ring out node =
    let (here, l) = ring.linked in
    let (apart, d) = ring.distinct in
    (
      inserted s head x new,
      list_add-inserted s head x new here node,
      (
        record {
          linked = (
            ground arith,
            (
              ground arith,
              Linked-frame s (inserted s head x new) x xs head (λ p h. ground arith)
                  (λ p h. ground arith) l,
            ),
          );
          distinct = ground arith;
        },
        λ p away. ground arith,
      ),
    )

-- The stores of `list_add_tail` after a node `last`.
abbrev appended : Store → Ptr → Ptr → Ptr → Store
appended s head last new = record {
  prev = write (write s.prev new last) head new;
  next = write (write s.next last new) new head;
}

list_add_tail-appended :
    (s : Store) (head last new : Ptr)
    → Next s last head
    → IsNode s new
    → list_add_tail s head new ≡ ok (appended s head last new)
unfolding list_add_tail get_prev set_prev set_next
list_add_tail-appended s head last new (en, ep) (a, b, np, nn) = ground (arith, en, ep, np, nn)

-- `list_add_tail` puts an existing node that is not in the ring last, with no fault, and touches
-- no node outside; the ring stays linked both ways, its nodes distinct.
pub list_add_tail_lem :
    (s : Store) (head : Ptr) (xs : List Ptr) (new : Ptr)
    → IsRing s head xs
    → has new (head ∷ xs) ≡ false
    → IsNode s new
    → Returns
        (list_add_tail s head new)
        (λ s'. IsRing s' head (xs ++ new ∷ []) × Spares s s' (head ∷ new ∷ xs))
list_add_tail_lem s head xs new ring out node =
    let last = last_of head xs in
    let s' = appended s head last new in
    let inside = has-last_of head xs in
    let d = ring.distinct in
    (
      s',
      list_add_tail-appended s head last new (Linked-last s head xs head ring.linked) node,
      (
        record {
          linked =
              Linked-append s' head xs new [] head
                (Linked-retarget s s' head xs head new d (λ p h e. ground arith)
                  (λ p h. ground arith) (ground arith) ring.linked)
                (ground arith);
          distinct =
              Distinct-insert (head ∷ xs) new [] (rw (append_nil xs) d) (rw (append_nil xs) out);
        },
        λ p away. ground arith,
      ),
    )
