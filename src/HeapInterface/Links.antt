-- ===== src/HeapInterface/Links.antt =====
-- The stores that an iteration of the loops of clib/heap_interface.c leaves.
use chenghualearning.Common.{
  ◌≡◌, refl, ap, ◌∙◌, inl, inr, true, false, ◌||◌, Bool-cases, arith, ◌==◌, if◌then◌else◌, ok,
  ◌>>=◌,
}
use chenghualearning.HeapInterface.{
  Ptr, Heap, write, get_left, get_right, set_parent, set_left, set_right, adopt, relink, take_place,
  swap_up,
}
use chenghualearning.HeapInterface.Tree.{Place, top, left_of, right_of, above}

abbrev pub write_if : (Ptr → Ptr) → Ptr → Ptr → Ptr → Ptr
write_if f c v = if c == 0 then f else write f c v

-- `NULL` or live
abbrev pub Safe : Heap → Ptr → Type 0
Safe h c = (c == 0 || h.live c) ≡ true

pub adopt_lem :
    (h : Heap) (c v : Ptr)
    → Safe h c
    → adopt h c v ≡ ok (record h { parent = write_if h.parent c v })
unfolding adopt set_parent
adopt_lem h c v safe = elim (Bool-cases (c == 0)) [
  | inl e ↦ rw e refl
  | inr e ↦ let live : h.live c ≡ true = ground arith in rw (e, live) refl
]

-- The place leads to `x`, and not on both sides.
abbrev pub Hangs : Heap → Place → Ptr → Type 0
Hangs h top x = Unit {0}
Hangs h (left_of p r c) x = ((p == 0) ≡ false) × (h.live p ≡ true) × ((h.left p == x) ≡ true)
Hangs h (right_of p l c) x =
    ((p == 0) ≡ false) × (h.live p ≡ true) × ((h.left p == x) ≡ false) × ((h.right p == x) ≡ true)

abbrev pub hung : Heap → Place → Ptr → Heap
hung h top v = h
hung h (left_of p r c) v = record h { left = write h.left p v }
hung h (right_of p l c) v = record h { right = write h.right p v }

pub relink_lem :
    (h : Heap) (c : Place) (x v : Ptr) → Hangs h c x → relink h (above c) x v ≡ ok (hung h c v)
unfolding relink get_left get_right set_left set_right
relink_lem h top x v i = refl
relink_lem h (left_of p r c) x v (some_p, live, l) = rw (some_p, live, l) refl
relink_lem h (right_of p l c) x v (some_p, live, nl, r) = rw (some_p, live, nl, r) refl

-- `hung` on the fields.
pub live-hung : (h : Heap) (c : Place) (v q : Ptr) → (hung h c v).live q ≡ h.live q
live-hung h top v q = refl
live-hung h (left_of p r c) v q = refl
live-hung h (right_of p l c) v q = refl

pub parent-hung : (h : Heap) (c : Place) (v q : Ptr) → (hung h c v).parent q ≡ h.parent q
parent-hung h top v q = refl
parent-hung h (left_of p r c) v q = refl
parent-hung h (right_of p l c) v q = refl

pub root-hung : (h : Heap) (c : Place) (v : Ptr) → (hung h c v).root ≡ h.root
root-hung h top v = refl
root-hung h (left_of p r c) v = refl
root-hung h (right_of p l c) v = refl

pub cnt-hung : (h : Heap) (c : Place) (v : Ptr) → (hung h c v).cnt ≡ h.cnt
cnt-hung h top v = refl
cnt-hung h (left_of p r c) v = refl
cnt-hung h (right_of p l c) v = refl

pub left-hung :
    (h : Heap) (c : Place) (v q : Ptr) → (q == above c) ≡ false → (hung h c v).left q ≡ h.left q
left-hung h top v q e = refl
left-hung h (left_of p r c) v q e = ground (arith, e)
left-hung h (right_of p l c) v q e = refl

pub right-hung :
    (h : Heap) (c : Place) (v q : Ptr) → (q == above c) ≡ false → (hung h c v).right q ≡ h.right q
right-hung h top v q e = refl
right-hung h (left_of p r c) v q e = refl
right-hung h (right_of p l c) v q e = ground (arith, e)

-- It does not read the parents.
pub Hangs-parent :
    (h : Heap) (f : Ptr → Ptr) (c : Place) (x : Ptr)
    → Hangs h c x
    → Hangs (record h { parent = f }) c x
Hangs-parent h f top x i = i
Hangs-parent h f (left_of p r c) x i = i
Hangs-parent h f (right_of p l c) x i = i

pub Safe-hung : (h : Heap) (c : Place) (v q : Ptr) → Safe h q → Safe (hung h c v) q
Safe-hung h top v q i = i
Safe-hung h (left_of p r c) v q i = i
Safe-hung h (right_of p l c) v q i = i

-- What `take_place` leaves, and what the rest of an iteration of `heapAdjustUp` makes of it.
abbrev placed_left : Heap → (node p p_right : Ptr) → Heap
placed_left h node p p_right = record h {
  right = write h.right node p_right;
  parent = write_if h.parent p_right node;
  left = write h.left node p;
}

abbrev placed_right : Heap → (node p p_left : Ptr) → Heap
placed_right h node p p_left = record h {
  left = write h.left node p_left;
  parent = write_if h.parent p_left node;
  right = write h.right node p;
}

abbrev settled : Heap → (node p l r : Ptr) → Heap
settled h node p l r = record h {
  parent = write_if (write_if (write h.parent p node) l p) r p;
  left = write h.left p l;
  right = write h.right p r;
}

take_place-left :
    (h : Heap) (node p p_left p_right : Ptr)
    → h.live node ≡ true
    → h.live p ≡ true
    → (h.left p == node) ≡ true
    → Safe h p_right
    → take_place h node p p_left p_right ≡ ok (placed_left h node p p_right)
unfolding take_place get_left set_left set_right
take_place-left h node p p_left p_right ln lp is_left safe =
    let g = record h { right = write h.right node p_right } in
    rw (lp, is_left, ln, adopt_lem g p_right node safe, ln) refl

take_place-right :
    (h : Heap) (node p p_left p_right : Ptr)
    → h.live node ≡ true
    → h.live p ≡ true
    → (h.left p == node) ≡ false
    → (h.right p == node) ≡ true
    → Safe h p_left
    → take_place h node p p_left p_right ≡ ok (placed_right h node p p_left)
unfolding take_place get_left get_right set_left set_right
take_place-right h node p p_left p_right ln lp not_left is_right safe =
    let g = record h { left = write h.left node p_left } in
    rw (lp, not_left, is_right, ln, adopt_lem g p_left node safe, ln) refl

settled_lem :
    (h : Heap) (node p l r : Ptr)
    → h.live p ≡ true
    → Safe h l
    → Safe h r
    → (do
      h ← set_parent h p node
      h ← set_left h p l
      h ← set_right h p r
      h ← adopt h l p
      adopt h r p)
      ≡ ok (settled h node p l r)
unfolding set_parent set_left set_right
settled_lem h node p l r lp sl sr =
    let f = write h.parent p node in
    let g = record h { parent = f; left = write h.left p l; right = write h.right p r } in
    rw (lp, lp, lp, adopt_lem g l p sl, adopt_lem (record g { parent = write_if f l p }) r p sr)
      refl

-- One turn of the loop of `heapAdjustUp`.
abbrev raised : Heap → Place → (node : Ptr) → Heap
raised h c node = hung (record h { parent = write h.parent node (above c) }) c node

abbrev pub swapped_left : Heap → Place → (node p : Ptr) → Heap
swapped_left h c node p =
    settled (placed_left (raised h c node) node p (h.right p)) node p (h.left node) (h.right node)

abbrev pub swapped_right : Heap → Place → (node p : Ptr) → Heap
swapped_right h c node p =
    settled (placed_right (raised h c node) node p (h.left p)) node p (h.left node) (h.right node)

module _ (h : Heap) (c : Place) (node p : Ptr) (live_node : h.live node ≡ true)
    (live_p : h.live p ≡ true) (hangs : Hangs h c p) (apart : (p == above c) ≡ false)
    (safe_left : Safe h (h.left node)) (safe_right : Safe h (h.right node)) where
  pub swap_up-left :
      (h.left p == node) ≡ true
      → Safe h (h.right p)
      → swap_up h node p (above c) ≡ ok (swapped_left h c node p)
  unfolding swap_up get_left get_right set_parent
  swap_up-left is_left safe =
      let f = write h.parent node (above c) in
      let g = record h { parent = f } in
      let same = λ (q : Ptr). live-hung g c node q in
      let step =
        take_place-left (hung g c node) node p (h.left p) (h.right p) (same node ∙ live_node)
          (same p ∙ live_p) (ap (λ x. x == node) (left-hung g c node p apart) ∙ is_left)
          (Safe-hung g c node (h.right p) safe) in
      rw (live_node, live_p, relink_lem g c p node (Hangs-parent h f c p hangs), step)
        (settled_lem (placed_left (hung g c node) node p (h.right p)) node p (h.left node)
          (h.right node) (same p ∙ live_p) (Safe-hung g c node (h.left node) safe_left)
          (Safe-hung g c node (h.right node) safe_right))

  pub swap_up-right :
      (h.left p == node) ≡ false
      → (h.right p == node) ≡ true
      → Safe h (h.left p)
      → swap_up h node p (above c) ≡ ok (swapped_right h c node p)
  unfolding swap_up get_left get_right set_parent
  swap_up-right not_left is_right safe =
      let f = write h.parent node (above c) in
      let g = record h { parent = f } in
      let same = λ (q : Ptr). live-hung g c node q in
      let step =
        take_place-right (hung g c node) node p (h.left p) (h.right p) (same node ∙ live_node)
          (same p ∙ live_p) (ap (λ x. x == node) (left-hung g c node p apart) ∙ not_left)
          (ap (λ x. x == node) (right-hung g c node p apart) ∙ is_right)
          (Safe-hung g c node (h.left p) safe) in
      rw (live_node, live_p, relink_lem g c p node (Hangs-parent h f c p hangs), step)
        (settled_lem (placed_right (hung g c node) node p (h.left p)) node p (h.left node)
          (h.right node) (same p ∙ live_p) (Safe-hung g c node (h.left node) safe_left)
          (Safe-hung g c node (h.right node) safe_right))
