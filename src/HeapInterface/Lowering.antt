-- ===== src/HeapInterface/Lowering.antt =====
-- The stores that an iteration of `heapAdjustDown` of clib/heap_interface.c leaves.
use chenghualearning.Common.{
  ◌≡◌, inl, inr, Bool-cases, refl, ap, ◌∙◌, true, false, arith, ◌==◌, if◌then◌else◌, Run, ok, ◌>>=◌,
}
use chenghualearning.HeapInterface.{
  Ptr, Heap, write, get_left, get_right, set_parent, set_left, set_right, adopt, exchange_left,
  exchange_right,
}
use chenghualearning.HeapInterface.Tree.{Place, top, left_of, right_of, above}
use chenghualearning.HeapInterface.Links.{
  write_if, Safe, adopt_lem, Hangs, hung, relink_lem, live-hung, left-hung, right-hung, Safe-hung,
}

-- The node takes the children of its child `b`, under it.
abbrev pub lowered : Heap → (node b : Ptr) → Heap
lowered h node b = record h {
  parent = write h.parent node b;
  left = write h.left node (h.left b);
  right = write h.right node (h.right b);
}

Hangs-lowered :
    (h : Heap) (node b : Ptr) (c : Place) (x : Ptr)
    → (above c == node) ≡ false
    → Hangs h c x
    → Hangs (lowered h node b) c x
Hangs-lowered h node b top x apart i = i
Hangs-lowered h node b (left_of p r c) x apart (some_p, live, l) =
    (some_p, live, ground (arith, apart, l))
Hangs-lowered h node b (right_of p l c) x apart (some_p, live, nl, r) =
    (some_p, live, ground (arith, apart, nl), ground (arith, apart, r))

-- The children of `b`, `l` and `r`, become the node's.
abbrev pub adopted : Heap → (node l r : Ptr) → Heap
adopted h node l r = record h { parent = write_if (write_if h.parent l node) r node }

adopted_lem :
    (h : Heap) (node b l r : Ptr)
    → h.live b ≡ true
    → h.left b ≡ l
    → h.right b ≡ r
    → Safe h l
    → Safe h r
    → (k : Heap → Run Heap)
    → (do ll ← get_left h b; h ← adopt h ll node; lr ← get_right h b; h ← adopt h lr node; k h)
      ≡ k (adopted h node l r)
unfolding get_left get_right
adopted_lem h node b l r live el er sl sr k =
    let g = record h { parent = write_if h.parent l node } in
    rw (live, el, adopt_lem h l node sl, live, er, adopt_lem g r node sr) refl

-- `b` gets the parent `u` and the children `l` and `r`, of which `x` is new.
abbrev pub lifted : Heap → (b u l r x : Ptr) → Heap
lifted h b u l r x = record h {
  parent = write_if (write h.parent b u) x b;
  left = write h.left b l;
  right = write h.right b r;
}

lifted_lem :
    (h : Heap) (b u l r x : Ptr)
    → h.live b ≡ true
    → Safe h x
    → (k : Heap → Run Heap)
    → (do h ← set_parent h b u; h ← set_left h b l; h ← set_right h b r; h ← adopt h x b; k h)
      ≡ k (lifted h b u l r x)
unfolding set_parent set_left set_right
lifted_lem h b u l r x live safe k =
    let g = record h {
      parent = write h.parent b u;
      left = write h.left b l;
      right = write h.right b r;
    } in
    rw (live, live, live, adopt_lem g x b safe) refl

abbrev pub rerooted : Heap → (node b : Ptr) → Heap
rerooted h node b = record h { root = if h.root == node then b else h.root }

rerooted_lem :
    (h : Heap) (node b : Ptr)
    → (if h.root == node then record h { root = b } else h) ≡ rerooted h node b
rerooted_lem h node b = elim (Bool-cases (h.root == node)) [ inl e ↦ rw e refl | inr e ↦ rw e refl ]

-- One turn of the loop of `heapAdjustDown` that exchanges the node with its child `b`, which gets
-- the children `l` and `r`, of which `x` is new.
abbrev pub exchanged : Heap → Place → (node b l r x : Ptr) → Heap
exchanged h c node b l r x =
    rerooted
      (lifted (adopted (hung (lowered h node b) c b) node (h.left b) (h.right b)) b (above c) l r x)
      node b

module _ (h : Heap) (c : Place) (node b x : Ptr) (live_node : h.live node ≡ true)
    (live_b : h.live b ≡ true) (hangs : Hangs h c node) (apart : (b == above c) ≡ false)
    (node_apart : (above c == node) ≡ false) (differ : (b == node) ≡ false)
    (safe_left : Safe h (h.left b)) (safe_right : Safe h (h.right b)) (safe : Safe h x) where
  pub exchange_left_lem : exchange_left h node (above c) b x ≡ ok (exchanged h c node b node x x)
  unfolding exchange_left get_left get_right set_parent set_left set_right
  exchange_left_lem =
      let g = lowered h node b in
      let same = λ (q : Ptr). live-hung g c b q in
      let l : (hung g c b).left b ≡ h.left b = left-hung g c b b apart ∙ ground (arith, differ) in
      let r : (hung g c b).right b ≡ h.right b =
        right-hung g c b b apart ∙ ground (arith, differ) in
      let k = hung g c b in
      let k' = adopted k node (h.left b) (h.right b) in
      rw
        (
          live_node,
          live_b,
          live_node,
          live_b,
          live_node,
          relink_lem g c node b (Hangs-lowered h node b c node node_apart hangs),
        )
        (adopted_lem k node b (h.left b) (h.right b) (same b ∙ live_b) l r
            (Safe-hung g c b (h.left b) safe_left) (Safe-hung g c b (h.right b) safe_right) _
          ∙ lifted_lem k' b (above c) node x x (same b ∙ live_b) (Safe-hung g c b x safe) _
          ∙ ap ok (rerooted_lem (lifted k' b (above c) node x x) node b))

  pub exchange_right_lem : exchange_right h node (above c) x b ≡ ok (exchanged h c node b x node x)
  unfolding exchange_right get_left get_right set_parent set_left set_right
  exchange_right_lem =
      let g = lowered h node b in
      let same = λ (q : Ptr). live-hung g c b q in
      let l : (hung g c b).left b ≡ h.left b = left-hung g c b b apart ∙ ground (arith, differ) in
      let r : (hung g c b).right b ≡ h.right b =
        right-hung g c b b apart ∙ ground (arith, differ) in
      let k = hung g c b in
      let k' = adopted k node (h.left b) (h.right b) in
      rw
        (
          live_node,
          live_b,
          live_node,
          live_b,
          live_node,
          relink_lem g c node b (Hangs-lowered h node b c node node_apart hangs),
        )
        (adopted_lem k node b (h.left b) (h.right b) (same b ∙ live_b) l r
            (Safe-hung g c b (h.left b) safe_left) (Safe-hung g c b (h.right b) safe_right) _
          ∙ lifted_lem k' b (above c) x node x (same b ∙ live_b) (Safe-hung g c b x safe) _
          ∙ ap ok (rerooted_lem (lifted k' b (above c) x node x) node b))
