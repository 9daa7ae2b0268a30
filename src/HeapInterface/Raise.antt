-- ===== src/HeapInterface/Raise.antt =====
-- The iterations of both loops of clib/heap_interface.c make a turn.
use chenghualearning.Common.{◌<◌, ◌≡◌, refl, ◌∙◌, false, arith, ◌==◌}
use chenghualearning.HeapInterface.{Ptr, Heap, write}
use chenghualearning.HeapInterface.Tree.{Place, top, left_of, right_of, above}
use chenghualearning.HeapInterface.Place.{Rehung}
use chenghualearning.HeapInterface.Links.{
  hung, live-hung, parent-hung, cnt-hung, left-hung, right-hung, swapped_left, swapped_right,
}
use chenghualearning.HeapInterface.Turn.{Turned}

-- The nodes that a turn touches are different nodes.
pub record Apart (c : Place) (a p l r s : Ptr) : Type 0 where
  pub a_p : (a == p) ≡ false
  pub a_c : (a == above c) ≡ false
  pub p_c : (p == above c) ≡ false
  pub l_a : (l == a) ≡ false
  pub l_p : (l == p) ≡ false
  pub r_a : (r == a) ≡ false
  pub r_p : (r == p) ≡ false
  pub s_a : (s == a) ≡ false
  pub s_p : (s == p) ≡ false
  pub l_c : 0 < l → (l == above c) ≡ false
  pub r_c : 0 < r → (r == above c) ≡ false
  pub s_c : 0 < s → (s == above c) ≡ false
  pub l_r : 0 < l → (l == r) ≡ false
  pub l_s : 0 < l → (l == s) ≡ false
  pub r_s : 0 < r → (r == s) ≡ false

pub wrote : (f : Ptr → Ptr) (p v : Ptr) → write f p v p ≡ v
wrote f p v = ground arith

-- A place is rehung where the fields above it are those of `hung`.
pub Rehung-hung :
    (h h' : Heap) (c : Place) (y : Ptr)
    → h'.live (above c) ≡ h.live (above c)
    → h'.parent (above c) ≡ h.parent (above c)
    → h'.left (above c) ≡ (hung h c y).left (above c)
    → h'.right (above c) ≡ (hung h c y).right (above c)
    → Rehung h h' c y
Rehung-hung h h' top y ea eu el er = tt
Rehung-hung h h' (left_of p r c) y ea eu el er = (ea, eu, el ∙ wrote h.left p y, er)
Rehung-hung h h' (right_of p l c) y ea eu el er = (ea, eu, el, er ∙ wrote h.right p y)

-- `hung` neither reads nor writes the parents.
pub left-hung_parent :
    (h : Heap) (f : Ptr → Ptr) (c : Place) (v q : Ptr)
    → (hung (record h { parent = f }) c v).left q ≡ (hung h c v).left q
left-hung_parent h f top v q = refl
left-hung_parent h f (left_of p r c) v q = refl
left-hung_parent h f (right_of p l c) v q = refl

pub right-hung_parent :
    (h : Heap) (f : Ptr → Ptr) (c : Place) (v q : Ptr)
    → (hung (record h { parent = f }) c v).right q ≡ (hung h c v).right q
right-hung_parent h f top v q = refl
right-hung_parent h f (left_of p r c) v q = refl
right-hung_parent h f (right_of p l c) v q = refl

module _ (h : Heap) (a p : Ptr) where
  pub swapped_left-Turned :
      (c : Place)
      → Apart c a p (h.left a) (h.right a) (h.right p)
      → Turned h (swapped_left h c a p) c a p p (h.right p) (h.left a) (h.right a) (h.right p)
  swapped_left-Turned c d =
      let g = record h { parent = write h.parent a (above c) } in
      record {
        live = λ q. live-hung g c a q;
        count_kept = cnt-hung g c a;
        left_a = ground (arith, d.a_p);
        right_a = ground (arith, d.a_p);
        left_p = ground arith;
        right_p = ground arith;
        links = λ q qa qp qc. ground (arith, left-hung g c a q qc, right-hung g c a q qc);
        rehung =
            Rehung-hung h (swapped_left h c a p) c a (live-hung g c a (above c))
              (ground (arith, d.l_c, d.r_c, d.s_c, parent-hung g c a (above c)))
              (ground (arith, left-hung_parent h g.parent c a (above c)))
              (ground (arith, right-hung_parent h g.parent c a (above c)));
        parent_a = ground (arith, d.a_p, d.l_a, d.r_a, d.s_a, parent-hung g c a a);
        parent_p = ground (arith, d.l_p, d.r_p);
        parent_l = ground (arith, d.l_r);
        parent_r = ground arith;
        parent_s = ground (arith, d.s_p, d.l_s, d.r_s);
        parents = λ q qa qp ql qr qs. ground (arith, parent-hung g c a q);
      }

  pub swapped_right-Turned :
      (c : Place)
      → Apart c a p (h.left a) (h.right a) (h.left p)
      → Turned h (swapped_right h c a p) c a p (h.left p) p (h.left a) (h.right a) (h.left p)
  swapped_right-Turned c d =
      let g = record h { parent = write h.parent a (above c) } in
      record {
        live = λ q. live-hung g c a q;
        count_kept = cnt-hung g c a;
        left_a = ground (arith, d.a_p);
        right_a = ground (arith, d.a_p);
        left_p = ground arith;
        right_p = ground arith;
        links = λ q qa qp qc. ground (arith, left-hung g c a q qc, right-hung g c a q qc);
        rehung =
            Rehung-hung h (swapped_right h c a p) c a (live-hung g c a (above c))
              (ground (arith, d.l_c, d.r_c, d.s_c, parent-hung g c a (above c)))
              (ground (arith, left-hung_parent h g.parent c a (above c)))
              (ground (arith, right-hung_parent h g.parent c a (above c)));
        parent_a = ground (arith, d.a_p, d.l_a, d.r_a, d.s_a, parent-hung g c a a);
        parent_p = ground (arith, d.l_p, d.r_p);
        parent_l = ground (arith, d.l_r);
        parent_r = ground arith;
        parent_s = ground (arith, d.s_p, d.l_s, d.r_s);
        parents = λ q qa qp ql qr qs. ground (arith, parent-hung g c a q);
      }
