-- ===== src/HeapInterface/Lower.antt =====
-- The iterations of `heapAdjustDown` of clib/heap_interface.c make a turn.
use chenghualearning.Common.{◌≡◌, false, arith, ◌==◌}
use chenghualearning.HeapInterface.{Ptr, Heap}
use chenghualearning.HeapInterface.Tree.{Place, top, left_of, right_of, above}
use chenghualearning.HeapInterface.Links.{
  hung, live-hung, parent-hung, cnt-hung, left-hung, right-hung,
}
use chenghualearning.HeapInterface.Lowering.{exchanged}
use chenghualearning.HeapInterface.Turn.{Turned}
use chenghualearning.HeapInterface.Raise.{Apart, Rehung-hung}
use chenghualearning.HeapInterface.Lowering.{lowered}

left-hung-lowered :
    (h : Heap) (p a : Ptr) (c : Place) (v : Ptr)
    → (p == above c) ≡ false
    → (hung (lowered h p a) c v).left (above c) ≡ (hung h c v).left (above c)
left-hung-lowered h p a top v e = ground (arith, e)
left-hung-lowered h p a (left_of q r c) v e = ground (arith, e)
left-hung-lowered h p a (right_of q l c) v e = ground (arith, e)

right-hung-lowered :
    (h : Heap) (p a : Ptr) (c : Place) (v : Ptr)
    → (p == above c) ≡ false
    → (hung (lowered h p a) c v).right (above c) ≡ (hung h c v).right (above c)
right-hung-lowered h p a top v e = ground (arith, e)
right-hung-lowered h p a (left_of q r c) v e = ground (arith, e)
right-hung-lowered h p a (right_of q l c) v e = ground (arith, e)

-- The node `p` changes places with its child `a`, whose other child is then `x`.
module _ (h : Heap) (c : Place) (a p u v x : Ptr) (d : Apart c a p (h.left a) (h.right a) x) where
  pub exchanged-Turned : Turned h (exchanged h c p a u v x) c a p u v (h.left a) (h.right a) x
  exchanged-Turned =
      let g = lowered h p a in
      record {
        live = λ q. live-hung g c a q;
        count_kept = cnt-hung g c a;
        left_a = ground (arith, d.a_p);
        right_a = ground (arith, d.a_p);
        left_p = ground (arith, left-hung g c a p d.p_c);
        right_p = ground (arith, right-hung g c a p d.p_c);
        links = λ q qa qp qc. ground (arith, left-hung g c a q qc, right-hung g c a q qc);
        rehung =
            Rehung-hung h (exchanged h c p a u v x) c a (live-hung g c a (above c))
              (ground (arith, d.l_c, d.r_c, d.s_c, parent-hung g c a (above c)))
              (ground (arith, left-hung-lowered h p a c a d.p_c))
              (ground (arith, right-hung-lowered h p a c a d.p_c));
        parent_a = ground (arith, d.s_a);
        parent_p = ground (arith, d.l_p, d.r_p, d.s_p, parent-hung g c a p);
        parent_l = ground (arith, d.l_a, d.l_r, d.l_s);
        parent_r = ground (arith, d.r_a, d.r_s);
        parent_s = ground arith;
        parents = λ q qa qp ql qr qs. ground (arith, parent-hung g c a q);
      }
