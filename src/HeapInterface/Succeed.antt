-- ===== src/HeapInterface/Succeed.antt =====
-- How `heapGet` of clib/heap_interface.c puts the last node in the place of the root.
use chenghualearning.Common.{
  ◌+◌, ◌<◌, ◌≤◌, ◌≡◌, refl, true, false, arith, ◌==◌, if◌then◌else◌, ok, ◌>>=◌,
}
use chenghualearning.HeapInterface.{
  Ptr, Heap, write, get_left, get_right, set_parent, set_left, set_right, adopt,
}
use chenghualearning.HeapInterface.Tree.{
  Tree, node, root_of, is, count, IsTree, IsTree-Kept, not_is, count-root_of,
}
use chenghualearning.HeapInterface.Place.{AllKept, is_self}
use chenghualearning.HeapInterface.Links.{Safe, write_if, adopt_lem}
use chenghualearning.HeapInterface.Turn.{elsewhere, not_it, not_root}
use chenghualearning.HeapInterface.Once.{root_apart, symm_false}

-- The node `x` over `l` and `r`.
abbrev pub succeeded : Heap → (x l r : Ptr) → Heap
succeeded g x l r = record g {
  parent = write_if (write_if (write g.parent x 0) l x) r x;
  left = write g.left x l;
  right = write g.right x r;
}

module _ (g : Heap) (a x : Ptr) (some_x : 0 < x) (live_x : g.live x ≡ true)
    (live_a : g.live a ≡ true) (apart : (a == x) ≡ false) where
  -- The run, after the last node left its parent.
  pub succeed-run :
      Safe g (g.left a)
      → Safe g (g.right a)
      → (do
        h ← set_parent g x 0
        l ← get_left h a
        h ← set_left h x l
        r ← get_right h a
        h ← set_right h x r
        l ← get_left h a
        h ← adopt h l x
        r ← get_right h a
        h ← adopt h r x
        ok (record h { root = if a == x then 0 else x }))
        ≡ ok (record (succeeded g x (g.left a) (g.right a)) { root = x })
  unfolding set_parent get_left set_left get_right set_right
  succeed-run safe_l safe_r =
      let f = write g.parent x 0 in
      let k = record g {
        parent = f;
        left = write g.left x (g.left a);
        right = write g.right x (g.right a);
      } in
      let wl : k.left a ≡ g.left a = ground (arith, apart) in
      let wr : k.right a ≡ g.right a = ground (arith, apart) in
      let first = adopt_lem k (g.left a) x safe_l in
      let second = adopt_lem (record k { parent = write_if f (g.left a) x }) (g.right a) x safe_r in
      rw (live_x, live_a, live_x, live_a, live_x, live_a, wl, first, live_a, wr, second, apart) refl

module _ (g : Heap) (a x : Ptr) (l r : Tree) (i : IsTree g 0 (node a l r)) (some_x : 0 < x)
    (live_x : g.live x ≡ true)
    (once : (q : Ptr) → is x q + (is a q + (count q l + count q r)) ≤ 1) where
  pub succeeded-IsTree : IsTree (succeeded g x (root_of l) (root_of r)) 0 (node x l r)
  unfolding IsTree
  succeeded-IsTree =
      let (pa, la, ua, el, er, il, ir) = i in
      let g' = succeeded g x (root_of l) (root_of r) in
      let xl = symm_false _ _ (root_apart l x _ (omega (arith, once x)) (is_self x 0) some_x) in
      let xr = symm_false _ _ (root_apart r x _ (omega (arith, once x)) (is_self x 0) some_x) in
      (
        some_x,
        live_x,
        ground (arith, xl, xr),
        ground arith,
        ground arith,
        IsTree-Kept g g' a x l il
            (λ q n.
              let e = not_is x q _ (once q) (omega arith) in
              (refl, ground (arith, e), ground (arith, e)))
            (λ q n el.
              let e = not_is x q _ (once q) (omega arith) in
              let er = λ (some : 0 < root_of r). elsewhere r q _ (omega (arith, once q)) n some in
              ground (arith, e, el, er))
            (λ some.
              let er =
                root_apart r (root_of l) _ (omega (arith, once (root_of l))) (count-root_of l some)
                  some in
              ground (arith, er))
            (λ q. omega (arith, once q)),
        IsTree-Kept g g' a x r ir
            (λ q n.
              let e = not_is x q _ (once q) (omega arith) in
              (refl, ground (arith, e), ground (arith, e)))
            (λ q n er.
              let e = not_is x q _ (once q) (omega arith) in
              let el = λ (some : 0 < root_of l). elsewhere l q _ (omega (arith, once q)) n some in
              ground (arith, e, el, er))
            (λ some. ground arith) (λ q. omega (arith, once q)),
      )

  pub succeeded-kept :
      (q : Ptr)
      → is x q + (count q l + count q r) ≡ 0
      → AllKept g (succeeded g x (root_of l) (root_of r)) q
  succeeded-kept q none =
      let e = not_it x q (omega (arith, none)) in
      let el = λ (some : 0 < root_of l). not_root l q (omega (arith, none)) some in
      let er = λ (some : 0 < root_of r). not_root r q (omega (arith, none)) some in
      (refl, ground (arith, e), ground (arith, e), ground (arith, e, el, er))
