-- ===== src/Heap.antt =====
-- clib/heap.c: a heap of ints in nodes that it allocates. But for the values its functions are those
-- of clib/heap_interface.c, and stand on their models: the comparison of two nodes is that of their
-- values.
pub mod Order
pub mod Ops
mod Tests
use chenghualearning.Common.{
  ℕ, ◌+◌, ◌-◌, ◌/◌, ◌%◌, ◌≡◌, Bool, true, false, Option, none, some, ◌==◌, ltb, if◌then◌else◌, Run,
  ok, signed_overflow, ensure, ◌>>=◌, ◌>>◌,
}
use chenghualearning.Common.Cint.{int_max}
use chenghualearning.Common.Int.{ℤ, pos, negsuc, ltb_ℤ}
use chenghualearning.HeapInterface.{
  Ptr, write, set_parent, set_left, set_right, descend, replace_root, deep,
}
use chenghualearning.HeapInterface

-- `OK`, `ERR`, `ERR_EMPTY`
pub data Status : Type 0 where
  heap_ok : Status
  heap_err : Status
  heap_err_empty : Status

-- The pointers of the nodes with `root` and `cnt`, and the field `val` of the nodes.
pub record Heap : Type 0 where
  pub nodes : HeapInterface.Heap
  pub val : Ptr → ℤ

-- What is allocated after `malloc` or `free` of `p`.
abbrev pub mark : (Ptr → Bool) → Ptr → Bool → Ptr → Bool
mark live p b q = if p == q then b else live q

abbrev pub write_val : (Ptr → ℤ) → Ptr → ℤ → Ptr → ℤ
write_val val p v q = if p == q then v else val q

unfoldable pub heap_create : (allocated : Bool) → Heap → Option Heap
heap_create allocated s =
    if allocated then some (record s { nodes = HeapInterface.new_heap s.nodes }) else none

-- `cmp` is the comparison of the heap.
module _ (cmp : ℤ → ℤ → ℤ) where
  -- `heap->cmp(a->val, b->val)`
  abbrev pub by_val : (Ptr → ℤ) → Ptr → Ptr → ℤ
  by_val val a b = cmp (val a) (val b)

  -- The code of the three, but for the comparison, is that of clib/heap_interface.c.
  abbrev pub heap_get_offset : ℕ → Run ℕ
  heap_get_offset parent_cnt = HeapInterface.heap_get_offset parent_cnt

  abbrev pub heap_adjust_up : (Ptr → ℤ) → HeapInterface.Heap → Ptr → Run HeapInterface.Heap
  heap_adjust_up val h node = HeapInterface.heap_adjust_up (by_val val) (deep (by_val val)) h node

  abbrev pub heap_adjust_down : (Ptr → ℤ) → HeapInterface.Heap → Run HeapInterface.Heap
  heap_adjust_down val h = HeapInterface.heap_adjust_down (by_val val) (deep (by_val val)) h

  -- The new node, allocated and with its value.
  abbrev pub allocate : Heap → Ptr → ℤ → Heap
  allocate s node v = record {
    nodes = record s.nodes { live = mark s.nodes.live node true };
    val = write_val s.val node v;
  }

  -- `heapAdd` from the node that it has allocated on; `node->val = val` comes before any comparison.
  unfoldable pub insert : (Ptr → ℤ) → HeapInterface.Heap → Ptr → Run HeapInterface.Heap
  insert val h node = do
    h ← set_parent h node 0
    h ← set_left h node 0
    h ← set_right h node 0
    ensure (ltb h.cnt int_max) signed_overflow
    elim (h.root == 0) [
      | true ↦ ok (record h { root = node; cnt = h.cnt + 1 })
      | false ↦ (do
        let parent_cnt : ℕ = (h.cnt + 1) / 2
        let child : ℕ = (h.cnt + 1) % 2
        parent_offset ← heap_get_offset parent_cnt
        now ← descend (deep (by_val val)) h parent_cnt parent_offset h.root
        h ← if child == 0 then set_left h now node else set_right h now node
        h ← set_parent h node now
        heap_adjust_up val (record h { cnt = h.cnt + 1 }) node)
    ]

  -- `malloc` is the new node, or none.
  unfoldable pub heap_add : (malloc : Option Ptr) → Heap → ℤ → Run (Status × Heap)
  heap_add none s v = ok (heap_err, s)
  heap_add (some node) s v = do
    let s : Heap = allocate s node v
    h ← insert s.val s.nodes node
    ok (heap_ok, record s { nodes = h })

  -- `val` is what `*val` holds before. `free(root)` comes before `heapAdjustDown`.
  unfoldable pub heap_get : Heap → (val : ℤ) → Run (Status × ℤ × Heap)
  heap_get s val = elim (s.nodes.root == 0) [
    | true ↦ ok (heap_err_empty, val, s)
    | false ↦ (do
      let h : HeapInterface.Heap = s.nodes
      let root : Ptr = h.root
      let order : Ptr → Ptr → ℤ = by_val s.val
      offset ← heap_get_offset h.cnt
      last ← descend (deep order) h h.cnt offset root
      h ← replace_root order h root last
      h ← set_left h root 0
      h ← set_right h root 0
      h ← heap_adjust_down s.val (record h { cnt = h.cnt - 1; live = mark h.live root false })
      ok (heap_ok, s.val root, record s { nodes = h }))
  ]

-- The least value on top.
pub my_heap_cmp : ℤ → ℤ → ℤ
my_heap_cmp a b = if ltb_ℤ a b then pos 1 else if ltb_ℤ b a then negsuc 0 else pos 0

-- The greatest value on top.
pub my_heap_cmp_reverse : ℤ → ℤ → ℤ
my_heap_cmp_reverse a b = if ltb_ℤ a b then negsuc 0 else if ltb_ℤ b a then pos 1 else pos 0
