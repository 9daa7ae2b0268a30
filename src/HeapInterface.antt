-- ===== src/HeapInterface.antt =====
-- clib/heap_interface.c: a heap whose nodes lie inside the caller's structs, linked as a complete
-- binary tree. A pointer is a number, 0 is `NULL`, and an access to an address where no node is
-- live is a fault. Each assignment is one store, in the order of the source.
pub mod Tree
pub mod Place
pub mod Links
pub mod Lowering
pub mod Turn
pub mod Raise
pub mod Lower
pub mod Once
pub mod Climb
pub mod Up
pub mod Fall
pub mod Down
pub mod Sift
pub mod Complete
pub mod Walk
pub mod Order
pub mod Valid
pub mod Attach
pub mod Add
pub mod Insert
pub mod Succeed
pub mod Get
pub mod Reach
pub mod Take
pub mod Destroy
pub mod Drain
pub mod Refine
mod Tests
mod MainTests
use Prim.Native.Nat.{bit_and}
use chenghualearning.Common.{
  ℕ, zero, suc, ◌+◌, ◌-◌, ◌*◌, ◌/◌, ◌%◌, ◌^◌, ◌≡◌, Bool, true, false, not, ◌&&◌, Option, none, some,
  List, [], ◌∷◌, leb, ltb, ◌==◌, if◌then◌else◌, Run, ok, fault, null_dereference, out_of_fuel,
  signed_overflow, ensure, ◌>>=◌, ◌>>◌,
}
use chenghualearning.Common.Int.{ℤ, pos, negsuc}
use chenghualearning.Common.Cint.{int_max}

abbrev pub Ptr : Type 0
Ptr = ℕ

-- The fields of the nodes, the addresses where a node is, and the fields `root` and `cnt`.
pub record Heap : Type 0 where
  pub parent : Ptr → Ptr
  pub left : Ptr → Ptr
  pub right : Ptr → Ptr
  pub live : Ptr → Bool
  pub root : Ptr
  pub cnt : ℕ

abbrev pub write : (Ptr → Ptr) → Ptr → Ptr → Ptr → Ptr
write field p v q = if p == q then v else field q

-- `p->parent`, `p->left` and `p->right` as values.
unfoldable pub get_parent : Heap → Ptr → Run Ptr
get_parent h p = if h.live p then ok (h.parent p) else fault null_dereference

unfoldable pub get_left : Heap → Ptr → Run Ptr
get_left h p = if h.live p then ok (h.left p) else fault null_dereference

unfoldable pub get_right : Heap → Ptr → Run Ptr
get_right h p = if h.live p then ok (h.right p) else fault null_dereference

-- Assignments to them.
unfoldable pub set_parent : Heap → Ptr → Ptr → Run Heap
set_parent h p v =
    if h.live p then ok (record h { parent = write h.parent p v }) else fault null_dereference

unfoldable pub set_left : Heap → Ptr → Ptr → Run Heap
set_left h p v =
    if h.live p then ok (record h { left = write h.left p v }) else fault null_dereference

unfoldable pub set_right : Heap → Ptr → Ptr → Run Heap
set_right h p v =
    if h.live p then ok (record h { right = write h.right p v }) else fault null_dereference

-- `if (c) c->parent = v;`
unfoldable pub adopt : Heap → Ptr → Ptr → Run Heap
adopt h c v = if c == 0 then ok h else set_parent h c v

-- `if (pp && pp->left == p) pp->left = v; else if (pp && pp->right == p) pp->right = v;`
unfoldable pub relink : Heap → Ptr → Ptr → Ptr → Run Heap
relink h pp p v = if pp == 0 then ok h else (do
  l ← get_left h pp
  if l == p
      then set_left h pp v
      else (do r ← get_right h pp; if r == p then set_right h pp v else ok h))

-- The loop of `heapGetOffset`.
unfoldable pub offset_loop : (fuel : ℕ) → (parent_cnt offset : ℕ) → Run ℕ
offset_loop zero parent_cnt offset = fault out_of_fuel
offset_loop (suc fuel) parent_cnt offset =
    let rest = offset_loop fuel parent_cnt (offset * 2) in
    if leb offset parent_cnt then rest else ok offset

-- From 1 the loop doubles 30 times at most, as `parent_cnt >> 1` is below 2^30.
unfoldable pub heap_get_offset : ℕ → Run ℕ
heap_get_offset parent_cnt = do offset ← offset_loop 31 (parent_cnt / 2) 1; ok (offset / 2)

-- The loops of `heapAdd` and `heapGet` that go down by the bits of `n`.
unfoldable pub descend : (fuel : ℕ) → Heap → (n offset : ℕ) → Ptr → Run Ptr
descend zero h n offset now = fault out_of_fuel
descend (suc fuel) h n offset now = elim (offset == 0) [
  | true ↦ ok now
  | false ↦ (do
    now ← if bit_and n offset == 0 then get_left h now else get_right h now
    descend fuel h n (offset / 2) now)
]

-- The body of the loop of `heapAdjustUp`, where `node` is above its parent `p` in the order.
unfoldable pub take_place : Heap → (node p p_left p_right : Ptr) → Run Heap
take_place h node p p_left p_right = do
  l ← get_left h p
  if l == node
      then (do h ← set_right h node p_right; h ← adopt h p_right node; set_left h node p)
      else (do
        r ← get_right h p
        if r == node
            then (do h ← set_left h node p_left; h ← adopt h p_left node; set_right h node p)
            else ok h)

unfoldable pub swap_up : Heap → (node p pp : Ptr) → Run Heap
swap_up h node p pp = do
  node_left ← get_left h node
  node_right ← get_right h node
  p_left ← get_left h p
  p_right ← get_right h p
  h ← set_parent h node pp
  h ← relink h pp p node
  h ← take_place h node p p_left p_right
  h ← set_parent h p node
  h ← set_left h p node_left
  h ← set_right h p node_right
  h ← adopt h node_left p
  adopt h node_right p

-- `>= 0`
abbrev pub nonneg : ℤ → Bool
nonneg (pos n) = true
nonneg (negsuc n) = false

pub data Exchange : Type 0 where
  no_exchange : Exchange
  ex_left : Exchange
  ex_right : Exchange

-- The two bodies of the loop of `heapAdjustDown` that exchange a node with a child.
unfoldable pub exchange_left : Heap → (node node_p node_left node_right : Ptr) → Run Heap
exchange_left h node node_p node_left node_right = do
  h ← set_parent h node node_left
  ll ← get_left h node_left
  h ← set_left h node ll
  lr ← get_right h node_left
  h ← set_right h node lr
  h ← relink h node_p node node_left
  ll ← get_left h node_left
  h ← adopt h ll node
  lr ← get_right h node_left
  h ← adopt h lr node
  h ← set_parent h node_left node_p
  h ← set_left h node_left node
  h ← set_right h node_left node_right
  h ← adopt h node_right node_left
  ok (if h.root == node then record h { root = node_left } else h)

unfoldable pub exchange_right : Heap → (node node_p node_left node_right : Ptr) → Run Heap
exchange_right h node node_p node_left node_right = do
  h ← set_parent h node node_right
  rl ← get_left h node_right
  h ← set_left h node rl
  rr ← get_right h node_right
  h ← set_right h node rr
  h ← relink h node_p node node_right
  rl ← get_left h node_right
  h ← adopt h rl node
  rr ← get_right h node_right
  h ← adopt h rr node
  h ← set_parent h node_right node_p
  h ← set_left h node_right node_left
  h ← set_right h node_right node
  h ← adopt h node_left node_right
  ok (if h.root == node then record h { root = node_right } else h)

-- The fields of a heap just created; the nodes are the caller's.
unfoldable pub new_heap : Heap → Heap
new_heap h = record h { root = 0; cnt = 0 }

-- `allocated` says whether `malloc` gives memory.
unfoldable pub heap_create : (allocated : Bool) → Heap → Option Heap
heap_create allocated h = if allocated then some (new_heap h) else none

-- `cmp` is the comparison of the heap.
module _ (cmp : Ptr → Ptr → ℤ) where
  unfoldable pub up_loop : (fuel : ℕ) → Heap → Ptr → Run Heap
  up_loop zero h node = fault out_of_fuel
  up_loop (suc fuel) h node = do
    p ← get_parent h node
    elim (p == 0) [
      | true ↦ ok h
      | false ↦ (do
        pp ← get_parent h p
        elim (nonneg (cmp p node)) [
          | true ↦ ok h
          | false ↦ (do h ← swap_up h node p pp; up_loop fuel h node)
        ])
    ]

  unfoldable pub heap_adjust_up : (fuel : ℕ) → Heap → Ptr → Run Heap
  heap_adjust_up fuel h node = elim (node == 0) [
    | true ↦ ok h
    | false ↦ (do
      h ← up_loop fuel h node
      p ← get_parent h node
      ok (if p == 0 then record h { root = node } else h))
  ]

  -- The fuel of the loops: no path is longer than 31 nodes.
  abbrev pub deep : ℕ
  deep = 32

  -- `if (!child) now->left = node; else now->right = node;`
  unfoldable pub attach : Heap → (child : ℕ) → (now node : Ptr) → Run Heap
  attach h child now node = if child == 0 then set_left h now node else set_right h now node

  unfoldable pub heap_add : Heap → Ptr → Run Heap
  heap_add h node = do
    h ← set_parent h node 0
    h ← set_left h node 0
    h ← set_right h node 0
    ensure (ltb h.cnt int_max) signed_overflow
    elim (h.root == 0) [
      | true ↦ ok (record h { root = node; cnt = h.cnt + 1 })
      | false ↦ (do
        let parent_cnt : ℕ = (h.cnt + 1) / 2
        let child : ℕ = (h.cnt + 1) % 2
        parent_offset ← heap_get_offset parent_cnt
        now ← descend deep h parent_cnt parent_offset h.root
        h ← attach h child now node
        h ← set_parent h node now
        heap_adjust_up deep (record h { cnt = h.cnt + 1 }) node)
    ]

  -- Which child `heapAdjustDown` exchanges the node with.
  unfoldable pub choose : (node node_left node_right : Ptr) → Exchange
  choose node node_left node_right =
      let has_left = not (node_left == 0) in
      let has_right = not (node_right == 0) in
      let left_below = if has_left then nonneg (cmp node node_left) else true in
      let right_below = if has_right then nonneg (cmp node node_right) else true in
      let left_above = if has_left && has_right then nonneg (cmp node_left node_right) else true in
      if has_left && has_right
      then (if left_below && right_below
          then no_exchange
          else if left_below
          then ex_right
          else if right_below
          then ex_left
          else if left_above
          then ex_left
          else ex_right)
      else if has_left && not left_below
      then ex_left
      else if has_right && not right_below
      then ex_right
      else no_exchange

  unfoldable pub down_loop : (fuel : ℕ) → Heap → Ptr → Run Heap
  down_loop zero h node = fault out_of_fuel
  down_loop (suc fuel) h node = elim (node == 0) [
    | true ↦ ok h
    | false ↦ (do
      node_p ← get_parent h node
      node_left ← get_left h node
      node_right ← get_right h node
      elim (choose node node_left node_right) [
        | no_exchange ↦ ok h
        | ex_left ↦ (do h ← exchange_left h node node_p node_left node_right; down_loop fuel h node)
        | ex_right ↦ (do
          h ← exchange_right h node node_p node_left node_right
          down_loop fuel h node)
      ])
  ]

  unfoldable pub heap_adjust_down : (fuel : ℕ) → Heap → Run Heap
  heap_adjust_down fuel h = elim (h.root == 0) [ true ↦ ok h | false ↦ down_loop fuel h h.root ]

  -- The last node leaves its parent and takes the place of the root.
  unfoldable pub replace_root : Heap → (root last : Ptr) → Run Heap
  replace_root h root last = do
    last_parent ← get_parent h last
    h ← relink h last_parent last 0
    h ← set_parent h last 0
    l ← get_left h root
    h ← set_left h last l
    r ← get_right h root
    h ← set_right h last r
    l ← get_left h root
    h ← adopt h l last
    r ← get_right h root
    h ← adopt h r last
    ok (record h { root = if root == last then 0 else last })

  -- The node that is taken out, or `NULL`.
  unfoldable pub heap_get : Heap → Run (Ptr × Heap)
  heap_get h = elim (h.root == 0) [
    | true ↦ ok (0, h)
    | false ↦ (do
      let root : Ptr = h.root
      offset ← heap_get_offset h.cnt
      last ← descend deep h h.cnt offset root
      h ← replace_root h root last
      h ← set_parent h root 0
      h ← set_left h root 0
      h ← set_right h root 0
      h ← heap_adjust_down deep (record h { cnt = h.cnt - 1 })
      ok (root, h))
  ]

  -- The loop of `heapDestruct`: the nodes that are taken out, in order, each for `node_destruct`.
  unfoldable pub heap_destruct : (fuel : ℕ) → Heap → Run (List Ptr × Heap)
  heap_destruct zero h = fault out_of_fuel
  heap_destruct (suc fuel) h = do
    (node, h) ← heap_get h
    elim (node == 0) [
      | true ↦ ok ([], record h { root = 0; cnt = 0 })
      | false ↦ (do (nodes, h) ← heap_destruct fuel h; ok (node ∷ nodes, h))
    ]
