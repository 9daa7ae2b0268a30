-- ===== src/HeapInterface/Valid.antt =====
-- What holds of a heap of clib/heap_interface.c between calls.
use chenghualearning.Common.{ℕ, zero, suc, ◌/◌, ◌^◌, ◌<◌, ◌≤◌, ◌≡◌, ◌∙◌, arith}
use chenghualearning.Common.Int.{ℤ}
use chenghualearning.Common.Cint.{int_max}
use chenghualearning.Common.Bits.{has_top, div-pow-suc}
use native.Mathlib.Nat.{div-one, two-pow-succ}
use chenghualearning.HeapInterface.{Ptr, Heap}
use chenghualearning.HeapInterface.Tree.{Tree, root_of, count, IsTree}
use chenghualearning.HeapInterface.Complete.{Fits}
use chenghualearning.HeapInterface.Order.{IsHeap}

-- The nodes are linked as the complete tree `t`, in heap order.
pub record IsValid (cmp : Ptr → Ptr → ℤ) (h : Heap) (t : Tree) : Type 0 where
  pub tree : IsTree h 0 t
  pub root_eq : h.root ≡ root_of t
  pub fits : Fits 1 h.cnt t
  pub small : h.cnt ≤ int_max
  pub once : (q : Ptr) → count q t ≤ 1
  pub heap : IsHeap cmp t

-- The highest power of two in a count.
pub record Top (n : ℕ) : Type 0 where
  pub exponent : ℕ
  pub low : 2 ^ exponent ≤ n
  pub high : n < 2 ^ suc exponent
  pub word : exponent ≤ 30
  pub lead : n / 2 ^ exponent ≡ 1

leading : (k n : ℕ) → 2 ^ k ≤ n → n < 2 ^ suc k → n / 2 ^ k ≡ 1
leading zero n low high = omega (arith, div-one n)
leading (suc k) n low high =
    let d = two-pow-succ k in
    let e = two-pow-succ (suc k) in div-pow-suc n k ∙ leading k (n / 2) (omega arith) (omega arith)

pub highest : (n : ℕ) → 0 < n → n ≤ int_max → Top n
highest n pos small =
    let (k, word, low, high) = has_top 31 n pos (omega arith) in
    record { exponent = k; low = low; high = high; word = omega arith; lead = leading k n low high }
