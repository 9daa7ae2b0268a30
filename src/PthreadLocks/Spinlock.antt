-- ===== src/PthreadLocks/Spinlock.antt =====
-- The part of clib/pthread_lock_cond_sem.c on spin locks.
pub mod Count
pub mod Progress
use chenghualearning.Common.{
  ℕ, suc, ◌+◌, ◌<◌, ◌≡◌, Bool, true, false, Option, none, some, ltb, if◌then◌else◌,
}
use chenghualearning.Common.Cint.{int_max}
use chenghualearning.Common.Family.{update}
use chenghualearning.PthreadLocks.{Turn, goes, blocks, ended, overflows}

-- pthread_spinlock_t, with what POSIX says of the calls: a lock that is free is taken, one that is
-- held is not, and the thread that holds it makes it free.
pub record SpinLock : Type 1 where
  pub Lock : Type 0
  pub spin_init : Lock
  pub spin_lock : Lock → Option Lock
  pub spin_unlock : Lock → Lock
  pub is_free : Lock → Bool
  pub init-free : is_free spin_init ≡ true
  pub lock-free :
      (l : Lock) → is_free l ≡ true → (l' : Lock) × (spin_lock l ≡ some l') × (is_free l' ≡ false)
  pub lock-held : (l : Lock) → is_free l ≡ false → spin_lock l ≡ none
  pub unlock-free : (l : Lock) → is_free l ≡ false → is_free (spin_unlock l) ≡ true

-- Where a thread stands in round `i` of its loop: before `pthread_spin_lock`, before the read and
-- before the write of `arg->cnt++`, and before `pthread_spin_unlock`.
pub data Thread : Type 0 where
  locking : (i : ℕ) → Thread
  loading : (i : ℕ) → Thread
  storing : (i v : ℕ) → Thread
  unlocking : (i : ℕ) → Thread

module _ (L : SpinLock) where
  -- `PthreadSpinlockArg`, and the threads.
  pub record PthreadSpinlockArg : Type 0 where
    pub lock : L.Lock
    pub cnt : ℕ
    pub threads : ℕ → Thread

  -- `pthread_spinlock` when the threads are created.
  unfoldable pub pthread_spinlock : PthreadSpinlockArg
  pthread_spinlock = record { lock = L.spin_init; cnt = 0; threads = λ _. locking 0 }

  -- What the thread `j` of those that do `num` rounds does from where it stands.
  unfoldable pub turn : (num j : ℕ) → PthreadSpinlockArg → Thread → Turn PthreadSpinlockArg
  turn num j arg (locking i) =
      if ltb i num
      then elim (L.spin_lock arg.lock) [
        | none ↦ blocks
        | some l ↦ goes (record arg { lock = l; threads = update arg.threads j (loading i) })
      ]
      else ended
  turn num j arg (loading i) =
      goes (record arg { threads = update arg.threads j (storing i arg.cnt) })
  turn num j arg (storing i v) =
      if ltb v int_max
      then goes (record arg { cnt = v + 1; threads = update arg.threads j (unlocking i) })
      else overflows
  turn num j arg (unlocking i) = goes (record arg {
    lock = L.spin_unlock arg.lock;
    threads = update arg.threads j (locking (suc i));
  })

  unfoldable pub pthread_spinlock_do : (num j : ℕ) → PthreadSpinlockArg → Turn PthreadSpinlockArg
  pthread_spinlock_do num j arg = turn num j arg (arg.threads j)

  -- What `n` threads of `num` rounds reach in `k` steps, in any order.
  pub data Reach (n num : ℕ) : ℕ → PthreadSpinlockArg → Type 0 where
    start : Reach n num 0 pthread_spinlock
    step :
        {k : ℕ} {s s' : PthreadSpinlockArg} (j : ℕ)
        → Reach n num k s
        → j < n
        → pthread_spinlock_do num j s ≡ goes s'
        → Reach n num (suc k) s'
