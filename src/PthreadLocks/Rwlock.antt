-- ===== src/PthreadLocks/Rwlock.antt =====
-- The part of clib/pthread_lock_cond_sem.c on read-write locks.
pub mod Count
pub mod Progress
use chenghualearning.Common.{
  ℕ, suc, ◌+◌, ◌<◌, ◌≡◌, Bool, true, false, Option, none, some, ltb, if◌then◌else◌,
}
use chenghualearning.Common.Cint.{int_max}
use chenghualearning.Common.Family.{update}
use chenghualearning.PthreadLocks.{Turn, goes, blocks, ended, overflows}

-- pthread_rwlock_t, with what POSIX says of the calls: how many readers hold it and whether a writer
-- does, never both. That `rdlock` does not wait for writers that wait is what glibc says of the kind
-- PTHREAD_RWLOCK_PREFER_WRITER_NP.
pub record RwLock : Type 1 where
  pub Lock : Type 0
  pub rwlock_init : Lock
  pub rdlock : Lock → Option Lock
  pub wrlock : Lock → Option Lock
  pub unlock : Lock → Lock
  pub readers : Lock → ℕ
  pub writers : Lock → ℕ
  pub init-free : (readers rwlock_init ≡ 0) × (writers rwlock_init ≡ 0)
  pub rdlock-goes :
      (l : Lock)
      → writers l ≡ 0
      → (l' : Lock) × (rdlock l ≡ some l') × (readers l' ≡ readers l + 1) × (writers l' ≡ 0)
  pub rdlock-blocks : (l : Lock) → 0 < writers l → rdlock l ≡ none
  pub wrlock-goes :
      (l : Lock)
      → writers l ≡ 0
      → readers l ≡ 0
      → (l' : Lock) × (wrlock l ≡ some l') × (readers l' ≡ 0) × (writers l' ≡ 1)
  pub wrlock-blocks : (l : Lock) → 0 < writers l + readers l → wrlock l ≡ none
  pub unlock-reader :
      (l : Lock) (r : ℕ)
      → writers l ≡ 0
      → readers l ≡ suc r
      → (readers (unlock l) ≡ r) × (writers (unlock l) ≡ 0)
  pub unlock-writer :
      (l : Lock)
      → writers l ≡ 1
      → readers l ≡ 0
      → (readers (unlock l) ≡ 0) × (writers (unlock l) ≡ 0)

-- Where a thread of `pthread_rwlock_read` stands in round `i`: before the lock, or holding it.
pub data Reader : Type 0 where
  resting : (i : ℕ) → Reader
  reading : (i : ℕ) → Reader

-- A thread of `pthread_rwlock_write`: before the lock, before the read and before the write of
-- `arg->cnt++`, and before the unlock.
pub data Writer : Type 0 where
  locking : (i : ℕ) → Writer
  loading : (i : ℕ) → Writer
  storing : (i v : ℕ) → Writer
  unlocking : (i : ℕ) → Writer

module _ (L : RwLock) where
  -- `PthreadRWLockArg`, and the threads.
  pub record PthreadRwlockArg : Type 0 where
    pub rwlock : L.Lock
    pub cnt : ℕ
    pub read_threads : ℕ → Reader
    pub write_threads : ℕ → Writer

  -- `pthread_rwlock` when the threads are created.
  unfoldable pub pthread_rwlock : PthreadRwlockArg
  pthread_rwlock = record {
    rwlock = L.rwlock_init;
    cnt = 0;
    read_threads = λ _. resting 0;
    write_threads = λ _. locking 0;
  }

  -- What the reading thread `j` of `num` rounds does from where it stands.
  unfoldable pub read_turn : (num j : ℕ) → PthreadRwlockArg → Reader → Turn PthreadRwlockArg
  read_turn num j arg (resting i) =
      if ltb i num
      then elim (L.rdlock arg.rwlock) [
        | none ↦ blocks
        | some l ↦
            goes (record arg { rwlock = l; read_threads = update arg.read_threads j (reading i) })
      ]
      else ended
  read_turn num j arg (reading i) = goes (record arg {
    rwlock = L.unlock arg.rwlock;
    read_threads = update arg.read_threads j (resting (suc i));
  })

  unfoldable pub write_turn : (num j : ℕ) → PthreadRwlockArg → Writer → Turn PthreadRwlockArg
  write_turn num j arg (locking i) =
      if ltb i num
      then elim (L.wrlock arg.rwlock) [
        | none ↦ blocks
        | some l ↦
            goes (record arg { rwlock = l; write_threads = update arg.write_threads j (loading i) })
      ]
      else ended
  write_turn num j arg (loading i) =
      goes (record arg { write_threads = update arg.write_threads j (storing i arg.cnt) })
  write_turn num j arg (storing i v) =
      if ltb v int_max
      then goes
          (record arg { cnt = v + 1; write_threads = update arg.write_threads j (unlocking i) })
      else overflows
  write_turn num j arg (unlocking i) = goes (record arg {
    rwlock = L.unlock arg.rwlock;
    write_threads = update arg.write_threads j (locking (suc i));
  })

  unfoldable pub pthread_rwlock_read : (num j : ℕ) → PthreadRwlockArg → Turn PthreadRwlockArg
  pthread_rwlock_read num j arg = read_turn num j arg (arg.read_threads j)

  unfoldable pub pthread_rwlock_write : (num j : ℕ) → PthreadRwlockArg → Turn PthreadRwlockArg
  pthread_rwlock_write num j arg = write_turn num j arg (arg.write_threads j)

  -- What `n` reading and `n` writing threads reach in `k` steps, in any order.
  pub data Reach (n num : ℕ) : ℕ → PthreadRwlockArg → Type 0 where
    start : Reach n num 0 pthread_rwlock
    reads :
        {k : ℕ} {s s' : PthreadRwlockArg} (j : ℕ)
        → Reach n num k s
        → j < n
        → pthread_rwlock_read num j s ≡ goes s'
        → Reach n num (suc k) s'
    writes :
        {k : ℕ} {s s' : PthreadRwlockArg} (j : ℕ)
        → Reach n num k s
        → j < n
        → pthread_rwlock_write num j s ≡ goes s'
        → Reach n num (suc k) s'
