-- ===== src/PthreadLocks/Tests.antt =====
-- The counters of clib/pthread_lock_cond_sem.c with locks that do what the calls are said to do.
use chenghualearning.Common.{
  ℕ, zero, suc, ◌+◌, ◌-◌, ◌*◌, ◌≤◌, ◌≡◌, ◌⊎◌, refl, Bool, true, false, Option, none, some, arith,
  ltb, ◌==◌, if◌then◌else◌,
}
use chenghualearning.Common.Family.{update}
use chenghualearning.PthreadLocks.{thread_num, test_case_num}
use chenghualearning.PthreadLocks.Spinlock.{SpinLock, PthreadSpinlockArg}
use chenghualearning.PthreadLocks.Spinlock
use chenghualearning.PthreadLocks.Spinlock.Progress.{spinlock_counts}
use chenghualearning.PthreadLocks.Rwlock.{RwLock, PthreadRwlockArg}
use chenghualearning.PthreadLocks.Rwlock
use chenghualearning.PthreadLocks.Rwlock.Progress.{rwlock_counts}
use chenghualearning.PthreadLocks.Semaphore.{Semaphores, PthreadSemArg}
use chenghualearning.PthreadLocks.Semaphore
use chenghualearning.PthreadLocks.Semaphore.Progress.{semaphore_counts}

abbrev take_flag : Bool → Option Bool
take_flag true = some false
take_flag false = none

-- A spin lock as a flag that says whether it is free.
abbrev flag : SpinLock
flag = record {
  Lock = Bool;
  spin_init = true;
  spin_lock = take_flag;
  spin_unlock = λ _. true;
  is_free = λ l. l;
  init-free = refl;
  lock-free = λ l e. (false, ground (arith, e), refl);
  lock-held = λ l e. ground (arith, e);
  unlock-free = λ l e. refl;
}

-- Ten threads of 1000 rounds, after one of them has taken the lock and read the counter.
abbrev spinning : PthreadSpinlockArg flag
spinning = record {
  lock = false;
  cnt = 0;
  threads =
      update (update (λ _. Spinlock.locking 0) 3 (Spinlock.loading 0)) 3 (Spinlock.storing 0 0);
}

spinning-Reach : Spinlock.Reach flag thread_num test_case_num 2 spinning
unfolding Spinlock.pthread_spinlock_do Spinlock.turn Spinlock.pthread_spinlock
spinning-Reach =
    Spinlock.step 3 (Spinlock.step 3 Spinlock.start (omega arith) refl) (omega arith) refl

spinlock_counts_example :
    (2 ≤ thread_num * (4 * test_case_num))
    × (Spinlock.Progress.CanGo flag thread_num test_case_num spinning
        ⊎ (Spinlock.Progress.AllEnded flag thread_num test_case_num spinning
            × (spinning.cnt ≡ thread_num * test_case_num)
            × (2 ≡ thread_num * (4 * test_case_num))))
spinlock_counts_example =
    spinlock_counts flag thread_num test_case_num 2 spinning (omega arith) spinning-Reach

-- A read-write lock as the numbers of its readers and writers.
abbrev rdlock_pair : ℕ × ℕ → Option (ℕ × ℕ)
rdlock_pair (r, w) = if w == 0 then some (r + 1, 0) else none

abbrev wrlock_pair : ℕ × ℕ → Option (ℕ × ℕ)
wrlock_pair (r, w) = if w + r == 0 then some (0, 1) else none

abbrev unlock_pair : ℕ × ℕ → ℕ × ℕ
unlock_pair (r, w) = if w == 0 then (r - 1, 0) else (r, 0)

abbrev pair : RwLock
pair = record {
  Lock = ℕ × ℕ;
  rwlock_init = (0, 0);
  rdlock = rdlock_pair;
  wrlock = wrlock_pair;
  unlock = unlock_pair;
  readers = λ l. l.0;
  writers = λ l. l.1;
  init-free = (refl, refl);
  rdlock-goes = λ (r, w) e. ((r + 1, 0), ground (arith, e), refl, refl);
  rdlock-blocks = λ (r, w) e. ground (arith, e);
  wrlock-goes = λ (r, w) e f. ((0, 1), ground (arith, e, f), refl, refl);
  wrlock-blocks = λ (r, w) e. ground (arith, e);
  unlock-reader = λ (r, w) n e f. ground (arith, e, f);
  unlock-writer = λ (r, w) e f. ground (arith, e, f);
}

-- One reader holds the lock, and another after it.
abbrev two_readers : PthreadRwlockArg pair
two_readers = record {
  rwlock = (2, 0);
  cnt = 0;
  read_threads = update (update (λ _. Rwlock.resting 0) 1 (Rwlock.reading 0)) 4 (Rwlock.reading 0);
  write_threads = λ _. Rwlock.locking 0;
}

two_readers-Reach : Rwlock.Reach pair thread_num test_case_num 2 two_readers
unfolding Rwlock.pthread_rwlock_read Rwlock.read_turn Rwlock.pthread_rwlock
two_readers-Reach =
    Rwlock.reads 4 (Rwlock.reads 1 Rwlock.start (omega arith) refl) (omega arith) refl

rwlock_counts_example :
    (2 ≤ thread_num * (2 * test_case_num) + thread_num * (4 * test_case_num))
    × (Rwlock.Progress.CanGo pair thread_num test_case_num two_readers
        ⊎ (Rwlock.Progress.AllEnded pair thread_num test_case_num two_readers
            × (two_readers.cnt ≡ thread_num * test_case_num)
            × (2 ≡ thread_num * (2 * test_case_num) + thread_num * (4 * test_case_num))))
rwlock_counts_example =
    rwlock_counts pair thread_num test_case_num 2 two_readers (omega arith) two_readers-Reach

abbrev take_unit : ℕ → Option ℕ
take_unit zero = none
take_unit (suc v) = some v

abbrev give_unit : ℕ → ℕ
give_unit v = if ltb v 32767 then v + 1 else v

-- A semaphore as its value.
abbrev units : Semaphores
units = record {
  Sem = ℕ;
  sem_init = 0;
  sem_wait = take_unit;
  sem_post = give_unit;
  value = λ v. v;
  sem_value_max = 32767;
  init-value = refl;
  wait-takes = λ s v e. (v, rw e refl, refl);
  wait-blocks = λ s e. rw e refl;
  post-gives = λ s e. ground (arith, e);
  post-fails = λ s e. ground (arith, e);
}

-- One thread has posted, and one that waits has taken the unit.
abbrev taken_one : PthreadSemArg units
taken_one = record {
  sem = 0;
  cnt = 0;
  wait_threads = update (λ _. Semaphore.waiting 0) 7 (Semaphore.counting 0);
  post_threads = update (λ _. 0) 2 1;
}

taken_one-Reach : Semaphore.Reach units thread_num test_case_num 2 taken_one
unfolding Semaphore.pthread_sem_wait Semaphore.wait_turn Semaphore.pthread_sem_post
    Semaphore.post_turn Semaphore.pthread_sem
taken_one-Reach =
    Semaphore.waits 7 (Semaphore.posts 2 Semaphore.start (omega arith) refl) (omega arith) refl

semaphore_counts_example :
    (2 ≤ thread_num * (2 * test_case_num) + thread_num * test_case_num)
    × (Semaphore.Progress.CanGo units thread_num test_case_num taken_one
        ⊎ (Semaphore.Progress.AllEnded units thread_num test_case_num taken_one
            × (taken_one.cnt ≡ thread_num * test_case_num)
            × (2 ≡ thread_num * (2 * test_case_num) + thread_num * test_case_num)))
semaphore_counts_example =
    semaphore_counts units thread_num test_case_num (omega arith) (omega arith) 2 taken_one
      taken_one-Reach
