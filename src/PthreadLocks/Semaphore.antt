-- ===== src/PthreadLocks/Semaphore.antt =====
-- The part of clib/pthread_lock_cond_sem.c on semaphores.
pub mod Count
pub mod Progress
use chenghualearning.Common.{
  ℕ, suc, ◌+◌, ◌%◌, ◌^◌, ◌<◌, ◌≡◌, Bool, true, false, Option, none, some, ltb, if◌then◌else◌,
}
use chenghualearning.Common.Family.{update}
use chenghualearning.PthreadLocks.{Turn, goes, blocks, ended}

-- sem_t, with what POSIX says of the calls: `sem_wait` waits for a value above 0 and takes one,
-- `sem_post` gives one, or fails at SEM_VALUE_MAX.
pub record Semaphores : Type 1 where
  pub Sem : Type 0
  pub sem_init : Sem
  pub sem_wait : Sem → Option Sem
  pub sem_post : Sem → Sem
  pub value : Sem → ℕ
  pub sem_value_max : ℕ
  pub init-value : value sem_init ≡ 0
  pub wait-takes :
      (s : Sem) (v : ℕ) → value s ≡ suc v → (s' : Sem) × (sem_wait s ≡ some s') × (value s' ≡ v)
  pub wait-blocks : (s : Sem) → value s ≡ 0 → sem_wait s ≡ none
  pub post-gives : (s : Sem) → value s < sem_value_max → value (sem_post s) ≡ value s + 1
  pub post-fails : (s : Sem) → value s ≡ sem_value_max → sem_post s ≡ s

-- Where a thread of `pthread_sem_wait` stands in round `i`: before `sem_wait`, or before the
-- increment.
pub data Waiter : Type 0 where
  waiting : (i : ℕ) → Waiter
  counting : (i : ℕ) → Waiter

module _ (L : Semaphores) where
  -- `PthreadSemArg`, with `cnt` as its 32 bits, and the threads, those that post by their `i`.
  pub record PthreadSemArg : Type 0 where
    pub sem : L.Sem
    pub cnt : ℕ
    pub wait_threads : ℕ → Waiter
    pub post_threads : ℕ → ℕ

  -- `pthread_sem` when the threads are created.
  unfoldable pub pthread_sem : PthreadSemArg
  pthread_sem = record {
    sem = L.sem_init;
    cnt = 0;
    wait_threads = λ _. waiting 0;
    post_threads = λ _. 0;
  }

  -- `atomic_inc(&arg->cnt)`, which wraps around.
  abbrev pub atomic_inc : ℕ → ℕ
  atomic_inc cnt = (cnt + 1) % 2 ^ 32

  -- What the waiting thread `j` of `num` rounds does from where it stands.
  unfoldable pub wait_turn : (num j : ℕ) → PthreadSemArg → Waiter → Turn PthreadSemArg
  wait_turn num j arg (waiting i) =
      if ltb i num
      then elim (L.sem_wait arg.sem) [
        | none ↦ blocks
        | some s ↦
            goes (record arg { sem = s; wait_threads = update arg.wait_threads j (counting i) })
      ]
      else ended
  wait_turn num j arg (counting i) = goes (record arg {
    cnt = atomic_inc arg.cnt;
    wait_threads = update arg.wait_threads j (waiting (suc i));
  })

  unfoldable pub pthread_sem_wait : (num j : ℕ) → PthreadSemArg → Turn PthreadSemArg
  pthread_sem_wait num j arg = wait_turn num j arg (arg.wait_threads j)

  unfoldable pub post_turn : (num j : ℕ) → PthreadSemArg → ℕ → Turn PthreadSemArg
  post_turn num j arg i =
      if ltb i num
      then goes (record arg {
        sem = L.sem_post arg.sem;
        post_threads = update arg.post_threads j (suc i);
      })
      else ended

  unfoldable pub pthread_sem_post : (num j : ℕ) → PthreadSemArg → Turn PthreadSemArg
  pthread_sem_post num j arg = post_turn num j arg (arg.post_threads j)

  -- What `n` waiting and `n` posting threads reach in `k` steps, in any order.
  pub data Reach (n num : ℕ) : ℕ → PthreadSemArg → Type 0 where
    start : Reach n num 0 pthread_sem
    waits :
        {k : ℕ} {s s' : PthreadSemArg} (j : ℕ)
        → Reach n num k s
        → j < n
        → pthread_sem_wait num j s ≡ goes s'
        → Reach n num (suc k) s'
    posts :
        {k : ℕ} {s s' : PthreadSemArg} (j : ℕ)
        → Reach n num k s
        → j < n
        → pthread_sem_post num j s ≡ goes s'
        → Reach n num (suc k) s'
