-- ===== src/SemSync.antt =====
-- clib/pthread_sem_sync.c: four threads print their numbers in turn, each waiting on its own
-- semaphore and posting the next one. A call on a semaphore, and a printf, is one step.
pub mod Turns
pub mod Order
mod Tests
use chenghualearning.Common.{
  ℕ, zero, suc, ◌+◌, ◌-◌, ◌%◌, ◌<◌, ◌≡◌, Bool, Option, none, some, List, [], ◌∷◌, ◌++◌, ◌==◌, ltb,
  if◌then◌else◌,
}

-- `THREAD_NUM`
abbrev pub thread_num : ℕ
thread_num = 4

-- `PrintArg`; a semaphore is named by its index in `sems`.
pub record PrintArg : Type 0 where
  pub sem : ℕ
  pub next_sem : ℕ
  pub idx : ℕ
  pub num : ℕ

-- Where a thread stands in the loop of `do_print`.
pub data Stage : Type 0 where
  waiting : Stage
  printing : Stage
  posting : Stage

-- The semaphores, the stage and the loop variable of each thread, and what has been printed.
pub record State : Type 0 where
  pub sems : ℕ → ℕ
  pub stage : ℕ → Stage
  pub i : ℕ → ℕ
  pub out : List ℕ

abbrev pub update {ℓ} : {A : Type ℓ} → (ℕ → A) → ℕ → A → ℕ → A
update f j a k = if j == k then a else f k

-- One step of the thread `j`, or `none` where it blocks in sem_wait or has left its loop.
pub do_print : PrintArg → ℕ → State → Option State
do_print arg j s = elim (s.stage j) [
  | waiting ↦
      if ltb (s.i j) arg.num
      then (if s.sems arg.sem == 0
          then none
          else some (record s {
            sems = update s.sems arg.sem (s.sems arg.sem - 1);
            stage = update s.stage j printing;
          }))
      else none
  | printing ↦ some (record s { stage = update s.stage j posting; out = s.out ++ arg.idx ∷ [] })
  | posting ↦ some (record s {
    sems = update s.sems arg.next_sem (s.sems arg.next_sem + 1);
    stage = update s.stage j waiting;
    i = update s.i j (s.i j + 1);
  })
]

-- `args[i]` of `sync_print`.
pub args : (num i : ℕ) → PrintArg
args num i = record { sem = i; next_sem = (i + 1) % thread_num; idx = i + 1; num = num }

-- Round `k` of `sync_print` after its `sem_post`, before any thread has run.
pub sync_print : (k : ℕ) → State
sync_print k = record {
  sems = update (λ _. 0) (k % thread_num) 1;
  stage = λ _. waiting;
  i = λ _. 0;
  out = [];
}

-- What the threads can reach in any order.
pub data Reach (num k : ℕ) : State → Type 0 where
  start : Reach num k (sync_print k)
  step :
      {s s' : State} (j : ℕ)
      → Reach num k s
      → j < thread_num
      → do_print (args num j) j s ≡ some s'
      → Reach num k s'
