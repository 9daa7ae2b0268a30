-- ===== src/ThreadQueue.antt =====
-- clib/thread_queue.c: one worker thread runs the tasks that other threads push. The steps are
-- the sections under `lock_` and under the mutex of `cond_`, and the call of a task's function.
pub mod Valid
pub mod Invariant
pub mod Work
pub mod Drain
pub mod Leaves
mod Tests
use chenghualearning.Common.{
  ℕ, zero, suc, ◌+◌, ◌-◌, ◌<◌, ◌≡◌, Bool, true, false, Option, none, some, List, [], ◌∷◌, ◌++◌,
  if◌then◌else◌, Run, ok, fault, null_dereference, ◌>>=◌,
}
use chenghualearning.Common.Int.{ℤ, pos, negsuc, eq_ℤ}
use chenghualearning.IntrusiveList.{
  Ptr, Store, list_init, list_add_tail, list_empty, list_remove_head,
}
use chenghualearning.IntrusiveList.Linked.{has, IsRing}
use chenghualearning.IntrusiveList.Ops.{IsNode}
use chenghualearning.Cond.{Cond, cond_init, cond_wakeup, cond_wait}

-- Where the worker stands: before the pop, with a task to run, before a test of the counter, or
-- asleep in pthread_cond_wait.
pub data Worker : Type 0 where
  popping : Worker
  running : Ptr → Worker
  waiting : Worker
  asleep : Worker

-- The queue and its worker. `callable` is whether a task's `work_func_` is not null; `owing`
-- counts the pushes between the unlock and the wakeup. The last two record, in order, the tasks
-- that were pushed and those whose function was called.
pub record System : Type 0 where
  pub store : Store
  pub tasks : Ptr
  pub cond : Cond
  pub worker : Worker
  pub callable : Ptr → Bool
  pub owing : ℕ
  pub pushed : List Ptr
  pub executed : List Ptr

-- The worker exists only where pthread_create returns 0.
pub thread_queue_init : (pthread_create : ℤ) → System → Run (ℤ × System)
thread_queue_init pthread_create s =
    let (ret, cond) = cond_init (some s.cond) in
    elim cond [
      | none ↦ ok (ret, s)
      | some cond ↦ (do
        store ← list_init s.store s.tasks
        let s = record s { store = store; cond = cond }
        if eq_ℤ pthread_create (pos 0)
            then ok (pos 0, record s { worker = popping })
            else ok (pthread_create, s))
    ]

-- The section of `thread_queue_push` under the spin lock.
pub push_task : Ptr → System → Run System
push_task task s = do
  store ← list_add_tail s.store s.tasks task
  ok (record s { store = store; owing = s.owing + 1; pushed = s.pushed ++ task ∷ [] })

pub signal : Worker → Worker
signal asleep = waiting
signal w = w

-- Its call of `cond_wakeup`.
pub push_wakeup : System → Run System
push_wakeup s = do
  cond ← cond_wakeup s.cond
  ok (record s { cond = cond; worker = signal s.worker; owing = s.owing - 1 })

-- The whole of it, with no other thread in between.
pub thread_queue_push : Option System → Option Ptr → Run (ℤ × Option System)
thread_queue_push none task = ok (negsuc 0, none)
thread_queue_push (some s) none = ok (negsuc 0, some s)
thread_queue_push (some s) (some task) =
    if s.callable task
    then (do s ← push_task task s; s ← push_wakeup s; ok (pos 0, some s))
    else ok (negsuc 0, some s)

-- One step of the worker; asleep, it has none of its own.
pub thread_queue_work : System → Run System
thread_queue_work s = elim (s.worker) [
  | popping ↦ (do
    (node, store) ← list_remove_head s.store s.tasks
    elim node [
      | none ↦ ok (record s { store = store; worker = waiting })
      | some task ↦ ok (record s { store = store; worker = running task })
    ])
  | running task ↦
      if s.callable task
      then ok (record s { worker = popping; executed = s.executed ++ task ∷ [] })
      else fault null_dereference
  | waiting ↦ elim (cond_wait s.cond) [
    | none ↦ ok (record s { worker = asleep })
    | some cond ↦ ok (record s { worker = popping; cond = cond })
  ]
  | asleep ↦ ok s
]

-- The steps of the worker and of the threads that push. A thread pushes a task whose node exists
-- and stands in no queue; pthread_cond_wait may also return with no signal.
pub data Step : System → System → Type 0 where
  work : {s s' : System} → thread_queue_work s ≡ ok s' → Step s s'
  push :
      {s s' : System} (task : Ptr)
      → IsNode s.store task
      → ((xs : List Ptr) → IsRing s.store s.tasks xs → has task (s.tasks ∷ xs) ≡ false)
      → s.callable task ≡ true
      → push_task task s ≡ ok s'
      → Step s s'
  wakeup : {s s' : System} → 0 < s.owing → push_wakeup s ≡ ok s' → Step s s'
  spurious : {s : System} → s.worker ≡ asleep → Step s (record s { worker = waiting })

pub data Steps : System → System → Type 0 where
  done : {s : System} → Steps s s
  next : {s t u : System} → Steps s t → Step t u → Steps s u

-- The worker alone, for a number of steps.
pub work_alone : ℕ → System → Run System
work_alone zero s = ok s
work_alone (suc n) s = do s ← thread_queue_work s; work_alone n s

-- The test of the last loop of `main`, under the spin lock; it leaves the loop where this is true.
unfoldable pub main_poll : System → Run Bool
main_poll s = list_empty s.store s.tasks
