-- ===== src/PthreadCond.antt =====
-- clib/pthread_lock_cond_sem.c, the part on condition variables: one thread waits until another has
-- set `condition`. What holds the mutex is one step.
pub mod Meet
mod Tests
use chenghualearning.Common.{ℕ, ◌+◌, ◌≡◌, Bool, true, false, Option, none, some, if◌then◌else◌}

-- Where the waiting thread stands: before a test of `condition`, asleep in pthread_cond_wait, or at
-- its end.
pub data Waiter : Type 0 where
  testing : Waiter
  asleep : Waiter
  finished : Waiter

-- `PthreadCondArg`, the waiting thread, and whether the signalling thread is at its end.
pub record PthreadCondArg : Type 0 where
  pub condition : Bool
  pub cnt : ℕ
  pub waiter : Waiter
  pub signed : Bool

-- One test of the loop, or `none` where the thread cannot step by itself.
pub pthread_cond_do_wait : PthreadCondArg → Option PthreadCondArg
pthread_cond_do_wait arg = elim (arg.waiter) [
  | testing ↦
      if arg.condition
      then some (record arg { condition = false; cnt = arg.cnt + 1; waiter = finished })
      else some (record arg { waiter = asleep })
  | asleep ↦ none
  | finished ↦ none
]

-- pthread_cond_signal
pub wake : Waiter → Waiter
wake asleep = testing
wake w = w

pub pthread_cond_do_sign : PthreadCondArg → Option PthreadCondArg
pthread_cond_do_sign arg =
    if arg.signed
    then none
    else some (record arg { condition = true; waiter = wake arg.waiter; signed = true })

-- `pthread_cond` before either thread has run.
pub pthread_cond : PthreadCondArg
pthread_cond = record { condition = false; cnt = 0; waiter = testing; signed = false }

-- What the two threads can reach in any order, with spurious wakeups.
pub data Reach : PthreadCondArg → Type 0 where
  start : Reach pthread_cond
  wait : {s s' : PthreadCondArg} → Reach s → pthread_cond_do_wait s ≡ some s' → Reach s'
  sign : {s s' : PthreadCondArg} → Reach s → pthread_cond_do_sign s ≡ some s' → Reach s'
  spurious :
      {s : PthreadCondArg} → Reach s → s.waiter ≡ asleep → Reach (record s { waiter = testing })
