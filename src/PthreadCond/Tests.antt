-- ===== src/PthreadCond/Tests.antt =====
-- The theorems about the condition variable of clib/pthread_lock_cond_sem.c at runs of it.
use chenghualearning.Common.{◌≡◌, ◌⊎◌, refl, true, false}
use chenghualearning.PthreadCond.{
  finished, PthreadCondArg, pthread_cond_do_wait, wake, pthread_cond_do_sign, pthread_cond, Reach,
  start, wait, sign,
}
use chenghualearning.PthreadCond.Meet.{CanStep, Reach-meet, Reach-counted}

program : Unit {0}
unfolding pthread_cond_do_wait wake pthread_cond_do_sign pthread_cond
program = tt

-- Asleep, then signalled, then past the loop.
abbrev met : PthreadCondArg
met = record { condition = false; cnt = 1; waiter = finished; signed = true }

met-Reach : Reach met
unfolding program
met-Reach = wait (sign (wait start refl) refl) refl

Reach-meet_example : CanStep met ⊎ ((met.waiter ≡ finished) × (met.signed ≡ true) × (met.cnt ≡ 1))
Reach-meet_example = Reach-meet met met-Reach

Reach-counted_example :
    (met.cnt ≡ 0) ⊎ ((met.cnt ≡ 1) × (met.waiter ≡ finished) × (met.signed ≡ true))
Reach-counted_example = Reach-counted met met-Reach
