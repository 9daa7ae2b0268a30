-- ===== src/PthreadCond/Meet.antt =====
-- The two threads of the condition variable of clib/pthread_lock_cond_sem.c meet.
use chenghualearning.Common.{ℕ, ◌≡◌, ◌⊎◌, inl, inr, refl, Bool, true, false, some, arith}
use chenghualearning.PthreadCond.{
  Waiter, testing, asleep, finished, PthreadCondArg, pthread_cond_do_wait, wake,
  pthread_cond_do_sign, pthread_cond, Reach, start, wait, sign, spurious,
}

-- A sleeping thread has not been signalled, and `cnt` counts the meeting.
abbrev IsSound : (condition signed : Bool) → (cnt : ℕ) → Waiter → Type 0
IsSound condition signed cnt testing = (condition ≡ signed) × (cnt ≡ 0)
IsSound condition signed cnt asleep = (condition ≡ false) × (signed ≡ false) × (cnt ≡ 0)
IsSound condition signed cnt finished = (signed ≡ true) × (cnt ≡ 1)

abbrev Sound : PthreadCondArg → Type 0
Sound s = IsSound s.condition s.signed s.cnt s.waiter

wait-Sound :
    (c d : Bool) (n : ℕ) (w : Waiter) (s' : PthreadCondArg)
    → IsSound c d n w
    → pthread_cond_do_wait (record { condition = c; cnt = n; waiter = w; signed = d }) ≡ some s'
    → Sound s'
unfolding pthread_cond_do_wait
wait-Sound true d n testing s' v e = ground (arith, e)
wait-Sound false d n testing s' v e = ground (arith, e)
wait-Sound c d n asleep s' v e = ground (arith, e)
wait-Sound c d n finished s' v e = ground (arith, e)

sign-Sound :
    (c d : Bool) (n : ℕ) (w : Waiter) (s' : PthreadCondArg)
    → IsSound c d n w
    → pthread_cond_do_sign (record { condition = c; cnt = n; waiter = w; signed = d }) ≡ some s'
    → Sound s'
unfolding pthread_cond_do_sign wake
sign-Sound c true n w s' v e = ground (arith, e)
sign-Sound c false n testing s' v e = ground (arith, e)
sign-Sound c false n asleep s' v e = ground (arith, e)
sign-Sound c false n finished s' v e = ground (arith, e)

Reach-Sound : (s : PthreadCondArg) → Reach s → Sound s
unfolding pthread_cond
Reach-Sound s start = (refl, refl)
Reach-Sound s' (wait {s = s} before e) =
    wait-Sound s.condition s.signed s.cnt s.waiter s' (Reach-Sound s before) e
Reach-Sound s' (sign {s = s} before e) =
    sign-Sound s.condition s.signed s.cnt s.waiter s' (Reach-Sound s before) e
Reach-Sound s' (spurious {s = s} before e) =
    woken s.condition s.signed s.cnt s.waiter (Reach-Sound s before) e
  where
    woken : (c d : Bool) (n : ℕ) (w : Waiter) → IsSound c d n w → w ≡ asleep → (c ≡ d) × (n ≡ 0)
    woken c d n asleep v e = ground (arith, v)
    woken c d n testing v e = v
    woken c d n finished v e = ground (arith, e)

not_both : {c : Bool} {n : ℕ} → (c ≡ false) × (true ≡ false) × (n ≡ 0) → ⊥
not_both v = ground (arith, v)

-- One of the threads can step.
abbrev pub CanStep : PthreadCondArg → Type 0
CanStep s =
    (s' : PthreadCondArg) × ((pthread_cond_do_wait s ≡ some s')
      ⊎ (pthread_cond_do_sign s ≡ some s'))

Sound-progress :
    (c d : Bool) (n : ℕ) (w : Waiter)
    → IsSound c d n w
    → CanStep (record { condition = c; cnt = n; waiter = w; signed = d })
      ⊎ ((w ≡ finished) × (d ≡ true) × (n ≡ 1))
unfolding pthread_cond_do_wait pthread_cond_do_sign
Sound-progress true d n testing v = inl (_, inl refl)
Sound-progress false d n testing v = inl (_, inl refl)
Sound-progress c false n asleep v = inl (_, inr refl)
Sound-progress c true n asleep v = inl (elim (not_both v) [ ])
Sound-progress c d n finished (signed, one) = inr (refl, signed, one)

-- No wakeup is lost: in every state that the two threads can reach in any order, with spurious
-- wakeups, one of them can step, or both are at their end and `cnt` is 1.
pub Reach-meet :
    (s : PthreadCondArg)
    → Reach s
    → CanStep s ⊎ ((s.waiter ≡ finished) × (s.signed ≡ true) × (s.cnt ≡ 1))
Reach-meet s reached = Sound-progress s.condition s.signed s.cnt s.waiter (Reach-Sound s reached)

finished-counted :
    (c d : Bool) (n : ℕ) (w : Waiter)
    → IsSound c d n w
    → (n ≡ 0) ⊎ ((n ≡ 1) × (w ≡ finished) × (d ≡ true))
finished-counted c d n testing (e, zero_) = inl zero_
finished-counted c d n asleep (e, f, zero_) = inl zero_
finished-counted c d n finished (signed, one) = inr (one, refl, signed)

-- The waiting thread counts once, and only after the other has signalled, however often it is
-- woken for nothing.
pub Reach-counted :
    (s : PthreadCondArg)
    → Reach s
    → (s.cnt ≡ 0) ⊎ ((s.cnt ≡ 1) × (s.waiter ≡ finished) × (s.signed ≡ true))
Reach-counted s reached =
    finished-counted s.condition s.signed s.cnt s.waiter (Reach-Sound s reached)
