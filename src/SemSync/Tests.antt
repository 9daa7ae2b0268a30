-- ===== src/SemSync/Tests.antt =====
-- The theorems about clib/pthread_sem_sync.c at a run of it, and the output of round 1.
use chenghualearning.Common.{
  ℕ, zero, suc, ◌<◌, ◌≤◌, ◌≡◌, ◌⊎◌, refl, Option, none, some, [], ◌∷◌, arith,
}
use chenghualearning.SemSync.{thread_num, State, do_print, args, sync_print, Reach, start, step}
use chenghualearning.SemSync.Turns.{turns, turns_of}
use chenghualearning.SemSync.Order.{Reach-turns, Reach-progress}

program : Unit {0}
unfolding do_print args sync_print turns turns_of
program = tt

-- One pass over the threads, each of which steps if it can, as often as `fuel` says.
abbrev or_same : State → Option State → State
or_same s none = s
or_same s (some s') = s'

pass : ℕ → State → State
pass num s =
    let s = or_same s (do_print (args num 0) 0 s) in
    let s = or_same s (do_print (args num 1) 1 s) in
    let s = or_same s (do_print (args num 2) 2 s) in or_same s (do_print (args num 3) 3 s)

passes : ℕ → ℕ → State → State
passes zero num s = s
passes (suc n) num s = passes n num (pass num s)

prints_in_turn : (passes 24 2 (sync_print 1)).out ≡ 2 ∷ 3 ∷ 4 ∷ 1 ∷ 2 ∷ 3 ∷ 4 ∷ 1 ∷ []
unfolding program pass passes
prints_in_turn = refl

-- Thread 1 of round 1 has printed.
abbrev printed : State
printed = or_same (sync_print 1) (do_print (args 20 1) 1 taken)
  where
    taken : State
    taken = or_same (sync_print 1) (do_print (args 20 1) 1 (sync_print 1))

printed-Reach : Reach 20 1 printed
unfolding program
printed-Reach = step 1 (step 1 start (omega arith) refl) (omega arith) refl

Reach-turns_example : (t : ℕ) × (t ≤ 80) × (printed.out ≡ turns 1 t)
Reach-turns_example = Reach-turns 20 1 printed printed-Reach

Reach-progress_example :
    ((j : ℕ) × (j < thread_num) × (s' : State) × (do_print (args 20 j) j printed ≡ some s'))
    ⊎ ((printed.out ≡ turns 1 80) × ((j : ℕ) → j < thread_num → printed.i j ≡ 20))
Reach-progress_example = Reach-progress 20 1 printed printed-Reach
