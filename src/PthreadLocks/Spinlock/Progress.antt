-- ===== src/PthreadLocks/Spinlock/Progress.antt =====
-- The threads of the part of clib/pthread_lock_cond_sem.c on spin locks come to their ends.
use chenghualearning.Common.{
  ℕ, ◌+◌, ◌-◌, ◌*◌, ◌<◌, ◌≤◌, ◌≡◌, ◌⊎◌, inl, inr, refl, sym, ap, subst, ◌∙◌, Bool-cases, true,
  false, ltb, arith,
}
use chenghualearning.Common.Cint.{int_max}
use chenghualearning.Common.Family.{update, total-const, total-search, total-bound, total-under}
use chenghualearning.PthreadLocks.{goes, ended}
use chenghualearning.PthreadLocks.Spinlock.{
  SpinLock, Thread, locking, loading, storing, unlocking, PthreadSpinlockArg, turn,
  pthread_spinlock_do, Reach,
}
use chenghualearning.PthreadLocks.Spinlock.Count.{
  holds, counted, made, InRounds, taken, IsSound, Reach-IsSound,
}

module _ (L : SpinLock) (n num : ℕ) where
  -- A thread can go on.
  abbrev pub CanGo : PthreadSpinlockArg L → Type 0
  CanGo s =
      (j : ℕ) × (s' : PthreadSpinlockArg L) × (j < n) × (pthread_spinlock_do L num j s ≡ goes s')

  -- All threads are at their end.
  abbrev pub AllEnded : PthreadSpinlockArg L → Type 0
  AllEnded s = (j : ℕ) → j < n → pthread_spinlock_do L num j s ≡ ended

  module _ (k : ℕ) (s : PthreadSpinlockArg L) (sound : IsSound L n num k s)
      (room : n * num ≤ int_max) where
    few : (p : Thread) → InRounds num s.cnt p → (counted p ≤ num) × (made p ≤ 4 * num)
    few (locking i) r = (r, omega arith)
    few (loading i) r = (omega arith, omega arith)
    few (storing i v) r = (omega arith, omega arith)
    few (unlocking i) r = (omega arith, omega arith)

    -- The thread that holds the lock can go on.
    holder_goes :
        (j : ℕ) (p : Thread)
        → j < n
        → 0 < holds p
        → s.threads j ≡ p
        → (s' : PthreadSpinlockArg L) × (turn L num j s p ≡ goes s')
    unfolding turn
    holder_goes j (locking i) low held here = absurd (omega arith)
    holder_goes j (loading i) low held here = (_, refl)
    holder_goes j (storing i v) low held here =
        let (below, same) = subst (InRounds num s.cnt) here (sound.rounds j low) in
        let under =
          total-under counted n num s.threads j (λ i h. (few (s.threads i) (sound.rounds i h)).0)
            low (omega (arith, ap counted here)) in
        let c : ltb v int_max ≡ true = small v (omega (arith, sound.count)) in
        (record s { cnt = v + 1; threads = update s.threads j (unlocking i) }, rw c refl)
      where
        small : (v : ℕ) → v < int_max → ltb v int_max ≡ true
        small v h = ground arith
    holder_goes j (unlocking i) low held here = (_, refl)

    left : Thread → ℕ
    left (locking i) = num - i
    left _ = 0

    -- With the lock free, a thread that is not at its end takes it.
    waiter_goes :
        (j : ℕ) (p : Thread)
        → 0 < left p
        → L.is_free s.lock ≡ true
        → (s' : PthreadSpinlockArg L) × (turn L num j s p ≡ goes s')
    unfolding left turn
    waiter_goes j (locking i) more free =
        let (l, got, busy) = L.lock-free s.lock free in
        let c : ltb i num ≡ true = ground arith in
        (record s { lock = l; threads = update s.threads j (loading i) }, rw (c, got) refl)
    waiter_goes j (loading i) more free = absurd (omega arith)
    waiter_goes j (storing i v) more free = absurd (omega arith)
    waiter_goes j (unlocking i) more free = absurd (omega arith)

    -- A thread that neither holds the lock nor can take it is at its end.
    at_end :
        (j : ℕ) (p : Thread)
        → holds p ≡ 0
        → left p ≡ 0
        → InRounds num s.cnt p
        → (turn L num j s p ≡ ended) × (counted p ≡ num) × (made p ≡ 4 * num)
    unfolding left turn
    at_end j (locking i) idle z r =
        let c : ltb i num ≡ false = ground arith in (rw c refl, omega arith, omega arith)
    at_end j (loading i) idle z r = absurd (omega arith)
    at_end j (storing i v) idle z r = absurd (omega arith)
    at_end j (unlocking i) idle z r = absurd (omega arith)

    progress : CanGo s ⊎ (AllEnded s × (s.cnt ≡ n * num) × (k ≡ n * (4 * num)))
    unfolding pthread_spinlock_do
    progress = elim (total-search holds n s.threads) [
      | inr (j, low, more) ↦
          (let (s', e) = holder_goes j (s.threads j) low more refl in inl (j, s', low, e))
      | inl idle ↦ elim (total-search left n s.threads) [
        | inr (j, low, more) ↦
            (let free = unheld idle in
              let (s', e) = waiter_goes j (s.threads j) more free in inl (j, s', low, e))
        | inl z ↦
            (let end = λ (j : ℕ) (h : j < n).
                at_end j (s.threads j) (idle j h) (z j h) (sound.rounds j h) in
              inr (
                λ j h. (end j h).0,
                sym (sound.count) ∙ total-const counted n num s.threads (λ j h. (end j h).1),
                sym (sound.steps) ∙ total-const made n (4 * num) s.threads (λ j h. (end j h).2),
              ))
      ]
    ]
      where
        unheld : ((j : ℕ) → j < n → holds (s.threads j) ≡ 0) → L.is_free s.lock ≡ true
        unheld idle = elim (Bool-cases (L.is_free s.lock)) [
          | inl e ↦ e
          | inr e ↦
              absurd
                (omega (arith, total-const holds n 0 s.threads idle, sound.holders, ap taken e))
        ]

  -- `n` threads of `num` rounds, where n * num is an int, lose no increment: in every order of their
  -- steps, at most 4 * n * num of them succeed, and in every state that they reach a thread can go
  -- on, or all are at their end, after just so many steps, and the counter is n * num.
  pub spinlock_counts :
      (k : ℕ) (s : PthreadSpinlockArg L)
      → n * num ≤ int_max
      → Reach L n num k s
      → (k ≤ n * (4 * num)) × (CanGo s ⊎ (AllEnded s × (s.cnt ≡ n * num) × (k ≡ n * (4 * num))))
  spinlock_counts k s room reached =
      let sound = Reach-IsSound L n num k s reached in
      (
        omega (
          arith,
          sound.steps,
          total-bound made n (4 * num) s.threads
              (λ j h. (few k s sound room (s.threads j) (sound.rounds j h)).1),
        ),
        progress k s sound room,
      )
