-- ===== src/PthreadLocks/Spinlock/Count.antt =====
-- The counter of the part of clib/pthread_lock_cond_sem.c on spin locks.
use chenghualearning.Common.{
  ℕ, zero, suc, ◌+◌, ◌*◌, ◌<◌, ◌≤◌, ◌≡◌, inl, inr, refl, ap, subst, ◌≢◌, Bool-cases, Bool, true,
  false, ltb, arith,
}
use chenghualearning.Common.Cint.{int_max}
use chenghualearning.Common.Family.{
  update, total, total-move, total-const, total-member, total-pair, update-all,
}
use chenghualearning.PthreadLocks.{
  goes, goes_inj, blocks_not_goes, ended_not_goes, overflows_not_goes,
}
use chenghualearning.PthreadLocks.Spinlock.{
  SpinLock, Thread, locking, loading, storing, unlocking, PthreadSpinlockArg, pthread_spinlock,
  turn, pthread_spinlock_do, Reach, start, step,
}

-- Whether a thread holds the lock, how often it has counted, and how many steps it has made.
abbrev pub holds : Thread → ℕ
holds (locking i) = 0
holds _ = 1

abbrev pub counted : Thread → ℕ
counted (locking i) = i
counted (loading i) = i
counted (storing i v) = i
counted (unlocking i) = suc i

abbrev pub made : Thread → ℕ
made (locking i) = 4 * i
made (loading i) = 4 * i + 1
made (storing i v) = 4 * i + 2
made (unlocking i) = 4 * i + 3

-- A thread is within its rounds, and the value that it has read is the counter's.
abbrev pub InRounds : (num cnt : ℕ) → Thread → Type 0
InRounds num cnt (locking i) = i ≤ num
InRounds num cnt (loading i) = i < num
InRounds num cnt (storing i v) = (i < num) × (v ≡ cnt)
InRounds num cnt (unlocking i) = i < num

abbrev pub taken : Bool → ℕ
taken true = 0
taken false = 1

module _ (L : SpinLock) (n num : ℕ) where
  pub record IsSound (k : ℕ) (s : PthreadSpinlockArg L) : Type 0 where
    pub holders : total holds n s.threads ≡ taken (L.is_free s.lock)
    pub count : total counted n s.threads ≡ s.cnt
    pub steps : total made n s.threads ≡ k
    pub rounds : (j : ℕ) → j < n → InRounds num s.cnt (s.threads j)

  start-IsSound : IsSound 0 (pthread_spinlock L)
  unfolding pthread_spinlock
  start-IsSound = record {
    holders =
        omega (arith, total-const holds n 0 (λ _. locking 0) (λ j h. refl), ap taken (L.init-free));
    count = omega (arith, total-const counted n 0 (λ _. locking 0) (λ j h. refl));
    steps = omega (arith, total-const made n 0 (λ _. locking 0) (λ j h. refl));
    rounds = λ j h. omega arith;
  }

  module _ (k : ℕ) (s s' : PthreadSpinlockArg L) (j : ℕ) (sound : IsSound k s) (low : j < n) where
    -- A move that leaves the other threads within their rounds.
    moves-IsSound :
        (p q : Thread) (l : L.Lock) (cnt : ℕ)
        → s.threads j ≡ p
        → holds q + taken (L.is_free s.lock) ≡ holds p + taken (L.is_free l)
        → counted q + s.cnt ≡ counted p + cnt
        → made q ≡ suc (made p)
        → InRounds num cnt q
        → ((i : ℕ) → i < n → i ≢ j → InRounds num cnt (s.threads i))
        → IsSound (suc k) (record { lock = l; cnt = cnt; threads = update s.threads j q })
    moves-IsSound p q l cnt here held count made_ own others = record {
      holders = omega (arith, total-move holds n s.threads j p q low here, sound.holders);
      count = omega (arith, total-move counted n s.threads j p q low here, sound.count);
      steps = omega (arith, total-move made n s.threads j p q low here, sound.steps);
      rounds = update-all (InRounds num cnt) n s.threads j q own others;
    }

    -- What a thread that holds the lock says of it.
    held : (p : Thread) → s.threads j ≡ p → holds p ≡ 1 → L.is_free s.lock ≡ false
    held p here one = elim (Bool-cases (L.is_free s.lock)) [
      | inr e ↦ e
      | inl e ↦ absurd (
          omega
            (arith, ap holds here, total-member holds n s.threads j low, sound.holders, ap taken e))
    ]

    -- Only one thread holds it.
    alone :
        (p : Thread) (cnt : ℕ)
        → s.threads j ≡ p
        → holds p ≡ 1
        → (i : ℕ) → i < n
        → i ≢ j
        → InRounds num cnt (s.threads i)
    alone p cnt here one i h apart =
        outside (s.threads i)
          (omega (
            arith,
            ap holds here,
            total-pair holds n s.threads i j h low apart,
            sound.holders,
            ap taken (held p here one),
          ))
          (sound.rounds i h)
      where
        outside : (q : Thread) → holds q ≡ 0 → InRounds num s.cnt q → InRounds num cnt q
        outside (locking i) z r = r
        outside (loading i) z r = absurd (omega arith)
        outside (storing i v) z r = absurd (omega arith)
        outside (unlocking i) z r = absurd (omega arith)

    -- What thread `j` does in each place.
    step-IsSound : (p : Thread) → s.threads j ≡ p → turn L num j s p ≡ goes s' → IsSound (suc k) s'
    unfolding turn
    step-IsSound (locking i) here e = elim (Bool-cases (ltb i num)) [
      | inr over ↦ absurd (ended_not_goes (rw over at e))
      | inl more ↦ elim (Bool-cases (L.is_free s.lock)) [
        | inr busy ↦ absurd (blocks_not_goes (rw (more, L.lock-held s.lock busy) at e))
        | inl free ↦
            (let (l, got, busy) = L.lock-free s.lock free in
              subst (IsSound (suc k)) (goes_inj _ _ (rw (more, got) at e)) (
                moves-IsSound (locking i) (loading i) l s.cnt here (rw (free, busy) refl) refl
                  (omega arith) (ground (arith, more)) (λ i h apart. sound.rounds i h)))
      ]
    ]
    step-IsSound (loading i) here e =
        let r = subst (InRounds num s.cnt) here (sound.rounds j low) in
        subst (IsSound (suc k)) (goes_inj _ _ e) (
          moves-IsSound (loading i) (storing i s.cnt) s.lock s.cnt here refl refl (omega arith)
            (r, refl) (λ i h apart. sound.rounds i h))
    step-IsSound (storing i v) here e =
        let (below, same) = subst (InRounds num s.cnt) here (sound.rounds j low) in
        elim (Bool-cases (ltb v int_max)) [
          | inr over ↦ absurd (overflows_not_goes (rw over at e))
          | inl c ↦ subst (IsSound (suc k)) (goes_inj _ _ (rw c at e)) (
              moves-IsSound (storing i v) (unlocking i) s.lock (v + 1) here refl (omega arith)
                (omega arith) below (alone (storing i v) (v + 1) here refl))
        ]
    step-IsSound (unlocking i) here e =
        let r = subst (InRounds num s.cnt) here (sound.rounds j low) in
        let busy = held (unlocking i) here refl in
        subst (IsSound (suc k)) (goes_inj _ _ e) (
          moves-IsSound (unlocking i) (locking (suc i)) (L.spin_unlock s.lock) s.cnt here
            (rw (busy, L.unlock-free s.lock busy) refl) refl (omega arith) r
            (λ i h apart. sound.rounds i h))

  pub Reach-IsSound : (k : ℕ) (s : PthreadSpinlockArg L) → Reach L n num k s → IsSound k s
  unfolding pthread_spinlock_do
  Reach-IsSound zero s start = start-IsSound
  Reach-IsSound (suc k) s' (step {s = s} j before low e) =
      step-IsSound k s s' j (Reach-IsSound k s before) low (s.threads j) refl e
