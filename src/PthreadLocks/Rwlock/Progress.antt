-- ===== src/PthreadLocks/Rwlock/Progress.antt =====
-- The threads of the part of clib/pthread_lock_cond_sem.c on read-write locks come to their ends.
use chenghualearning.Common.{
  ℕ, ◌+◌, ◌-◌, ◌*◌, ◌<◌, ◌≤◌, ◌≡◌, ◌⊎◌, inl, inr, refl, sym, ap, subst, ◌∙◌, true, false, ltb,
  arith,
}
use chenghualearning.Common.Cint.{int_max}
use chenghualearning.Common.Family.{update, total-const, total-search, total-bound, total-under}
use chenghualearning.PthreadLocks.{goes, ended}
use chenghualearning.PthreadLocks.Rwlock.{
  RwLock, Reader, resting, reading, Writer, locking, loading, storing, unlocking, PthreadRwlockArg,
  read_turn, write_turn, pthread_rwlock_read, pthread_rwlock_write, Reach,
}
use chenghualearning.PthreadLocks.Rwlock.Count.{
  reads_held, reads_made, reads_begun, holds, counted, made, InRounds, IsSound, Reach-IsSound,
}

module _ (L : RwLock) (n num : ℕ) where
  -- A thread can go on.
  abbrev pub CanGo : PthreadRwlockArg L → Type 0
  CanGo s =
      (j : ℕ) × (s' : PthreadRwlockArg L) × (j < n)
      × ((pthread_rwlock_read L num j s ≡ goes s') ⊎ (pthread_rwlock_write L num j s ≡ goes s'))

  -- All threads are at their end.
  abbrev pub AllEnded : PthreadRwlockArg L → Type 0
  AllEnded s =
      (j : ℕ)
      → j < n
      → (pthread_rwlock_read L num j s ≡ ended) × (pthread_rwlock_write L num j s ≡ ended)

  module _ (k : ℕ) (s : PthreadRwlockArg L) (sound : IsSound L n num k s)
      (room : n * num ≤ int_max) where
    few : (p : Writer) → InRounds num s.cnt p → (counted p ≤ num) × (made p ≤ 4 * num)
    few (locking i) r = (r, omega arith)
    few (loading i) r = (omega arith, omega arith)
    few (storing i v) r = (omega arith, omega arith)
    few (unlocking i) r = (omega arith, omega arith)

    reads_few : (p : Reader) → reads_begun p ≤ num → reads_made p ≤ 2 * num
    reads_few (resting i) r = omega arith
    reads_few (reading i) r = omega arith

    reader_unlocks :
        (j : ℕ) (p : Reader)
        → 0 < reads_held p
        → (s' : PthreadRwlockArg L) × (read_turn L num j s p ≡ goes s')
    unfolding read_turn
    reader_unlocks j (resting i) held = absurd (omega arith)
    reader_unlocks j (reading i) held = (_, refl)

    -- The writer that holds the lock can go on.
    writer_goes :
        (j : ℕ) (p : Writer)
        → j < n
        → 0 < holds p
        → s.write_threads j ≡ p
        → (s' : PthreadRwlockArg L) × (write_turn L num j s p ≡ goes s')
    unfolding write_turn
    writer_goes j (locking i) low held here = absurd (omega arith)
    writer_goes j (loading i) low held here = (_, refl)
    writer_goes j (storing i v) low held here =
        let (below, same) = subst (InRounds num s.cnt) here (sound.write_rounds j low) in
        let under =
          total-under counted n num s.write_threads j
            (λ i h. (few (s.write_threads i) (sound.write_rounds i h)).0) low
            (omega (arith, ap counted here)) in
        let c : ltb v int_max ≡ true = small v (omega (arith, sound.count)) in
        (
          record s { cnt = v + 1; write_threads = update s.write_threads j (unlocking i) },
          rw c refl,
        )
      where
        small : (v : ℕ) → v < int_max → ltb v int_max ≡ true
        small v h = ground arith
    writer_goes j (unlocking i) low held here = (_, refl)

    reads_left : Reader → ℕ
    reads_left (resting i) = num - i
    reads_left (reading i) = 0

    left : Writer → ℕ
    left (locking i) = num - i
    left _ = 0

    -- With no writer in, a reader that is not at its end takes the lock.
    reader_locks :
        (j : ℕ) (p : Reader)
        → 0 < reads_left p
        → L.writers s.rwlock ≡ 0
        → (s' : PthreadRwlockArg L) × (read_turn L num j s p ≡ goes s')
    unfolding reads_left read_turn
    reader_locks j (resting i) more free =
        let (l, got, up, out) = L.rdlock-goes s.rwlock free in
        let c : ltb i num ≡ true = ground arith in
        (
          record s { rwlock = l; read_threads = update s.read_threads j (reading i) },
          rw (c, got) refl,
        )
    reader_locks j (reading i) more free = absurd (omega arith)

    -- With nobody in, so does a writer.
    writer_locks :
        (j : ℕ) (p : Writer)
        → 0 < left p
        → L.writers s.rwlock ≡ 0
        → L.readers s.rwlock ≡ 0
        → (s' : PthreadRwlockArg L) × (write_turn L num j s p ≡ goes s')
    unfolding left write_turn
    writer_locks j (locking i) more free clear =
        let (l, got, up, out) = L.wrlock-goes s.rwlock free clear in
        let c : ltb i num ≡ true = ground arith in
        (
          record s { rwlock = l; write_threads = update s.write_threads j (loading i) },
          rw (c, got) refl,
        )
    writer_locks j (loading i) more free clear = absurd (omega arith)
    writer_locks j (storing i v) more free clear = absurd (omega arith)
    writer_locks j (unlocking i) more free clear = absurd (omega arith)

    reader_ended :
        (j : ℕ) (p : Reader)
        → reads_held p ≡ 0
        → reads_left p ≡ 0
        → reads_begun p ≤ num
        → (read_turn L num j s p ≡ ended) × (reads_made p ≡ 2 * num)
    unfolding reads_left read_turn
    reader_ended j (resting i) idle z r =
        let c : ltb i num ≡ false = ground arith in (rw c refl, omega arith)
    reader_ended j (reading i) idle z r = absurd (omega arith)

    writer_ended :
        (j : ℕ) (p : Writer)
        → holds p ≡ 0
        → left p ≡ 0
        → InRounds num s.cnt p
        → (write_turn L num j s p ≡ ended) × (counted p ≡ num) × (made p ≡ 4 * num)
    unfolding left write_turn
    writer_ended j (locking i) idle z r =
        let c : ltb i num ≡ false = ground arith in (rw c refl, omega arith, omega arith)
    writer_ended j (loading i) idle z r = absurd (omega arith)
    writer_ended j (storing i v) idle z r = absurd (omega arith)
    writer_ended j (unlocking i) idle z r = absurd (omega arith)

    -- Where nobody holds the lock, a thread takes it or all are at their end.
    free_progress :
        ((j : ℕ) → j < n → reads_held (s.read_threads j) ≡ 0)
        → ((j : ℕ) → j < n → holds (s.write_threads j) ≡ 0)
        → CanGo s ⊎ (AllEnded s × (s.cnt ≡ n * num) × (k ≡ n * (2 * num) + n * (4 * num)))
    unfolding pthread_rwlock_read pthread_rwlock_write
    free_progress reader_idle writer_idle =
        let clear : L.readers s.rwlock ≡ 0 =
          omega (arith, sound.readers, total-const reads_held n 0 s.read_threads reader_idle) in
        let free : L.writers s.rwlock ≡ 0 =
          omega (arith, sound.writers, total-const holds n 0 s.write_threads writer_idle) in
        elim (total-search reads_left n s.read_threads) [
          | inr (j, low, more) ↦
              (let (s', e) = reader_locks j (s.read_threads j) more free in inl (j, s', low, inl e))
          | inl read_all ↦ elim (total-search left n s.write_threads) [
            | inr (j, low, more) ↦
                (let (s', e) = writer_locks j (s.write_threads j) more free clear in
                  inl (j, s', low, inr e))
            | inl written_all ↦
                (let stops = λ (j : ℕ) (h : j < n).
                    reader_ended j (s.read_threads j) (reader_idle j h) (read_all j h)
                      (sound.read_rounds j h) in
                  let ends = λ (j : ℕ) (h : j < n).
                    writer_ended j (s.write_threads j) (writer_idle j h) (written_all j h)
                      (sound.write_rounds j h) in
                  inr (
                    λ j h. ((stops j h).0, (ends j h).0),
                    sym (sound.count)
                        ∙ total-const counted n num s.write_threads (λ j h. (ends j h).1),
                    omega (
                      arith,
                      sound.steps,
                      total-const reads_made n (2 * num) s.read_threads (λ j h. (stops j h).1),
                      total-const made n (4 * num) s.write_threads (λ j h. (ends j h).2),
                    ),
                  ))
          ]
        ]

    progress : CanGo s ⊎ (AllEnded s × (s.cnt ≡ n * num) × (k ≡ n * (2 * num) + n * (4 * num)))
    unfolding pthread_rwlock_read pthread_rwlock_write
    progress = elim (total-search reads_held n s.read_threads) [
      | inr (j, low, held) ↦
          (let (s', e) = reader_unlocks j (s.read_threads j) held in inl (j, s', low, inl e))
      | inl reader_idle ↦ elim (total-search holds n s.write_threads) [
        | inr (j, low, held) ↦
            (let (s', e) = writer_goes j (s.write_threads j) low held refl in
              inl (j, s', low, inr e))
        | inl writer_idle ↦ free_progress reader_idle writer_idle
      ]
    ]

  -- `n` reading and `n` writing threads of `num` rounds, where n * num is an int, lose no increment:
  -- in every order of their steps, at most 6 * n * num of them succeed, and in every state that they
  -- reach a thread can go on, or all are at their end, after just so many steps, and the counter is
  -- n * num.
  pub rwlock_counts :
      (k : ℕ) (s : PthreadRwlockArg L)
      → n * num ≤ int_max
      → Reach L n num k s
      → (k ≤ n * (2 * num) + n * (4 * num))
        × (CanGo s ⊎ (AllEnded s × (s.cnt ≡ n * num) × (k ≡ n * (2 * num) + n * (4 * num))))
  rwlock_counts k s room reached =
      let sound = Reach-IsSound L n num k s reached in
      (
        omega (
          arith,
          sound.steps,
          total-bound reads_made n (2 * num) s.read_threads
              (λ j h. reads_few k s sound room (s.read_threads j) (sound.read_rounds j h)),
          total-bound made n (4 * num) s.write_threads
              (λ j h. (few k s sound room (s.write_threads j) (sound.write_rounds j h)).1),
        ),
        progress k s sound room,
      )
