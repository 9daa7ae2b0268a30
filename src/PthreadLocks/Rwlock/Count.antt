-- ===== src/PthreadLocks/Rwlock/Count.antt =====
-- The counter of the part of clib/pthread_lock_cond_sem.c on read-write locks.
use chenghualearning.Common.{
  ℕ, zero, suc, ◌+◌, ◌-◌, ◌*◌, ◌<◌, ◌≤◌, ◌≡◌, ◌≢◌, ◌⊎◌, inl, inr, refl, ap, subst, Bool-cases, ltb,
  arith, ℕ_discrete,
}
use chenghualearning.Common.Cint.{int_max}
use chenghualearning.Common.Family.{
  update, update-all, total, total-move, total-const, total-member, total-pair,
}
use chenghualearning.PthreadLocks.{
  goes, goes_inj, blocks_not_goes, ended_not_goes, overflows_not_goes,
}
use chenghualearning.PthreadLocks.Rwlock.{
  RwLock, Reader, resting, reading, Writer, locking, loading, storing, unlocking, PthreadRwlockArg,
  pthread_rwlock, read_turn, write_turn, pthread_rwlock_read, pthread_rwlock_write, Reach, start,
  reads, writes,
}

-- Whether a thread holds the lock, how often it has counted, how many steps it has made, and the
-- rounds that it has begun.
abbrev pub reads_held : Reader → ℕ
reads_held (resting i) = 0
reads_held (reading i) = 1

abbrev pub reads_made : Reader → ℕ
reads_made (resting i) = 2 * i
reads_made (reading i) = 2 * i + 1

abbrev pub reads_begun : Reader → ℕ
reads_begun (resting i) = i
reads_begun (reading i) = suc i

abbrev pub holds : Writer → ℕ
holds (locking i) = 0
holds _ = 1

abbrev pub counted : Writer → ℕ
counted (locking i) = i
counted (loading i) = i
counted (storing i v) = i
counted (unlocking i) = suc i

abbrev pub made : Writer → ℕ
made (locking i) = 4 * i
made (loading i) = 4 * i + 1
made (storing i v) = 4 * i + 2
made (unlocking i) = 4 * i + 3

-- A writer is within its rounds, and the value that it has read is the counter's.
abbrev pub InRounds : (num cnt : ℕ) → Writer → Type 0
InRounds num cnt (locking i) = i ≤ num
InRounds num cnt (loading i) = i < num
InRounds num cnt (storing i v) = (i < num) × (v ≡ cnt)
InRounds num cnt (unlocking i) = i < num

module _ (L : RwLock) (n num : ℕ) where
  -- No writer, or one and no reader.
  abbrev pub Exclusive : L.Lock → Type 0
  Exclusive l = (L.writers l ≡ 0) ⊎ ((L.writers l ≡ 1) × (L.readers l ≡ 0))

  pub record IsSound (k : ℕ) (s : PthreadRwlockArg L) : Type 0 where
    pub readers : total reads_held n s.read_threads ≡ L.readers s.rwlock
    pub writers : total holds n s.write_threads ≡ L.writers s.rwlock
    pub exclusive : Exclusive s.rwlock
    pub count : total counted n s.write_threads ≡ s.cnt
    pub steps : total reads_made n s.read_threads + total made n s.write_threads ≡ k
    pub read_rounds : (j : ℕ) → j < n → reads_begun (s.read_threads j) ≤ num
    pub write_rounds : (j : ℕ) → j < n → InRounds num s.cnt (s.write_threads j)

  start-IsSound : IsSound 0 (pthread_rwlock L)
  unfolding pthread_rwlock
  start-IsSound =
      let (no_reader, no_writer) = L.init-free in
      record {
        readers =
            omega (arith, no_reader, total-const reads_held n 0 (λ _. resting 0) (λ j h. refl));
        writers = omega (arith, no_writer, total-const holds n 0 (λ _. locking 0) (λ j h. refl));
        exclusive = inl no_writer;
        count = omega (arith, total-const counted n 0 (λ _. locking 0) (λ j h. refl));
        steps = omega (
          arith,
          total-const reads_made n 0 (λ _. resting 0) (λ j h. refl),
          total-const made n 0 (λ _. locking 0) (λ j h. refl),
        );
        read_rounds = λ j h. omega arith;
        write_rounds = λ j h. omega arith;
      }

  module _ (k : ℕ) (s s' : PthreadRwlockArg L) (j : ℕ) (sound : IsSound k s) (low : j < n) where
    -- A move of a reader, which leaves the writers alone.
    read_moves-IsSound :
        (p q : Reader) (l : L.Lock)
        → s.read_threads j ≡ p
        → reads_held q + L.readers s.rwlock ≡ reads_held p + L.readers l
        → L.writers l ≡ L.writers s.rwlock
        → Exclusive l
        → reads_made q ≡ suc (reads_made p)
        → reads_begun q ≤ num
        → IsSound (suc k) (record s { rwlock = l; read_threads = update s.read_threads j q })
    read_moves-IsSound p q l here held same exclusive more own = record {
      readers = omega (arith, total-move reads_held n s.read_threads j p q low here, sound.readers);
      writers = omega (arith, sound.writers);
      exclusive = exclusive;
      count = sound.count;
      steps = omega (arith, total-move reads_made n s.read_threads j p q low here, sound.steps);
      read_rounds =
          update-all (λ p. reads_begun p ≤ num) n s.read_threads j q own
            (λ i h apart. sound.read_rounds i h);
      write_rounds = sound.write_rounds;
    }

    -- A move of a writer that leaves the other writers within their rounds.
    write_moves-IsSound :
        (p q : Writer) (l : L.Lock) (cnt : ℕ)
        → s.write_threads j ≡ p
        → holds q + L.writers s.rwlock ≡ holds p + L.writers l
        → L.readers l ≡ L.readers s.rwlock
        → Exclusive l
        → counted q + s.cnt ≡ counted p + cnt
        → made q ≡ suc (made p)
        → InRounds num cnt q
        → ((i : ℕ) → i < n → i ≢ j → InRounds num cnt (s.write_threads i))
        → IsSound
            (suc k)
            (record s { rwlock = l; cnt = cnt; write_threads = update s.write_threads j q })
    write_moves-IsSound p q l cnt here held same exclusive count more own others = record {
      readers = omega (arith, sound.readers);
      writers = omega (arith, total-move holds n s.write_threads j p q low here, sound.writers);
      exclusive = exclusive;
      count = omega (arith, total-move counted n s.write_threads j p q low here, sound.count);
      steps = omega (arith, total-move made n s.write_threads j p q low here, sound.steps);
      read_rounds = sound.read_rounds;
      write_rounds = update-all (InRounds num cnt) n s.write_threads j q own others;
    }

    -- A reader that holds the lock keeps the writers out.
    reading_alone : (i : ℕ) → s.read_threads j ≡ reading i → 0 < L.readers s.rwlock
    reading_alone i here =
        omega
          (arith, ap reads_held here, total-member reads_held n s.read_threads j low, sound.readers)

    -- A writer that holds it is the only one, and no reader does.
    writing_alone :
        (p : Writer)
        → s.write_threads j ≡ p
        → holds p ≡ 1
        → (L.writers s.rwlock ≡ 1) × (L.readers s.rwlock ≡ 0)
    writing_alone p here one = elim (sound.exclusive) [
      | inr e ↦ e
      | inl e ↦
          absurd (
            omega (arith, ap holds here, total-member holds n s.write_threads j low, sound.writers))
    ]

    others_out :
        (p : Writer) (cnt : ℕ)
        → s.write_threads j ≡ p
        → holds p ≡ 1
        → (i : ℕ) → i < n
        → i ≢ j
        → InRounds num cnt (s.write_threads i)
    others_out p cnt here one i h apart =
        outside (s.write_threads i)
          (omega (
            arith,
            ap holds here,
            total-pair holds n s.write_threads i j h low apart,
            sound.writers,
            writing_alone p here one,
          ))
          (sound.write_rounds i h)
      where
        outside : (q : Writer) → holds q ≡ 0 → InRounds num s.cnt q → InRounds num cnt q
        outside (locking i) z r = r
        outside (loading i) z r = absurd (omega arith)
        outside (storing i v) z r = absurd (omega arith)
        outside (unlocking i) z r = absurd (omega arith)

    reads-IsSound :
        (p : Reader) → s.read_threads j ≡ p → read_turn L num j s p ≡ goes s' → IsSound (suc k) s'
    unfolding read_turn
    reads-IsSound (resting i) here e = elim (Bool-cases (ltb i num)) [
      | inr over ↦ absurd (ended_not_goes (rw over at e))
      | inl more ↦ elim (sound.exclusive) [
        | inr (one, zero_) ↦
            absurd (blocks_not_goes (rw (more, L.rdlock-blocks s.rwlock (omega arith)) at e))
        | inl free ↦
            (let (l, got, up, out) = L.rdlock-goes s.rwlock free in
              subst (IsSound (suc k)) (goes_inj _ _ (rw (more, got) at e)) (
                read_moves-IsSound (resting i) (reading i) l here (omega arith) (omega arith)
                  (inl out) (omega arith) (ground (arith, more))))
      ]
    ]
    reads-IsSound (reading i) here e =
        let r = subst (λ p. reads_begun p ≤ num) here (sound.read_rounds j low) in
        let some_reader = reading_alone i here in
        let free : L.writers s.rwlock ≡ 0 = omega (arith, sound.exclusive) in
        let (down, out) = L.unlock-reader s.rwlock (L.readers s.rwlock - 1) free (omega arith) in
        subst (IsSound (suc k)) (goes_inj _ _ e) (
          read_moves-IsSound (reading i) (resting (suc i)) (L.unlock s.rwlock) here (omega arith)
            (omega arith) (inl out) (omega arith) r)

    writes-IsSound :
        (p : Writer) → s.write_threads j ≡ p → write_turn L num j s p ≡ goes s' → IsSound (suc k) s'
    unfolding write_turn
    writes-IsSound (locking i) here e = elim (Bool-cases (ltb i num)) [
      | inr over ↦ absurd (ended_not_goes (rw over at e))
      | inl more ↦ elim (ℕ_discrete (L.writers s.rwlock + L.readers s.rwlock) 0) [
        | no busy ↦
            absurd (blocks_not_goes (rw (more, L.wrlock-blocks s.rwlock (omega arith)) at e))
        | yes free ↦
            (let (l, got, zero_, one) = L.wrlock-goes s.rwlock (omega arith) (omega arith) in
              subst (IsSound (suc k)) (goes_inj _ _ (rw (more, got) at e)) (
                write_moves-IsSound (locking i) (loading i) l s.cnt here (omega arith) (omega arith)
                  (inr (one, zero_)) refl (omega arith) (ground (arith, more))
                  (λ i h apart. sound.write_rounds i h)))
      ]
    ]
    writes-IsSound (loading i) here e =
        let r = subst (InRounds num s.cnt) here (sound.write_rounds j low) in
        subst (IsSound (suc k)) (goes_inj _ _ e) (
          write_moves-IsSound (loading i) (storing i s.cnt) s.rwlock s.cnt here refl refl
            sound.exclusive refl (omega arith) (r, refl) (λ i h apart. sound.write_rounds i h))
    writes-IsSound (storing i v) here e =
        let (below, same) = subst (InRounds num s.cnt) here (sound.write_rounds j low) in
        elim (Bool-cases (ltb v int_max)) [
          | inr over ↦ absurd (overflows_not_goes (rw over at e))
          | inl c ↦ subst (IsSound (suc k)) (goes_inj _ _ (rw c at e)) (
              write_moves-IsSound (storing i v) (unlocking i) s.rwlock (v + 1) here refl refl
                sound.exclusive (omega arith) (omega arith) below
                (others_out (storing i v) (v + 1) here refl))
        ]
    writes-IsSound (unlocking i) here e =
        let r = subst (InRounds num s.cnt) here (sound.write_rounds j low) in
        let (one, zero_) = writing_alone (unlocking i) here refl in
        let (none_read, none_write) = L.unlock-writer s.rwlock one zero_ in
        subst (IsSound (suc k)) (goes_inj _ _ e) (
          write_moves-IsSound (unlocking i) (locking (suc i)) (L.unlock s.rwlock) s.cnt here
            (omega arith) (omega arith) (inl none_write) refl (omega arith) r
            (λ i h apart. sound.write_rounds i h))

  pub Reach-IsSound : (k : ℕ) (s : PthreadRwlockArg L) → Reach L n num k s → IsSound k s
  unfolding pthread_rwlock_read pthread_rwlock_write
  Reach-IsSound zero s start = start-IsSound
  Reach-IsSound (suc k) s' (reads {s = s} j before low e) =
      reads-IsSound k s s' j (Reach-IsSound k s before) low (s.read_threads j) refl e
  Reach-IsSound (suc k) s' (writes {s = s} j before low e) =
      writes-IsSound k s s' j (Reach-IsSound k s before) low (s.write_threads j) refl e
