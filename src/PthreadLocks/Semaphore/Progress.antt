-- ===== src/PthreadLocks/Semaphore/Progress.antt =====
-- The threads of the part of clib/pthread_lock_cond_sem.c on semaphores come to their ends.
use chenghualearning.Common.{
  ℕ, suc, ◌+◌, ◌-◌, ◌*◌, ◌<◌, ◌≤◌, ◌≡◌, ◌⊎◌, inl, inr, refl, sym, ◌∙◌, true, false, ltb, arith,
}
use chenghualearning.Common.Cint.{int_max}
use chenghualearning.Common.Family.{update, total-const, total-search, total-bound, total-under}
use chenghualearning.PthreadLocks.{goes, ended}
use chenghualearning.PthreadLocks.Semaphore.{
  Semaphores, Waiter, waiting, counting, PthreadSemArg, wait_turn, pthread_sem_wait, post_turn,
  pthread_sem_post, Reach,
}
use chenghualearning.PthreadLocks.Semaphore.Count.{
  taken, counted, made, self, IsSound, Reach-IsSound,
}

module _ (L : Semaphores) (n num : ℕ) where
  -- A thread can go on.
  abbrev pub CanGo : PthreadSemArg L → Type 0
  CanGo s =
      (j : ℕ) × (s' : PthreadSemArg L) × (j < n)
      × ((pthread_sem_wait L num j s ≡ goes s') ⊎ (pthread_sem_post L num j s ≡ goes s'))

  -- All threads are at their end.
  abbrev pub AllEnded : PthreadSemArg L → Type 0
  AllEnded s =
      (j : ℕ) → j < n → (pthread_sem_wait L num j s ≡ ended) × (pthread_sem_post L num j s ≡ ended)

module _ (L : Semaphores) (n num : ℕ) (small : n * num ≤ int_max)
    (room : n * num ≤ L.sem_value_max) where
  left : ℕ → ℕ
  left i = num - i

  untaken : Waiter → ℕ
  untaken (waiting i) = num - i
  untaken (counting i) = 0

  between : Waiter → ℕ
  between (waiting i) = 0
  between (counting i) = 1

  module _ (k : ℕ) (s : PthreadSemArg L) (sound : IsSound L n num small room k s) where
    counter_goes :
        (j : ℕ) (p : Waiter)
        → 0 < between p
        → (s' : PthreadSemArg L) × (wait_turn L num j s p ≡ goes s')
    unfolding wait_turn between
    counter_goes j (waiting i) h = absurd (omega arith)
    counter_goes j (counting i) h = (_, refl)

    taker_goes :
        (j : ℕ) (p : Waiter) (v : ℕ)
        → 0 < untaken p
        → L.value s.sem ≡ suc v
        → (s' : PthreadSemArg L) × (wait_turn L num j s p ≡ goes s')
    unfolding wait_turn untaken
    taker_goes j (waiting i) v more up =
        let (l, got, one) = L.wait-takes s.sem v up in
        let c : ltb i num ≡ true = ground arith in
        (
          record s { sem = l; wait_threads = update s.wait_threads j (counting i) },
          rw (c, got) refl,
        )
    taker_goes j (counting i) v more up = absurd (omega arith)

    poster_goes :
        (j i : ℕ) → 0 < left i → (s' : PthreadSemArg L) × (post_turn L num j s i ≡ goes s')
    unfolding post_turn left
    poster_goes j i more =
        let c : ltb i num ≡ true = ground arith in
        (
          record s { sem = L.sem_post s.sem; post_threads = update s.post_threads j (suc i) },
          rw c refl,
        )

    waiter_ended :
        (j : ℕ) (p : Waiter)
        → between p ≡ 0
        → untaken p ≡ 0
        → taken p ≤ num
        → (wait_turn L num j s p ≡ ended) × (counted p ≡ num) × (made p ≡ 2 * num)
    unfolding wait_turn between untaken
    waiter_ended j (waiting i) idle z r =
        let c : ltb i num ≡ false = ground arith in (rw c refl, omega arith, omega arith)
    waiter_ended j (counting i) idle z r = absurd (omega arith)

    poster_ended : (j i : ℕ) → left i ≡ 0 → i ≤ num → (post_turn L num j s i ≡ ended) × (i ≡ num)
    unfolding post_turn left
    poster_ended j i z r = let c : ltb i num ≡ false = ground arith in (rw c refl, omega arith)

    -- A thread that waits while all posts have been made finds a unit left.
    unit_left :
        (j : ℕ)
        → j < n
        → 0 < untaken (s.wait_threads j)
        → ((i : ℕ) → i < n → left (s.post_threads i) ≡ 0)
        → 0 < L.value s.sem
    unfolding left untaken
    unit_left j low more posted = omega (
      arith,
      sound.units,
      total-const self n num s.post_threads
          (λ i h. omega (arith, posted i h, sound.post_rounds i h)),
      total-under taken n num s.wait_threads j sound.wait_rounds low
          (fewer (s.wait_threads j) more),
    )
      where
        fewer : (p : Waiter) → 0 < untaken p → taken p < num
        fewer (waiting i) h = omega arith
        fewer (counting i) h = absurd (omega arith)

    progress :
        CanGo L n num s ⊎ (AllEnded L n num s × (s.cnt ≡ n * num) × (k ≡ n * (2 * num) + n * num))
    unfolding pthread_sem_wait pthread_sem_post left
    progress = elim (total-search between n s.wait_threads) [
      | inr (j, low, more) ↦
          (let (s', e) = counter_goes j (s.wait_threads j) more in inl (j, s', low, inl e))
      | inl idle ↦ elim (total-search left n s.post_threads) [
        | inr (j, low, more) ↦
            (let (s', e) = poster_goes j (s.post_threads j) more in inl (j, s', low, inr e))
        | inl posted ↦ elim (total-search untaken n s.wait_threads) [
          | inr (j, low, more) ↦
              (let up = unit_left j low more posted in
                let (s', e) =
                  taker_goes j (s.wait_threads j) (L.value s.sem - 1) more (omega arith) in
                inl (j, s', low, inl e))
          | inl z ↦
              (let ends = λ (j : ℕ) (h : j < n).
                  waiter_ended j (s.wait_threads j) (idle j h) (z j h) (sound.wait_rounds j h) in
                let stops = λ (j : ℕ) (h : j < n).
                  poster_ended j (s.post_threads j) (posted j h) (sound.post_rounds j h) in
                inr (
                  λ j h. ((ends j h).0, (stops j h).0),
                  sym (sound.count)
                      ∙ total-const counted n num s.wait_threads (λ j h. (ends j h).1),
                  omega (
                    arith,
                    sound.steps,
                    total-const made n (2 * num) s.wait_threads (λ j h. (ends j h).2),
                    total-const self n num s.post_threads (λ j h. (stops j h).1),
                  ),
                ))
        ]
      ]
    ]

    made_bound : (p : Waiter) → taken p ≤ num → made p ≤ 2 * num
    made_bound (waiting i) h = omega arith
    made_bound (counting i) h = omega arith

  -- `n` waiting and `n` posting threads of `num` rounds, where n * num is an int and a value of a
  -- semaphore, lose no unit and no increment: in every order of their steps, at most 3 * n * num of
  -- them succeed, and in every state that they reach a thread can go on, or all are at their end,
  -- after just so many steps, and the counter is n * num.
  pub semaphore_counts :
      (k : ℕ) (s : PthreadSemArg L)
      → Reach L n num k s
      → (k ≤ n * (2 * num) + n * num)
        × (CanGo L n num s
            ⊎ (AllEnded L n num s × (s.cnt ≡ n * num) × (k ≡ n * (2 * num) + n * num)))
  semaphore_counts k s reached =
      let sound = Reach-IsSound L n num small room k s reached in
      (
        omega (
          arith,
          sound.steps,
          total-bound made n (2 * num) s.wait_threads
              (λ j h. made_bound k s sound (s.wait_threads j) (sound.wait_rounds j h)),
          total-bound self n num s.post_threads sound.post_rounds,
        ),
        progress k s sound,
      )
