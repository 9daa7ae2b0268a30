-- ===== src/PthreadLocks/Semaphore/Count.antt =====
-- The counter of the part of clib/pthread_lock_cond_sem.c on semaphores.
use chenghualearning.Common.{
  ℕ, zero, suc, ◌+◌, ◌*◌, ◌<◌, ◌≤◌, ◌≡◌, inl, inr, refl, ap, subst, true, Bool-cases, ltb, arith,
}
use chenghualearning.Common.Cint.{int_max}
use chenghualearning.Common.Family.{update-all, total, total-move, total-const, total-under}
use chenghualearning.PthreadLocks.{goes, goes_inj, blocks_not_goes, ended_not_goes}
use chenghualearning.PthreadLocks.Semaphore.{
  Semaphores, Waiter, waiting, counting, PthreadSemArg, pthread_sem, wait_turn, pthread_sem_wait,
  post_turn, pthread_sem_post, Reach, start, waits, posts,
}

-- How many units a thread has taken from the semaphore, how often it has counted, and how many
-- steps it has made.
abbrev pub taken : Waiter → ℕ
taken (waiting i) = i
taken (counting i) = suc i

abbrev pub counted : Waiter → ℕ
counted (waiting i) = i
counted (counting i) = i

abbrev pub made : Waiter → ℕ
made (waiting i) = 2 * i
made (counting i) = 2 * i + 1

abbrev pub self : ℕ → ℕ
self i = i

module _ (L : Semaphores) (n num : ℕ) (small : n * num ≤ int_max)
    (room : n * num ≤ L.sem_value_max) where
  pub record IsSound (k : ℕ) (s : PthreadSemArg L) : Type 0 where
    pub units : L.value s.sem + total taken n s.wait_threads ≡ total self n s.post_threads
    pub count : total counted n s.wait_threads ≡ s.cnt
    pub steps : total made n s.wait_threads + total self n s.post_threads ≡ k
    pub wait_rounds : (j : ℕ) → j < n → taken (s.wait_threads j) ≤ num
    pub post_rounds : (j : ℕ) → j < n → self (s.post_threads j) ≤ num

  start-IsSound : IsSound 0 (pthread_sem L)
  unfolding pthread_sem
  start-IsSound =
      let posted = total-const self n 0 (λ _. 0) (λ j h. refl) in
      record {
        units =
            omega
              (arith, posted, total-const taken n 0 (λ _. waiting 0) (λ j h. refl), L.init-value);
        count = omega (arith, total-const counted n 0 (λ _. waiting 0) (λ j h. refl));
        steps = omega (arith, posted, total-const made n 0 (λ _. waiting 0) (λ j h. refl));
        wait_rounds = λ j h. omega arith;
        post_rounds = λ j h. omega arith;
      }

  module _ (k : ℕ) (s s' : PthreadSemArg L) (j : ℕ) (sound : IsSound k s) (low : j < n) where
    waits-IsSound :
        (p : Waiter) → s.wait_threads j ≡ p → wait_turn L num j s p ≡ goes s' → IsSound (suc k) s'
    unfolding wait_turn
    waits-IsSound (waiting i) here e = elim (Bool-cases (ltb i num)) [
      | inr over ↦ absurd (ended_not_goes (rw over at e))
      | inl more ↦ took i here more (L.value s.sem) refl e
    ]
      where
        took :
            (i : ℕ)
            → s.wait_threads j ≡ waiting i
            → ltb i num ≡ true
            → (v : ℕ) → L.value s.sem ≡ v
            → wait_turn L num j s (waiting i) ≡ goes s'
            → IsSound (suc k) s'
        took i here more zero z e = absurd (blocks_not_goes (rw (more, L.wait-blocks s.sem z) at e))
        took i here more (suc v) z e =
            let (l, got, one) = L.wait-takes s.sem v z in
            subst (IsSound (suc k)) (goes_inj _ _ (rw (more, got) at e)) (record {
              units = omega (
                arith,
                sound.units,
                total-move taken n s.wait_threads j (waiting i) (counting i) low here,
              );
              count = omega (
                arith,
                sound.count,
                total-move counted n s.wait_threads j (waiting i) (counting i) low here,
              );
              steps = omega (
                arith,
                sound.steps,
                total-move made n s.wait_threads j (waiting i) (counting i) low here,
              );
              wait_rounds =
                  update-all (λ p. taken p ≤ num) n s.wait_threads j (counting i)
                    (ground (arith, more)) (λ i h apart. sound.wait_rounds i h);
              post_rounds = sound.post_rounds;
            })
    waits-IsSound (counting i) here e =
        let r = subst (λ p. taken p ≤ num) here (sound.wait_rounds j low) in
        let counts : (i : ℕ) → i < n → counted (s.wait_threads i) ≤ num =
          λ i h. under (s.wait_threads i) (sound.wait_rounds i h) in
        let fewer =
          total-under counted n num s.wait_threads j counts low (omega (arith, ap counted here)) in
        subst (IsSound (suc k)) (goes_inj _ _ e) (record {
          units = omega (
            arith,
            sound.units,
            total-move taken n s.wait_threads j (counting i) (waiting (suc i)) low here,
          );
          count = omega (
            arith,
            sound.count,
            total-move counted n s.wait_threads j (counting i) (waiting (suc i)) low here,
          );
          steps = omega (
            arith,
            sound.steps,
            total-move made n s.wait_threads j (counting i) (waiting (suc i)) low here,
          );
          wait_rounds =
              update-all (λ p. taken p ≤ num) n s.wait_threads j (waiting (suc i)) r
                (λ i h apart. sound.wait_rounds i h);
          post_rounds = sound.post_rounds;
        })
      where
        under : (p : Waiter) → taken p ≤ num → counted p ≤ num
        under (waiting i) h = h
        under (counting i) h = omega arith

    posts-IsSound :
        (i : ℕ) → s.post_threads j ≡ i → post_turn L num j s i ≡ goes s' → IsSound (suc k) s'
    unfolding post_turn
    posts-IsSound i here e = elim (Bool-cases (ltb i num)) [
      | inr over ↦ absurd (ended_not_goes (rw over at e))
      | inl more ↦
          (let move = total-move self n s.post_threads j i (suc i) low here in
            let fewer =
              total-under self n num s.post_threads j sound.post_rounds low
                (ground (arith, here, more)) in
            let given = L.post-gives s.sem (omega (arith, sound.units)) in
            subst (IsSound (suc k)) (goes_inj _ _ (rw more at e)) (record {
              units = omega (arith, sound.units);
              count = sound.count;
              steps = omega (arith, sound.steps);
              wait_rounds = sound.wait_rounds;
              post_rounds =
                  update-all (λ i. i ≤ num) n s.post_threads j (suc i) (ground (arith, more))
                    (λ i h apart. sound.post_rounds i h);
            }))
    ]

  pub Reach-IsSound : (k : ℕ) (s : PthreadSemArg L) → Reach L n num k s → IsSound k s
  unfolding pthread_sem_wait pthread_sem_post
  Reach-IsSound zero s start = start-IsSound
  Reach-IsSound (suc k) s' (waits {s = s} j before low e) =
      waits-IsSound k s s' j (Reach-IsSound k s before) low (s.wait_threads j) refl e
  Reach-IsSound (suc k) s' (posts {s = s} j before low e) =
      posts-IsSound k s s' j (Reach-IsSound k s before) low (s.post_threads j) refl e
