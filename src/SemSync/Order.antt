-- ===== src/SemSync/Order.antt =====
-- The threads of clib/pthread_sem_sync.c print in turn and never all block before they are done.
use chenghualearning.Common.{
  ℕ, suc, ◌+◌, ◌-◌, ◌*◌, ◌%◌, ◌<◌, ◌≤◌, ◌≡◌, ◌≢◌, ◌⊎◌, inl, inr, refl, sym, ap, ◌∙◌, subst, false,
  Bool-cases, Option, none, some, [], ◌∷◌, ◌++◌, ◌==◌, ==_iff, ltb, if◌then◌else◌, arith,
}
use chenghualearning.SemSync.{
  thread_num, Stage, waiting, printing, posting, State, update, do_print, args, sync_print, Reach,
  start, step,
}
use chenghualearning.SemSync.Turns.{turns, turns_of, turns_of_lem}

abbrev token : Stage → ℕ
token waiting = 1
token printing = 0
token posting = 0

-- The turns that the output shows, `t` of which are over.
abbrev shown : Stage → ℕ → ℕ
shown waiting t = t
shown printing t = t
shown posting t = suc t

abbrev Room : Stage → ℕ → ℕ → Type 0
Room waiting t num = t ≤ 4 * num
Room printing t num = t < 4 * num
Room posting t num = t < 4 * num

-- After `t` turns the thread `(k + t) % 4` is at `p`, the others wait, and at most one semaphore,
-- this thread's, is up.
record IsAt (num k t : ℕ) (p : Stage) (s : State) : Type 0 where
  stages : (j : ℕ) → j < 4 → s.stage j ≡ (if (k + t) % 4 == j then p else waiting)
  sems : (j : ℕ) → j < 4 → s.sems j ≡ (if (k + t) % 4 == j then token p else 0)
  counts : (j : ℕ) → j < 4 → s.i j ≡ turns_of j k t
  out : s.out ≡ turns k (shown p t)
  room : Room p t num

-- A step of the thread `j` leads to such a state again.
abbrev Moves : ℕ → ℕ → ℕ → State → Type 0
Moves num k j s =
    (s' : State) × (do_print (args num j) j s ≡ some s')
    × ((t : ℕ) × (p : Stage) × IsAt num k t p s')

Room-shown : (p : Stage) (t num : ℕ) → Room p t num → shown p t ≤ 4 * num
Room-shown waiting t num r = r
Room-shown printing t num r = omega arith
Room-shown posting t num r = omega arith

waiting-Moves :
    (num k t : ℕ) (s : State)
    → IsAt num k t waiting s
    → turns_of ((k + t) % 4) k t < num
    → Moves num k ((k + t) % 4) s
unfolding do_print args
waiting-Moves num k t s at more =
    let j = (k + t) % 4 in
    let small : j < 4 = omega arith in
    (
      record s { sems = update s.sems j (s.sems j - 1); stage = update s.stage j printing },
      ground (arith, at.stages j small, at.sems j small, at.counts j small),
      (
        t,
        printing,
        record {
          stages = λ i h. ground (arith, at.stages i h);
          sems = λ i h. ground (arith, at.sems i h, at.sems j small);
          counts = at.counts;
          out = at.out;
          room = omega (arith, turns_of_lem j k t small, more);
        },
      ),
    )

printing-Moves : (num k t : ℕ) (s : State) → IsAt num k t printing s → Moves num k ((k + t) % 4) s
unfolding do_print args turns
printing-Moves num k t s at =
    let j = (k + t) % 4 in
    let small : j < 4 = omega arith in
    (
      record s { stage = update s.stage j posting; out = s.out ++ (j + 1) ∷ [] },
      ground (arith, at.stages j small),
      (
        t,
        posting,
        record {
          stages = λ i h. ground (arith, at.stages i h);
          sems = at.sems;
          counts = at.counts;
          out = rw (at.out) refl;
          room = at.room;
        },
      ),
    )

posting-Moves : (num k t : ℕ) (s : State) → IsAt num k t posting s → Moves num k ((k + t) % 4) s
unfolding do_print args turns_of
posting-Moves num k t s at =
    let j = (k + t) % 4 in
    let small : j < 4 = omega arith in
    let next : (k + suc t) % 4 ≡ (j + 1) % 4 = omega arith in
    let low : (j + 1) % 4 < 4 = omega arith in
    (
      record s {
        sems = update s.sems ((j + 1) % 4) (s.sems ((j + 1) % 4) + 1);
        stage = update s.stage j waiting;
        i = update s.i j (s.i j + 1);
      },
      ground (arith, at.stages j small),
      (
        suc t,
        waiting,
        record {
          stages = λ i h. ground (arith, at.stages i h);
          sems = λ i h. ground (arith, at.sems i h, at.sems ((j + 1) % 4) low, next);
          counts = λ i h. ground (arith, at.counts i h, at.counts j small);
          out = at.out;
          room = at.room;
        },
      ),
    )

-- A thread whose turn it is not cannot step.
others-wait :
    (num k t j : ℕ) (p : Stage) (s : State)
    → IsAt num k t p s
    → j < 4
    → ((k + t) % 4 == j) ≡ false
    → do_print (args num j) j s ≡ none
unfolding do_print args
others-wait num k t j p s at small other = ground (arith, at.stages j small, at.sems j small, other)

-- The thread whose turn it is steps, unless its turns are over.
turn-Moves :
    (num k t : ℕ) (p : Stage) (s : State)
    → IsAt num k t p s
    → Moves num k ((k + t) % 4) s ⊎ ((p ≡ waiting) × (t ≡ 4 * num))
turn-Moves num k t waiting s at = elim (Bool-cases (ltb (turns_of ((k + t) % 4) k t) num)) [
  | inl more ↦ inl (waiting-Moves num k t s at (ground (arith, more)))
  | inr over ↦
      (let small : (k + t) % 4 < 4 = omega arith in
        let count : num ≤ turns_of ((k + t) % 4) k t = ground (arith, over) in
        let room = at.room in
        inr (refl, omega (arith, turns_of_lem ((k + t) % 4) k t small, count, room)))
]
turn-Moves num k t printing s at = inl (printing-Moves num k t s at)
turn-Moves num k t posting s at = inl (posting-Moves num k t s at)

some-injective : {a b : State} → some a ≡ some b → a ≡ b
some-injective e = ground (arith, e)

-- Over, the thread has no step left.
over-stops :
    (num k t : ℕ) (s : State)
    → IsAt num k t waiting s
    → t ≡ 4 * num
    → do_print (args num ((k + t) % 4)) ((k + t) % 4) s ≡ none
unfolding do_print args
over-stops num k t s at over =
    let j = (k + t) % 4 in
    let small : j < 4 = omega arith in
    let count : turns_of j k t ≡ num = omega (arith, turns_of_lem j k t small) in
    ground (arith, at.stages j small, at.counts j small, count)

none≢some : {a : State} → ◌≢◌ {A = Option State} none (some a)
none≢some e = ground (arith, e)

turn-IsAt :
    (num k t : ℕ) (p : Stage) (s s' : State)
    → IsAt num k t p s
    → do_print (args num ((k + t) % 4)) ((k + t) % 4) s ≡ some s'
    → (t' : ℕ) × (p' : Stage) × IsAt num k t' p' s'
turn-IsAt num k t p s s' at e = elim (turn-Moves num k t p s at) [
  | inl (r, ran, (t', p', at')) ↦
      (t', p', subst (IsAt num k t' p') (some-injective (sym ran ∙ e)) at')
  | inr (idle, over) ↦
      elim (none≢some
        (sym (over-stops num k t s (subst (λ q. IsAt num k t q s) idle at) over) ∙ e)) [ ]
]

Reach-IsAt : (num k : ℕ) (s : State) → Reach num k s → (t : ℕ) × (p : Stage) × IsAt num k t p s
unfolding sync_print turns turns_of
Reach-IsAt num k s start = (
  0,
  waiting,
  record {
    stages = λ j h. ground arith;
    sems = λ j h. ground arith;
    counts = λ j h. refl;
    out = refl;
    room = omega arith;
  },
)
Reach-IsAt num k s' (step {s = s} j before small e) =
    let (t, p, at) = Reach-IsAt num k s before in
    elim (Bool-cases ((k + t) % 4 == j)) [
      | inr other ↦ elim (none≢some (sym (others-wait num k t j p s at small other) ∙ e)) [ ]
      | inl mine ↦ turn-IsAt num k t p s s' at (
          subst (λ i. do_print (args num i) i s ≡ some s') (sym ((==_iff ((k + t) % 4) j).0 mine))
            e)
    ]

-- In whatever order the threads run, the output is a prefix of the numbers 1 to 4 in turn from
-- thread `k` on, at most `num` rounds of it.
pub Reach-turns :
    (num k : ℕ) (s : State) → Reach num k s → (t : ℕ) × (t ≤ 4 * num) × (s.out ≡ turns k t)
Reach-turns num k s reached =
    let (t, p, at) = Reach-IsAt num k s reached in (shown p t, Room-shown p t num at.room, at.out)

-- There is no deadlock: in every state that the threads can reach, either one of them can step,
-- or every thread has left its loop after `num` turns and the output is complete.
pub Reach-progress :
    (num k : ℕ) (s : State)
    → Reach num k s
    → ((j : ℕ) × (j < thread_num) × (s' : State) × (do_print (args num j) j s ≡ some s'))
      ⊎ ((s.out ≡ turns k (4 * num)) × ((j : ℕ) → j < thread_num → s.i j ≡ num))
Reach-progress num k s reached =
    let (t, p, at) = Reach-IsAt num k s reached in
    elim (turn-Moves num k t p s at) [
      | inl (s', ran, rest) ↦ inl ((k + t) % 4, omega arith, s', ran)
      | inr (idle, over) ↦ inr (
        at.out
            ∙ subst (λ q. turns k (shown q t) ≡ turns k (4 * num)) (sym idle) (ap (turns k) over),
        λ j h. at.counts j h ∙ turns_of_lem j k t h ∙ omega arith,
      )
    ]
