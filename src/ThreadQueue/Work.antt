-- ===== src/ThreadQueue/Work.antt =====
-- The worker's steps keep a thread queue valid, and there are only so many by itself.
use chenghualearning.Common.{
  append_assoc, ℕ, ◌+◌, ◌-◌, ◌*◌, ◌≤◌, ◌<◌, ◌≢◌, length, ◌≡◌, refl, sym, ◌∙◌, subst, List, [], ◌∷◌,
  ◌++◌, arith, Returns, ℕ_discrete,
}
use chenghualearning.IntrusiveList.{Ptr}
use chenghualearning.IntrusiveList.Removal.{list_remove_head_lem}
use chenghualearning.Cond.{cond_wait}
use chenghualearning.ThreadQueue.{
  Worker, popping, running, waiting, asleep, System, thread_queue_work,
}
use chenghualearning.ThreadQueue.Valid.{in_hand, AllCallable, Due, IsValid}

abbrev pub weight : Worker → ℕ
weight popping = 2
weight (running task) = 3
weight waiting = 1
weight asleep = 0

-- What bounds the steps that the worker can take by itself.
abbrev pub remaining : System → List Ptr → ℕ
remaining s xs = weight s.worker + (2 * length xs + 2 * s.cond.cnt)

abbrev pub Works : System → List Ptr → Type 0
Works s xs = Returns (thread_queue_work s) (λ s'.
    (ys : List Ptr) × IsValid s' ys
    × (s'.owing ≡ s.owing)
    × (s'.pushed ≡ s.pushed)
    × (s'.cond.cnt ≤ s.cond.cnt)
    × ((s.worker ≢ asleep) → remaining s' ys < remaining s xs))

work-popping : (s : System) (xs : List Ptr) → IsValid s xs → s.worker ≡ popping → Works s xs
unfolding thread_queue_work
work-popping s [] v e =
    let ((node, store), run, ((n, ring), spares)) =
      list_remove_head_lem s.store s.tasks [] v.ring in
    (
      record s { store = store; worker = waiting },
      ground (arith, run),
      (
        [],
        record {
          ring = ring;
          order = subst (λ w. s.pushed ≡ s.executed ++ (in_hand w ++ [])) e v.order;
          callable = tt;
          due = tt;
        },
        refl,
        refl,
        omega arith,
        λ awake. rw e (omega arith),
      ),
    )
work-popping s (x ∷ xs) v e =
    let ((node, store), run, ((n, ring, single, out), spares)) =
      list_remove_head_lem s.store s.tasks (x ∷ xs) v.ring in
    (
      record s { store = store; worker = running x },
      ground (arith, run),
      (
        xs,
        record {
          ring = ring;
          order = subst (λ w. s.pushed ≡ s.executed ++ (in_hand w ++ x ∷ xs)) e v.order;
          callable = subst (λ w. AllCallable s.callable (in_hand w ++ x ∷ xs)) e v.callable;
          due = tt;
        },
        refl,
        refl,
        omega arith,
        λ awake. rw e (omega arith),
      ),
    )

work-running :
    (s : System) (xs : List Ptr) (task : Ptr) → IsValid s xs → s.worker ≡ running task → Works s xs
unfolding thread_queue_work
work-running s xs task v e =
    let (c, all) = subst (λ w. AllCallable s.callable (in_hand w ++ xs)) e v.callable in
    (
      record s { worker = popping; executed = s.executed ++ task ∷ [] },
      ground (arith, c),
      (
        xs,
        record {
          ring = v.ring;
          order =
              subst (λ w. s.pushed ≡ s.executed ++ (in_hand w ++ xs)) e v.order
              ∙ sym (append_assoc s.executed (task ∷ []) xs);
          callable = all;
          due = tt;
        },
        refl,
        refl,
        omega arith,
        λ awake. rw e (omega arith),
      ),
    )

Due-sleep :
    (xs : List Ptr) (cnt owing : ℕ) → cnt ≡ 0 → Due waiting xs cnt owing → Due asleep xs cnt owing
Due-sleep [] cnt owing z d = z
Due-sleep (x ∷ xs) cnt owing z d = (z, omega arith)

work-waiting : (s : System) (xs : List Ptr) → IsValid s xs → s.worker ≡ waiting → Works s xs
unfolding thread_queue_work cond_wait
work-waiting s xs v e = elim (ℕ_discrete s.cond.cnt 0) [
  | yes z ↦ (
    record s { worker = asleep },
    ground (arith, z),
    (
      xs,
      record {
        ring = v.ring;
        order = subst (λ w. s.pushed ≡ s.executed ++ (in_hand w ++ xs)) e v.order;
        callable = subst (λ w. AllCallable s.callable (in_hand w ++ xs)) e v.callable;
        due = Due-sleep xs s.cond.cnt s.owing z (subst (λ w. Due w xs s.cond.cnt s.owing) e v.due);
      },
      refl,
      refl,
      omega arith,
      λ awake. rw e (omega arith),
    ),
  )
  | no z ↦ (
    record s { worker = popping; cond = record { cnt = s.cond.cnt - 1 } },
    ground (arith, z),
    (
      xs,
      record {
        ring = v.ring;
        order = subst (λ w. s.pushed ≡ s.executed ++ (in_hand w ++ xs)) e v.order;
        callable = subst (λ w. AllCallable s.callable (in_hand w ++ xs)) e v.callable;
        due = tt;
      },
      refl,
      refl,
      omega arith,
      λ awake. rw e (omega arith),
    ),
  )
]

work-asleep : (s : System) (xs : List Ptr) → IsValid s xs → s.worker ≡ asleep → Works s xs
unfolding thread_queue_work
work-asleep s xs v e =
    (s, ground arith, (xs, v, refl, refl, omega arith, λ awake. elim (awake e) [ ]))

pub thread_queue_work_lem : (s : System) (xs : List Ptr) → IsValid s xs → Works s xs
thread_queue_work_lem s xs v = by_worker s.worker refl
  where
    by_worker : (w : Worker) → s.worker ≡ w → Works s xs
    by_worker popping e = work-popping s xs v e
    by_worker (running task) e = work-running s xs task v e
    by_worker waiting e = work-waiting s xs v e
    by_worker asleep e = work-asleep s xs v e
