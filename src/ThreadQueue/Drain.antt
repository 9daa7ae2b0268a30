-- ===== src/ThreadQueue/Drain.antt =====
-- What a thread queue promises: the order of the tasks, no lost wakeup, and that all of them run.
use chenghualearning.Common.{
  Returns-ok, ℕ, zero, suc, ◌+◌, ◌≤◌, ◌<◌, ◌^◌, ◌≡◌, ◌≢◌, ◌⊎◌, inl, inr, refl, sym, ◌∙◌, subst,
  true, false, List, [], ◌∷◌, ◌++◌, arith, Bool-cases, ok, Returns,
}
use chenghualearning.Common.Int.{ℤ, pos, eq_ℤ, eq_ℤ_iff}
use chenghualearning.IntrusiveList.{Ptr}
use chenghualearning.IntrusiveList.Linked.{IsRing, append_nil}
use chenghualearning.IntrusiveList.Ops.{IsNode, list_init_lem}
use chenghualearning.Cond.{cond_init, cond_wakeup}
use chenghualearning.ThreadQueue.{
  Worker, popping, running, waiting, asleep, System, thread_queue_init, push_wakeup,
  thread_queue_work, Step, Steps, work, push, wakeup, spurious, done, next, work_alone,
}
use chenghualearning.ThreadQueue.Valid.{in_hand, AllCallable, Due, IsValid}
use chenghualearning.ThreadQueue.Invariant.{push_task_lem, push_wakeup_lem}
use chenghualearning.ThreadQueue.Work.{remaining, thread_queue_work_lem}

push_wakeup-room : (s s' : System) → push_wakeup s ≡ ok s' → s.cond.cnt + 1 < 2 ^ 63
unfolding push_wakeup cond_wakeup
push_wakeup-room s s' e = ground arith

Due-wake : (xs : List Ptr) (cnt owing : ℕ) → Due asleep xs cnt owing → Due waiting xs cnt owing
Due-wake [] cnt owing d = tt
Due-wake (x ∷ xs) cnt owing d = omega arith

Step-IsValid :
    (s s' : System) (xs : List Ptr) → IsValid s xs → Step s s' → (ys : List Ptr) × IsValid s' ys
Step-IsValid s s' xs v (work e) =
    let (ys, v', o, p, c, r) = Returns-ok (thread_queue_work_lem s xs v) e in (ys, v')
Step-IsValid s s' xs v (push task node out c e) =
    (xs ++ task ∷ [], Returns-ok (push_task_lem s xs task v node (out xs v.ring) c) e)
Step-IsValid s s' xs v (wakeup owed e) =
    (xs, Returns-ok (push_wakeup_lem s xs v owed (push_wakeup-room s s' e)) e)
Step-IsValid s s' xs v (spurious e) = (
  xs,
  record {
    ring = v.ring;
    order = subst (λ w. s.pushed ≡ s.executed ++ (in_hand w ++ xs)) e v.order;
    callable = subst (λ w. AllCallable s.callable (in_hand w ++ xs)) e v.callable;
    due = Due-wake xs s.cond.cnt s.owing (subst (λ w. Due w xs s.cond.cnt s.owing) e v.due);
  },
)

Steps-IsValid :
    (s s' : System) (xs : List Ptr) → IsValid s xs → Steps s s' → (ys : List Ptr) × IsValid s' ys
Steps-IsValid s s' xs v done = (xs, v)
Steps-IsValid s s' xs v (next {t = t} before step) =
    let (ys, w) = Steps-IsValid s t xs v before in Step-IsValid t s' ys w step

-- In every state that threads can reach from a valid one, the tasks that ran, the one in the
-- worker's hands and those still queued are, in this order, the tasks pushed; the queue's list is
-- well linked; and a waiting worker has a wakeup due if a task is queued, whatever the
-- interleaving and the spurious wakeups.
pub Steps-order :
    (s s' : System) (xs : List Ptr)
    → IsValid s xs
    → Steps s s'
    → (ys : List Ptr) × IsRing s'.store s'.tasks ys
      × (s'.pushed ≡ s'.executed ++ (in_hand s'.worker ++ ys))
      × Due s'.worker ys s'.cond.cnt s'.owing
Steps-order s s' xs v steps =
    let (ys, w) = Steps-IsValid s s' xs v steps in (ys, w.ring, w.order, w.due)

sleeping-empty :
    (s : System) (xs : List Ptr) → IsValid s xs → s.worker ≡ asleep → s.owing ≡ 0 → xs ≡ []
sleeping-empty s [] v e z = refl
sleeping-empty s (x ∷ xs) v e z =
    let (c, o) = subst (λ w. Due w (x ∷ xs) s.cond.cnt s.owing) e v.due in ground arith

sleeping-all_run :
    (s : System) (xs : List Ptr)
    → IsValid s xs
    → s.worker ≡ asleep
    → s.owing ≡ 0
    → s.executed ≡ s.pushed
sleeping-all_run s xs v e z =
    let order = subst (λ w. s.pushed ≡ s.executed ++ (in_hand w ++ xs)) e v.order in
    let empty = sleeping-empty s xs v e z in
    sym (subst (λ ys. s.pushed ≡ s.executed ++ ys) empty order ∙ append_nil s.executed)

-- No wakeup is lost: in every state that threads can reach from a valid one, if the worker
-- sleeps and no thread still has its wakeup to do, then every task pushed has run, in order.
pub Steps-all_run :
    (s s' : System) (xs : List Ptr)
    → IsValid s xs
    → Steps s s'
    → s'.worker ≡ asleep
    → s'.owing ≡ 0
    → s'.executed ≡ s'.pushed
Steps-all_run s s' xs v steps e z =
    let (ys, w) = Steps-IsValid s s' xs v steps in sleeping-all_run s' ys w e z

lt_absurd : {m n : ℕ} → m < n → n ≤ 0 → ⊥
lt_absurd h k = omega arith

le_of : {m n k : ℕ} → m < n → n ≤ suc k → m ≤ k
le_of h k = omega arith

Worker-cases : (w : Worker) → (w ≡ asleep) ⊎ (w ≢ asleep)
Worker-cases popping = inr (λ e. ground (arith, e))
Worker-cases (running t) = inr (λ e. ground (arith, e))
Worker-cases waiting = inr (λ e. ground (arith, e))
Worker-cases asleep = inl refl

work_alone-asleep : (n : ℕ) (s : System) → s.worker ≡ asleep → work_alone n s ≡ ok s
unfolding work_alone thread_queue_work
work_alone-asleep zero s e = refl
work_alone-asleep (suc n) s e = ground (arith, e, work_alone-asleep n s e)

-- From a valid state in which no thread has a wakeup to do, the worker alone runs every task that
-- was pushed, in order and with no fault, and then sleeps; `remaining s xs` steps are enough.
pub work_alone-drains :
    (n : ℕ) (s : System) (xs : List Ptr)
    → IsValid s xs
    → s.owing ≡ 0
    → remaining s xs ≤ n
    → Returns (work_alone n s) (λ s'. (s'.worker ≡ asleep) × (s'.executed ≡ s.pushed))
unfolding work_alone
work_alone-drains zero s xs v z enough = elim (Worker-cases s.worker) [
  | inl e ↦ (s, refl, (e, sleeping-all_run s xs v e z))
  | inr awake ↦
      (let (s', run, (ys, v', o, p, c, less)) = thread_queue_work_lem s xs v in
        elim (lt_absurd (less awake) enough) [ ])
]
work_alone-drains (suc n) s xs v z enough = elim (Worker-cases s.worker) [
  | inl e ↦ (s, work_alone-asleep (suc n) s e, (e, sleeping-all_run s xs v e z))
  | inr awake ↦
      (let (s', run, (ys, v', o, p, c, less)) = thread_queue_work_lem s xs v in
        let (t, run', (e, all)) =
          work_alone-drains n s' ys v' (o ∙ z) (le_of (less awake) enough) in
        (t, ground (arith, run, run'), (e, all ∙ p)))
]

false≢true : false ≢ true
false≢true e = ground (arith, e)

-- Where pthread_create succeeds, `thread_queue_init` returns 0 and leaves a valid queue that is
-- empty, whatever it held; where it fails, its error is returned.
pub thread_queue_init_lem :
    (ret : ℤ) (s : System)
    → IsNode s.store s.tasks
    → s.pushed ≡ s.executed
    → Returns
        (thread_queue_init ret s)
        (λ r. (r.0 ≡ ret) × ((ret ≡ pos 0) → IsValid (r.1) [] × (r.1.cond.cnt ≡ 0)))
unfolding thread_queue_init cond_init
thread_queue_init_lem ret s node logs =
    let (store, e, (ring, spares)) = list_init_lem s.store s.tasks node in
    elim (Bool-cases (eq_ℤ ret (pos 0))) [
      | inl success ↦ (
        (pos 0, record s { store = store; cond = record { cnt = 0 }; worker = popping }),
        ground (arith, e, success),
        (
          sym ((eq_ℤ_iff ret (pos 0)).0 success),
          λ z. (
            record {
              ring = ring;
              order = logs ∙ sym (append_nil s.executed);
              callable = tt;
              due = tt;
            },
            refl,
          ),
        ),
      )
      | inr failed ↦ (
        (ret, record s { store = store; cond = record { cnt = 0 } }),
        ground (arith, e, failed),
        (refl, λ z. elim (false≢true (sym failed ∙ (eq_ℤ_iff ret (pos 0)).1 z)) [ ]),
      )
    ]
