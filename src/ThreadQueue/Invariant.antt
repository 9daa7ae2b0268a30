-- ===== src/ThreadQueue/Invariant.antt =====
-- The steps of the threads that push keep a thread queue valid.
use chenghualearning.Common.{
  append_assoc, ℕ, ◌+◌, ◌-◌, ◌<◌, ◌^◌, ◌≡◌, refl, ap, ◌∙◌, subst, Bool, true, false, List, [], ◌∷◌,
  ◌++◌, arith, Returns,
}
use chenghualearning.IntrusiveList.{Ptr}
use chenghualearning.IntrusiveList.Linked.{has}
use chenghualearning.IntrusiveList.Ops.{IsNode, list_add_tail_lem}
use chenghualearning.Cond.{cond_wakeup}
use chenghualearning.ThreadQueue.{
  Worker, popping, running, waiting, asleep, System, push_task, push_wakeup, signal,
}
use chenghualearning.ThreadQueue.Valid.{in_hand, AllCallable, Due, IsValid}

AllCallable-snoc :
    (callable : Ptr → Bool) (xs : List Ptr) (x : Ptr)
    → AllCallable callable xs
    → callable x ≡ true
    → AllCallable callable (xs ++ x ∷ [])
AllCallable-snoc callable [] x all c = (c, tt)
AllCallable-snoc callable (y ∷ xs) x (here, all) c = (here, AllCallable-snoc callable xs x all c)

Due-push :
    (w : Worker) (xs : List Ptr) (task cnt owing : ℕ)
    → Due w xs cnt owing
    → Due w (xs ++ task ∷ []) cnt (owing + 1)
Due-push popping xs task cnt owing d = tt
Due-push (running t) xs task cnt owing d = tt
Due-push waiting [] task cnt owing d = omega arith
Due-push waiting (x ∷ xs) task cnt owing d = omega arith
Due-push asleep [] task cnt owing d = (d, omega arith)
Due-push asleep (x ∷ xs) task cnt owing (c, o) = (c, omega arith)

pub push_task_lem :
    (s : System) (xs : List Ptr) (task : Ptr)
    → IsValid s xs
    → IsNode s.store task
    → has task (s.tasks ∷ xs) ≡ false
    → s.callable task ≡ true
    → Returns (push_task task s) (λ s'. IsValid s' (xs ++ task ∷ []))
unfolding push_task
push_task_lem s xs task v node out c =
    let (store, e, (ring, spares)) = list_add_tail_lem s.store s.tasks xs task v.ring out node in
    (
      record s { store = store; owing = s.owing + 1; pushed = s.pushed ++ task ∷ [] },
      ground (arith, e),
      record {
        ring = ring;
        order =
            ap (λ us. us ++ task ∷ []) v.order
            ∙ append_assoc s.executed (in_hand s.worker ++ xs) (task ∷ [])
            ∙ ap (λ us. s.executed ++ us) (append_assoc (in_hand s.worker) xs (task ∷ []));
        callable =
            subst (AllCallable s.callable) (append_assoc (in_hand s.worker) xs (task ∷ []))
              (AllCallable-snoc s.callable (in_hand s.worker ++ xs) task v.callable c);
        due = Due-push s.worker xs task s.cond.cnt s.owing v.due;
      },
    )

in_hand-signal : (w : Worker) → in_hand (signal w) ≡ in_hand w
unfolding signal
in_hand-signal popping = refl
in_hand-signal (running task) = refl
in_hand-signal waiting = refl
in_hand-signal asleep = refl

Due-signal :
    (w : Worker) (xs : List Ptr) (cnt owing : ℕ)
    → Due w xs cnt owing
    → 0 < owing
    → Due (signal w) xs (cnt + 1) (owing - 1)
unfolding signal
Due-signal popping xs cnt owing d o = tt
Due-signal (running t) xs cnt owing d o = tt
Due-signal waiting [] cnt owing d o = tt
Due-signal waiting (x ∷ xs) cnt owing d o = omega arith
Due-signal asleep [] cnt owing d o = tt
Due-signal asleep (x ∷ xs) cnt owing d o = omega arith

pub push_wakeup_lem :
    (s : System) (xs : List Ptr)
    → IsValid s xs
    → 0 < s.owing
    → s.cond.cnt + 1 < 2 ^ 63
    → Returns (push_wakeup s) (λ s'. IsValid s' xs)
unfolding push_wakeup cond_wakeup
push_wakeup_lem s xs v owed room = (
  record s {
    cond = record { cnt = s.cond.cnt + 1 };
    worker = signal s.worker;
    owing = s.owing - 1;
  },
  ground arith,
  record {
    ring = v.ring;
    order = rw (in_hand-signal s.worker) v.order;
    callable = rw (in_hand-signal s.worker) v.callable;
    due = Due-signal s.worker xs s.cond.cnt s.owing v.due owed;
  },
)
