-- ===== src/ThreadQueue/Tests.antt =====
-- `main` of clib/thread_queue.c up to its queue, and the theorems about the queue at a run of it.
use chenghualearning.Common.{
  ℕ, ◌≡◌, refl, true, false, some, List, [], ◌∷◌, ◌++◌, arith, Run, ok, fault, Returns, ◌>>=◌,
}
use chenghualearning.IntrusiveList.{
  Ptr, Store, write, get_prev, get_next, set_prev, set_next, list_init, list_add, list_add_tail,
  list_del, list_empty, list_remove_head, for_each, list_for_each,
}
use chenghualearning.IntrusiveList.Linked.{has, IsRing}
use chenghualearning.Cond.{cond_init, cond_wakeup, cond_wait}
use chenghualearning.ThreadQueue.{
  popping, asleep, System, thread_queue_init, push_task, push_wakeup, signal, thread_queue_work,
  thread_queue_push, Steps, work, push, wakeup, done, next, work_alone, main_poll,
}
use chenghualearning.ThreadQueue.Valid.{in_hand, Due, IsValid}
use chenghualearning.ThreadQueue.Leaves.{Steps-leaves}
use chenghualearning.ThreadQueue.Drain.{Steps-order, Steps-all_run, work_alone-drains}

program : Unit {0}
unfolding get_prev get_next set_prev set_next list_init list_add list_add_tail list_del list_empty
    list_remove_head for_each list_for_each cond_init cond_wakeup cond_wait thread_queue_init
    push_task push_wakeup signal thread_queue_work thread_queue_push work_alone
program = tt

-- Memory where every address holds a node, its links not yet set.
abbrev memory : Store
memory = record { prev = λ p. some 0; next = λ p. some 0 }

-- The list part of `main`: task n at address n, the list at 9; the values that it prints.
main : Run (List ℕ)
main = do
  s ← list_init memory 9
  s ← list_add s 9 0
  s ← list_add s 9 1
  s ← list_add s 9 2
  s ← list_add_tail s 9 3
  s ← list_del s 0
  (node, s) ← list_remove_head s 9
  list_for_each 3 s 9

main_prints : main ≡ ok (1 ∷ 3 ∷ [])
unfolding program main
main_prints = refl

abbrev start : System
start = record {
  store = record { prev = write memory.prev 9 9; next = write memory.next 9 9 };
  tasks = 9;
  cond = record { cnt = 0 };
  worker = popping;
  callable = λ p. true;
  owing = 0;
  pushed = [];
  executed = [];
}

start-IsValid : IsValid start []
start-IsValid = record {
  ring = record { linked = ground arith; distinct = ground arith };
  order = refl;
  callable = tt;
  due = tt;
}

abbrev result : Run System → System
result (ok s) = s
result (fault e) = start

-- A push and what it leads to.
abbrev locked : System
locked = result (push_task 1 start)

abbrev awake : System
awake = result (push_wakeup locked)

abbrev drained : System
drained = result (work_alone 9 awake)

start-apart : (xs : List Ptr) → IsRing start.store 9 xs → has 1 (9 ∷ xs) ≡ false
start-apart [] ring = refl
start-apart (x ∷ xs) ring =
    let (here, l) = ring.linked in let (apart, d) = ring.distinct in ground (arith, here, apart)

pushes : Steps start awake
unfolding program
pushes =
    next (next done (push 1 (0, 0, refl, refl) start-apart refl refl)) (wakeup (omega arith) refl)

all : Steps start drained
unfolding program
all =
    next
      (next
        (next (next (next (next (next pushes (work refl)) (work refl)) (work refl)) (work refl))
          (work refl))
        (work refl))
      (work refl)

awake-IsValid : IsValid awake (1 ∷ [])
unfolding program
awake-IsValid = record {
  ring = record { linked = ground arith; distinct = ground arith };
  order = refl;
  callable = (refl, tt);
  due = tt;
}

Steps-order_example :
    (ys : List Ptr) × IsRing awake.store awake.tasks ys
    × (awake.pushed ≡ awake.executed ++ (in_hand awake.worker ++ ys))
    × Due awake.worker ys awake.cond.cnt awake.owing
Steps-order_example = Steps-order start awake [] start-IsValid pushes

Steps-all_run_example : drained.executed ≡ drained.pushed
unfolding program
Steps-all_run_example = Steps-all_run start drained [] start-IsValid all refl refl

drained_lem : drained.executed ≡ 1 ∷ []
unfolding program
drained_lem = refl

work_alone-drains_example :
    Returns (work_alone 9 awake) (λ s'. (s'.worker ≡ asleep) × (s'.executed ≡ awake.pushed))
unfolding program
work_alone-drains_example = work_alone-drains 9 awake (1 ∷ []) awake-IsValid refl (omega arith)

-- After the worker's pop the queue is empty, and the task has not run.
abbrev popped : System
popped = result (thread_queue_work awake)

popped-Steps : Steps start popped
unfolding program
popped-Steps = next pushes (work refl)

popped_unrun : (popped.executed ≡ []) × (in_hand popped.worker ≡ 1 ∷ [])
unfolding program
popped_unrun = (refl, refl)

Steps-leaves_example : popped.pushed ≡ popped.executed ++ in_hand popped.worker
unfolding program main_poll
Steps-leaves_example = Steps-leaves start popped [] start-IsValid popped-Steps refl
