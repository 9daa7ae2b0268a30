-- ===== src/ThreadQueue/Valid.antt =====
-- What holds of a thread queue at every step.
use chenghualearning.Common.{ℕ, ◌+◌, ◌<◌, ◌≡◌, Bool, true, List, [], ◌∷◌, ◌++◌}
use chenghualearning.IntrusiveList.{Ptr}
use chenghualearning.IntrusiveList.Linked.{IsRing}
use chenghualearning.ThreadQueue.{Worker, running, waiting, asleep, System}

-- The task in the worker's hands.
abbrev pub in_hand : Worker → List Ptr
in_hand (running task) = task ∷ []
in_hand w = []

abbrev pub AllCallable : (Ptr → Bool) → List Ptr → Type 0
AllCallable callable [] = Unit {0}
AllCallable callable (x ∷ xs) = (callable x ≡ true) × AllCallable callable xs

-- A worker that waits has a wakeup due where a task is queued, and sleeps only at counter 0.
abbrev pub Due : Worker → List Ptr → ℕ → ℕ → Type 0
Due waiting (x ∷ xs) cnt owing = 0 < cnt + owing
Due asleep [] cnt owing = cnt ≡ 0
Due asleep (x ∷ xs) cnt owing = (cnt ≡ 0) × (0 < owing)
Due w xs cnt owing = Unit {0}

-- `xs` are the queued tasks.
pub record IsValid (s : System) (xs : List Ptr) : Type 0 where
  pub ring : IsRing s.store s.tasks xs
  pub order : s.pushed ≡ s.executed ++ (in_hand s.worker ++ xs)
  pub callable : AllCallable s.callable (in_hand s.worker ++ xs)
  pub due : Due s.worker xs s.cond.cnt s.owing
