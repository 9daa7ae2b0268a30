-- ===== src/SemSync/Turns.antt =====
-- The order that clib/pthread_sem_sync.c prints in.
use chenghualearning.Common.{
  ℕ, zero, suc, ◌+◌, ◌-◌, ◌/◌, ◌%◌, ◌<◌, ◌≡◌, List, [], ◌∷◌, ◌++◌, ◌==◌, if◌then◌else◌, arith,
}

-- The first `t` numbers printed from thread `k` on: 1 to 4 in turn.
unfoldable pub turns : ℕ → ℕ → List ℕ
turns k zero = []
turns k (suc t) = turns k t ++ ((k + t) % 4 + 1) ∷ []

-- How many of these are the thread `j`'s.
unfoldable pub turns_of : ℕ → ℕ → ℕ → ℕ
turns_of j k zero = 0
turns_of j k (suc t) = turns_of j k t + (if (k + t) % 4 == j then 1 else 0)

pub turns_of_lem : (j k t : ℕ) → j < 4 → turns_of j k t ≡ (t + 3 - (j + 4 - k % 4) % 4) / 4
unfolding turns_of
turns_of_lem j k zero h = omega arith
turns_of_lem j k (suc t) h = ground (arith, turns_of_lem j k t h)
