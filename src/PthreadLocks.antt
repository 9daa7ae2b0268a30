-- ===== src/PthreadLocks.antt =====
-- clib/pthread_lock_cond_sem.c, the parts that count under a lock or by a semaphore: many threads
-- run the same loops over one counter, in any order. A call of the thread library, a read of the
-- counter and a write to it are single steps. The locks are parameters, by what POSIX says of them.
pub mod Spinlock
pub mod Rwlock
pub mod Semaphore
mod Tests
use chenghualearning.Common.{ℕ, ◌≡◌, ap, Bool, true, false, arith}

-- `THREAD_NUM`
abbrev pub thread_num : ℕ
thread_num = 10

-- `TEST_CASE_NUM`
abbrev pub test_case_num : ℕ
test_case_num = 1000

-- What a thread that is picked does: it goes on, blocks, is at its end, or meets an overflow.
pub data Turn {ℓ} (A : Type ℓ) : Type ℓ where
  goes : A → Turn A
  blocks : Turn A
  ended : Turn A
  overflows : Turn A

came_to {ℓ} : {A : Type ℓ} → A → Turn A → A
came_to a (goes b) = b
came_to a _ = a

pub goes_inj {ℓ} : {A : Type ℓ} (a b : A) → goes a ≡ goes b → a ≡ b
unfolding came_to
goes_inj a b e = ap (came_to a) e

going {ℓ} : {A : Type ℓ} → Turn A → Bool
going (goes a) = true
going _ = false

pub blocks_not_goes {ℓ} : {A : Type ℓ} {a : A} → ¬ (◌≡◌ {A = Turn A} blocks (goes a))
unfolding going
blocks_not_goes e = let f : false ≡ true = ap going e in ground (arith, f)

pub ended_not_goes {ℓ} : {A : Type ℓ} {a : A} → ¬ (◌≡◌ {A = Turn A} ended (goes a))
unfolding going
ended_not_goes e = let f : false ≡ true = ap going e in ground (arith, f)

pub overflows_not_goes {ℓ} : {A : Type ℓ} {a : A} → ¬ (◌≡◌ {A = Turn A} overflows (goes a))
unfolding going
overflows_not_goes e = let f : false ≡ true = ap going e in ground (arith, f)
