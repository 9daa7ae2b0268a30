-- ===== src/Epoll/Kernel.antt =====
-- How often descriptors are registered and open, for clib/epoll_multi_instance.c.
use chenghualearning.Common.{
  ℕ, zero, suc, ◌+◌, ◌<◌, ◌≡◌, ◌≢◌, refl, ◌∙◌, inl, inr, Bool-cases, Option, none, some, List, [],
  ◌∷◌, arith, ◌==◌, if◌then◌else◌,
}
use native.Mathlib.Decide.{ℕ_discrete}
use chenghualearning.Common.Family.{total}
use chenghualearning.Epoll.{
  epoll_ins_cnt, Server, remove, unregister, close, occurs, among, registered,
}

abbrev pub self : ℕ → ℕ
self n = n

-- How often a descriptor is registered, over all instances.
abbrev pub owners : ℕ → Server → ℕ
owners q s = total self epoll_ins_cnt (registered q s)

pub total-same :
    (n : ℕ) (f g : ℕ → ℕ) → ((i : ℕ) → i < n → g i ≡ f i) → total self n g ≡ total self n f
unfolding total
total-same zero f g same = refl
total-same (suc n) f g same =
    omega (arith, same n (omega arith), total-same n f g (λ i h. same i (omega arith)))

-- One of them is more by `d`.
pub total-more :
    (n : ℕ) (f g : ℕ → ℕ) (k d : ℕ)
    → k < n
    → ((i : ℕ) → i < n → i ≢ k → g i ≡ f i)
    → g k ≡ d + f k
    → total self n g ≡ d + total self n f
unfolding total
total-more zero f g k d low same more = absurd (omega arith)
total-more (suc n) f g k d low same more = elim (ℕ_discrete n k) [
  | yes last ↦
      (let more' : g n ≡ d + f n = rw last more in
        omega (arith, more', total-same n f g (λ i h. same i (omega arith) (omega arith))))
  | no other ↦ omega (
    arith,
    same n (omega arith) other,
    total-more n f g k d (omega arith) (λ i h. same i (omega arith)) more,
  )
]

pub total-none : (n : ℕ) (f : ℕ → ℕ) → ((i : ℕ) → i < n → f i ≡ 0) → total self n f ≡ 0
unfolding total
total-none zero f all = refl
total-none (suc n) f all =
    omega (arith, all n (omega arith), total-none n f (λ i h. all i (omega arith)))

pub occurs-remove :
    (q fd : ℕ) (xs : List ℕ) → occurs q (remove fd xs) ≡ (if fd == q then 0 else occurs q xs)
unfolding occurs remove
occurs-remove q fd [] = ground arith
occurs-remove q fd (x ∷ xs) = ground (arith, occurs-remove q fd xs)

pub among-unregister :
    (q fd : ℕ) (o : Option (List ℕ))
    → among q (unregister fd o) ≡ (if fd == q then 0 else among q o)
unfolding among unregister
among-unregister q fd none = ground arith
among-unregister q fd (some xs) = occurs-remove q fd xs

pub registered-close :
    (q fd : ℕ) (s : Server) (i : ℕ)
    → registered q (close fd s) i ≡ (if fd == q then 0 else registered q s i)
unfolding close
registered-close q fd s i = among-unregister q fd (s.interest (s.epfds i))

pub connections-close :
    (q fd : ℕ) (s : Server)
    → occurs q (close fd s).connections ≡ (if fd == q then 0 else occurs q s.connections)
unfolding close
connections-close q fd s = occurs-remove q fd s.connections

pub owners-close :
    (q fd : ℕ) (s : Server) → owners q (close fd s) ≡ (if fd == q then 0 else owners q s)
owners-close q fd s = elim (Bool-cases (fd == q)) [
  | inl e ↦ rw e (
      total-none epoll_ins_cnt (registered q (close fd s))
        (λ i h. registered-close q fd s i ∙ rw e refl))
  | inr e ↦ rw e (
      total-same epoll_ins_cnt (registered q s) (registered q (close fd s))
        (λ i h. registered-close q fd s i ∙ rw e refl))
]
