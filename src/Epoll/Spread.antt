-- ===== src/Epoll/Spread.antt =====
-- How `main` of clib/epoll_multi_instance.c spreads the connections over the instances.
use chenghualearning.Common.{
  ℕ, zero, suc, ◌+◌, ◌%◌, ◌^◌, ◌<◌, ◌≡◌, ◌⊎◌, inl, inr, refl, ap, subst, ◌∙◌, Bool, true, false,
  ◌&&◌, Bool-cases, Option, none, some, List, [], ◌∷◌, arith, ◌==◌, if◌then◌else◌, length, get_or,
  map,
}
use chenghualearning.Common.Int.{pos}
use chenghualearning.Common.Family.{total}
use chenghualearning.Epoll.{
  epoll_ins_cnt, Server, continues, exits, make_socket_non_blocking, Accepted, open_connection,
  next_turn, epoll_ctl, after_ctl, accept_one, accept_loop, occurs, among, registered,
}
use chenghualearning.Epoll.Kernel.{self, total-same}
use chenghualearning.Epoll.Sound.{exists}
use chenghualearning.Epoll.Accepts.{turn, given}

abbrev has_flags : Option ℕ → Bool
has_flags none = false
has_flags (some flags) = true

-- How many connections there are before the first for which a call fails.
abbrev pub succeeding : List Accepted → ℕ
succeeding [] = 0
succeeding (a ∷ rest) = if has_flags a.flags && (a.set && a.added) then suc (succeeding rest) else 0

abbrev pub fds : List Accepted → List ℕ
fds accepted = map (λ a. a.fd) accepted

-- All instances are there, and are different ones.
pub record IsReady (s : Server) : Type 0 where
  pub there : (i : ℕ) → i < epoll_ins_cnt → exists (s.interest (s.epfds i)) ≡ true
  pub distinct : (i j : ℕ) → i < epoll_ins_cnt → j < epoll_ins_cnt → s.epfds i ≡ s.epfds j → i ≡ j

-- Whether the connection at place `j` is `q` and goes to the instance `k`, as a number.
abbrev pub deals : (cnt : ℕ) → List ℕ → (q k j : ℕ) → ℕ
deals cnt connections q k j =
    if (cnt + j) % epoll_ins_cnt == k && get_or connections j 0 == q then 1 else 0

-- Of the first `n` connections, those at the places that lead to the instance `k` are registered with
-- it, and no other.
abbrev pub IsDealt : Server → List Accepted → (n : ℕ) → Server → Type 0
IsDealt s accepted n s' =
    (q k : ℕ)
    → k < epoll_ins_cnt
    → registered q s' k ≡ registered q s k + total self n (deals s.accept_cnt (fds accepted) q k)

-- The loop ends at `accept`, or `main` returns at the first connection for which a call fails.
abbrev pub Ends : (o_nonblock : ℕ) → Server → List Accepted → Type 0
Ends o_nonblock s accepted =
    (s' : Server) × IsDealt s accepted (succeeding accepted) s'
    × (((accept_loop o_nonblock accepted s ≡ continues s')
          × (succeeding accepted ≡ length accepted))
        ⊎ ((accept_loop o_nonblock accepted s ≡ exits (pos 0) s')
            × (succeeding accepted < length accepted)))

total-first : (n : ℕ) (f : ℕ → ℕ) → total self (suc n) f ≡ f 0 + total self n (λ j. f (suc j))
unfolding total
total-first zero f = omega arith
total-first (suc n) f = omega (arith, total-first n f)

-- The first connection, and the others from the next turn on.
total-deals :
    (n cnt fd : ℕ) (rest : List ℕ) (q k : ℕ)
    → total self (suc n) (deals cnt (fd ∷ rest) q k)
      ≡ (if cnt % epoll_ins_cnt == k && fd == q then 1 else 0)
        + total self n (deals ((cnt + 1) % 2 ^ 64) rest q k)
total-deals n cnt fd rest q k =
    total-first n (deals cnt (fd ∷ rest) q k)
    ∙ (let e : cnt + 0 ≡ cnt = omega arith in
        rw e (
          ap (λ m. (if cnt % epoll_ins_cnt == k && fd == q then 1 else 0) + m)
            (total-same n (deals ((cnt + 1) % 2 ^ 64) rest q k)
              (λ j. deals cnt (fd ∷ rest) q k (suc j))
              (λ j h.
                let same : (cnt + suc j) % 4 ≡ ((cnt + 1) % 2 ^ 64 + j) % 4 = omega arith in
                rw same refl))))

fails_here :
    (o_nonblock : ℕ) (s s' : Server) (a : Accepted) (rest : List Accepted)
    → accept_loop o_nonblock (a ∷ rest) s ≡ exits (pos 0) s'
    → ((q k : ℕ) → registered q s' k ≡ registered q s k)
    → (has_flags a.flags && (a.set && a.added)) ≡ false
    → Ends o_nonblock s (a ∷ rest)
unfolding total
fails_here o_nonblock s s' a rest run same bad =
    (s', λ q k h. rw bad (omega (arith, same q k)), inr (run, rw bad (omega arith)))

module _ (o_nonblock fd : ℕ) (rest : List Accepted) (s : Server) (ready : IsReady s) where
  abbrev connection : Option ℕ → (set added : Bool) → Accepted
  connection flags set added = record { fd = fd; flags = flags; set = set; added = added }

  abbrev before_ctl : Server
  before_ctl = next_turn (open_connection fd s)

  -- Registered with the instance whose turn it is.
  module _ (registered_fds : List ℕ)
      (there : s.interest (s.epfds (turn s)) ≡ some registered_fds) where
    abbrev after : Server
    after = given s fd registered_fds

    registered-after :
        (q k : ℕ)
        → k < epoll_ins_cnt
        → registered q after k ≡ (if turn s == k && fd == q then 1 else 0) + registered q s k
    unfolding among occurs
    registered-after q k h = elim (Bool-cases (turn s == k)) [
      | inl e ↦
          (let same : turn s ≡ k = ground (arith, e) in
            subst
              (λ i.
                registered q after i ≡ (if turn s == i && fd == q then 1 else 0) + registered q s i)
              same at_turn)
      | inr e ↦
          (let other : (s.epfds (turn s) == s.epfds k) ≡ false = apart k h e in
            rw (other, e) (omega arith))
    ]
      where
        at_turn :
            registered q after (turn s)
            ≡ (if turn s == turn s && fd == q then 1 else 0) + registered q s (turn s)
        at_turn =
            let same : (s.epfds (turn s) == s.epfds (turn s)) ≡ true = ground arith in
            let self_turn : (turn s == turn s) ≡ true = ground arith in
            rw (same, self_turn, there) refl

        apart :
            (k : ℕ)
            → k < epoll_ins_cnt
            → (turn s == k) ≡ false
            → (s.epfds (turn s) == s.epfds k) ≡ false
        apart k h e = elim (Bool-cases (s.epfds (turn s) == s.epfds k)) [
          | inr f ↦ f
          | inl f ↦
              (let equal : s.epfds (turn s) ≡ s.epfds k = ground (arith, f) in
                let one = ready.distinct (turn s) k (omega arith) h equal in
                absurd (ground (arith, e, one)))
        ]

    after-IsReady : IsReady after
    after-IsReady = record {
      there = λ i h. elim (Bool-cases (s.epfds (turn s) == s.epfds i)) [
        | inl e ↦ rw e refl
        | inr e ↦ rw e (ready.there i h)
      ];
      distinct = ready.distinct;
    }

    registers :
        (flags : ℕ)
        → Ends o_nonblock after rest
        → Ends o_nonblock s (connection (some flags) true true ∷ rest)
    unfolding accept_loop accept_one make_socket_non_blocking epoll_ctl after_ctl
    registers flags (s', dealt, ends) = (
      s',
      λ q k h. omega (
        arith,
        dealt q k h,
        registered-after q k h,
        total-deals (succeeding rest) s.accept_cnt fd (fds rest) q k,
      ),
      elim ends [
        | inl (run, all) ↦ inl (
          rw (accept_loop, accept_one, make_socket_non_blocking, epoll_ctl, there) run,
          ap suc all,
        )
        | inr (run, fewer) ↦ inr (
          rw (accept_loop, accept_one, make_socket_non_blocking, epoll_ctl, there) run,
          omega arith,
        )
      ],
    )

  has_instance : (o : Option (List ℕ)) → exists o ≡ true → (l : List ℕ) × (o ≡ some l)
  has_instance none e = absurd (ground (arith, e))
  has_instance (some l) e = (l, refl)

  accepts :
      ((l : List ℕ) → s.interest (s.epfds (turn s)) ≡ some l → Ends o_nonblock (given s fd l) rest)
      → (flags : Option ℕ) (set added : Bool)
      → Ends o_nonblock s (connection flags set added ∷ rest)
  unfolding accept_loop accept_one make_socket_non_blocking epoll_ctl after_ctl
  accepts later none set added =
      fails_here o_nonblock s (open_connection fd s) (connection none set added) rest refl
        (λ q k. refl) refl
  accepts later (some flags) false added =
      fails_here o_nonblock s (open_connection fd s) (connection (some flags) false added) rest refl
        (λ q k. refl) refl
  accepts later (some flags) true false =
      let (l, e) =
        has_instance (s.interest (s.epfds (turn s))) (ready.there (turn s) (omega arith)) in
      fails_here o_nonblock s before_ctl (connection (some flags) true false) rest
        (rw (accept_loop, accept_one, make_socket_non_blocking, epoll_ctl, e) refl) (λ q k. refl)
        refl
  accepts later (some flags) true true =
      let (l, e) =
        has_instance (s.interest (s.epfds (turn s))) (ready.there (turn s) (omega arith)) in
      registers l e flags (later l e)

-- With all four instances created, the loop registers the connection at place `j` of those for which
-- all calls succeed with the instance number (`accept_cnt` + j) % 4, and with no other, and nothing
-- else. Where all succeed, the loop goes on until `accept` gives no more; else `main` returns 0 at
-- the first for which a call fails.
pub accept_loop_lem :
    (o_nonblock : ℕ) (accepted : List Accepted) (s : Server)
    → IsReady s
    → Ends o_nonblock s accepted
unfolding accept_loop total
accept_loop_lem o_nonblock [] s ready =
    (record s { accepting = false }, λ q k h. omega arith, inl (refl, refl))
accept_loop_lem o_nonblock (a ∷ rest) s ready =
    accepts o_nonblock a.fd rest s ready
      (λ l e.
        accept_loop_lem o_nonblock rest (given s a.fd l)
          (after-IsReady o_nonblock a.fd rest s ready l e))
      a.flags a.set a.added
