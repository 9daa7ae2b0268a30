-- ===== src/Epoll/Accepts.antt =====
-- The steps of clib/epoll_multi_instance.c that create an instance and that accept a connection keep
-- the server sound.
use native.Mathlib.Decide.{ℕ_discrete}
use chenghualearning.Common.{
  ℕ, ◌+◌, ◌%◌, ◌^◌, ◌<◌, ◌≤◌, ◌≡◌, ◌≢◌, inl, inr, refl, sym, ap, subst, ◌∙◌, Bool, true, false,
  Bool-cases, Option, none, some, List, [], ◌∷◌, arith, ◌==◌, if◌then◌else◌, Returns,
}
use chenghualearning.Common.Int.{ℤ, pos}
use chenghualearning.Common.Family.{update}
use chenghualearning.Epoll.{
  epoll_ins_cnt, Server, Outcome, continues, exits, make_socket_non_blocking, store_epfd,
  epoll_do_create, Accepted, epoll_ctl, open_connection, next_turn, after_ctl, accept_one, occurs,
  among, registered,
}
use chenghualearning.Epoll.Kernel.{total-same, total-more}
use chenghualearning.Epoll.Sound.{exists, IsSound}

came_to : Server → Outcome Server → Server
came_to s (continues s') = s'
came_to s (exits code s') = s'

going_on : Outcome Server → Bool
going_on (continues s') = true
going_on (exits code s') = false

pub continues_inj : (s s' : Server) → continues s ≡ continues s' → s ≡ s'
unfolding came_to
continues_inj s s' e = ap (came_to s) e

pub exits_not_continues : {code : ℤ} {s s' : Server} → ¬ (exits code s ≡ continues s')
unfolding going_on
exits_not_continues e = let f : false ≡ true = ap going_on e in ground (arith, f)

-- The instance whose turn it is.
abbrev pub turn : Server → ℕ
turn s = s.accept_cnt % epoll_ins_cnt

-- The server once the connection `fd` is registered with it, beside `fds`.
abbrev pub given : Server → (fd : ℕ) → List ℕ → Server
given s fd fds = record s {
  connections = fd ∷ s.connections;
  accepted = fd ∷ s.accepted;
  accept_cnt = (s.accept_cnt + 1) % 2 ^ 64;
  interest = update s.interest (s.epfds (turn s)) (some (fd ∷ fds));
}

abbrev pub Gives : Server → (fd : ℕ) → Server → Type 0
Gives s fd s' = (fds : List ℕ) × (s.interest (s.epfds (turn s)) ≡ some fds) × (given s fd fds ≡ s')

module _ (s s' : Server) (fd : ℕ) where
  abbrev opened : Server
  opened = open_connection fd s

  ctl-Gives :
      (added : Bool) (o : Option (List ℕ))
      → s.interest (s.epfds (turn s)) ≡ o
      → after_ctl (next_turn opened) (epoll_ctl added (s.epfds (turn s)) fd (next_turn opened))
        ≡ continues s'
      → Gives s fd s'
  unfolding after_ctl epoll_ctl
  ctl-Gives added none e run = absurd (exits_not_continues (rw (after_ctl, epoll_ctl, e) at run))
  ctl-Gives false (some fds) e run =
      absurd (exits_not_continues (rw (after_ctl, epoll_ctl, e) at run))
  ctl-Gives true (some fds) e run =
      (fds, e, continues_inj _ _ (rw (after_ctl, epoll_ctl, e) at run))

  flags-Gives :
      (o_nonblock : ℕ) (flags : Option ℕ) (set added : Bool)
      → accept_one o_nonblock (record { fd = fd; flags = flags; set = set; added = added }) s
        ≡ continues s'
      → Gives s fd s'
  unfolding accept_one make_socket_non_blocking
  flags-Gives o_nonblock none set added run = absurd (exits_not_continues run)
  flags-Gives o_nonblock (some flags) false added run = absurd (exits_not_continues run)
  flags-Gives o_nonblock (some flags) true added run =
      ctl-Gives added (s.interest (s.epfds (turn s))) refl run

-- Where a round of the loop over `accept` goes on, the instance is there and has the connection.
pub accept_one-Gives :
    (o_nonblock : ℕ) (a : Accepted) (s s' : Server)
    → accept_one o_nonblock a s ≡ continues s'
    → Gives s a.fd s'
accept_one-Gives o_nonblock a s s' run = flags-Gives s s' a.fd o_nonblock a.flags a.set a.added run

some_exists : (o : Option (List ℕ)) (fds : List ℕ) → o ≡ some fds → exists o ≡ true
some_exists o fds e = rw e refl

module _ {listenfd : ℕ} {s : Server} (sound : IsSound listenfd s) where
  module _ (fd : ℕ) (fds : List ℕ) (there : s.interest (s.epfds (turn s)) ≡ some fds) where
    abbrev after : Server
    after = given s fd fds

    turn_positive : 0 < s.epfds (turn s)
    turn_positive = elim (ℕ_discrete (s.epfds (turn s)) 0) [
      | no other ↦ omega arith
      | yes zero_fd ↦
          (let up = some_exists (s.interest (s.epfds (turn s))) fds there in
            let down = ap (λ k. exists (s.interest k)) zero_fd ∙ ap exists sound.stdin in
            absurd (ground (arith, up, down)))
    ]

    turn-lt : turn s < epoll_ins_cnt
    turn-lt = omega arith

    registered-turn :
        (q : ℕ) → registered q after (turn s) ≡ (if fd == q then 1 else 0) + registered q s (turn s)
    unfolding among occurs
    registered-turn q =
        let same : (s.epfds (turn s) == s.epfds (turn s)) ≡ true = ground arith in
        rw (same, there) refl

    other_epfd : (i : ℕ) → i < epoll_ins_cnt → i ≢ turn s → (s.epfds (turn s) == s.epfds i) ≡ false
    other_epfd i h other = elim (Bool-cases (s.epfds (turn s) == s.epfds i)) [
      | inr e ↦ e
      | inl e ↦
          (let same : s.epfds (turn s) ≡ s.epfds i = ground (arith, e) in
            absurd (other (sym (sound.apart (turn s) i turn-lt h turn_positive same))))
    ]

    registered-other :
        (q i : ℕ) → i < epoll_ins_cnt → i ≢ turn s → registered q after i ≡ registered q s i
    registered-other q i h other = rw (other_epfd i h other) refl

    registered-after-le : (q i : ℕ) → i < epoll_ins_cnt → registered q s i ≤ registered q after i
    registered-after-le q i h = elim (ℕ_discrete i (turn s)) [
      | yes same ↦ rw same (omega (arith, registered-turn q))
      | no other ↦ omega (arith, registered-other q i h other)
    ]

    exists-after : (k : ℕ) → exists (s.interest k) ≡ true → exists (after.interest k) ≡ true
    exists-after k up = elim (Bool-cases (s.epfds (turn s) == k)) [
      | inl e ↦ rw e refl
      | inr e ↦ rw e up
    ]

    after-IsSound : occurs fd (listenfd ∷ s.connections) ≡ 0 → IsSound listenfd after
    unfolding occurs
    after-IsSound fresh = record {
      stdin =
          let pos = turn_positive in
          let other : (s.epfds (turn s) == 0) ≡ false = ground (arith, pos) in rw other sound.stdin;
      created = λ i h up. exists-after (s.epfds i) (sound.created i h up);
      apart = sound.apart;
      owned = λ q.
          total-more epoll_ins_cnt (registered q s) (registered q after) (turn s)
            (if fd == q then 1 else 0) turn-lt (registered-other q) (registered-turn q)
          ∙ ap (λ n. (if fd == q then 1 else 0) + n) (sound.owned q);
      once = λ q. elim (Bool-cases (fd == q)) [
        | inl e ↦
            (let same : fd ≡ q = ground (arith, e) in
              let new : occurs fd s.connections ≡ 0 = omega arith in
              let none_yet = subst (λ p. occurs p s.connections ≡ 0) same new in
              rw e (omega (arith, none_yet)))
        | inr e ↦ rw e (omega (arith, sound.once q))
      ];
      listening = let before = sound.listening in ground (arith, before, fresh);
      pending = λ i q h some_event.
          omega (arith, sound.pending i q h some_event, registered-after-le q i h);
      ledger = λ q. omega (arith, sound.ledger q);
    }

  pub accept_one-IsSound :
      (o_nonblock : ℕ) (a : Accepted) (s' : Server)
      → occurs a.fd (listenfd ∷ s.connections) ≡ 0
      → accept_one o_nonblock a s ≡ continues s'
      → IsSound listenfd s'
  accept_one-IsSound o_nonblock a s' fresh run =
      let (fds, there, same) = accept_one-Gives o_nonblock a s s' run in
      subst (IsSound listenfd) same (after-IsSound a.fd fds there fresh)

  -- A new instance.
  module _ (idx epfd : ℕ) (low : idx < epoll_ins_cnt) (unset : s.epfds idx ≡ 0)
      (free : s.interest epfd ≡ none) (positive : 0 < epfd) where
    abbrev made : Server
    made = record s { epfds = update s.epfds idx epfd; interest = update s.interest epfd (some []) }

    unmade : (q i : ℕ) → s.interest (s.epfds i) ≡ none → registered q s i ≡ 0
    unfolding among
    unmade q i e = rw e refl

    registered-made : (q i : ℕ) → registered q made i ≡ registered q s i
    unfolding among occurs
    registered-made q i = elim (Bool-cases (idx == i)) [
      | inl e ↦
          (let here : idx ≡ i = ground (arith, e) in
            let self_eq : (epfd == epfd) ≡ true = ground arith in
            let none_there = ap s.interest (ap s.epfds (sym here) ∙ unset) ∙ sound.stdin in
            rw (e, self_eq) (sym (unmade q i none_there)))
      | inr e ↦ elim (Bool-cases (epfd == s.epfds i)) [
        | inl d ↦
            (let here : epfd ≡ s.epfds i = ground (arith, d) in
              rw (e, d) (sym (unmade q i (ap s.interest (sym here) ∙ free))))
        | inr d ↦ rw (e, d) refl
      ]
    ]

    -- The instances there are have other descriptors.
    new_epfd : (i : ℕ) → i < epoll_ins_cnt → 0 < s.epfds i → epfd ≢ s.epfds i
    new_epfd i h up same =
        let there = sound.created i h up in
        let gone = ap (λ k. exists (s.interest k)) (sym same) ∙ ap exists free in
        ground (arith, there, gone)

    made-IsSound : IsSound listenfd made
    made-IsSound = record {
      stdin = let other : (epfd == 0) ≡ false = ground (arith, positive) in rw other sound.stdin;
      created = λ i h up. elim (Bool-cases (epfd == made.epfds i)) [
        | inl d ↦ rw d refl
        | inr d ↦ rw d (elim (Bool-cases (idx == i)) [
          | inl e ↦ absurd (let f = rw e at d in ground (arith, f))
          | inr e ↦ rw e (sound.created i h (rw e at up))
        ])
      ];
      apart = λ i j hi hj up same. elim (Bool-cases (idx == i)) [
        | inl e ↦ elim (Bool-cases (idx == j)) [
          | inl f ↦ ground (arith, e, f)
          | inr f ↦
              (let equal : epfd ≡ s.epfds j = rw (e, f) at same in
                absurd (new_epfd j hj (subst (λ k. 0 < k) equal positive) equal))
        ]
        | inr e ↦ elim (Bool-cases (idx == j)) [
          | inl f ↦
              (let equal : s.epfds i ≡ epfd = rw (e, f) at same in
                absurd (new_epfd i hi (rw e at up) (sym equal)))
          | inr f ↦ sound.apart i j hi hj (rw e at up) (rw (e, f) at same)
        ]
      ];
      owned = λ q.
          total-same epoll_ins_cnt (registered q s) (registered q made) (λ i h. registered-made q i)
          ∙ sound.owned q;
      once = sound.once;
      listening = sound.listening;
      pending = λ i q h some_event.
          subst (λ n. 0 < n) (sym (registered-made q i)) (sound.pending i q h some_event);
      ledger = sound.ledger;
    }

    pub epoll_do_create-IsSound :
        Returns (epoll_do_create (some epfd) (pos idx) s) (IsSound listenfd)
    unfolding epoll_do_create store_epfd
    epoll_do_create-IsSound = (made, ground (arith, low), made-IsSound)
