-- ===== src/Epoll/Keeps.antt =====
-- The steps of the server of clib/epoll_multi_instance.c keep it sound.
use native.Mathlib.Decide.{ℕ_discrete}
use chenghualearning.Common.{
  ℕ, ◌+◌, ◌<◌, ◌≤◌, ◌≡◌, inl, inr, refl, sym, ap, subst, ◌∙◌, true, false, Bool-cases, Option, none,
  some, List, [], ◌∷◌, arith, ◌==◌,
}
use chenghualearning.Common.Family.{update, total-member, total-pair}
use chenghualearning.Epoll.{
  epoll_ins_cnt, Server, close, unregister, Read, got, again, failed, at_eof, finish, read_event,
  has_error, main_event, occurs, registered,
}
use chenghualearning.Epoll.Kernel.{
  self, occurs-remove, registered-close, connections-close, owners-close,
}
use chenghualearning.Epoll.Sound.{exists, IsSound}

exists-unregister : (fd : ℕ) (o : Option (List ℕ)) → exists (unregister fd o) ≡ exists o
unfolding unregister
exists-unregister fd none = refl
exists-unregister fd (some fds) = refl

none-unregister : (fd : ℕ) (o : Option (List ℕ)) → o ≡ none → unregister fd o ≡ none
unfolding unregister
none-unregister fd o e = rw e refl

module _ {listenfd : ℕ} {s : Server} (sound : IsSound listenfd s) where
  -- A descriptor is registered with one instance at most.
  pub one_owner :
      (i j q : ℕ)
      → i < epoll_ins_cnt
      → j < epoll_ins_cnt
      → 0 < registered q s i
      → 0 < registered q s j
      → i ≡ j
  one_owner i j q hi hj ri rj = elim (ℕ_discrete i j) [
    | yes same ↦ same
    | no other ↦ absurd (
        omega (
          arith,
          total-pair self epoll_ins_cnt (registered q s) i j hi hj other,
          sound.owned q,
          sound.once q,
        ))
  ]

  -- What is registered is an open connection.
  pub open_one : (i q : ℕ) → i < epoll_ins_cnt → 0 < registered q s i → occurs q s.connections ≡ 1
  open_one i q h r =
      omega
        (arith, total-member self epoll_ins_cnt (registered q s) i h, sound.owned q, sound.once q)

  -- The events of a thread become others that are registered with its instance.
  pub events-IsSound :
      (idx : ℕ) (events : List ℕ)
      → ((q : ℕ) → 0 < occurs q events → 0 < registered q s idx)
      → IsSound listenfd (record s { events = update s.events idx events })
  events-IsSound idx events own = record {
    stdin = sound.stdin;
    created = sound.created;
    apart = sound.apart;
    owned = sound.owned;
    once = sound.once;
    listening = sound.listening;
    pending = λ i q h some_event. elim (Bool-cases (idx == i)) [
      | inl e ↦
          (let same : idx ≡ i = ground (arith, e) in
            subst (λ k. 0 < registered q s k) same (own q (rw e at some_event)))
      | inr e ↦ sound.pending i q h (rw e at some_event)
    ];
    ledger = sound.ledger;
  }

  -- The end of a connection that a thread has an event of.
  finish-IsSound :
      (idx fd : ℕ)
      → idx < epoll_ins_cnt
      → 0 < occurs fd (s.events idx)
      → IsSound listenfd (finish idx fd s)
  unfolding finish close occurs
  finish-IsSound idx fd low event =
      let mine = sound.pending idx fd low event in
      let open_fd = open_one idx fd low mine in
      record {
        stdin = none-unregister fd (s.interest 0) sound.stdin;
        created = λ i h up. exists-unregister fd (s.interest (s.epfds i)) ∙ sound.created i h up;
        apart = sound.apart;
        owned = λ q.
            let cleared = owners-close q fd s in
            let kept = occurs-remove q fd s.connections in
            let before = sound.owned q in ground (arith, cleared, kept, before);
        once = λ q.
            let kept = occurs-remove q fd s.connections in
            let before = sound.once q in ground (arith, kept, before);
        listening =
            let kept = occurs-remove listenfd fd s.connections in
            let before = sound.listening in ground (arith, kept, before);
        pending = λ i q h some_event. elim (Bool-cases (idx == i)) [
          | inl e ↦ absurd (omega (arith, rw e at some_event))
          | inr e ↦
              (let pending = sound.pending i q h (rw e at some_event) in
                let other : (fd == q) ≡ false = elim (Bool-cases (fd == q)) [
                  | inr d ↦ d
                  | inl d ↦
                      (let same : fd ≡ q = ground (arith, d) in
                        let one =
                          one_owner idx i q low h (subst (λ p. 0 < registered p s idx) same mine)
                            pending in
                        absurd (ground (arith, e, one)))
                ] in
                subst (λ n. 0 < n) (sym (registered-close q fd s i ∙ rw other refl)) pending)
        ];
        ledger = λ q.
            let kept = occurs-remove q fd s.connections in
            let before = sound.ledger q in ground (arith, kept, before, open_fd);
      }

  pub read_event-IsSound :
      (idx fd : ℕ) (rest : List ℕ) (r : Read)
      → idx < epoll_ins_cnt
      → s.events idx ≡ fd ∷ rest
      → IsSound listenfd (read_event idx fd rest r s)
  unfolding read_event occurs
  read_event-IsSound idx fd rest r low e = by_read r
    where
      mine : (q : ℕ) → 0 < occurs q (fd ∷ rest) → 0 < occurs q (s.events idx)
      mine q h = subst (λ l. 0 < occurs q l) (sym e) h

      by_read : (r : Read) → IsSound listenfd (read_event idx fd rest r s)
      by_read (got buf) =
          let keeps =
            events-IsSound idx rest (λ q h. sound.pending idx q low (mine q (omega arith))) in
          record {
            stdin = keeps.stdin;
            created = keeps.created;
            apart = keeps.apart;
            owned = keeps.owned;
            once = keeps.once;
            listening = keeps.listening;
            pending = keeps.pending;
            ledger = keeps.ledger;
          }
      by_read again = events-IsSound idx [] (λ q h. absurd (omega arith))
      by_read failed = finish-IsSound idx fd low (mine fd (ground arith))
      by_read at_eof = finish-IsSound idx fd low (mine fd (ground arith))

  -- `main` closes nothing but the listening socket.
  pub main_event-IsSound : (events : ℕ) → IsSound listenfd (main_event listenfd events listenfd s)
  unfolding main_event close
  main_event-IsSound events = elim (Bool-cases (has_error events)) [
    | inl e ↦ rw e closed
    | inr e ↦
        (let self_eq : (listenfd == listenfd) ≡ true = ground arith in rw (e, self_eq) entered)
  ]
    where
      entered : IsSound listenfd (record s { accepting = true })
      entered = record {
        stdin = sound.stdin;
        created = sound.created;
        apart = sound.apart;
        owned = sound.owned;
        once = sound.once;
        listening = sound.listening;
        pending = sound.pending;
        ledger = sound.ledger;
      }

      closed : IsSound listenfd (close listenfd s)
      closed =
          let none_open = sound.listening in
          let same : (q : ℕ) → occurs q (close listenfd s).connections ≡ occurs q s.connections =
            λ q. elim (Bool-cases (listenfd == q)) [
              | inl e ↦
                  (let eq : listenfd ≡ q = ground (arith, e) in
                    connections-close q listenfd s
                    ∙ rw e (sym (subst (λ p. occurs p s.connections ≡ 0) eq none_open)))
              | inr e ↦ connections-close q listenfd s ∙ rw e refl
            ] in
          record {
            stdin = none-unregister listenfd (s.interest 0) sound.stdin;
            created = λ i h up.
                exists-unregister listenfd (s.interest (s.epfds i)) ∙ sound.created i h up;
            apart = sound.apart;
            owned = λ q.
                let cleared = owners-close q listenfd s in
                let kept = connections-close q listenfd s in
                let before = sound.owned q in ground (arith, cleared, kept, before);
            once = λ q. subst (λ n. n ≤ 1) (sym (same q)) (sound.once q);
            listening = same listenfd ∙ none_open;
            pending = λ i q h some_event.
                let pending = sound.pending i q h some_event in
                let up = open_one i q h pending in
                let other : (listenfd == q) ≡ false = elim (Bool-cases (listenfd == q)) [
                  | inr d ↦ d
                  | inl d ↦
                      (let eq : listenfd ≡ q = ground (arith, d) in
                        absurd
                          (omega (arith, subst (λ p. occurs p s.connections ≡ 0) eq none_open, up)))
                ] in
                subst (λ n. 0 < n) (sym (registered-close q listenfd s i ∙ rw other refl)) pending;
            ledger = λ q. sound.ledger q ∙ ap (λ n. n + occurs q s.ended) (sym (same q));
          }
