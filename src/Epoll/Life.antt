-- ===== src/Epoll/Life.antt =====
-- The life of a connection of clib/epoll_multi_instance.c.
use chenghualearning.Common.{ℕ, ◌<◌, ◌≡◌, refl, arith, Returns-ok}
use chenghualearning.Epoll.{
  epoll_ins_cnt, Server, occurs, registered, started, Step, thread_creates, thread_waits,
  thread_reads, main_wakes, main_accepts, main_accepted, Steps, here, next, among,
}
use chenghualearning.Epoll.Kernel.{total-none}
use chenghualearning.Epoll.Sound.{IsSound}
use chenghualearning.Epoll.Keeps.{
  one_owner, open_one, events-IsSound, read_event-IsSound, main_event-IsSound,
}
use chenghualearning.Epoll.Accepts.{accept_one-IsSound, epoll_do_create-IsSound}

started-IsSound : (listenfd : ℕ) → IsSound listenfd started
unfolding occurs among
started-IsSound listenfd = record {
  stdin = refl;
  created = λ i h up. absurd (omega arith);
  apart = λ i j hi hj up same. absurd (omega arith);
  owned = λ q. total-none epoll_ins_cnt (registered q started) (λ i h. refl);
  once = λ q. omega arith;
  listening = refl;
  pending = λ i q h some_event. absurd (omega arith);
  ledger = λ q. refl;
}

module _ (o_nonblock listenfd : ℕ) where
  Step-IsSound :
      (s t : Server) → IsSound listenfd s → Step o_nonblock listenfd s t → IsSound listenfd t
  Step-IsSound s t sound (thread_creates idx epfd low unset free positive run) =
      Returns-ok (epoll_do_create-IsSound sound idx epfd low unset free positive) run
  Step-IsSound s t sound (thread_waits idx events low idle few own) =
      events-IsSound sound idx events own
  Step-IsSound s t sound (thread_reads idx fd rest r low e sized) =
      read_event-IsSound sound idx fd rest r low e
  Step-IsSound s t sound (main_wakes events waiting) = main_event-IsSound sound events
  Step-IsSound s t sound (main_accepts a accepting fresh run) =
      accept_one-IsSound sound o_nonblock a t fresh run
  Step-IsSound s t sound (main_accepted accepting) = record {
    stdin = sound.stdin;
    created = sound.created;
    apart = sound.apart;
    owned = sound.owned;
    once = sound.once;
    listening = sound.listening;
    pending = sound.pending;
    ledger = sound.ledger;
  }

  Steps-IsSound : (s : Server) → Steps o_nonblock listenfd started s → IsSound listenfd s
  Steps-IsSound s here = started-IsSound listenfd
  Steps-IsSound s (next {t = t} before step) = Step-IsSound t s (Steps-IsSound t before) step

  -- From the start on, in every order of the steps of `main` and of the threads: two threads that have
  -- an event of the same descriptor yet to go through are the same, and the descriptor is of an open
  -- connection. So no thread reads a connection that is closed, or one that another has an event of.
  pub Steps-one_reader :
      (s : Server) (i j q : ℕ)
      → Steps o_nonblock listenfd started s
      → i < epoll_ins_cnt
      → j < epoll_ins_cnt
      → 0 < occurs q (s.events i)
      → 0 < occurs q (s.events j)
      → (i ≡ j) × (occurs q s.connections ≡ 1)
  Steps-one_reader s i j q steps hi hj ei ej =
      let sound = Steps-IsSound s steps in
      (
        one_owner sound i j q hi hj (sound.pending i q hi ei) (sound.pending j q hj ej),
        open_one sound i q hi (sound.pending i q hi ei),
      )
