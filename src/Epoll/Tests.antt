-- ===== src/Epoll/Tests.antt =====
-- Runs of the server of clib/epoll_multi_instance.c.
use chenghualearning.Common.{
  ℕ, ◌+◌, ◌<◌, ◌≡◌, inr, refl, true, false, none, some, List, [], ◌∷◌, ◌&&◌, arith, ltb, ◌==◌, ok,
  fault, Run, if◌then◌else◌,
}
use chenghualearning.Common.Int.{ℤ, pos}
use chenghualearning.Common.Family.{total}
use chenghualearning.Epoll.{
  has_error, Server, Outcome, continues, exits, make_socket_non_blocking, store_epfd,
  epoll_do_create, remove, unregister, close, got, at_eof, finish, read_event, Accepted, epoll_ctl,
  after_ctl, accept_one, accept_loop, main_event, Calls, main_start, occurs, among, registered,
  started, thread_creates, thread_waits, main_wakes, main_accepts, Steps, here, next,
}
use chenghualearning.Epoll.Spread.{IsReady, Ends, accept_loop_lem}
use chenghualearning.Epoll.Life.{Steps-one_reader}

program : Unit {0}
unfolding main_event has_error accept_loop accept_one make_socket_non_blocking epoll_ctl after_ctl
    store_epfd epoll_do_create remove unregister close finish read_event occurs among total
program = tt

abbrev accepted : ℕ → Accepted
accepted fd = record { fd = fd; flags = some 2; set = true; added = true }

-- Five connections.
abbrev five : List Accepted
five = accepted 10 ∷ accepted 11 ∷ accepted 12 ∷ accepted 13 ∷ accepted 14 ∷ []

-- The instances are 5 to 8.
abbrev all_created : Server
all_created = record started {
  epfds = λ idx. idx + 5;
  interest = λ epfd. if ltb 4 epfd && ltb epfd 9 then some [] else none;
}

all_created-IsReady : IsReady all_created
all_created-IsReady = record {
  there = λ i h. ground (arith, h);
  distinct = λ i j hi hj e. omega (arith, e);
}

accept_loop_lem_example : Ends 2048 all_created five
accept_loop_lem_example = accept_loop_lem 2048 five all_created all_created-IsReady

abbrev after_main : Outcome Server → Server
after_main (continues s) = s
after_main (exits code s) = s

-- The instance 0 gets the first and the last.
five_dealt : (after_main (accept_loop 2048 five all_created)).interest 5 ≡ some (14 ∷ 10 ∷ [])
unfolding program
five_dealt = refl

-- Where the instance has not been created, `main` returns.
abbrev code_of : Outcome Server → ℤ
code_of (continues s) = pos 1
code_of (exits code s) = code

accepted_early : code_of (accept_loop 2048 five started) ≡ pos 0
unfolding program
accepted_early = refl

-- With only EPOLLPRI, 2, an event counts as one to accept at.
pri_accepted : has_error 2 ≡ false
unfolding has_error
pri_accepted = refl

-- The first instance is created, `main` accepts a connection, and its thread reads it to the end.
abbrev result : Run Server → Server
result (ok s) = s
result (fault e) = started

abbrev created : Server
created = result (epoll_do_create (some 5) (pos 0) started)

abbrev awake : Server
awake = main_event 4 1 4 created

abbrev connected : Server
connected = after_main (accept_one 2048 (accepted 10) awake)

abbrev ready : Server
ready = record connected { events = λ k. if 0 == k then 10 ∷ [] else [] }

connected-Steps : Steps 2048 4 started connected
unfolding program
connected-Steps =
    next
      (next (next here (thread_creates 0 5 (omega arith) refl refl (omega arith) refl))
        (main_wakes 1 refl))
      (main_accepts (accepted 10) refl refl refl)

ready-Steps : Steps 2048 4 started ready
unfolding program
ready-Steps =
    next connected-Steps (thread_waits 0 (10 ∷ []) (omega arith) refl (omega arith) ten_registered)
  where
    ten_registered : (q : ℕ) → 0 < occurs q (10 ∷ []) → 0 < registered q connected 0
    ten_registered q h = h

Steps-one_reader_example : (◌≡◌ {A = ℕ} 0 0) × (occurs 10 ready.connections ≡ 1)
unfolding program
Steps-one_reader_example =
    Steps-one_reader 2048 4 ready 0 0 10 ready-Steps (omega arith) (omega arith) (omega arith)
      (omega arith)

-- It sends two bytes, and later ends.
abbrev served : Server
served = read_event 0 10 [] (got (104 ∷ 105 ∷ [])) ready

abbrev over : Server
over =
    read_event 0 10 [] at_eof
      (record served { events = λ k. if 0 == k then 10 ∷ [] else served.events k })

over_closed : (over.connections ≡ []) × (over.ended ≡ 10 ∷ []) × (over.out ≡ 104 ∷ 105 ∷ [])
unfolding program
over_closed = (refl, refl, refl)

abbrev all_succeed : Calls
all_succeed = record {
  listenfd = some 4;
  reuses = true;
  bound = true;
  flags = some 2;
  set = true;
  listens = true;
  epfd = some 5;
  added = true;
}

starts : main_start 2048 all_succeed ≡ inr (4, 5)
unfolding main_start make_socket_non_blocking
starts = refl
