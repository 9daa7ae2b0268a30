-- ===== src/Epoll.antt =====
-- clib/epoll_multi_instance.c: one thread accepts connections and hands each to one of four epoll
-- instances, whose threads print what the connections send. What a system call gives is an argument
-- of the step that makes it; of the kernel there are the descriptors registered with each instance
-- and the connections that are open.
pub mod Events
pub mod Kernel
pub mod Spread
pub mod Sound
pub mod Keeps
pub mod Accepts
pub mod Life
mod Tests
use Prim.Native.Nat.{bit_and, bit_or}
use chenghualearning.Common.{
  ℕ, ◌+◌, ◌%◌, ◌^◌, ◌<◌, ◌≤◌, ◌≡◌, ◌⊎◌, inl, inr, Bool, true, false, ◌||◌, not, Option, none, some,
  List, [], ◌∷◌, ◌++◌, length, ◌==◌, if◌then◌else◌, Run, ok, fault, out_of_bounds,
}
use chenghualearning.Common.Int.{ℤ, pos, negsuc}
use chenghualearning.Common.Family.{update}

-- `EPOLL_INS_CNT`, `READ_BUF_LEN`, `MAX_EVENT`
abbrev pub epoll_ins_cnt : ℕ
epoll_ins_cnt = 4

abbrev pub read_buf_len : ℕ
read_buf_len = 256

abbrev pub max_event : ℕ
max_event = 20

-- Of <sys/epoll.h>.
abbrev pub epollin : ℕ
epollin = 1

abbrev pub epollerr : ℕ
epollerr = 8

abbrev pub epollhup : ℕ
epollhup = 16

-- `epfds` and `accept_cnt`; `accepting` is whether `main` is in its loop over `accept`, and `events`
-- are those that each thread has yet to go through. Of the kernel, `interest` is what is registered
-- with an instance, none where the descriptor is of no instance, and `connections` are the accepted
-- ones that are open. The rest are logs, which the code does not read: what was written to the
-- standard output, the connections that were accepted, and those whose `read` gave their end or an
-- error.
pub record Server : Type 0 where
  pub epfds : ℕ → ℕ
  pub accept_cnt : ℕ
  pub accepting : Bool
  pub events : ℕ → List ℕ
  pub interest : ℕ → Option (List ℕ)
  pub connections : List ℕ
  pub out : List ℕ
  pub accepted : List ℕ
  pub ended : List ℕ

-- A function goes on, or `main` returns.
pub data Outcome {ℓ} (A : Type ℓ) : Type ℓ where
  continues : A → Outcome A
  exits : (code : ℤ) → A → Outcome A

-- `flags` is what F_GETFL gives, none for -1, and `set` says whether F_SETFL succeeds. The flags
-- that are set are returned too.
unfoldable pub make_socket_non_blocking :
    (o_nonblock : ℕ) (flags : Option ℕ) (set : Bool) → ℤ × Option ℕ
make_socket_non_blocking o_nonblock none set = (negsuc 0, none)
make_socket_non_blocking o_nonblock (some flags) set =
    if set then (pos 0, some (bit_or flags o_nonblock)) else (negsuc 0, none)

-- `epoll_create1` gives a descriptor that is of no instance, or -1.
abbrev pub epoll_create1 : (epfd : ℕ) → Server → Server
epoll_create1 epfd s = record s { interest = update s.interest epfd (some []) }

-- `epfds[idx]` is written whatever `idx` is: after the message on an invalid one the code goes on.
unfoldable pub store_epfd : (idx : ℤ) (epfd : ℕ) → Server → Run Server
store_epfd (negsuc idx) epfd s = fault out_of_bounds
store_epfd (pos idx) epfd s = elim (idx == 0 || idx == 1 || idx == 2 || idx == 3) [
  | true ↦ ok (record s { epfds = update s.epfds idx epfd })
  | false ↦ fault out_of_bounds
]

-- `epoll_do_create` up to its loop; `created` is what `epoll_create1` gives, none for -1.
unfoldable pub epoll_do_create : (created : Option ℕ) (idx : ℤ) → Server → Run Server
epoll_do_create none idx s = ok s
epoll_do_create (some epfd) idx s = store_epfd idx epfd (epoll_create1 epfd s)

unfoldable pub remove : ℕ → List ℕ → List ℕ
remove fd [] = []
remove fd (x ∷ xs) = if x == fd then remove fd xs else x ∷ remove fd xs

unfoldable pub unregister : ℕ → Option (List ℕ) → Option (List ℕ)
unregister fd none = none
unregister fd (some fds) = some (remove fd fds)

-- `close` takes the descriptor out of every instance too.
unfoldable pub close : ℕ → Server → Server
close fd s = record s {
  interest = λ epfd. unregister fd (s.interest epfd);
  connections = remove fd s.connections;
}

-- What `read` gives: bytes, -1 with EAGAIN, -1 with another error, or 0.
pub data Read : Type 0 where
  got : List ℕ → Read
  again : Read
  failed : Read
  at_eof : Read

-- `done = 1; break;` and the close after the loop.
unfoldable pub finish : (idx fd : ℕ) → Server → Server
finish idx fd s = close fd (record s { events = update s.events idx []; ended = fd ∷ s.ended })

-- One round of the loop over the events in the thread of the instance `idx`, at the event of `fd` with
-- `rest` behind it. A break leaves the loop over the events.
unfoldable pub read_event : (idx fd : ℕ) (rest : List ℕ) → Read → Server → Server
read_event idx fd rest (got buf) s = record s {
  out = s.out ++ buf;
  events = update s.events idx rest;
}
read_event idx fd rest again s = record s { events = update s.events idx [] }
read_event idx fd rest failed s = finish idx fd s
read_event idx fd rest at_eof s = finish idx fd s

-- `events & EPOLLERR || events & EPOLLHUP || (! events & EPOLLIN)`; `!` binds before `&`.
unfoldable pub has_error : ℕ → Bool
has_error events =
    not (bit_and events epollerr == 0)
    || (not (bit_and events epollhup == 0)
        || not (bit_and (if events == 0 then 1 else 0) epollin == 0))

-- A connection that `accept` gives, with the results of the calls that follow it; `added` is whether
-- `epoll_ctl` succeeds on a descriptor of an instance.
pub record Accepted : Type 0 where
  pub fd : ℕ
  pub flags : Option ℕ
  pub set : Bool
  pub added : Bool

-- `epoll_ctl` with EPOLL_CTL_ADD; none for -1, also where `epfd` is of no instance.
unfoldable pub epoll_ctl : (added : Bool) (epfd fd : ℕ) → Server → Option Server
epoll_ctl added epfd fd s = elim (s.interest epfd) [
  | none ↦ none
  | some fds ↦
      if added
      then some (record s { interest = update s.interest epfd (some (fd ∷ fds)) })
      else none
]

-- The kernel's part of `accept`.
abbrev pub open_connection : ℕ → Server → Server
open_connection fd s = record s { connections = fd ∷ s.connections; accepted = fd ∷ s.accepted }

abbrev pub next_turn : Server → Server
next_turn s = record s { accept_cnt = (s.accept_cnt + 1) % 2 ^ 64 }

-- The end of a round: `main` goes on where `epoll_ctl` succeeds.
unfoldable pub after_ctl : Server → Option Server → Outcome Server
after_ctl s none = exits (pos 0) s
after_ctl s (some s') = continues s'

-- One round of the loop of `main` over `accept`, which gives `a`. `o_nonblock` is O_NONBLOCK.
unfoldable pub accept_one : (o_nonblock : ℕ) → Accepted → Server → Outcome Server
accept_one o_nonblock a s =
    let s = open_connection a.fd s in
    elim (make_socket_non_blocking o_nonblock a.flags a.set).0 [
      | negsuc r ↦ exits (pos 0) s
      | pos r ↦
          after_ctl (next_turn s)
            (epoll_ctl a.added (s.epfds (s.accept_cnt % epoll_ins_cnt)) a.fd (next_turn s))
    ]

-- The whole loop: `accept` gives a list of connections, and then -1.
unfoldable pub accept_loop : (o_nonblock : ℕ) → List Accepted → Server → Outcome Server
accept_loop o_nonblock [] s = continues (record s { accepting = false })
accept_loop o_nonblock (a ∷ rest) s = elim (accept_one o_nonblock a s) [
  | exits code s' ↦ exits code s'
  | continues s' ↦ accept_loop o_nonblock rest s'
]

-- What `main` does with one event up to the loop over `accept`.
unfoldable pub main_event : (listenfd events fd : ℕ) → Server → Server
main_event listenfd events fd s =
    if has_error events
    then close fd s
    else if fd == listenfd
    then record s { accepting = true }
    else s

-- What the calls of `main` before its loop give; none is -1.
pub record Calls : Type 0 where
  pub listenfd : Option ℕ
  pub reuses : Bool
  pub bound : Bool
  pub flags : Option ℕ
  pub set : Bool
  pub listens : Bool
  pub epfd : Option ℕ
  pub added : Bool

-- `main` up to its loop: the code that it returns, or the descriptors of the listening socket and
-- of its own instance. The threads are started after `listen`.
unfoldable pub main_start : (o_nonblock : ℕ) → Calls → ℤ ⊎ (ℕ × ℕ)
main_start o_nonblock calls = elim (calls.listenfd) [
  | none ↦ inl (negsuc 0)
  | some listenfd ↦
      if not calls.reuses || not calls.bound
      then inl (pos 0)
      else elim (make_socket_non_blocking o_nonblock calls.flags calls.set).0 [
        | negsuc r ↦ inl (pos 0)
        | pos r ↦ if not calls.listens then inl (pos 0) else elim (calls.epfd) [
          | none ↦ inl (pos 0)
          | some epfd ↦ if calls.added then inr (listenfd, epfd) else inl (pos 0)
        ]
      ]
]

-- How often a descriptor is in a list.
unfoldable pub occurs : ℕ → List ℕ → ℕ
occurs q [] = 0
occurs q (x ∷ xs) = (if x == q then 1 else 0) + occurs q xs

-- How often a descriptor is registered with the instance of a thread.
unfoldable pub among : ℕ → Option (List ℕ) → ℕ
among q none = 0
among q (some fds) = occurs q fds

abbrev pub registered : ℕ → Server → (idx : ℕ) → ℕ
registered q s idx = among q (s.interest (s.epfds idx))

-- A `read` of at most READ_BUF_LEN bytes.
abbrev pub IsRead : Read → Type 0
IsRead (got buf) = (0 < length buf) × (length buf ≤ read_buf_len)
IsRead again = Unit {0}
IsRead failed = Unit {0}
IsRead at_eof = Unit {0}

-- The server when `main` enters its loop and the threads have just been started.
abbrev pub started : Server
started = record {
  epfds = λ _. 0;
  accept_cnt = 0;
  accepting = false;
  events = λ _. [];
  interest = λ _. none;
  connections = [];
  out = [];
  accepted = [];
  ended = [];
}

-- The steps of the threads and of `main`. The kernel gives descriptors that are not in use: that of
-- an instance is none of an instance, and not 0, the standard input; that of a connection is neither
-- `listenfd` nor of an open connection. The instance of `main` has `listenfd` only, and
-- `epoll_wait` gives a thread events of descriptors that are registered with its own instance.
pub data Step (o_nonblock listenfd : ℕ) (s : Server) : Server → Type 0 where
  thread_creates :
      {s' : Server} (idx epfd : ℕ)
      → idx < epoll_ins_cnt
      → s.epfds idx ≡ 0
      → s.interest epfd ≡ none
      → 0 < epfd
      → epoll_do_create (some epfd) (pos idx) s ≡ ok s'
      → Step o_nonblock listenfd s s'
  thread_waits :
      (idx : ℕ) (events : List ℕ)
      → idx < epoll_ins_cnt
      → s.events idx ≡ []
      → length events ≤ max_event
      → ((q : ℕ) → 0 < occurs q events → 0 < registered q s idx)
      → Step o_nonblock listenfd s (record s { events = update s.events idx events })
  thread_reads :
      (idx fd : ℕ) (rest : List ℕ) (r : Read)
      → idx < epoll_ins_cnt
      → s.events idx ≡ fd ∷ rest
      → IsRead r
      → Step o_nonblock listenfd s (read_event idx fd rest r s)
  main_wakes :
      (events : ℕ)
      → s.accepting ≡ false
      → Step o_nonblock listenfd s (main_event listenfd events listenfd s)
  main_accepts :
      {s' : Server} (a : Accepted)
      → s.accepting ≡ true
      → occurs a.fd (listenfd ∷ s.connections) ≡ 0
      → accept_one o_nonblock a s ≡ continues s'
      → Step o_nonblock listenfd s s'
  main_accepted : s.accepting ≡ true → Step o_nonblock listenfd s (record s { accepting = false })

pub data Steps (o_nonblock listenfd : ℕ) (s : Server) : Server → Type 0 where
  here : Steps o_nonblock listenfd s s
  next :
      {t u : Server}
      → Steps o_nonblock listenfd s t
      → Step o_nonblock listenfd t u
      → Steps o_nonblock listenfd s u
