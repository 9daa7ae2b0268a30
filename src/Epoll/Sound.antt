-- ===== src/Epoll/Sound.antt =====
-- What holds between the steps of the server of clib/epoll_multi_instance.c.
use chenghualearning.Common.{ℕ, ◌+◌, ◌<◌, ◌≤◌, ◌≡◌, Bool, true, false, Option, none, some, List}
use chenghualearning.Epoll.{epoll_ins_cnt, Server, occurs, registered}
use chenghualearning.Epoll.Kernel.{owners}

abbrev pub exists : Option (List ℕ) → Bool
exists none = false
exists (some fds) = true

-- The instances that have been created are different ones; each open connection is registered with
-- one, and nothing else is; events are of descriptors registered with the thread's instance; and
-- each accepted connection is open or has ended.
pub record IsSound (listenfd : ℕ) (s : Server) : Type 0 where
  pub stdin : s.interest 0 ≡ none
  pub created : (i : ℕ) → i < epoll_ins_cnt → 0 < s.epfds i → exists (s.interest (s.epfds i)) ≡ true
  pub apart :
      (i j : ℕ)
      → i < epoll_ins_cnt
      → j < epoll_ins_cnt
      → 0 < s.epfds i
      → s.epfds i ≡ s.epfds j
      → i ≡ j
  pub owned : (q : ℕ) → owners q s ≡ occurs q s.connections
  pub once : (q : ℕ) → occurs q s.connections ≤ 1
  pub listening : occurs listenfd s.connections ≡ 0
  pub pending : (i q : ℕ) → i < epoll_ins_cnt → 0 < occurs q (s.events i) → 0 < registered q s i
  pub ledger : (q : ℕ) → occurs q s.accepted ≡ occurs q s.connections + occurs q s.ended
