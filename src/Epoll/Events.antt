-- ===== src/Epoll/Events.antt =====
-- The errors that `main` of clib/epoll_multi_instance.c tells from its events.
use Prim.Native.Nat.{bit_and}
use chenghualearning.Common.{
  ℕ, ◌+◌, ◌<◌, ◌≡◌, refl, ap, Bool, true, false, ◌||◌, not, some, arith, ◌==◌, fault, out_of_bounds,
}
use chenghualearning.Common.Int.{pos, negsuc}
use chenghualearning.Epoll.{
  epollerr, epollhup, epoll_ins_cnt, has_error, Server, store_epfd, epoll_do_create,
}

-- Of events other than none at all, just EPOLLERR and EPOLLHUP make an error: whether EPOLLIN is
-- among them does not matter. No event at all is an error.
pub has_error_lem :
    (events : ℕ)
    → 0 < events
    → (has_error events
        ≡ (not (bit_and events epollerr == 0) || not (bit_and events epollhup == 0)))
      × (has_error 0 ≡ true)
unfolding has_error
has_error_lem events some_event = (
  (let c : (events == 0) ≡ false = ground arith in
      rw c (
        ap (λ b. not (bit_and events epollerr == 0) || b)
          (or_false (not (bit_and events epollhup == 0))))),
  refl,
)
  where
    or_false : (b : Bool) → (b || false) ≡ b
    or_false true = refl
    or_false false = refl

-- A thread that is started with an index of no instance, a negative one or one from EPOLL_INS_CNT
-- on, writes outside `epfds` as soon as its instance has been created: the test of the index only
-- prints.
pub epoll_do_create_invalid :
    (epfd n : ℕ) (s : Server)
    → (epoll_do_create (some epfd) (negsuc n) s ≡ fault out_of_bounds)
      × (epoll_do_create (some epfd) (pos (epoll_ins_cnt + n)) s ≡ fault out_of_bounds)
unfolding epoll_do_create store_epfd
epoll_do_create_invalid epfd n s = (refl, ground arith)
