-- ===== src/Sockevent/Translation.antt =====
-- The translations of event masks in dmm_sockevent.c.
use dimmon.Prelude.{ℕ, ◌+◌, ◌<◌, ◌≡◌, not, arith, ◌==◌, if◌then◌else◌}
use dimmon.Sockevent.{bit, se_ev_2_epoll_ev, epoll_ev_2_se_ev}

-- What a subscriber asks for, of readable and writable, is what it is told when epoll reports just
-- that.
pub epoll_ev_2_se_ev-se_ev_2_epoll_ev :
    (sev : ℕ) → sev < 4 → epoll_ev_2_se_ev (se_ev_2_epoll_ev sev) ≡ sev
unfolding epoll_ev_2_se_ev se_ev_2_epoll_ev
epoll_ev_2_se_ev-se_ev_2_epoll_ev sev h = ground arith

-- The bits of EPOLLIN and EPOLLOUT of a mask.
abbrev bit_part : ℕ → ℕ
bit_part ev = (if bit ev 0 then 1 else 0) + (if bit ev 2 then 4 else 0)

-- Of any mask of epoll, readable and writable are passed on, each exactly if its bit is set, and
-- the error bit is set exactly if epoll reports anything else.
epoll_ev_2_se_ev-bits :
    (ev : ℕ)
    → (bit (epoll_ev_2_se_ev ev) 0 ≡ bit ev 0)
      × (bit (epoll_ev_2_se_ev ev) 1 ≡ bit ev 2)
      × (bit (epoll_ev_2_se_ev ev) 2 ≡ not (ev == bit_part ev))
unfolding epoll_ev_2_se_ev
epoll_ev_2_se_ev-bits ev = (ground arith, ground arith, ground arith)
