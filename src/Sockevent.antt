-- ===== src/Sockevent.antt =====
-- dmm_sockevent.c: events of file descriptors, registered with epoll. The answers of epoll_ctl are
-- those of the state's `epoll`, and each call is recorded with what the kernel is told.
pub mod Translation
pub mod Trigger
use dimmon.Prelude.{
  ℕ, ◌+◌, ◌/◌, ◌%◌, ◌^◌, Bool, true, false, ◌||◌, not, some, List, [], ◌∷◌, ◌==◌, if◌then◌else◌,
}
use dimmon.State.{
  Addr, Errno, enoent, enomem, eexist, sockevent_destructor, Event, Sockevent, Sys, Cmd, ◌>>=◌,
  ◌>>◌, pure, get, assert, modify, with_event, put, malloc, epoll_ctl, epoll_add, epoll_mod,
}
use dimmon.Event.{
  event_ref, event_unref, event_init, event_subscribe, event_checkedsubscribe, event_unsubscribe,
}

abbrev pub bit : ℕ → ℕ → Bool
bit x k = x / 2 ^ k % 2 == 1

-- DMM_SOCKEVENT_IN, OUT and ERR are bits 0, 1 and 2; EPOLLIN and EPOLLOUT are bits 0 and 2.
unfoldable pub se_ev_2_epoll_ev : ℕ → ℕ
se_ev_2_epoll_ev sev = (if bit sev 0 then 1 else 0) + (if bit sev 1 then 4 else 0)

-- Any other bit of epoll is an error.
unfoldable pub epoll_ev_2_se_ev : ℕ → ℕ
epoll_ev_2_se_ev ev =
    (if bit ev 0 then 1 else 0)
    + (if bit ev 2 then 2 else 0)
    + (if bit ev 1 || not (ev / 8 == 0) then 4 else 0)

-- The first event of a list for the descriptor, NULL if there is none.
unfoldable pub first_with_fd : (Addr → Sockevent) → ℕ → List Addr → Addr
first_with_fd sockevent fd [] = 0
first_with_fd sockevent fd (a ∷ as') =
    if (sockevent a).se_fd == fd then a else first_with_fd sockevent fd as'

unfoldable pub sockevent_fd2ref : ℕ → Cmd Addr
unfolding first_with_fd event_ref
sockevent_fd2ref fd = do
  s ← get
  let a = first_with_fd s.sockevent fd s.sockeventlist
  if a == 0 then pure 0 else (do event_ref a; pure a)

abbrev set_destructor : Event → Event
set_destructor e = record e { ev_destructor = some sockevent_destructor }

abbrev with_sockevent : Addr → Sockevent → Sys → Sys
with_sockevent a x s = record s { sockevent = put s.sockevent a x }

-- The branch for a descriptor that epoll did not know.
unfoldable pub sockevent_register : Addr → ℕ → ℕ → Addr → Cmd Errno
unfolding event_init event_subscribe event_unref
sockevent_register a fd events n = do
  event_init a
  modify (with_sockevent a (record { se_fd = fd; se_sockevents = events }))
  modify (with_event a set_destructor)
  modify (λ s. record s { sockeventlist = a ∷ s.sockeventlist })
  err ← event_subscribe a n
  event_unref a
  pure err

-- The branch for a descriptor that epoll knows.
unfoldable pub sockevent_join : ℕ → ℕ → Addr → Cmd Errno
unfolding sockevent_fd2ref epoll_ctl event_checkedsubscribe event_unref se_ev_2_epoll_ev
sockevent_join fd events n = do
  a ← sockevent_fd2ref fd
  assert (not (a == 0))
  s ← get
  err ←
      (if (s.sockevent a).se_sockevents == events then pure 0 else do
        modify (with_sockevent a (record (s.sockevent a) { se_sockevents = events }))
        epoll_ctl (epoll_mod fd a (se_ev_2_epoll_ev events)))
  if err == 0
      then (do err' ← event_checkedsubscribe a n; event_unref a; pure err')
      else (do event_unref a; pure err)

unfoldable pub sockevent_subscribe : ℕ → ℕ → Addr → Cmd Errno
unfolding malloc epoll_ctl sockevent_register sockevent_join se_ev_2_epoll_ev
sockevent_subscribe fd events n = do
  a ← malloc
  if a == 0 then pure enomem else do
    err ← epoll_ctl (epoll_add fd a (se_ev_2_epoll_ev events))
    if err == 0
        then sockevent_register a fd events n
        else if err == eexist
        then sockevent_join fd events n
        else pure err

unfoldable pub sockevent_unsubscribe : ℕ → Addr → Cmd Errno
unfolding sockevent_fd2ref event_unsubscribe event_unref
sockevent_unsubscribe fd n = do
  a ← sockevent_fd2ref fd
  if a == 0 then pure enoent else do err ← event_unsubscribe a n; event_unref a; pure err
