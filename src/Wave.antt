-- ===== src/Wave.antt =====
-- dmm_wave.c: the wave counter, and the event that ends a wave, created by the first subscription.
pub mod Finish
pub mod Join
use dimmon.Prelude.{ℕ, ◌+◌, ◌%◌, some, List, [], ◌∷◌, ◌==◌, if◌then◌else◌, unlink}
use dimmon.State.{
  Addr, Errno, enomem, u32_mod, wavefinish_destructor, Event, Sys, Cmd, ◌>>=◌, ◌>>◌, pure, get,
  modify, with_event, put, malloc,
}
use dimmon.Event.{
  event_ref, event_unref, event_init, event_subscribe, event_unsubscribe, event_unsubscribeall,
}

-- `++dmm_wave_id` on 32 bits.
unfoldable pub wave_start : Cmd Errno
wave_start = do modify (λ s. record s { dmm_wave_id = (s.dmm_wave_id + 1) % u32_mod }); pure 0

-- The first event of a list that ends the wave, NULL if there is none.
unfoldable pub first_of_wave : (Addr → ℕ) → ℕ → List Addr → Addr
first_of_wave waveid id [] = 0
first_of_wave waveid id (a ∷ as') = if waveid a == id then a else first_of_wave waveid id as'

unfoldable pub wavefinish_id2ref : ℕ → Cmd Addr
unfolding first_of_wave event_ref
wavefinish_id2ref id = do
  s ← get
  let a = first_of_wave s.wf_waveid id s.wavefinishlist
  if a == 0 then pure 0 else (do event_ref a; pure a)

abbrev set_destructor : Event → Event
set_destructor e = record e { ev_destructor = some wavefinish_destructor }

-- The branch that creates the event of the current wave.
unfoldable pub wavefinish_create : ℕ → Addr → Cmd Errno
unfolding malloc event_init event_subscribe event_unref
wavefinish_create waveid n = do
  a ← malloc
  if a == 0 then pure enomem else do
    event_init a
    modify (λ s. record s { wf_waveid = put s.wf_waveid a waveid })
    modify (with_event a set_destructor)
    modify (λ s. record s { wavefinishlist = a ∷ s.wavefinishlist })
    err ← event_subscribe a n
    event_unref a
    pure err

unfoldable pub wavefinish_subscribe : Addr → Cmd Errno
unfolding wavefinish_id2ref event_subscribe event_unref wavefinish_create
wavefinish_subscribe n = do
  s ← get
  a ← wavefinish_id2ref s.dmm_wave_id
  if a == 0
      then wavefinish_create s.dmm_wave_id n
      else do err ← event_subscribe a n; event_unref a; pure err

unfoldable pub wavefinish_unsubscribe : Addr → Addr → Cmd Errno
unfolding event_unsubscribe
wavefinish_unsubscribe = event_unsubscribe

-- The event leaves the list here and once more in its destructor.
unfoldable pub wavefinish_rm : Addr → Cmd (Unit {0})
unfolding event_unsubscribeall unlink event_unref
wavefinish_rm a = do
  event_unsubscribeall a
  modify (λ s. record s { wavefinishlist = unlink a s.wavefinishlist })
  event_unref a
