-- ===== src/Sockevent/Trigger.antt =====
-- dmm_sockevent.c, dmm_sockevent_trigger and dmm_sockevent_process: the message to the nodes
-- subscribed to a descriptor that epoll_wait has named.
use dimmon.Prelude.{ℕ, false, Option, none, some}
use dimmon.State.{Addr, Errno, enomem, Cmd, ◌>>=◌, ◌>>◌, pure, get}
use dimmon.Event.{event_unref}
use dimmon.Sockevent.{epoll_ev_2_se_ev}
use dimmon.Message.{Content, Msg, msgtype_generic, cmd_sockeventtrigger, msg_create}
use dimmon.Message.Generic.{Receiver}
use dimmon.Message.Send.{event_sendsubscribed}

abbrev pub sockevent_msg : ℕ → ℕ → Msg
sockevent_msg fd events = record {
  cm_src = 0;
  cm_cmd = cmd_sockeventtrigger;
  cm_type = msgtype_generic;
  cm_token = 0;
  cm_resp = false;
  cm_err = false;
  cm_data = Content.sockeventtrigger fd events;
}

module _ (receiver : Addr → Option Receiver) where
  unfoldable pub sockevent_trigger : ℕ → Addr → ℕ → Cmd Errno
  unfolding epoll_ev_2_se_ev msg_create event_unref event_sendsubscribed
  sockevent_trigger fuel a epoll_events = do
    s ← get
    r ← msg_create (sockevent_msg (s.sockevent a).se_fd (epoll_ev_2_se_ev epoll_events))
    elim r [
      | none ↦ do event_unref a; pure enomem
      | some m ↦ do event_sendsubscribed receiver fuel a m; pure 0
    ]

  -- `ev->data.ptr` is the event's address.
  unfoldable pub sockevent_process : ℕ → Addr → ℕ → Cmd Errno
  unfolding sockevent_trigger
  sockevent_process = sockevent_trigger
