-- ===== src/Wave/Finish.antt =====
-- dmm_wave.c, dmm_wave_finish: the message to the nodes subscribed to the end of the current wave.
use dimmon.Prelude.{ℕ, false, Option, none, some, ◌==◌, if◌then◌else◌}
use dimmon.State.{Addr, Errno, enomem, Cmd, ◌>>=◌, ◌>>◌, pure, get}
use dimmon.Event.{event_unsubscribeall}
use dimmon.Wave.{wavefinish_id2ref, wavefinish_rm}
use dimmon.Message.{Content, Msg, msgtype_generic, cmd_wavefinish, msg_create}
use dimmon.Message.Generic.{Receiver}
use dimmon.Message.Send.{event_sendsubscribed}

abbrev pub wavefinish_msg : Msg
wavefinish_msg = record {
  cm_src = 0;
  cm_cmd = cmd_wavefinish;
  cm_type = msgtype_generic;
  cm_token = 0;
  cm_resp = false;
  cm_err = false;
  cm_data = Content.empty;
}

module _ (receiver : Addr → Option Receiver) where
  abbrev notify : ℕ → Addr → Option Msg → Cmd Errno
  notify fuel a none = pure enomem
  notify fuel a (some m) = do event_sendsubscribed receiver fuel a m; pure 0

  unfoldable pub wave_finish : ℕ → Cmd Errno
  unfolding wavefinish_id2ref msg_create event_sendsubscribed event_unsubscribeall wavefinish_rm
  wave_finish fuel = do
    s ← get
    a ← wavefinish_id2ref s.dmm_wave_id
    if a == 0 then pure 0 else do
      r ← msg_create wavefinish_msg
      err ← notify fuel a r
      event_unsubscribeall a
      wavefinish_rm a
      pure err
