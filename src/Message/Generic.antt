-- ===== src/Message/Generic.antt =====
-- dmm_base.c, dmm_msg_process_generic: what the runtime does on each generic command. `err` is the
-- error, `resp` the response to be sent, `freed` whether the node has taken the message over.
use dimmon.Prelude.{ℕ, Bool, true, false, Option, none, some, List, ◌==◌, if◌then◌else◌}
use dimmon.State.{Addr, Errno, enoent, enomem, einval, Cmd, fault, ◌>>=◌, ◌>>◌, pure, get, assert}
use dimmon.Node.{node_unref}
use dimmon.Event.{event_unref}
use dimmon.Timer.{
  timer_create, timer_rm, timer_id2ref, timer_set, timer_subscribe, timer_unsubscribe,
}
use dimmon.Wave.{wavefinish_subscribe}
use dimmon.Sockevent.{sockevent_subscribe, sockevent_unsubscribe}
use dimmon.Graph.{node_create, node_rm, node_connect, node_disconnect, node_addr2ref}
use dimmon.Message.{Content, Msg, GenericCmd, msg_create_resp}

pub record Outcome : Type 0 where
  pub err : Errno
  pub resp : Option Msg
  pub freed : Bool

abbrev failing : Errno → Outcome
failing e = record { err = e; resp = none; freed = false }

-- The response is created first, and without memory for it nothing is done.
abbrev responding : Msg → Content → (Msg → Cmd (Errno × Msg)) → Cmd Outcome
responding m content body = do
  r ← msg_create_resp 0 m content
  elim r [
    | none ↦ pure (failing enomem)
    | some resp ↦ do
      (e, resp') ← body resp
      pure (record { err = e; resp = some resp'; freed = false })
  ]

abbrev answering : Cmd Errno → Msg → Cmd (Errno × Msg)
answering body resp = do e ← body; pure (e, resp)

-- The id of the new node is the source of the response.
unfoldable pub process_nodecreate : Msg → Content → Cmd Outcome
unfolding msg_create_resp node_create
process_nodecreate m (Content.nodecreate type) = responding m Content.empty λ resp. do
  (e, newnode) ← node_create type
  s ← get
  pure (e, if e == 0 then record resp { cm_src = (s.node newnode).nd_id } else resp)
process_nodecreate m _ = λ _. fault

unfoldable pub process_noderm : Addr → Msg → Content → Cmd Outcome
unfolding msg_create_resp node_rm
process_noderm node m Content.empty =
    responding m Content.empty (answering (node_rm node >> pure 0))
process_noderm node m _ = λ _. fault

-- Run with the node of an address, which is held meanwhile.
abbrev with_address : List ℕ → (Addr → Cmd Errno) → Cmd Errno
with_address addr body = do
  dst ← node_addr2ref addr
  if dst == 0 then pure einval else do e ← body dst; node_unref dst; pure e

unfoldable pub process_nodeconnect : Addr → Msg → Content → Cmd Outcome
unfolding msg_create_resp node_addr2ref node_connect node_unref
process_nodeconnect node m (Content.nodeconnect srchook dstnode dsthook) =
    responding m Content.empty
      (answering (with_address dstnode λ dst. node_connect node srchook dst dsthook))
process_nodeconnect node m _ = λ _. fault

unfoldable pub process_nodedisconnect : Addr → Msg → Content → Cmd Outcome
unfolding msg_create_resp node_addr2ref node_disconnect node_unref
process_nodedisconnect node m (Content.nodedisconnect srchook dstnode dsthook) =
    responding m Content.empty
      (answering (with_address dstnode λ dst. node_disconnect node srchook dst dsthook))
process_nodedisconnect node m _ = λ _. fault

unfoldable pub process_timercreate : Msg → Content → Cmd Outcome
unfolding msg_create_resp timer_create
process_timercreate m Content.empty = responding m (Content.timer_id 0) λ resp. do
  (e, timer) ← timer_create
  s ← get
  pure (e, record resp { cm_data = Content.timer_id (if e == 0 then (s.event timer).ev_id else 0) })
process_timercreate m _ = λ _. fault

-- Run with the timer of an id, which is held meanwhile. There is no test that the id is known: the
-- timer is then NULL, which the release follows at the latest.
abbrev with_timer_id : ℕ → (Addr → Cmd Errno) → Cmd Errno
with_timer_id id body = do
  timer ← timer_id2ref id
  e ← body timer
  if timer == 0 then (λ _. fault) else (do event_unref timer; pure e)

unfoldable pub process_timerset : Msg → Content → Cmd Outcome
unfolding msg_create_resp timer_id2ref timer_set event_unref
process_timerset m (Content.timerset id next interval flags) =
    responding m Content.empty
      (answering (with_timer_id id λ timer. timer_set timer next interval flags))
process_timerset m _ = λ _. fault

unfoldable pub process_timersubscribe : Addr → Msg → Content → Cmd Outcome
unfolding msg_create_resp timer_id2ref timer_subscribe event_unref
process_timersubscribe node m (Content.timer_id id) =
    responding m Content.empty (answering (with_timer_id id λ timer. timer_subscribe timer node))
process_timersubscribe node m _ = λ _. fault

unfoldable pub process_timerunsubscribe : Addr → Msg → Content → Cmd Outcome
unfolding msg_create_resp timer_id2ref timer_unsubscribe event_unref
process_timerunsubscribe node m (Content.timer_id id) =
    responding m Content.empty (answering (with_timer_id id λ timer. timer_unsubscribe timer node))
process_timerunsubscribe node m _ = λ _. fault

-- Here the NULL is tested. The reference is released first, so that `timer_rm` frees the timer.
unfoldable pub process_timerrm : Msg → Content → Cmd Outcome
unfolding msg_create_resp timer_id2ref timer_rm event_unref
process_timerrm m (Content.timer_id id) = responding m Content.empty (
    answering (do
      timer ← timer_id2ref id
      if timer == 0 then pure enoent else do event_unref timer; timer_rm timer; pure 0))
process_timerrm m _ = λ _. fault

unfoldable pub process_sockeventsubscribe : Addr → Msg → Content → Cmd Outcome
unfolding msg_create_resp sockevent_subscribe
process_sockeventsubscribe node m (Content.sockeventsubscribe fd events) =
    responding m Content.empty (answering (sockevent_subscribe fd events node))
process_sockeventsubscribe node m _ = λ _. fault

unfoldable pub process_sockeventunsubscribe : Addr → Msg → Content → Cmd Outcome
unfolding msg_create_resp sockevent_unsubscribe
process_sockeventunsubscribe node m (Content.sockeventunsubscribe fd) =
    responding m Content.empty (answering (sockevent_unsubscribe fd node))
process_sockeventunsubscribe node m _ = λ _. fault

unfoldable pub process_wavefinishsubscribe : Addr → Msg → Content → Cmd Outcome
unfolding msg_create_resp wavefinish_subscribe
process_wavefinishsubscribe node m Content.empty =
    responding m Content.empty (answering (wavefinish_subscribe node))
process_wavefinishsubscribe node m _ = λ _. fault

-- The function of a node's type that receives messages, if it has one.
abbrev pub Receiver : Type 0
Receiver = Addr → Msg → Cmd Errno

-- PASS_MSG_TO_NODE.
abbrev pub pass : Option Receiver → Addr → Msg → Cmd Outcome
pass none node m = pure (failing einval)
pass (some rcvmsg) node m = do
  e ← rcvmsg node m
  pure (record { err = e; resp = none; freed = true })

-- `assert(msg->cm_len == sizeof(...))` of the commands that are passed on.
abbrev is_startup : Content → Bool
is_startup (Content.startup fd lineno) = true
is_startup _ = false

abbrev is_timer_id : Content → Bool
is_timer_id (Content.timer_id id) = true
is_timer_id _ = false

abbrev is_trigger : Content → Bool
is_trigger (Content.sockeventtrigger fd events) = true
is_trigger _ = false

abbrev is_no_content : Content → Bool
is_no_content Content.empty = true
is_no_content _ = false

unfoldable pub process_cmd : Option Receiver → GenericCmd → Addr → Msg → Cmd Outcome
process_cmd rcvmsg GenericCmd.nodecreate node m = process_nodecreate m m.cm_data
process_cmd rcvmsg GenericCmd.noderm node m = process_noderm node m m.cm_data
process_cmd rcvmsg GenericCmd.nodeconnect node m = process_nodeconnect node m m.cm_data
process_cmd rcvmsg GenericCmd.nodedisconnect node m = process_nodedisconnect node m m.cm_data
process_cmd rcvmsg GenericCmd.startup node m = do assert (is_startup m.cm_data); pass rcvmsg node m
process_cmd rcvmsg GenericCmd.timercreate node m = process_timercreate m m.cm_data
process_cmd rcvmsg GenericCmd.timerset node m = process_timerset m m.cm_data
process_cmd rcvmsg GenericCmd.timersubscribe node m = process_timersubscribe node m m.cm_data
process_cmd rcvmsg GenericCmd.timerunsubscribe node m = process_timerunsubscribe node m m.cm_data
process_cmd rcvmsg GenericCmd.timertrigger node m = do
  assert (is_timer_id m.cm_data)
  pass rcvmsg node m
process_cmd rcvmsg GenericCmd.timerrm node m = process_timerrm m m.cm_data
process_cmd rcvmsg GenericCmd.sockeventsubscribe node m =
    process_sockeventsubscribe node m m.cm_data
process_cmd rcvmsg GenericCmd.sockeventunsubscribe node m =
    process_sockeventunsubscribe node m m.cm_data
process_cmd rcvmsg GenericCmd.sockeventtrigger node m = do
  assert (is_trigger m.cm_data)
  pass rcvmsg node m
process_cmd rcvmsg GenericCmd.wavefinishsubscribe node m =
    process_wavefinishsubscribe node m m.cm_data
process_cmd rcvmsg GenericCmd.wavefinish node m = do
  assert (is_no_content m.cm_data)
  pass rcvmsg node m
process_cmd rcvmsg GenericCmd.unknown node m = pure (failing einval)
