-- ===== src/Message.antt =====
-- dmm_message.h: control messages, their contents and commands, and their allocation in dmm_base.c.
-- The content is typed: a message whose `cm_len` is not the size of its command's struct has a
-- content of another constructor.
pub mod Generic
pub mod Send
pub mod Delivery
pub mod Responses
use dimmon.Prelude.{
  ℕ, suc, ◌-◌, Bool, true, false, Option, none, some, List, ◌==◌, if◌then◌else◌, ltb,
}
use dimmon.Timespec.{Timespec}
use dimmon.State.{Addr, Sys, Cmd, ◌>>=◌, ◌>>◌, pure, assert, modify, get, malloc}

pub data Content : Type 0 where
  empty : Content
  startup : (fd lineno : ℕ) → Content
  nodecreate : (type : List ℕ) → Content
  nodeconnect nodedisconnect : (srchook dstnode dsthook : List ℕ) → Content
  timer_id : ℕ → Content
  timerset : (id : ℕ) → (next interval : Timespec) → (flags : ℕ) → Content
  sockeventsubscribe sockeventtrigger : (fd events : ℕ) → Content
  sockeventunsubscribe : (fd : ℕ) → Content
  netip_createsock : (domain type protocol : ℕ) → Content
  netiprecv_flags : ℕ → Content
  datanode : (sensor : ℕ) → (values : List ℕ) → Content
  bytes : List ℕ → Content

-- struct dmm_msg; the bits DMM_MSG_RESP and DMM_MSG_ERR of `cm_flags` are two fields.
pub record Msg : Type 0 where
  pub cm_src : ℕ
  pub cm_cmd : ℕ
  pub cm_type : ℕ
  pub cm_token : ℕ
  pub cm_resp : Bool
  pub cm_err : Bool
  pub cm_data : Content

abbrev pub msgtype_generic : ℕ
msgtype_generic = 0x0ddfe6d5

-- The commands that the runtime acts on.
pub data GenericCmd : Type 0 where
  nodecreate noderm nodeconnect nodedisconnect : GenericCmd
  startup timercreate timerset timerrm timersubscribe timerunsubscribe timertrigger : GenericCmd
  sockeventsubscribe sockeventunsubscribe sockeventtrigger : GenericCmd
  wavefinish wavefinishsubscribe unknown : GenericCmd

abbrev pub cmd_timertrigger : ℕ
cmd_timertrigger = 35

abbrev pub cmd_sockeventtrigger : ℕ
cmd_sockeventtrigger = 42

abbrev pub cmd_wavefinish : ℕ
cmd_wavefinish = 100

-- The numbers of the commands; the others, DMM_MSG_NODESETNAME (14) among them, are unknown.
unfoldable pub generic_cmd : ℕ → GenericCmd
generic_cmd c =
    if c == 1
    then startup
    else if c == 10
    then nodecreate
    else if c == 11
    then noderm
    else if c == 12
    then nodeconnect
    else if c == 13
    then nodedisconnect
    else if c == 30
    then timercreate
    else if c == 31
    then timerset
    else if c == 32
    then timerrm
    else if c == 33
    then timersubscribe
    else if c == 34
    then timerunsubscribe
    else if c == cmd_timertrigger
    then timertrigger
    else if c == 40
    then sockeventsubscribe
    else if c == 41
    then sockeventunsubscribe
    else if c == cmd_sockeventtrigger
    then sockeventtrigger
    else if c == cmd_wavefinish
    then wavefinish
    else if c == 101
    then wavefinishsubscribe
    else unknown

-- The message with its fields, `none` when there is no memory.
unfoldable pub msg_create : Msg → Cmd (Option Msg)
unfolding malloc
msg_create m = do
  a ← malloc
  if a == 0 then pure none else (do modify (λ s. record s { msgs = suc s.msgs }); pure (some m))

-- A response keeps command, type and token, and is marked.
unfoldable pub msg_create_resp : ℕ → Msg → Content → Cmd (Option Msg)
unfolding msg_create
msg_create_resp src m content =
    msg_create (record m { cm_src = src; cm_resp = true; cm_err = false; cm_data = content })

unfoldable pub msg_copy : Msg → Cmd (Option Msg)
unfolding msg_create
msg_copy m = msg_create m

-- Freeing a message that is not allocated is a fault.
unfoldable pub msg_free : Cmd (Unit {0})
msg_free = do s ← get; assert (ltb 0 s.msgs); modify (λ t. record t { msgs = t.msgs - 1 })
