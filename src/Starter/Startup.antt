-- ===== src/Starter/Startup.antt =====
-- modules/starter/starter.c: the messages to the starter, and the commands with which it sets up the
-- nodes.
pub mod Setup
use dimmon.Prelude.{
  ℕ, zero, suc, ◌+◌, ◌-◌, Bool, true, false, not, ◌&&◌, ◌||◌, Option, none, some, List, [], ◌∷◌,
  ◌==◌, if◌then◌else◌, leb,
}
use dimmon.Timespec.{timespec}
use dimmon.State.{Addr, Errno, enotsup, einval}
use dimmon.Message.{
  GenericCmd, Msg, msgtype_generic, startup, timertrigger, wavefinish, generic_cmd,
}
use dimmon.Starter.{Member, Results, Starter, Cmd, ◌>>=◌, ◌>>◌, pure, get, modify, free_msg}
use dimmon.Starter.Commands.{
  create_nodecreate_command, create_nodeconnect_command, create_timercreate_command,
  create_timerset_command, create_timersubscribe_command, create_timerrm_command,
}
use dimmon.Starter.Queue.{add_command, receive_response}

abbrev pub ifdata_name : List ℕ
ifdata_name = b'i' ∷ b'f' ∷ b'd' ∷ b'a' ∷ b't' ∷ b'a' ∷ []

abbrev pub cpuload_name : List ℕ
cpuload_name = b'c' ∷ b'p' ∷ b'u' ∷ b'l' ∷ b'o' ∷ b'a' ∷ b'd' ∷ []

abbrev pub dbgprinter_name : List ℕ
dbgprinter_name = b'd' ∷ b'b' ∷ b'g' ∷ b'p' ∷ b'r' ∷ b'i' ∷ b'n' ∷ b't' ∷ b'e' ∷ b'r' ∷ []

abbrev pub in_name : List ℕ
in_name = b'i' ∷ b'n' ∷ []

abbrev pub out_name : List ℕ
out_name = b'o' ∷ b'u' ∷ b't' ∷ []

-- The constructor of the type, for a node with memory for its data.
unfoldable pub starter_init : Starter → Starter
starter_init s = record s { commandlist = []; is_waiting = false; num_tt = 0 }

module _ (getaddrinfo : Option (List ℕ) → List ℕ → Option (List ℕ)) (fuel : ℕ) where
  -- A command that is made from the state at its turn, and added; the result of add_command is not
  -- looked at.
  abbrev pub add : (Starter → Cmd Addr) → Cmd (Unit {0})
  add make = get >>= λ s. make s >>= λ a. add_command getaddrinfo fuel a >>= λ err. pure tt

  unfoldable pub process_startup_message : Cmd Errno
  unfolding add_command
  process_startup_message =
      add (λ s. create_nodecreate_command s.id ifdata_name Member.to_ifdata_id)
      >> add (λ s. create_nodecreate_command s.id cpuload_name Member.to_cpuload_id)
      >> add (λ s. create_nodecreate_command s.id dbgprinter_name Member.to_dbgprint_id)
      >> add (λ s.
        create_nodeconnect_command s.results.ifdata_id out_name s.results.dbgprint_id in_name)
      >> add (λ s.
        create_nodeconnect_command s.results.cpuload_id out_name s.results.dbgprint_id in_name)
      >> add (λ s. create_timercreate_command s.id Member.to_timer_id)
      >> add (λ s. create_timerset_command s.id s.results.timer_id (timespec 1 0) (timespec 1 0) 0)
      >> add (λ s. create_timersubscribe_command s.results.ifdata_id s.results.timer_id)
      >> add (λ s. create_timersubscribe_command s.results.cpuload_id s.results.timer_id)
      >> add (λ s. create_timersubscribe_command s.id s.results.timer_id)
      >> pure 0

  -- DMM_MSG_TIMERTRIGGER. The first branch of the source is never taken: its test ends in `&& 0`.
  unfoldable pub count_trigger : Cmd Errno
  unfolding add_command
  count_trigger = modify (λ s. record s { num_tt = suc s.num_tt }) >> get >>= λ s.
      (if leb 5 s.num_tt
        then add (λ t. create_timerrm_command t.id t.results.timer_id) >> pure 0
        else pure 0)

  abbrev starter_cmd : GenericCmd → Cmd Errno
  starter_cmd GenericCmd.startup = process_startup_message
  starter_cmd GenericCmd.timertrigger = count_trigger
  starter_cmd GenericCmd.wavefinish = pure 0
  starter_cmd _ = pure enotsup

  unfoldable pub starter_rcvmsg : Msg → Cmd Errno
  unfolding process_startup_message count_trigger receive_response free_msg generic_cmd
  starter_rcvmsg m =
      if m.cm_resp
      then receive_response getaddrinfo fuel m
      else ((if m.cm_type == msgtype_generic
            then starter_cmd (generic_cmd m.cm_cmd)
            else pure enotsup)
          >>= λ err. free_msg >> pure err)
