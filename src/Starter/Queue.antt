-- ===== src/Starter/Queue.antt =====
-- modules/starter/starter.c: the queue of commands, process_command to process_response. A response
-- may come while its message is being sent: the functions call each other, with fuel for the commands
-- that are processed.
pub mod Runs
pub mod Steps
pub mod Tasks
use dimmon.Prelude.{
  ℕ, zero, suc, ◌+◌, ◌-◌, Bool, true, false, not, ◌&&◌, ◌||◌, Option, none, some, List, [], ◌∷◌,
  ◌++◌, ◌==◌, if◌then◌else◌,
}
use dimmon.State.{Addr, Errno, enomem}
use dimmon.Message.{Msg}
use dimmon.Starter.{
  Command, Starter, Cmd, exited, fault, ◌>>=◌, ◌>>◌, pure, get, modify, assert, with_command,
  alloc_msg, free_msg,
}
use dimmon.Starter.Commands.{create_msg, process_resp}

-- STAILQ_FIRST and STAILQ_NEXT of an element of a list; 0 is NULL.
abbrev pub first : List Addr → Addr
first [] = 0
first (a ∷ as') = a

unfoldable pub next_of : Addr → List Addr → Addr
next_of a [] = 0
next_of a (x ∷ xs) = let rest = next_of a xs in if x == a then first xs else rest

abbrev pub rest_of : List Addr → List Addr
rest_of [] = []
rest_of (a ∷ as') = as'

abbrev pub is_null : List Addr → Bool
is_null [] = true
is_null (a ∷ as') = false

-- Whether a message is the response to another.
abbrev pub responds : Msg → Msg → Bool
responds m cur = m.cm_cmd == cur.cm_cmd && (m.cm_type == cur.cm_type && m.cm_token == cur.cm_token)

-- The head of the queue is done.
unfoldable pub remove_head : Addr → Cmd (Unit {0})
remove_head a = do
  modify (λ s. record s { commandlist = rest_of s.commandlist })
  modify (with_command a (λ c. record c { live = false }))
  modify (λ s. record s { is_waiting = false })

-- A response that was awaited; `again` is process_commands.
unfoldable pub after_response : Cmd Errno → Cmd Errno
unfolding free_msg
after_response again =
    get >>= λ t. if is_null t.commandlist then (free_msg >> pure 0) else (free_msg >> again)

unfoldable pub accept_response : Cmd Errno → Msg → Cmd Errno
unfolding process_resp remove_head after_response
accept_response again m =
    if m.cm_err
    then (λ _. exited)
    else (get >>= λ s.
        process_resp m (s.command_at (first s.commandlist)).action
        >> remove_head (first s.commandlist)
        >> after_response again)

-- A response while a command is under way, by the message that it is compared with.
abbrev pub match_response : Cmd Errno → Msg → Option Msg → Cmd Errno
match_response again m none = λ _. fault
match_response again m (some cur) =
    if responds m cur then accept_response again m else (free_msg >> pure 0)

unfoldable pub process_response : Cmd Errno → Msg → Cmd Errno
unfolding accept_response free_msg
process_response again m = assert m.cm_resp >> get >>= λ s.
    if not s.is_waiting
    then (free_msg >> pure 0)
    else (assert (not (is_null s.commandlist)) >> match_response again m s.cur_msg)

-- DMM_MSG_SEND_ID: the message is handed over, and a response is received before the result is there.
abbrev pub after_send : (Msg → Cmd Errno) → Option Msg × Errno → Cmd Errno
after_send receive (none, err) = pure err
after_send receive (some resp, err) =
    modify (λ t. record t { msgs = suc t.msgs }) >> receive resp >>= λ _. pure err

unfoldable pub send_id : (Msg → Cmd Errno) → ℕ → Msg → Cmd Errno
send_id receive rcv m = get >>= λ s.
    (modify (λ t. record t { sent = (rcv, m) ∷ t.sent; sends = suc t.sends; msgs = t.msgs - 1 })
      >> after_send receive (s.answer s.sends m))

-- The message is copied and sent.
abbrev pub send_copied : (Msg → Cmd Errno) → ℕ → Msg → Option Msg → Cmd Errno
send_copied receive rcv m none =
    modify (λ t. record t { cur_msg = none }) >> free_msg >> pure enomem
send_copied receive rcv m (some c) =
    modify (λ t. record t { cur_msg = some c; is_waiting = true }) >> get >>= λ t.
    send_id receive rcv (record m { cm_src = t.id })

unfoldable pub send_created : (Msg → Cmd Errno) → ℕ → Option Msg → Cmd Errno
unfolding alloc_msg free_msg send_id
send_created receive rcv none = pure enomem
send_created receive rcv (some m) = alloc_msg m >>= λ copy. send_copied receive rcv m copy

-- The end of a round of process_commands; `again` are the rounds that follow.
abbrev pub after_round : Cmd Errno → Errno → Cmd Errno
after_round again err t = elim (not (err == 0) || t.is_waiting) [
  | true ↦ pure err t
  | false ↦ again t
]

module _ (getaddrinfo : Option (List ℕ) → List ℕ → Option (List ℕ)) where
  -- process_command; `receive` is process_response.
  unfoldable pub process_command : (Msg → Cmd Errno) → Addr → Cmd Errno
  unfolding create_msg send_created
  process_command receive a = get >>= λ s.
      assert (not s.is_waiting) >> create_msg getaddrinfo (s.command_at a).action >>= λ r.
      send_created receive (s.command_at a).rcv r

  -- The loop of process_commands from a command. STAILQ_FOREACH_SAFE reads the next command before the
  -- round; that it is freed then is found when it is followed.
  unfoldable pub commands_from : ℕ → Addr → Cmd Errno
  unfolding process_command process_response next_of
  commands_from zero a = λ _. fault
  commands_from (suc fuel) a = get >>= λ s.
      if a == 0
      then pure 0
      else (assert (s.command_at a).live
          >> process_command (process_response λ t. commands_from fuel (first t.commandlist) t) a
          >>= after_round (commands_from fuel (next_of a s.commandlist)))

  unfoldable pub process_commands : ℕ → Cmd Errno
  unfolding commands_from
  process_commands fuel =
      get >>= λ s. assert (not s.is_waiting) >> commands_from fuel (first s.commandlist)

  unfoldable pub add_command : ℕ → Addr → Cmd Errno
  unfolding process_commands
  add_command fuel a = assert (not (a == 0)) >> get >>= λ s.
      (modify (λ t. record t { commandlist = t.commandlist ++ a ∷ [] })
        >> (if is_null s.commandlist then process_commands fuel else pure 0))

  -- process_response as it is called by rcvmsg.
  unfoldable pub receive_response : ℕ → Msg → Cmd Errno
  unfolding process_response process_commands
  receive_response fuel m = process_response (process_commands fuel) m
