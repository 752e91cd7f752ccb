-- ===== src/Tests/Starters.antt =====
-- The theorems on the starter, applied to a starter that has done nothing yet.
use dimmon.Prelude.{ℕ, ◌≡◌, ◌+◌, refl, true, false, Option, none, some, List, [], ◌∷◌, arith}
use dimmon.State.{Errno}
use dimmon.Message.{Content, Msg}
use dimmon.Graph.{node_id2ref, node_addr2ref}
use dimmon.Starter.{Action, Member, Results, Starter, decimal}
use dimmon.Starter.Commands.{node_address}
use dimmon.Starter.Address.{node_addr2ref-node_address}
use dimmon.Starter.Triplet.{parsed, parse_sock_triplet}
use dimmon.Starter.Triplet.RoundTrip.{parse_sock_triplet-decimal}
use dimmon.Starter.Queue.Tasks.{Event, add, respond, added_by, perform, Returns}
use dimmon.Starter.Queue.Tasks.Log.{Logged, perform-Logged}
use dimmon.Starter.Startup.{process_startup_message}
use dimmon.Starter.Queue.Tasks.Prompt.{reply}
use dimmon.Starter.Startup.Setup.{HasSent, process_startup_message-HasSent, startup_orders}

abbrev no_results : Results
no_results = record {
  ifdata_id = 0;
  ifdata_id1 = 0;
  cpuload_id = 0;
  timer_id = 0;
  wavebuf_id = 0;
  netsend_id = 0;
  netrecv_id = 0;
  netrecv_flags = 0;
  dbgprint_id = 0;
}

abbrev no_address : Option (List ℕ) → List ℕ → Option (List ℕ)
no_address host port = none

-- Responses come later.
abbrev silent : ℕ → Msg → Option Msg × Errno
silent n m = (none, 0)

abbrev fresh : Starter
fresh = record {
  id = 1;
  is_waiting = false;
  cur_msg = none;
  commandlist = [];
  results = no_results;
  num_tt = 0;
  command_at = λ _. record { live = false; action = Action.wavefinishsubscribe; rcv = 0 };
  last_token = 0;
  sent = [];
  answer = silent;
  sends = 0;
  mem = λ _. true;
  mallocs = 0;
  msgs = 0;
}

node_addr2ref-node_address_example : node_addr2ref (node_address 42) ≡ node_id2ref 42
node_addr2ref-node_address_example = node_addr2ref-node_address 42 (omega arith)

parse_sock_triplet-decimal_example :
    parse_sock_triplet (decimal 2 (b'/' ∷ decimal 1 (b'/' ∷ decimal 17 []))) ≡ parsed (2, 1, 17)
unfolding decimal
parse_sock_triplet-decimal_example =
    parse_sock_triplet-decimal 2 1 17 (omega arith) (omega arith) (omega arith) (omega arith)

-- The nodes get the ids from 10 on, and the timer 9.
abbrev content : ℕ → Content
content n = Content.timer_id 9

abbrev prompt : Starter
prompt = record fresh { answer = λ n m. (some (reply (n + 10) (content n) m), 0) }

prompt-HasSent : HasSent (λ n. n + 10) content 1 0 [] no_results prompt
prompt-HasSent = record {
  prompt = record { no_commands = refl; idle = refl; memory = λ n. refl; prompt = λ n m. refl };
  same_id = refl;
  sends = refl;
  sent = refl;
  results_are = refl;
}

prompt-Logged : Logged (λ n. n + 10) content [] prompt
prompt-Logged = record { prompt = prompt-HasSent.prompt; sends = refl; sent = refl }

abbrev subscribing : Event
subscribing = add true (Action.timersubscribe 4) 7

perform-Logged_example :
    Returns
      (perform no_address 2 subscribing prompt)
      (λ err t. (err ≡ 0) × Logged (λ n. n + 10) content (added_by subscribing) t)
perform-Logged_example =
    perform-Logged no_address (λ n. n + 10) content 0 [] prompt prompt-Logged subscribing (tt, tt)

abbrev late : Msg
late = record {
  cm_src = 7;
  cm_cmd = 33;
  cm_type = 0x0ddfe6d5;
  cm_token = 1;
  cm_resp = true;
  cm_err = false;
  cm_data = Content.empty;
}

abbrev events : List Event
events =
    subscribing
    ∷ respond late
    ∷ add false (Action.timercreate Member.to_timer_id) 1
    ∷ add true (Action.nodecreate (b'x' ∷ []) Member.to_ifdata_id) 1
    ∷ []

process_startup_message-HasSent_example :
    Returns (process_startup_message no_address 2 prompt) (λ err t.
      (err ≡ 0)
      × HasSent
          (λ n. n + 10)
          content
          1
          10
          (startup_orders no_address (λ n. n + 10) content 0 1 9)
          (record no_results { ifdata_id = 10; cpuload_id = 11; dbgprint_id = 12; timer_id = 9 })
          t)
process_startup_message-HasSent_example =
    process_startup_message-HasSent no_address (λ n. n + 10) content 0 1 9 no_results prompt
      prompt-HasSent refl
