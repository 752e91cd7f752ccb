-- ===== src/Starter/Queue/Tasks/Prompt.antt =====
-- modules/starter/starter.c: a command whose response comes while its message is being sent.
use dimmon.Prelude.{
  ℕ, suc, ◌-◌, ◌≡◌, ◌≢◌, ◌∙◌, ==_self, refl, ap, true, false, not, Option, some, List, [], ◌∷◌,
  ◌++◌, if◌then◌else◌, arith,
}
use dimmon.State.{Addr, Errno, put}
use dimmon.Message.{Content, Msg, msgtype_generic}
use dimmon.Starter.{Action, Results, Starter, ok, Cmd, and_then, assert, free_msg, pure, ◌>>◌}
use dimmon.Starter.Commands.{request, create_msg, process_resp}
use dimmon.Starter.Queue.{
  next_of, first, is_null, responds, process_command, process_response, commands_from,
  process_commands, send_id, accept_response, add_command, after_send, after_round,
}
use dimmon.Starter.Queue.Runs.{add_command-run, accept-run, response-awaits}
use dimmon.Starter.Queue.Steps.{HasMemory, next_token, with_msg, sending, process_command-send_id}
use dimmon.Starter.Queue.Tasks.{commands_from-round}

next_of_only : (a : Addr) → next_of a (a ∷ []) ≡ 0
unfolding next_of
next_of_only a = rw (==_self a) refl

commands_from-null :
    (getaddrinfo : Option (List ℕ) → List ℕ → Option (List ℕ)) (fuel : ℕ) (s : Starter)
    → commands_from getaddrinfo (suc fuel) 0 s ≡ ok 0 s
unfolding commands_from
commands_from-null getaddrinfo fuel s = refl

-- The response to a message, from a node and with a content.
abbrev pub reply : ℕ → Content → Msg → Msg
reply src content m = record m { cm_src = src; cm_resp = true; cm_err = false; cm_data = content }

-- A starter without commands, every message of which is answered at once, the n-th by the node `src n`.
pub record IsPrompt (src : ℕ → ℕ) (content : ℕ → Content) (s : Starter) : Type 0 where
  pub no_commands : s.commandlist ≡ []
  pub idle : s.is_waiting ≡ false
  pub memory : HasMemory s
  pub prompt : (n : ℕ) (m : Msg) → s.answer n m ≡ (some (reply (src n) (content n) m), 0)

self : (m : Msg) → responds m m ≡ true
self m = ground (arith, ==_self m.cm_cmd, ==_self m.cm_type, ==_self m.cm_token)

module _ (getaddrinfo : Option (List ℕ) → List ℕ → Option (List ℕ)) (src : ℕ → ℕ)
    (content : ℕ → Content) where
  -- What a command does: its message, and its treatment of the response.
  pub record Does (action : Action) (cmd : ℕ) (data' : Content) (upd : Results → Results) (n : ℕ)
      : Type 0 where
    pub creates :
        (u : Starter)
        → HasMemory u
        → create_msg getaddrinfo action u
          ≡ ok (some (request cmd msgtype_generic (next_token u) data')) (with_msg u)
    pub processes :
        (m : Msg) (u : Starter)
        → m.cm_src ≡ src n
        → m.cm_data ≡ content n
        → process_resp m action u ≡ ok tt (record u { results = upd u.results })

  -- A command with the message that is made for it, and its treatment of the response.
  module _ (fuel : ℕ) (a : Addr) (s : Starter) (action : Action) (rcv : ℕ) (asked : Msg)
      (upd : Results → Results) (prompt : IsPrompt src content s) (real : a ≢ 0)
      (command : s.command_at a ≡ record { live = true; action = action; rcv = rcv })
      (creates : create_msg getaddrinfo action (record s { commandlist = a ∷ [] })
        ≡ ok (some asked) (with_msg (record s { commandlist = a ∷ [] })))
      (processes : (m : Msg) (u : Starter)
        → m.cm_src ≡ src s.sends
        → m.cm_data ≡ content s.sends
        → process_resp m action u ≡ ok tt (record u { results = upd u.results })) where
    abbrev listed : Starter
    listed = record s { commandlist = a ∷ [] }

    abbrev answered : Starter
    answered = record (sending listed asked) {
      sent = (rcv, record asked { cm_src = s.id }) ∷ s.sent;
      sends = suc s.sends;
      msgs = suc (suc (suc s.msgs) - 1);
    }

    abbrev pub done : Starter
    done = record answered {
      results = upd s.results;
      commandlist = [];
      command_at = put s.command_at a (record (s.command_at a) { live = false });
      is_waiting = false;
      msgs = suc (suc (suc s.msgs) - 1) - 1;
    }

    abbrev answer : Msg
    answer = reply (src s.sends) (content s.sends) (record asked { cm_src = s.id })

    abbrev again : Cmd Errno
    again t = commands_from getaddrinfo (suc fuel) (first t.commandlist) t

    processed :
        process_resp answer (s.command_at a).action answered
        ≡ ok tt (record answered { results = upd s.results })
    processed =
        ap (λ c. process_resp answer c.action answered) command
        ∙ processes answer answered refl refl

    received : process_response again answer answered ≡ ok 0 done
    received =
        response-awaits again answer answered asked a [] refl refl refl refl
        ∙ ap (λ b. (if b then accept_response again answer else (free_msg >> pure 0)) answered)
            (self asked)
        ∙ accept-run again answer answered (upd s.results) a [] refl processed refl (omega arith)

    abbrev handed : Starter
    handed = record (sending listed asked) {
      sent = (rcv, record asked { cm_src = s.id }) ∷ s.sent;
      sends = suc s.sends;
      msgs = suc (suc s.msgs) - 1;
    }

    sent :
        send_id (process_response again) rcv (record asked { cm_src = s.id }) (sending listed asked)
        ≡ ok 0 done
    unfolding send_id
    sent =
        ap (λ p. after_send (process_response again) p handed)
          (prompt.prompt s.sends (record asked { cm_src = s.id }))
        ∙ ap (λ r. and_then r (λ _. pure 0)) received

    began : process_command getaddrinfo (process_response again) a listed ≡ ok 0 done
    began =
        process_command-send_id getaddrinfo listed prompt.memory (process_response again) a asked
          prompt.idle (ap (λ c. create_msg getaddrinfo c.action listed) command ∙ creates)
        ∙ ap
            (λ c.
              send_id (process_response again) c.rcv (record asked { cm_src = s.id })
                (sending listed asked))
            command
        ∙ sent

    abbrev next : Cmd Errno
    next = commands_from getaddrinfo (suc fuel) (next_of a (a ∷ []))

    listed-done : process_commands getaddrinfo (suc (suc fuel)) listed ≡ ok 0 done
    unfolding process_commands
    listed-done =
        ap
          (λ b.
            and_then (assert (not b) listed) (λ _. commands_from getaddrinfo (suc (suc fuel)) a))
          prompt.idle
        ∙ commands_from-round getaddrinfo (suc fuel) a listed real (ap (λ c. c.live) command)
        ∙ ap (λ r. and_then r (after_round next)) began
        ∙ ap (λ n. commands_from getaddrinfo (suc fuel) n done) (next_of_only a)
        ∙ commands_from-null getaddrinfo fuel done

    -- The command is carried out before add_command returns.
    pub add_command-sent : add_command getaddrinfo (suc (suc fuel)) a s ≡ ok 0 done
    add_command-sent =
        add_command-run getaddrinfo (suc (suc fuel)) a s real
        ∙ ap
            (λ l.
              (if is_null l then process_commands getaddrinfo (suc (suc fuel)) else pure 0)
                (record s { commandlist = l ++ a ∷ [] }))
            prompt.no_commands
        ∙ listed-done

  pub add_command-done :
      (fuel : ℕ) (a : Addr) (s : Starter) (action : Action) (rcv cmd : ℕ) (data' : Content)
      (upd : Results → Results) (prompt : IsPrompt src content s) (real : a ≢ 0)
      (command : s.command_at a ≡ record { live = true; action = action; rcv = rcv })
      (does : Does action cmd data' upd s.sends)
      → add_command getaddrinfo (suc (suc fuel)) a s
        ≡ ok 0 (
            done fuel a s action rcv
              (request cmd msgtype_generic (next_token s) data')
              upd
              prompt
              real
              command
              (does.creates (record s { commandlist = a ∷ [] }) prompt.memory)
              does.processes)
  add_command-done fuel a s action rcv cmd data' upd prompt real command does =
      add_command-sent fuel a s action rcv (request cmd msgtype_generic (next_token s) data') upd
        prompt real command (does.creates (record s { commandlist = a ∷ [] }) prompt.memory)
        does.processes
