-- ===== src/Starter/Queue/Tasks/Log.antt =====
-- modules/starter/starter.c: with nodes that answer at once, the queue is a log of tasks.
use dimmon.Prelude.{
  ℕ, suc, ◌+◌, ◌≡◌, ◌∙◌, refl, ap, sym, Bool, true, Option, List, [], ◌∷◌, ◌++◌, map, push_all,
  length, length-append, ==_self, ◌-◌, arith,
}
use mathlib.Core.List.{append-nil}
use mathlib.Core.Path.{subst}
use dimmon.State.{Errno}
use dimmon.Message.{Content}
use dimmon.Starter.{Action, Starter, ok, Run, and_then, with_command}
use dimmon.Starter.Queue.{add_command, process_commands, receive_response}
use dimmon.Starter.Queue.Runs.{free_msg-ok, response-idle}
use dimmon.Starter.Queue.Steps.{CanCreate, kind_of, create_msg-Created}
use dimmon.Starter.Queue.Tasks.{
  Task, task_of_sent, Fits, Event, add, respond, added_by, perform, Returns, make-ok,
  process_resp-upd, push_all-snoc,
}
use dimmon.Starter.Queue.Tasks.Prompt.{IsPrompt, add_command-sent}

-- The tasks of all events, in order.
abbrev pub all_tasks : List Event → List Task
all_tasks [] = []
all_tasks (e ∷ es) = added_by e ++ all_tasks es

-- The log of a starter: the messages of all tasks have been sent, each once and in this order, and
-- nothing is queued or waited for.
pub record Logged (src : ℕ → ℕ) (content : ℕ → Content) (tasks : List Task) (s : Starter)
    : Type 0 where
  pub prompt : IsPrompt src content s
  pub sends : s.sends ≡ length tasks
  pub sent : map task_of_sent s.sent ≡ push_all tasks []

module _ (getaddrinfo : Option (List ℕ) → List ℕ → Option (List ℕ)) (src : ℕ → ℕ)
    (content : ℕ → Content) where
  -- A command whose message can be made, and whose response has the content that it asks for; the n-th
  -- message is that of the n-th task. A response that nothing waits for.
  abbrev pub Admissible : ℕ → Event → Type 0
  Admissible n (add with_arg action rcv) = CanCreate getaddrinfo action × Fits (content n) action
  Admissible n (respond m) = m.cm_resp ≡ true

  abbrev pub AllAdmissible : ℕ → List Event → Type 0
  AllAdmissible n [] = Unit {0}
  AllAdmissible n (e ∷ es) = Admissible n e × AllAdmissible (n + length (added_by e)) es

  module _ (fuel : ℕ) where
    abbrev Ends : List Task → Run Errno → Type 0
    Ends tasks r = Returns r (λ err t. (err ≡ 0) × Logged src content tasks t)

    module _ (tasks : List Task) (s : Starter) (logged : Logged src content tasks s) where
      module _ (with_arg : Bool) (action : Action) (rcv k : ℕ) where
        abbrev made : Starter
        made =
            with_command (suc s.mallocs) (λ _. record { live = true; action = action; rcv = rcv })
              (record s { mallocs = k })

        made_prompt : IsPrompt src content made
        made_prompt = record {
          no_commands = logged.prompt.no_commands;
          idle = logged.prompt.idle;
          memory = logged.prompt.memory;
          prompt = logged.prompt.prompt;
        }

        added :
            CanCreate getaddrinfo action
            → Fits (content s.sends) action
            → Ends
                (tasks ++ (rcv, kind_of action) ∷ [])
                (add_command getaddrinfo (suc (suc fuel)) (suc s.mallocs) made)
        added can fits =
            let (asked, creates, token, kind) =
              create_msg-Created getaddrinfo (record made { commandlist = suc s.mallocs ∷ [] })
                logged.prompt.memory action can in
            let (upd, processes) = process_resp-upd action (src s.sends) (content s.sends) fits in
            subst (Ends (tasks ++ (rcv, kind_of action) ∷ []))
              (sym (
                add_command-sent getaddrinfo src content fuel (suc s.mallocs) made action rcv asked
                  upd made_prompt (omega arith) (rw (==_self (suc s.mallocs)) refl) creates
                  processes))
              (
                refl,
                record {
                  prompt = record {
                    no_commands = refl;
                    idle = refl;
                    memory = logged.prompt.memory;
                    prompt = logged.prompt.prompt;
                  };
                  sends =
                      ap suc logged.sends
                      ∙ omega (arith, length-append tasks ((rcv, kind_of action) ∷ []));
                  sent =
                      ap (λ k. (rcv, k) ∷ map task_of_sent s.sent) kind
                      ∙ ap (◌∷◌ (rcv, kind_of action)) logged.sent
                      ∙ sym (push_all-snoc tasks (rcv, kind_of action) []);
                },
              )

      -- With nodes that answer at once and without an error, a starter that has carried out the tasks of
      -- a log and waits for nothing carries out a command that is made and added before add_command
      -- returns: its message goes to its receiver, the log is longer by its task, nothing is queued or
      -- waited for, and the result is 0. A response that nothing waits for changes nothing in the log. There is memory, the
      -- message of the command can be made, its response has the content that it asks for, and fuel for
      -- two commands is enough.
      pub perform-Logged :
          (e : Event)
          → Admissible (length tasks) e
          → Ends (tasks ++ added_by e) (perform getaddrinfo (suc (suc fuel)) e s)
      unfolding perform receive_response
      perform-Logged (add with_arg action rcv) good =
          let (k, later, run) = make-ok with_arg action rcv s logged.prompt.memory in
          subst (Ends (tasks ++ (rcv, kind_of action) ∷ []))
            (sym (ap (λ r. and_then r (add_command getaddrinfo (suc (suc fuel)))) run))
            (added with_arg action rcv k good.0
              (subst (λ n. Fits (content n) action) (sym logged.sends) good.1))
      perform-Logged (respond m) good =
          subst (Ends (tasks ++ []))
            (sym (
              response-idle (process_commands getaddrinfo (suc (suc fuel))) m
                (record s { msgs = suc s.msgs }) good logged.prompt.idle
              ∙ ap (λ r. and_then r (λ _ t. ok 0 t))
                  (free_msg-ok (record s { msgs = suc s.msgs }) (omega arith))))
            (subst (λ ts. Ends ts (ok 0 (record s { msgs = suc s.msgs - 1 })))
              (sym (append-nil tasks))
              (
                refl,
                record {
                  prompt = record {
                    no_commands = logged.prompt.no_commands;
                    idle = logged.prompt.idle;
                    memory = logged.prompt.memory;
                    prompt = logged.prompt.prompt;
                  };
                  sends = logged.sends;
                  sent = logged.sent;
                },
              ))
