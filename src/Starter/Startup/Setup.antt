-- ===== src/Starter/Startup/Setup.antt =====
-- modules/starter/starter.c, process_startup_message: the nodes that are set up, when every message is
-- answered at once.
use dimmon.Prelude.{
  ℕ, suc, ◌≡◌, ◌∙◌, ==_self, refl, ap, sym, Bool, true, false, Option, List, [], ◌∷◌, map, arith,
}
use mathlib.Core.Path.{subst}
use dimmon.Timespec.{timespec}
use dimmon.State.{Addr, Errno}
use dimmon.Message.{Content, Msg, msgtype_generic}
use dimmon.Starter.{
  Action, Member, Results, Starter, Run, ok, exited, fault, Command, with_command, ◌>>=◌, ◌>>◌, Cmd,
  and_then, pure, store,
}
use dimmon.Starter.Commands.{
  create_msg, process_resp, store_result, store_timer, node_address, create_nodecreate_command,
  create_nodeconnect_command, create_timercreate_command, create_timerset_command,
  create_timersubscribe_command,
}
use dimmon.Starter.Queue.{add_command}
use dimmon.Starter.Queue.Steps.{new_msg-request}
use dimmon.Starter.Queue.Tasks.{make, Returns, make-ok}
use dimmon.Starter.Startup.{
  add, process_startup_message, ifdata_name, cpuload_name, dbgprinter_name, in_name, out_name,
}
use dimmon.Starter.Queue.Tasks.Prompt.{IsPrompt, Does, add_command-done}

-- A message that was sent: its receiver, its command and its content.
abbrev pub Order : Type 0
Order = ℕ × (ℕ × Content)

abbrev pub order_of : ℕ × Msg → Order
order_of (rcv, m) = (rcv, (m.cm_cmd, m.cm_data))

-- A starter that has sent n messages.
pub record HasSent (src : ℕ → ℕ) (content : ℕ → Content) (id n : ℕ) (orders : List Order)
    (results : Results) (s : Starter) : Type 0 where
  pub prompt : IsPrompt src content s
  pub same_id : s.id ≡ id
  pub sends : s.sends ≡ n
  pub sent : map order_of s.sent ≡ orders
  pub results_are : s.results ≡ results

abbrev keep : Results → Results
keep r = r

module _ (getaddrinfo : Option (List ℕ) → List ℕ → Option (List ℕ)) (src : ℕ → ℕ)
    (content : ℕ → Content) where
  nodecreate-Does :
      (type : List ℕ) (res : Member) (n : ℕ)
      → Does getaddrinfo src content
          (Action.nodecreate type res)
          10
          (Content.nodecreate type)
          (store res (src n))
          n
  unfolding create_msg process_resp
  nodecreate-Does type res n = record {
    creates = λ u memory. new_msg-request u memory 10 msgtype_generic (Content.nodecreate type);
    processes = λ m u e f. ap (λ v. store_result res v u) e;
  }

  nodeconnect-Does :
      (srchook dstnode dsthook : List ℕ) (n : ℕ)
      → Does getaddrinfo src content
          (Action.nodeconnect srchook dstnode dsthook)
          12
          (Content.nodeconnect srchook dstnode dsthook)
          keep
          n
  unfolding create_msg process_resp
  nodeconnect-Does srchook dstnode dsthook n = record {
    creates = λ u memory.
        new_msg-request u memory 12 msgtype_generic (Content.nodeconnect srchook dstnode dsthook);
    processes = λ m u e f. refl;
  }

  timercreate-Does :
      (res : Member) (id n : ℕ)
      → content n ≡ Content.timer_id id
      → Does getaddrinfo src content (Action.timercreate res) 30 Content.empty (store res id) n
  unfolding create_msg process_resp
  timercreate-Does res id n answer = record {
    creates = λ u memory. new_msg-request u memory 30 msgtype_generic Content.empty;
    processes = λ m u e f. ap (λ c. store_timer res c u) (f ∙ answer);
  }

  module _ (id n : ℕ) where
    timerset-Does :
        Does getaddrinfo src content
          (Action.timerset id (timespec 1 0) (timespec 1 0) 0)
          31
          (Content.timerset id (timespec 1 0) (timespec 1 0) 0)
          keep
          n
    unfolding create_msg process_resp
    timerset-Does = record {
      creates = λ u memory.
          new_msg-request u memory 31 msgtype_generic
            (Content.timerset id (timespec 1 0) (timespec 1 0) 0);
      processes = λ m u e f. refl;
    }

    timersubscribe-Does :
        Does getaddrinfo src content (Action.timersubscribe id) 33 (Content.timer_id id) keep n
    unfolding create_msg process_resp
    timersubscribe-Does = record {
      creates = λ u memory. new_msg-request u memory 33 msgtype_generic (Content.timer_id id);
      processes = λ m u e f. refl;
    }

  module _ (fuel id : ℕ) where
    abbrev Sent : ℕ → List Order → Results → Run (Unit {0}) → Type 0
    Sent n orders results r = Returns r λ _ t. HasSent src content id n orders results t

    -- One more command, by what is known of the results and of the id when it is made.
    module _ (form : Results → ℕ → Cmd Addr) (with_arg : Bool) (action : Action) (rcv cmd n : ℕ)
        (data' : Content) (upd : Results → Results) (orders : List Order) (results : Results)
        (forms : form results id ≡ make with_arg action rcv)
        (does : Does getaddrinfo src content action cmd data' upd n) where
      module _ (t : Starter) (has : HasSent src content id n orders results t) (k : ℕ) where
        abbrev new : Addr
        new = suc t.mallocs

        abbrev command : Command
        command = record { live = true; action = action; rcv = rcv }

        abbrev made : Starter
        made = with_command new (λ _. command) (record t { mallocs = k })

        abbrev after : Addr → Cmd (Unit {0})
        after a = add_command getaddrinfo (suc (suc fuel)) a >>= λ err. pure tt

        made_prompt : IsPrompt src content made
        made_prompt = record {
          no_commands = has.prompt.no_commands;
          idle = has.prompt.idle;
          memory = has.prompt.memory;
          prompt = has.prompt.prompt;
        }

        formed : form t.results t.id ≡ make with_arg action rcv
        formed = ap (λ r. form r t.id) has.results_are ∙ ap (form results) has.same_id ∙ forms

        added :
            make with_arg action rcv t ≡ ok new made
            → Sent
                (suc n)
                ((rcv, (cmd, data')) ∷ orders)
                (upd results)
                (add getaddrinfo (suc (suc fuel)) (λ s. form s.results s.id) t)
        added run =
            let does' : Does getaddrinfo src content action cmd data' upd t.sends =
              subst (Does getaddrinfo src content action cmd data' upd) (sym has.sends) does in
            let found : made.command_at new ≡ command = rw (==_self new) refl in
            subst (Sent (suc n) ((rcv, (cmd, data')) ∷ orders) (upd results))
              (sym (
                ap (λ c. and_then (c t) after) formed
                ∙ ap (λ r. and_then r after) run
                ∙ ap (λ r. and_then r (λ err. pure tt))
                    (add_command-done getaddrinfo src content fuel new made action rcv cmd data' upd
                      made_prompt (omega arith) found does')))
              (record {
                prompt = record {
                  no_commands = refl;
                  idle = refl;
                  memory = has.prompt.memory;
                  prompt = has.prompt.prompt;
                };
                same_id = has.same_id;
                sends = ap suc has.sends;
                sent = ap (◌∷◌ (rcv, (cmd, data'))) has.sent;
                results_are = ap upd has.results_are;
              })

      one :
          (t : Starter)
          → HasSent src content id n orders results t
          → Sent
              (suc n)
              ((rcv, (cmd, data')) ∷ orders)
              (upd results)
              (add getaddrinfo (suc (suc fuel)) (λ s. form s.results s.id) t)
      one t has =
          let (k, later, made_run) = make-ok with_arg action rcv t has.prompt.memory in
          added t has k made_run

      next :
          (r : Run (Unit {0}))
          → Sent n orders results r
          → Sent
              (suc n)
              ((rcv, (cmd, data')) ∷ orders)
              (upd results)
              (and_then r (λ _. add getaddrinfo (suc (suc fuel)) λ s. form s.results s.id))
      next (ok u t) sent = one t sent
      next exited sent = absurd sent
      next fault sent = absurd sent

    -- A chain of commands as process_startup_message makes them.
    abbrev create : List ℕ → Member → Results → ℕ → Cmd Addr
    create type res r i = create_nodecreate_command i type res

    abbrev subscribe : (Results → ℕ → ℕ) → Results → ℕ → Cmd Addr
    subscribe who r i = create_timersubscribe_command (who r i) r.timer_id

    abbrev connect : (Results → ℕ) → Results → ℕ → Cmd Addr
    connect from r i = create_nodeconnect_command (from r) out_name r.dbgprint_id in_name

    abbrev create_timer : Results → ℕ → Cmd Addr
    create_timer r i = create_timercreate_command i Member.to_timer_id

    abbrev set_timer : Results → ℕ → Cmd Addr
    set_timer r i = create_timerset_command i r.timer_id (timespec 1 0) (timespec 1 0) 0

    abbrev adding : (Results → ℕ → Cmd Addr) → Cmd (Unit {0})
    adding form = add getaddrinfo (suc (suc fuel)) λ s. form s.results s.id

    finish :
        (n : ℕ) (orders : List Order) (results : Results) (r : Run (Unit {0}))
        → Sent n orders results r
        → Returns
            (and_then {B = Errno} r (λ _. pure 0))
            (λ err t. (err ≡ 0) × HasSent src content id n orders results t)
    finish n orders results (ok u t) sent = (refl, sent)
    finish n orders results exited sent = absurd sent
    finish n orders results fault sent = absurd sent

    -- The ids that the responses bring.
    abbrev nodes : ℕ → Results → Results
    nodes tm r = store Member.to_timer_id tm (
        store Member.to_dbgprint_id (src 2)
          (store Member.to_cpuload_id (src 1) (store Member.to_ifdata_id (src 0) r)))

    -- The messages of the startup, the last first.
    abbrev pub startup_orders : ℕ → List Order
    startup_orders tm =
        (id, (33, Content.timer_id tm))
        ∷ (src 1, (33, Content.timer_id tm))
        ∷ (src 0, (33, Content.timer_id tm))
        ∷ (id, (31, Content.timerset tm (timespec 1 0) (timespec 1 0) 0))
        ∷ (id, (30, Content.empty))
        ∷ (src 1, (12, Content.nodeconnect out_name (node_address (src 2)) in_name))
        ∷ (src 0, (12, Content.nodeconnect out_name (node_address (src 2)) in_name))
        ∷ (id, (10, Content.nodecreate dbgprinter_name))
        ∷ (id, (10, Content.nodecreate cpuload_name))
        ∷ (id, (10, Content.nodecreate ifdata_name))
        ∷ []

    abbrev nodecreate : List ℕ → Member → Action
    nodecreate type res = Action.nodecreate type res

    abbrev nodeconnect : Action
    nodeconnect = Action.nodeconnect out_name (node_address (src 2)) in_name

    -- The nodes are created and connected.
    connected :
        (results : Results) (s : Starter)
        → HasSent src content id 0 [] results s
        → Sent 5
            ((src 1, (12, Content.nodeconnect out_name (node_address (src 2)) in_name))
              ∷ (src 0, (12, Content.nodeconnect out_name (node_address (src 2)) in_name))
              ∷ (id, (10, Content.nodecreate dbgprinter_name))
              ∷ (id, (10, Content.nodecreate cpuload_name))
              ∷ (id, (10, Content.nodecreate ifdata_name))
              ∷ [])
            (store Member.to_dbgprint_id
              (src 2)
              (store Member.to_cpuload_id (src 1) (store Member.to_ifdata_id (src 0) results)))
            ((adding (create ifdata_name Member.to_ifdata_id)
                >> adding (create cpuload_name Member.to_cpuload_id)
                >> adding (create dbgprinter_name Member.to_dbgprint_id)
                >> adding (connect λ r. r.ifdata_id)
                >> adding (connect λ r. r.cpuload_id))
              s)
    connected results s has =
        next (connect λ r. r.cpuload_id) true nodeconnect (src 1) 12 4 _ keep _ _ refl
          (nodeconnect-Does out_name (node_address (src 2)) in_name 4) _
          (next (connect λ r. r.ifdata_id) true nodeconnect (src 0) 12 3 _ keep _ _ refl
            (nodeconnect-Does out_name (node_address (src 2)) in_name 3) _
            (next (create dbgprinter_name Member.to_dbgprint_id) true
              (nodecreate dbgprinter_name Member.to_dbgprint_id) id 10 2 _ _ _ _ refl
              (nodecreate-Does dbgprinter_name Member.to_dbgprint_id 2) _
              (next (create cpuload_name Member.to_cpuload_id) true
                (nodecreate cpuload_name Member.to_cpuload_id) id 10 1 _ _ _ _ refl
                (nodecreate-Does cpuload_name Member.to_cpuload_id 1) _
                (one (create ifdata_name Member.to_ifdata_id) true
                  (nodecreate ifdata_name Member.to_ifdata_id) id 10 0 _ _ _ _ refl
                  (nodecreate-Does ifdata_name Member.to_ifdata_id 0) s has))))

    -- A starter that has no command and has sent nothing, with memory at hand, gets the startup message,
    -- and each message that it sends is answered at once by a response without an error, the one that
    -- creates the timer with the timer's id. Then it sends ten messages, in this order: the three nodes
    -- are created, the sensors are connected to the printer by the ids that the responses brought, the
    -- timer is created, set to one second, and the sensors and the starter are subscribed to it. The
    -- result is 0, the ids are stored, no command is queued, and none is waited for. Fuel for two
    -- commands is enough.
    pub process_startup_message-HasSent :
        (tm : ℕ) (results : Results) (s : Starter)
        → HasSent src content id 0 [] results s
        → content 5 ≡ Content.timer_id tm
        → Returns (process_startup_message getaddrinfo (suc (suc fuel)) s) (λ err t.
          (err ≡ 0) × HasSent src content id 10 (startup_orders tm) (nodes tm results) t)
    unfolding process_startup_message
    process_startup_message-HasSent tm results s has timer = finish 10 _ _ _ (
        next (subscribe λ r i. i) true (Action.timersubscribe tm) id 33 9 _ keep _ _ refl
          (timersubscribe-Does tm 9) _
          (next (subscribe λ r i. r.cpuload_id) true (Action.timersubscribe tm) (src 1) 33 8 _ keep
            _ _ refl (timersubscribe-Does tm 8) _
            (next (subscribe λ r i. r.ifdata_id) true (Action.timersubscribe tm) (src 0) 33 7 _ keep
              _ _ refl (timersubscribe-Does tm 7) _
              (next set_timer true (Action.timerset tm (timespec 1 0) (timespec 1 0) 0) id 31 6 _
                keep _ _ refl (timerset-Does tm 6) _
                (next create_timer false (Action.timercreate Member.to_timer_id) id 30 5 _ _ _ _
                  refl (timercreate-Does Member.to_timer_id tm 5 timer) _
                  (connected results s has))))))
