-- ===== src/Starter/Queue/Tasks.antt =====
-- modules/starter/starter.c: commands that are made and added and responses that come, as events, and
-- what is known of their parts.
pub mod Prompt
pub mod Log
use dimmon.Prelude.{
  ℕ, suc, ◌+◌, ◌≤◌, ◌≡◌, ◌≢◌, ◌∙◌, ==_ne, ==_self, refl, ap, true, false, Bool, if◌then◌else◌, ◌==◌,
  Option, none, some, List, [], ◌∷◌, ◌++◌, push_all, arith,
}
use dimmon.State.{Addr, Errno}
use dimmon.Message.{Content, Msg}
use dimmon.Starter.{
  Action, Results, Starter, Run, ok, exited, fault, Cmd, and_then, ◌>>=◌, ◌>>◌, modify, store,
  with_command,
}
use dimmon.Starter.Commands.{
  make_command, make_command_arg, process_resp, store_result, store_timer, store_flags,
}
use dimmon.Starter.Queue.{
  after_round, next_of, first, process_command, process_response, commands_from, add_command,
  receive_response,
}
use dimmon.Starter.Queue.Steps.{HasMemory, kind_of}

abbrev pub Returns {ℓ} : {A : Type ℓ} → Run A → (A → Starter → Type 0) → Type 0
Returns (ok a s) P = P a s
Returns exited P = ⊥
Returns fault P = ⊥

-- A receiver, with the command and the type of a message to it.
abbrev pub Task : Type 0
Task = ℕ × (ℕ × ℕ)

abbrev pub task_of_sent : ℕ × Msg → Task
task_of_sent (rcv, m) = (rcv, (m.cm_cmd, m.cm_type))

-- What is asked of a response to an action.
abbrev pub Fits : Content → Action → Type 0
Fits content (Action.timercreate res) = (id : ℕ) × (content ≡ Content.timer_id id)
Fits content (Action.netiprecvgetflags res) =
    (flags : ℕ) × (content ≡ Content.netiprecv_flags flags)
Fits content _ = Unit {0}

-- What happens to a starter: a command is made and added, or a response comes.
pub data Event : Type 0 where
  add : (with_arg : Bool) → (action : Action) → (rcv : ℕ) → Event
  respond : Msg → Event

abbrev pub make : Bool → Action → ℕ → Cmd Addr
make true = make_command_arg
make false = make_command

-- The tasks that an event adds.
abbrev pub added_by : Event → List Task
added_by (add with_arg action rcv) = (rcv, kind_of action) ∷ []
added_by (respond m) = []

module _ (getaddrinfo : Option (List ℕ) → List ℕ → Option (List ℕ)) where
  unfoldable pub perform : ℕ → Event → Cmd Errno
  unfolding make_command make_command_arg add_command receive_response
  perform fuel (add with_arg action rcv) =
      make with_arg action rcv >>= λ a. add_command getaddrinfo fuel a
  perform fuel (respond m) =
      modify (λ s. record s { msgs = suc s.msgs }) >> receive_response getaddrinfo fuel m

  -- The events one after the other, as long as there is no error.
  unfoldable pub perform_all : ℕ → List Event → Cmd Errno
  unfolding perform
  perform_all fuel [] s = ok 0 s
  perform_all fuel (e ∷ es) s =
      and_then (perform fuel e s) (λ err. if err == 0 then perform_all fuel es else (λ t. ok err t))

  abbrev pub answering : ℕ → Msg → Cmd Errno
  answering fuel = process_response λ t. commands_from getaddrinfo fuel (first t.commandlist) t

  pub commands_from-round :
      (fuel : ℕ) (a : Addr) (s : Starter)
      → a ≢ 0
      → (s.command_at a).live ≡ true
      → commands_from getaddrinfo (suc fuel) a s
        ≡ and_then
            (process_command getaddrinfo (answering fuel) a s)
            (after_round (commands_from getaddrinfo fuel (next_of a s.commandlist)))
  unfolding commands_from
  commands_from-round fuel a s real alive = rw (==_ne a 0 real, alive) refl

pub make-ok :
    (with_arg : Bool) (action : Action) (rcv : ℕ) (s : Starter)
    → HasMemory s
    → (k : ℕ) × (suc s.mallocs ≤ k)
      × (make with_arg action rcv s
          ≡ ok (suc s.mallocs) (
              with_command
                (suc s.mallocs)
                (λ _. record { live = true; action = action; rcv = rcv })
                (record s { mallocs = k })))
unfolding make_command make_command_arg
make-ok true action rcv s memory =
    (suc (suc s.mallocs), omega arith, ground (arith, memory s.mallocs, memory (suc s.mallocs)))
make-ok false action rcv s memory = (suc s.mallocs, omega arith, ground (arith, memory s.mallocs))

-- What a response does to the results.
pub process_resp-upd :
    (action : Action) (src : ℕ) (content : Content)
    → Fits content action
    → (upd : Results → Results) × ((m : Msg) (u : Starter)
        → m.cm_src ≡ src
        → m.cm_data ≡ content
        → process_resp m action u ≡ ok tt (record u { results = upd u.results }))
unfolding process_resp
process_resp-upd (Action.timercreate res) src content (id, c) =
    (store res id, λ m u e f. ap (λ d. store_timer res d u) (f ∙ c))
process_resp-upd (Action.netiprecvgetflags res) src content (flags, c) =
    (store res flags, λ m u e f. ap (λ d. store_flags res d u) (f ∙ c))
process_resp-upd (Action.nodecreate type res) src content fits =
    (store res src, λ m u e f. ap (λ v. store_result res v u) e)
process_resp-upd _ src content fits = (λ r. r, λ m u e f. refl)

pub push_all-snoc {ℓ} :
    {A : Type ℓ} (xs : List A) (y : A) (l : List A) → push_all (xs ++ y ∷ []) l ≡ y ∷ push_all xs l
push_all-snoc [] y l = refl
push_all-snoc (x ∷ xs) y l = push_all-snoc xs y (x ∷ l)
