-- ===== src/Starter/Queue/Runs.antt =====
-- modules/starter/starter.c: the runs of add_command and process_response, branch by branch.
use dimmon.Prelude.{
  ℕ, ◌-◌, ◌≤◌, ◌≡◌, ◌≢◌, ◌∙◌, ==_ne, refl, ap, Bool, true, false, not, Option, some, List, [], ◌∷◌,
  ◌++◌, if◌then◌else◌, arith,
}
use dimmon.State.{Addr, Errno, put}
use dimmon.Message.{Msg}
use dimmon.Starter.{
  Results, Starter, Run, ok, exited, Cmd, and_then, ◌>>=◌, ◌>>◌, pure, get, assert, free_msg,
}
use dimmon.Starter.Commands.{process_resp}
use dimmon.Starter.Queue.{
  first, rest_of, is_null, responds, remove_head, accept_response, after_response, match_response,
  process_response, process_commands, add_command,
}

pub free_msg-ok : (s : Starter) → 1 ≤ s.msgs → free_msg s ≡ ok tt (record s { msgs = s.msgs - 1 })
unfolding free_msg
free_msg-ok s h = ground arith

pub add_command-run :
    (getaddrinfo : Option (List ℕ) → List ℕ → Option (List ℕ)) (fuel : ℕ) (a : Addr) (s : Starter)
    → a ≢ 0
    → add_command getaddrinfo fuel a s
      ≡ (if is_null s.commandlist then process_commands getaddrinfo fuel else pure 0)
          (record s { commandlist = s.commandlist ++ a ∷ [] })
unfolding add_command
add_command-run getaddrinfo fuel a s real = rw (==_ne a 0 real) refl

module _ (again : Cmd Errno) where
  after_response-run :
      (b : Bool) (s : Starter)
      → is_null s.commandlist ≡ b
      → 1 ≤ s.msgs
      → after_response again s ≡ (if b then pure 0 else again) (record s { msgs = s.msgs - 1 })
  unfolding after_response
  after_response-run true s e held = rw (e, free_msg-ok s held) refl
  after_response-run false s e held = rw (e, free_msg-ok s held) refl

  module _ (m : Msg) (s : Starter) where
    abbrev removed : Results → List Addr → Starter
    removed r l = record s {
      results = r;
      commandlist = rest_of l;
      command_at = put s.command_at (first l) (record (s.command_at (first l)) { live = false });
      is_waiting = false;
    }

    abbrev finishing : Run (Unit {0}) → Run Errno
    finishing r =
        and_then (and_then r (λ _. remove_head (first s.commandlist))) (λ _. after_response again)

    accept-process :
        m.cm_err ≡ false
        → accept_response again m s
          ≡ finishing (process_resp m (s.command_at (first s.commandlist)).action s)
    unfolding accept_response
    accept-process e =
        ap
          (λ b.
            (if b
                then (λ _. exited)
                else (get >>= λ u.
                    process_resp m (u.command_at (first u.commandlist)).action
                    >> remove_head (first u.commandlist)
                    >> after_response again))
              s)
          e

    -- The awaited response: the head of the queue is removed, and the queue goes on.
    pub accept-run :
        (r : Results) (a : Addr) (rest : List Addr)
        → m.cm_err ≡ false
        → process_resp m (s.command_at (first s.commandlist)).action s
          ≡ ok tt (record s { results = r })
        → s.commandlist ≡ a ∷ rest
        → 1 ≤ s.msgs
        → accept_response again m s
          ≡ (if is_null rest then pure 0 else again) (record s {
            results = r;
            commandlist = rest;
            command_at = put s.command_at a (record (s.command_at a) { live = false });
            is_waiting = false;
            msgs = s.msgs - 1;
          })
    unfolding remove_head
    accept-run r a rest no_error run commands held =
        accept-process no_error
        ∙ ap finishing run
        ∙ ap (λ l. after_response again (removed r l)) commands
        ∙ after_response-run (is_null rest) (removed r (a ∷ rest)) refl held

    abbrev responding : Starter → Cmd Errno
    responding u =
        if not u.is_waiting
        then (free_msg >> pure 0)
        else (assert (not (is_null u.commandlist)) >> match_response again m u.cur_msg)

    abbrev waits : Bool → Run Errno
    waits b =
        (if not b
            then (free_msg >> pure 0)
            else (assert (not (is_null s.commandlist)) >> match_response again m s.cur_msg))
          s

    asserted : m.cm_resp ≡ true → process_response again m s ≡ waits s.is_waiting
    unfolding process_response
    asserted e = ap (λ b. and_then (and_then (assert b s) (λ _. get)) responding) e

    -- While a command is under way.
    pub response-awaits :
        (cur : Msg) (a : Addr) (rest : List Addr)
        → m.cm_resp ≡ true
        → s.is_waiting ≡ true
        → s.commandlist ≡ a ∷ rest
        → s.cur_msg ≡ some cur
        → process_response again m s
          ≡ (if responds m cur then accept_response again m else (free_msg >> pure 0)) s
    response-awaits cur a rest is_resp waiting commands current =
        asserted is_resp
        ∙ ap waits waiting
        ∙ ap (λ l. and_then (assert (not (is_null l)) s) (λ _. match_response again m s.cur_msg))
            commands
        ∙ ap (λ c. match_response again m c s) current

    -- While none is.
    pub response-idle :
        m.cm_resp ≡ true
        → s.is_waiting ≡ false
        → process_response again m s ≡ (free_msg >> pure 0) s
    response-idle is_resp idle = asserted is_resp ∙ ap waits idle
