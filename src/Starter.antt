-- ===== src/Starter.antt =====
-- modules/starter/starter.c: the node that sets up the others, by commands that it sends one after the
-- other, each when the response to the one before has come. Here its state and its commands. What
-- sending a message brings about is given by `answer`, and getaddrinfo by its results.
pub mod Digits
pub mod Address
pub mod Triplet
pub mod Commands
pub mod Queue
pub mod Startup
use dimmon.Prelude.{
  ℕ, zero, suc, Bool, true, false, Option, none, some, List, [], ◌∷◌, ◌==◌, if◌then◌else◌, ◌+◌, ◌%◌,
  ◌/◌, ◌-◌, ltb,
}
use dimmon.Timespec.{Timespec}
use dimmon.State.{Addr, Errno, u32_mod, put}
use dimmon.Message.{Msg}

-- The members of struct pvt_data that take the results of commands.
pub record Results : Type 0 where
  pub ifdata_id : ℕ
  pub ifdata_id1 : ℕ
  pub cpuload_id : ℕ
  pub timer_id : ℕ
  pub wavebuf_id : ℕ
  pub netsend_id : ℕ
  pub netrecv_id : ℕ
  pub netrecv_flags : ℕ
  pub dbgprint_id : ℕ

-- The address of such a member, `res` of a command.
pub data Member : Type 0 where
  to_ifdata_id to_ifdata_id1 to_cpuload_id to_timer_id to_wavebuf_id : Member
  to_netsend_id to_netrecv_id to_netrecv_flags to_dbgprint_id : Member

abbrev pub store : Member → ℕ → Results → Results
store Member.to_ifdata_id v r = record r { ifdata_id = v }
store Member.to_ifdata_id1 v r = record r { ifdata_id1 = v }
store Member.to_cpuload_id v r = record r { cpuload_id = v }
store Member.to_timer_id v r = record r { timer_id = v }
store Member.to_wavebuf_id v r = record r { wavebuf_id = v }
store Member.to_netsend_id v r = record r { netsend_id = v }
store Member.to_netrecv_id v r = record r { netrecv_id = v }
store Member.to_netrecv_flags v r = record r { netrecv_flags = v }
store Member.to_dbgprint_id v r = record r { dbgprint_id = v }

abbrev pub load : Member → Results → ℕ
load Member.to_ifdata_id r = r.ifdata_id
load Member.to_ifdata_id1 r = r.ifdata_id1
load Member.to_cpuload_id r = r.cpuload_id
load Member.to_timer_id r = r.timer_id
load Member.to_wavebuf_id r = r.wavebuf_id
load Member.to_netsend_id r = r.netsend_id
load Member.to_netrecv_id r = r.netrecv_id
load Member.to_netrecv_flags r = r.netrecv_flags
load Member.to_dbgprint_id r = r.dbgprint_id

-- The functions `create_msg` and `process_resp` of a command with `arg` and `res`, by the function
-- that makes the command.
pub data Action : Type 0 where
  nodecreate : (type : List ℕ) → (res : Member) → Action
  nodeconnect nodedisconnect : (srchook dstnode dsthook : List ℕ) → Action
  timercreate : (res : Member) → Action
  timerset : (id : ℕ) → (next interval : Timespec) → (flags : ℕ) → Action
  timersubscribe timerrm : (id : ℕ) → Action
  wavefinishsubscribe : Action
  netiprecvcreatesock netipsendcreatesock : (triplet : List ℕ) → Action
  netiprecvbind : (port : List ℕ) → Action
  netipsendconnect : (host port : List ℕ) → Action
  netiprecvgetflags : (res : Member) → Action
  netiprecvsetflags : (flags : Member) → Action

-- struct command; `live` tells whether it is allocated.
pub record Command : Type 0 where
  pub live : Bool
  pub action : Action
  pub rcv : ℕ

-- struct pvt_data, the heap of commands, and the static variable last_token. `sent` are the messages
-- that were sent and their receivers, newest first; `answer` gives for the number of the sending and
-- the message the response that comes back before DMM_MSG_SEND_ID returns, if one does, and the
-- result of DMM_MSG_SEND_ID. `msgs` counts the messages that the node holds.
pub record Starter : Type 0 where
  pub id : ℕ
  pub is_waiting : Bool
  pub cur_msg : Option Msg
  pub commandlist : List Addr
  pub results : Results
  pub num_tt : ℕ
  pub command_at : Addr → Command
  pub last_token : ℕ
  pub sent : List (ℕ × Msg)
  pub answer : ℕ → Msg → Option Msg × Errno
  pub sends : ℕ
  pub mem : ℕ → Bool
  pub mallocs : ℕ
  pub msgs : ℕ

-- `exited` is exit(1); `fault` is a failed assertion or a use of freed memory.
pub data Run {ℓ} (A : Type ℓ) : Type ℓ where
  ok : A → Starter → Run A
  exited : Run A
  fault : Run A

abbrev pub Cmd {ℓ} : Type ℓ → Type ℓ
Cmd A = Starter → Run A

abbrev pub pure {ℓ} : {A : Type ℓ} → A → Cmd A
pure = ok

abbrev pub and_then {ℓ κ} : {A : Type ℓ} {B : Type κ} → Run A → (A → Cmd B) → Run B
and_then (ok a s) k = k a s
and_then exited k = exited
and_then fault k = fault

infixl 5 ◌>>=◌ ◌>>◌
abbrev pub ◌>>=◌ {ℓ κ} : {A : Type ℓ} {B : Type κ} → Cmd A → (A → Cmd B) → Cmd B
m >>= k = λ s. and_then (m s) k

abbrev pub ◌>>◌ {ℓ} : {B : Type ℓ} → Cmd (Unit {0}) → Cmd B → Cmd B
m >> n = m >>= λ _. n

abbrev pub get : Cmd Starter
get s = ok s s

abbrev pub modify : (Starter → Starter) → Cmd (Unit {0})
modify f s = ok tt (f s)

abbrev pub assert : Bool → Cmd (Unit {0})
assert true s = ok tt s
assert false s = fault

-- DMM_MALLOC, as for the runtime.
unfoldable pub malloc : Cmd Addr
malloc s = ok (if s.mem s.mallocs then suc s.mallocs else 0) (record s { mallocs = suc s.mallocs })

abbrev pub with_command : Addr → (Command → Command) → Starter → Starter
with_command a f s = record s { command_at = put s.command_at a (f (s.command_at a)) }

-- DMM_MSG_CREATE and DMM_MSG_COPY.
unfoldable pub alloc_msg : Msg → Cmd (Option Msg)
unfolding malloc
alloc_msg m = do
  a ← malloc
  if a == 0 then pure none else (do modify (λ s. record s { msgs = suc s.msgs }); pure (some m))

unfoldable pub free_msg : Cmd (Unit {0})
free_msg = do s ← get; assert (ltb 0 s.msgs); modify (λ t. record t { msgs = t.msgs - 1 })

unfoldable pub get_token : Cmd ℕ
get_token = do
  modify (λ s. record s { last_token = (s.last_token + 1) % u32_mod })
  s ← get
  pure s.last_token

-- Texts in arrays of n bytes, as strncpy leaves them.
abbrev pub clip : ℕ → List ℕ → List ℕ
clip zero cs = []
clip (suc n) [] = []
clip (suc n) (c ∷ cs) = c ∷ clip n cs

-- The digits of a number in front of a text, and snprintf "%u".
unfoldable pub digits : ℕ → ℕ → List ℕ → List ℕ
digits zero n rest = rest
digits (suc fuel) n rest =
    let more = digits fuel (n / 10) ((b'0' + n % 10) ∷ rest) in
    if ltb n 10 then (b'0' + n) ∷ rest else more

unfoldable pub decimal : ℕ → List ℕ → List ℕ
unfolding digits
decimal n rest = digits (suc n) n rest
