-- ===== src/State.antt =====
-- The runtime's memory and global variables, and commands over them. Objects lie at addresses, 0 is
-- NULL, and `malloc` never gives an address again; the fields of a freed object stay readable, and
-- `live` says whether it is allocated. Covers the structs of dmm_base.h, dmm_event_types.h,
-- dmm_timer.h, dmm_wave.h and dmm_sockevent_types.h, and the static lists and counters of the .c
-- files.
pub mod Cells
pub mod Returns
use dimmon.Prelude.{
  ℕ, zero, suc, ◌+◌, ◌%◌, ◌^◌, Bool, true, false, ◌&&◌, Option, none, some, List, [], ◌∷◌, ◌==◌,
  if◌then◌else◌,
}
use dimmon.Timespec.{Timespec}

abbrev pub Addr : Type 0
Addr = ℕ

-- The results of a system call as the runtime sees them: an int, 0 for success.
abbrev pub Errno : Type 0
Errno = ℕ

abbrev pub enoent : Errno
enoent = 2

abbrev pub enomem : Errno
enomem = 12

abbrev pub eexist : Errno
eexist = 17

abbrev pub einval : Errno
einval = 22

abbrev pub enotsup : Errno
enotsup = 95

abbrev pub u32_mod : ℕ
u32_mod = 2 ^ 32

-- struct dmm_type. The constructor and `newhook` show the runtime a result, and the latter what it
-- leaves in `hk_rcvdata`; the destructor and `rmhook` show it nothing, and only whether they are
-- set matters. `rcvmsg` and `rcvdata` act on the whole state and are arguments of what delivers.
pub record NodeType : Type 0 where
  pub tp_name : List ℕ
  pub ctor : Option (Addr → Errno)
  pub dtor : Bool
  pub newhook : Option (Addr → Errno × Option ℕ)
  pub rmhook : Bool

pub record Node : Type 0 where
  pub live : Bool
  pub nd_id : ℕ
  pub nd_name : List ℕ
  pub nd_invalid : Bool
  pub nd_type : Addr
  pub nd_inhooks : List Addr
  pub nd_outhooks : List Addr
  pub nd_events : List Addr
  pub nd_refs : ℕ

pub data Direction : Type 0 where
  hook_in hook_out : Direction

pub record Hook : Type 0 where
  pub live : Bool
  pub hk_name : List ℕ
  pub hk_invalid : Bool
  pub hk_dir : Direction
  pub hk_node : Addr
  pub hk_rcvdata : Option ℕ
  pub hk_peers : List Addr
  pub hk_refs : ℕ

-- struct dmm_eventnode: the address of the list cell, and the subscribed node.
pub record Eventnode : Type 0 where
  pub cell : Addr
  pub en_node : Addr

pub data Destructor : Type 0 where
  timer_destructor wavefinish_destructor sockevent_destructor : Destructor

pub record Event : Type 0 where
  pub live : Bool
  pub ev_id : ℕ
  pub ev_nodes : List Eventnode
  pub ev_refs : ℕ
  pub ev_destructor : Option Destructor

-- A timer, a wavefinish and a sockevent begin with their event: they share its address, and are
-- allocated as long as it is.
pub record Timer : Type 0 where
  pub tm_invalid : Bool
  pub tm_registered : Bool
  pub tm_next : Timespec
  pub tm_interval : Timespec

pub record Sockevent : Type 0 where
  pub se_fd : ℕ
  pub se_sockevents : ℕ

-- struct dmm_data; `da_nodes` is the address of its block, and `live` stands for both.
pub record Data : Type 0 where
  pub live : Bool
  pub da_nodes : Addr
  pub da_len : ℕ
  pub da_refs : ℕ

-- What a clock_gettime returns: a time, or the errno of its failure.
pub data Reading : Type 0 where
  time : Timespec → Reading
  failed : Errno → Reading

-- Calls that leave the runtime, newest first in `calls`.
pub data Call : Type 0 where
  dtor_of : Addr → Call
  rmhook_of : Addr → Call
  epoll_add epoll_mod : ℕ → Addr → ℕ → Call
  epoll_del : ℕ → Call
  epoll_wait : Option ℕ → Call

-- `mem`, `clock` and `epoll` are the system's answers to the successive calls of malloc,
-- clock_gettime and epoll_ctl; `mallocs`, `readings` and `epolls` count those made. `msgs` counts
-- the control messages that are allocated.
pub record Sys : Type 0 where
  pub node : Addr → Node
  pub hook : Addr → Hook
  pub event : Addr → Event
  pub timer : Addr → Timer
  pub wf_waveid : Addr → ℕ
  pub sockevent : Addr → Sockevent
  pub data_at : Addr → Data
  pub type_at : Addr → NodeType
  pub typelist : List Addr
  pub nodelist : List Addr
  pub timerlist : List Addr
  pub timer_trigger_list : List Addr
  pub wavefinishlist : List Addr
  pub sockeventlist : List Addr
  pub lastnodeid : ℕ
  pub lasteventid : ℕ
  pub dmm_wave_id : ℕ
  pub mem : ℕ → Bool
  pub mallocs : ℕ
  pub clock : ℕ → Reading
  pub readings : ℕ
  pub epoll : ℕ → Errno
  pub epolls : ℕ
  pub msgs : ℕ
  pub calls : List Call

-- `fault` is a failed assertion, a use of freed memory, or a null pointer that is followed.
pub data Run {ℓ} (A : Type ℓ) : Type ℓ where
  ok : A → Sys → Run A
  fault : Run A

abbrev pub Cmd {ℓ} : Type ℓ → Type ℓ
Cmd A = Sys → Run A

abbrev pub pure {ℓ} : {A : Type ℓ} → A → Cmd A
pure = ok

abbrev pub and_then {ℓ κ} : {A : Type ℓ} {B : Type κ} → Run A → (A → Cmd B) → Run B
and_then (ok a s) k = k a s
and_then fault k = fault

infixl 5 ◌>>=◌ ◌>>◌
abbrev pub ◌>>=◌ {ℓ κ} : {A : Type ℓ} {B : Type κ} → Cmd A → (A → Cmd B) → Cmd B
m >>= k = λ s. and_then (m s) k

abbrev pub ◌>>◌ {ℓ} : {B : Type ℓ} → Cmd (Unit {0}) → Cmd B → Cmd B
m >> n = m >>= λ _. n

abbrev pub get : Cmd Sys
get s = ok s s

abbrev pub skip : Cmd (Unit {0})
skip = ok tt

abbrev pub assert : Bool → Cmd (Unit {0})
assert true s = ok tt s
assert false s = fault

abbrev pub put {ℓ} : {A : Type ℓ} → (Addr → A) → Addr → A → Addr → A
put f a x b = if b == a then x else f b

abbrev pub modify : (Sys → Sys) → Cmd (Unit {0})
modify f s = ok tt (f s)

abbrev pub with_node : Addr → (Node → Node) → Sys → Sys
with_node a f s = record s { node = put s.node a (f (s.node a)) }

abbrev pub with_hook : Addr → (Hook → Hook) → Sys → Sys
with_hook a f s = record s { hook = put s.hook a (f (s.hook a)) }

abbrev pub with_event : Addr → (Event → Event) → Sys → Sys
with_event a f s = record s { event = put s.event a (f (s.event a)) }

abbrev pub with_timer : Addr → (Timer → Timer) → Sys → Sys
with_timer a f s = record s { timer = put s.timer a (f (s.timer a)) }

abbrev pub with_data : Addr → (Data → Data) → Sys → Sys
with_data a f s = record s { data_at = put s.data_at a (f (s.data_at a)) }

-- DMM_MALLOC: NULL, or the address of a new object.
unfoldable pub malloc : Cmd Addr
malloc s = ok (if s.mem s.mallocs then suc s.mallocs else 0) (record s { mallocs = suc s.mallocs })

-- clock_gettime.
unfoldable pub gettime : Cmd Reading
gettime s = ok (s.clock s.readings) (record s { readings = suc s.readings })

-- epoll_ctl: 0, or the errno of its failure.
unfoldable pub epoll_ctl : Call → Cmd Errno
epoll_ctl c s = ok (s.epoll s.epolls) (record s { epolls = suc s.epolls; calls = c ∷ s.calls })

abbrev pub call : Call → Cmd (Unit {0})
call c = modify λ s. record s { calls = c ∷ s.calls }
