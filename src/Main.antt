-- ===== src/Main.antt =====
-- dmm_main.c, and dmm_initialize and dmm_startup of dmm_base.c: the configuration file, the modules that
-- it loads, and the starter. The file is its bytes; the starter goes on reading where `main` stopped.
-- `none` is the end of the program by dmm_emerg or exit.
pub mod Lines
pub mod Whole
use dimmon.Prelude.{
  ℕ, zero, suc, ◌+◌, Bool, true, false, ◌&&◌, ◌||◌, not, Option, none, some, List, [], ◌∷◌, ◌==◌,
  if◌then◌else◌, length, leb,
}
use dimmon.State.{Addr, Errno, time, failed, Reading, Sys, Cmd, ◌>>=◌, ◌>>◌, pure, get, gettime}
use dimmon.Module.{Library, module_load}
use dimmon.Graph.{node_create}
use dimmon.Message.{Content, Msg, msgtype_generic, msg_create}
use dimmon.Message.Generic.{Receiver}
use dimmon.Message.Send.{msg_send_id}
use dimmon.Mainloop.{Wait, main_loop}

-- parse_commandline, over what getopt gives: an option and its argument.
abbrev pub default_config : List ℕ
default_config = b'd' ∷ b'i' ∷ b'm' ∷ b'm' ∷ b'o' ∷ b'n' ∷ b'.' ∷ b'c' ∷ b'o' ∷ b'n' ∷ b'f' ∷ []

unfoldable pub parse_commandline : List (ℕ × List ℕ) → List ℕ → Option (List ℕ)
parse_commandline [] config_file = some config_file
parse_commandline ((opt, optarg) ∷ opts) config_file =
    if opt == b'c' then parse_commandline opts optarg else none

-- fgets of at most n bytes; none at the end of the file.
abbrev pub in_line : ℕ → List ℕ × List ℕ → List ℕ × List ℕ
in_line c (l, r) = (c ∷ l, r)

unfoldable pub take_line : ℕ → List ℕ → List ℕ × List ℕ
take_line zero cs = ([], cs)
take_line (suc n) [] = ([], [])
take_line (suc n) (c ∷ cs) = if c == b'\n' then (c ∷ [], cs) else in_line c (take_line n cs)

unfoldable pub fgets : ℕ → List ℕ → Option (List ℕ × List ℕ)
unfolding take_line
fgets n [] = none
fgets n (c ∷ cs) = some (take_line n (c ∷ cs))

-- A line without the newline at its end.
unfoldable pub chomp : List ℕ → List ℕ
chomp [] = []
chomp (c ∷ []) = if c == b'\n' then [] else c ∷ []
chomp (c ∷ d ∷ cs) = c ∷ chomp (d ∷ cs)

abbrev pub path_max : ℕ
path_max = 4096

-- What a line is: passed over, the mark in front of the starter, or the name of a module.
pub data LineKind : Type 0 where
  passed_over mark modul : LineKind

abbrev pub dash_next : List ℕ → Bool
dash_next [] = false
dash_next (c ∷ cs) = c == b'-'

unfoldable pub is_mark : List ℕ → Bool
is_mark (c ∷ d ∷ []) = c == b'=' && d == b'='
is_mark _ = false

unfoldable pub line_kind : List ℕ → LineKind
unfolding is_mark
line_kind [] = passed_over
line_kind (c ∷ cs) =
    if c == b'#' || (c == b'-' && dash_next cs)
    then passed_over
    else if is_mark (c ∷ cs)
    then mark
    else modul

-- What is left in front of the starter's type, and the number of lines that were read.
pub record Position : Type 0 where
  pub lineno : ℕ
  pub rest : List ℕ

module _ (library : List ℕ → Option Library) where
  abbrev pub read_line :
      (ℕ → List ℕ → Cmd (Option Position)) → ℕ → List ℕ → LineKind → List ℕ → Cmd (Option Position)
  read_line more lineno line passed_over rest = more (suc lineno) rest
  read_line more lineno line mark rest = pure (some (record { lineno = lineno; rest = rest }))
  read_line more lineno line modul rest =
      module_load (library line) >>= λ err. more (suc lineno) rest

  abbrev pub read_next :
      (ℕ → List ℕ → Cmd (Option Position)) → ℕ → Option (List ℕ × List ℕ) → Cmd (Option Position)
  read_next more lineno none = pure none
  read_next more lineno (some (line, rest)) =
      if length line == path_max
      then pure none
      else read_line more lineno (chomp line) (line_kind (chomp line)) rest

  -- The loop of main over the lines in front of the first mark. A module that cannot be loaded is
  -- passed over.
  unfoldable pub read_modules : ℕ → ℕ → List ℕ → Cmd (Option Position)
  unfolding fgets chomp line_kind module_load
  read_modules zero lineno text = pure none
  read_modules (suc fuel) lineno text = read_next (read_modules fuel) lineno (fgets path_max text)

-- The type of the starter, and the second mark.
pub record Config : Type 0 where
  pub starter_type : List ℕ
  pub lineno : ℕ
  pub rest : List ℕ

abbrev pub typename_size : ℕ
typename_size = 32

abbrev pub second_mark : List ℕ → ℕ → Option (List ℕ × List ℕ) → Option Config
second_mark type lineno none = none
second_mark type lineno (some (line, rest)) =
    if is_mark (chomp line)
    then some (record { starter_type = type; lineno = lineno; rest = rest })
    else none

abbrev pub type_line : ℕ → Option (List ℕ × List ℕ) → Option Config
type_line lineno none = none
type_line lineno (some (line, rest)) =
    if leb typename_size (length (chomp line))
    then none
    else second_mark (chomp line) (suc lineno) (fgets path_max rest)

unfoldable pub read_starter : Option Position → Option Config
unfolding fgets chomp is_mark
read_starter none = none
read_starter (some p) = type_line (suc p.lineno) (fgets path_max p.rest)

unfoldable pub read_config : (List ℕ → Option Library) → ℕ → List ℕ → Cmd (Option Config)
unfolding read_modules read_starter
read_config library fuel text = do p ← read_modules library fuel 1 text; pure (read_starter p)

-- dmm_initialize: the instance of epoll, and the clocks, which must work.
abbrev pub is_time : Reading → Bool
is_time (time t) = true
is_time (failed e) = false

unfoldable pub initialize : Errno → Cmd (Option Errno)
unfolding gettime
initialize epoll_create =
    if epoll_create == 0
    then (do
      realtime ← gettime
      if is_time realtime
          then (do monotonic ← gettime; pure (if is_time monotonic then some 0 else none))
          else pure none)
    else pure none

module _ (receiver : Addr → Option Receiver) where
  abbrev pub startup_msg : ℕ → ℕ → Msg
  startup_msg fd lineno = record {
    cm_src = 0;
    cm_cmd = 1;
    cm_type = msgtype_generic;
    cm_token = 0;
    cm_resp = false;
    cm_err = false;
    cm_data = Content.startup fd lineno;
  }

  -- dmm_startup: the starter is created, and told where to go on reading.
  unfoldable pub startup : List ℕ → ℕ → ℕ → Cmd (Option Addr)
  unfolding node_create msg_create msg_send_id
  startup type fd lineno = do
    (err, starter) ← node_create type
    if not (err == 0) then pure none else (do
      m ← msg_create (startup_msg fd lineno)
      elim m [
        | none ↦ pure none
        | some msg ↦ do
          s ← get
          err' ← msg_send_id receiver (s.node starter).nd_id msg
          pure (if err' == 0 then some starter else none)
      ])

  abbrev pub run_config : ℕ → List Wait → ℕ → Option Config → Cmd (Option (Option Errno))
  run_config fuel waits fd none = pure none
  run_config fuel waits fd (some c) = startup c.starter_type fd c.lineno >>= λ r. elim r [
    | none ↦ pure none
    | some starter ↦ do err ← main_loop receiver fuel waits; pure (some err)
  ]

  -- main: the result of the main loop, `some none` while it goes on.
  unfoldable pub main :
      (List ℕ → Option Library)
      → Errno
      → (List ℕ → Option (List ℕ))
      → ℕ
      → List Wait
      → ℕ
      → List (ℕ × List ℕ)
      → Cmd (Option (Option Errno))
  unfolding parse_commandline initialize read_config startup main_loop
  main library epoll_create fopen fuel waits fd opts =
      elim (parse_commandline opts default_config) [
        | none ↦ pure none
        | some config_file ↦ do
          r ← initialize epoll_create
          elim r [
            | none ↦ pure none
            | some e ↦ elim (fopen config_file) [
              | none ↦ pure none
              | some text ↦ do
                c ← read_config library (suc (length text)) text
                run_config fuel waits fd c
            ]
          ]
      ]
