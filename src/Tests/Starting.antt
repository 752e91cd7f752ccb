-- ===== src/Tests/Starting.antt =====
-- The theorem on the configuration file, applied to a small one.
use dimmon.Prelude.{ℕ, ◌≡◌, Option, none, some, List, [], ◌∷◌, arith}
use dimmon.State.{and_then, pure}
use dimmon.Module.{Library}
use dimmon.Main.{read_config, line_kind}
use dimmon.Main.Lines.{Entry, AllEntries, config_text, names, load_all}
use dimmon.Main.Whole.{read_config-config_text}
use dimmon.Sensors.Memory.{codes}
use dimmon.Tests.Sample.{sample}

abbrev entries : List Entry
entries =
    Entry.dashes (codes " modules")
    ∷ Entry.load (codes "starter.so")
    ∷ Entry.blank
    ∷ Entry.hash (codes "==")
    ∷ Entry.load (codes "none.so")
    ∷ []

entries-AllEntries : AllEntries entries
unfolding line_kind
entries-AllEntries = ground arith

abbrev no_library : List ℕ → Option Library
no_library name = none

read_config-config_text_example :
    read_config no_library 6 (config_text entries (codes "starter") (codes "5")) sample
    ≡ and_then
        (load_all no_library (names entries) sample)
        (λ _. pure (some (record { starter_type = codes "starter"; lineno = 8; rest = codes "5" })))
read_config-config_text_example =
    read_config-config_text no_library entries (codes "starter") (codes "5") 6 sample
      entries-AllEntries (ground arith) (omega arith) (omega arith)
