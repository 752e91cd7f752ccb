-- ===== src/State/Returns.antt =====
-- Total correctness of a command: it returns, with a postcondition.
use dimmon.State.{Sys, Run, ok, fault, and_then, Cmd}

abbrev pub Returns {ℓ} : {A : Type ℓ} → Run A → (A → Sys → Type 0) → Type 0
Returns (ok a s) P = P a s
Returns fault P = ⊥

pub bind {ℓ κ} :
    {A : Type ℓ} {B : Type κ} (P : A → Sys → Type 0) (Q : B → Sys → Type 0) (r : Run A)
    (k : A → Cmd B)
    → Returns r P
    → ((a : A) (s : Sys) → P a s → Returns (k a s) Q)
    → Returns (and_then r k) Q
bind P Q (ok a s) k p next = next a s p
bind P Q fault k p next = absurd p

pub weaken {ℓ} :
    {A : Type ℓ} (P Q : A → Sys → Type 0) (r : Run A)
    → Returns r P
    → ((a : A) (s : Sys) → P a s → Q a s)
    → Returns r Q
weaken P Q (ok a s) p imp = imp a s p
weaken P Q fault p imp = absurd p
