-- ===== src/Main/Lines.antt =====
-- dmm_main.c: what main makes of a configuration file.
use dimmon.Prelude.{
  ℕ, zero, suc, ◌+◌, ◌<◌, ◌≡◌, ◌∙◌, refl, ap, sym, Option, some, List, [], ◌∷◌, ◌++◌, ==_ne, length,
  length-append, arith,
}
use dimmon.State.{Sys, Run, ok, fault, and_then, Cmd, ◌>>=◌, pure, skip}
use dimmon.Module.{Library, module_load}
use dimmon.Sensors.Ifdata.Rows.{Without}
use dimmon.Main.{
  take_line, in_line, fgets, chomp, path_max, modul, line_kind, Position, read_line, read_modules,
}

-- A line in front of the starter.
pub data Entry : Type 0 where
  blank : Entry
  hash dashes : (text : List ℕ) → Entry
  load : (name : List ℕ) → Entry

abbrev pub line_of : Entry → List ℕ
line_of blank = []
line_of (hash text) = b'#' ∷ text
line_of (dashes text) = b'-' ∷ b'-' ∷ text
line_of (load name) = name

-- A line without a newline that fits, and a name of a module that is not taken for anything else.
abbrev pub Fits : List ℕ → Type 0
Fits l = Without b'\n' l × (length l + 1 < path_max)

abbrev pub IsEntry : Entry → Type 0
IsEntry (load name) = Fits name × (line_kind name ≡ modul)
IsEntry e = Fits (line_of e) × Unit {0}

abbrev pub AllEntries : List Entry → Type 0
AllEntries [] = Unit {0}
AllEntries (e ∷ es) = IsEntry e × AllEntries es

abbrev pub with_newline : List ℕ → List ℕ → List ℕ
with_newline l rest = l ++ (b'\n' ∷ rest)

abbrev pub entries_text : List Entry → List ℕ → List ℕ
entries_text [] rest = rest
entries_text (e ∷ es) rest = with_newline (line_of e) (entries_text es rest)

abbrev pub the_mark : List ℕ
the_mark = b'=' ∷ b'=' ∷ []

abbrev pub config_text : List Entry → List ℕ → List ℕ → List ℕ
config_text es type rest =
    entries_text es (with_newline the_mark (with_newline type (with_newline the_mark rest)))

abbrev pub names : List Entry → List (List ℕ)
names [] = []
names (load name ∷ es) = name ∷ names es
names (_ ∷ es) = names es

abbrev pub load_all : (List ℕ → Option Library) → List (List ℕ) → Cmd (Unit {0})
load_all library [] = skip
load_all library (name ∷ ns) = module_load (library name) >>= λ err. load_all library ns

take_line-newline :
    (l rest : List ℕ) (n : ℕ)
    → Without b'\n' l
    → length l < n
    → take_line n (with_newline l rest) ≡ (with_newline l [], rest)
unfolding take_line
take_line-newline l rest zero clean short = absurd (omega (arith, short))
take_line-newline [] rest (suc n) clean short = refl
take_line-newline (c ∷ l) rest (suc n) clean short =
    rw (clean.0) (ap (in_line c) (take_line-newline l rest n clean.1 (omega (arith, short))))

fgets-take_line :
    (l rest : List ℕ) (n : ℕ)
    → fgets n (with_newline l rest) ≡ some (take_line n (with_newline l rest))
unfolding fgets
fgets-take_line [] rest n = refl
fgets-take_line (c ∷ l) rest n = refl

pub fgets-newline :
    (l rest : List ℕ)
    → Fits l
    → fgets path_max (with_newline l rest) ≡ some (with_newline l [], rest)
fgets-newline l rest fits =
    fgets-take_line l rest path_max
    ∙ ap some (take_line-newline l rest path_max fits.0 (omega (arith, fits.1)))

pub chomp-newline : (l : List ℕ) → chomp (with_newline l []) ≡ l
unfolding chomp
chomp-newline [] = refl
chomp-newline (c ∷ []) = refl
chomp-newline (c ∷ d ∷ cs) = ap (◌∷◌ c) (chomp-newline (d ∷ cs))

-- Runs that agree.
and_then_agree {ℓ κ} :
    {A : Type ℓ} {B : Type κ} (r : Run A) (k k' : A → Cmd B)
    → ((a : A) (t : Sys) → k a t ≡ k' a t)
    → and_then r k ≡ and_then r k'
and_then_agree (ok a t) k k' same = same a t
and_then_agree fault k k' same = refl

and_then_assoc {ℓ κ ι} :
    {A : Type ℓ} {B : Type κ} {C : Type ι} (r : Run A) (k : A → Cmd B) (k' : B → Cmd C)
    → and_then (and_then r k) k' ≡ and_then r (λ a t. and_then (k a t) k')
and_then_assoc (ok a t) k k' = refl
and_then_assoc fault k k' = refl

module _ (library : List ℕ → Option Library) where
  read_modules-line :
      (fuel lineno : ℕ) (l rest : List ℕ) (s : Sys)
      → Fits l
      → read_modules library (suc fuel) lineno (with_newline l rest) s
        ≡ read_line library (read_modules library fuel) lineno l (line_kind l) rest s
  unfolding read_modules
  read_modules-line fuel lineno l rest s fits =
      rw
        (
          fgets-newline l rest fits,
          chomp-newline l,
          ==_ne (length (with_newline l [])) path_max
              (λ e. omega (arith, e, length-append l (b'\n' ∷ []), fits.1)),
        )
        refl

  -- What the lines in front of the mark lead to.
  abbrev pub place : ℕ → List ℕ → Option Position
  place lineno rest = some (record { lineno = lineno; rest = rest })

  abbrev pub then_place : List Entry → ℕ → List ℕ → Cmd (Option Position)
  then_place es lineno rest = load_all library (names es) >>= λ _. pure (place lineno rest)

  entry_step :
      (e : Entry) (es : List Entry) (lineno end : ℕ) (rest text : List ℕ) (s : Sys)
      (more : ℕ → List ℕ → Cmd (Option Position))
      → IsEntry e
      → ((t : Sys) → more (suc lineno) text t ≡ then_place es end rest t)
      → read_line library more lineno (line_of e) (line_kind (line_of e)) text s
        ≡ then_place (e ∷ es) end rest s
  unfolding line_kind
  entry_step blank es lineno end rest text s more is_entry ih = ih s
  entry_step (hash cs) es lineno end rest text s more is_entry ih = ih s
  entry_step (dashes cs) es lineno end rest text s more is_entry ih = ih s
  entry_step (load name) es lineno end rest text s more is_entry ih =
      ap (λ k. read_line library more lineno name k text s) is_entry.1
      ∙ and_then_agree (module_load (library name) s) (λ _. more (suc lineno) text)
          (λ _. then_place es end rest) (λ _ t. ih t)
      ∙ sym (
          and_then_assoc (module_load (library name) s) (λ _. load_all library (names es))
            (λ _. pure (place end rest)))

  entry_Fits : (e : Entry) → IsEntry e → Fits (line_of e)
  entry_Fits blank is_entry = is_entry.0
  entry_Fits (hash cs) is_entry = is_entry.0
  entry_Fits (dashes cs) is_entry = is_entry.0
  entry_Fits (load name) is_entry = is_entry.0

  -- The mark ends the loop.
  read_mark :
      (fuel lineno : ℕ) (rest : List ℕ) (s : Sys)
      → read_modules library (suc fuel) lineno (with_newline the_mark rest) s
        ≡ ok (place lineno rest) s
  unfolding line_kind
  read_mark fuel lineno rest s =
      read_modules-line fuel lineno the_mark rest s ((refl, (refl, tt)), omega arith)

  pub read_modules-entries :
      (es : List Entry) (fuel lineno : ℕ) (rest : List ℕ) (s : Sys)
      → AllEntries es
      → length es < fuel
      → read_modules library fuel lineno (entries_text es (with_newline the_mark rest)) s
        ≡ then_place es (lineno + length es) rest s
  read_modules-entries es zero lineno rest s entries enough = absurd (omega (arith, enough))
  read_modules-entries [] (suc fuel) lineno rest s entries enough =
      read_mark fuel lineno rest s
      ∙ ap (λ n. ok (place n rest) s) (let e : lineno ≡ lineno + 0 = omega arith in e)
  read_modules-entries (e ∷ es) (suc fuel) lineno rest s entries enough =
      let text : List ℕ = entries_text es (with_newline the_mark rest) in
      read_modules-line fuel lineno (line_of e) text s (entry_Fits e entries.0)
      ∙ entry_step e es lineno (lineno + length (e ∷ es)) rest text s (read_modules library fuel)
          entries.0
          (λ t.
            read_modules-entries es fuel (suc lineno) rest t entries.1 (omega (arith, enough))
            ∙ ap (λ n. then_place es n rest t)
                (let n : suc lineno + length es ≡ lineno + suc (length es) = omega arith in n))
