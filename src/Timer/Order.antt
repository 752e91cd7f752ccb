-- ===== src/Timer/Order.antt =====
-- The trigger list of dmm_timer.c as a sorted list.
use dimmon.Prelude.{unlink, ◌≤◌, ◌≡◌, refl, true, false, List, [], ◌∷◌, arith, if◌then◌else◌, count}
use dimmon.Timespec.{Timespec, timespec_gt}
use dimmon.State.{Addr}
use dimmon.Timer.{insert_after, trigger_insert}

-- No timer stands behind one that triggers later.
abbrev pub Later : (Addr → Timespec) → Addr → List Addr → Type 0
Later next a [] = Unit {0}
Later next a (t ∷ ts) = (timespec_gt (next a) (next t) ≡ false) × Later next a ts

abbrev pub IsSorted : (Addr → Timespec) → List Addr → Type 0
IsSorted next [] = Unit {0}
IsSorted next (t ∷ ts) = Later next t ts × IsSorted next ts

-- Insertion by the textbook: before the first timer that triggers later.
unfoldable pub insert_sorted : (Addr → Timespec) → Addr → List Addr → List Addr
insert_sorted next a [] = a ∷ []
insert_sorted next a (t ∷ ts) =
    if timespec_gt (next t) (next a) then a ∷ t ∷ ts else t ∷ insert_sorted next a ts

insert_after-insert_sorted :
    (next : Addr → Timespec) (a t : Addr) (ts : List Addr)
    → insert_after next a (t ∷ ts) ≡ t ∷ insert_sorted next a ts
unfolding insert_after insert_sorted
insert_after-insert_sorted next a t [] = refl
insert_after-insert_sorted next a t (u ∷ us) =
    ground (arith, insert_after-insert_sorted next a u us)

pub trigger_insert-insert_sorted :
    (next : Addr → Timespec) (a : Addr) (ts : List Addr)
    → trigger_insert next a ts ≡ insert_sorted next a ts
unfolding trigger_insert insert_sorted
trigger_insert-insert_sorted next a [] = refl
trigger_insert-insert_sorted next a (t ∷ ts) =
    ground (arith, insert_after-insert_sorted next a t ts)

gt_total : (a b : Timespec) → timespec_gt a b ≡ true → timespec_gt b a ≡ false
unfolding timespec_gt
gt_total a b h = ground arith

gt_trans :
    (a b c : Timespec) → timespec_gt b a ≡ true → timespec_gt b c ≡ false → timespec_gt a c ≡ false
unfolding timespec_gt
gt_trans a b c h k = ground arith

Later-mono :
    (next : Addr → Timespec) (a t : Addr) (ts : List Addr)
    → timespec_gt (next t) (next a) ≡ true
    → Later next t ts
    → Later next a ts
Later-mono next a t [] h l = tt
Later-mono next a t (u ∷ us) h l =
    (gt_trans (next a) (next t) (next u) h l.0, Later-mono next a t us h l.1)

Later-insert :
    (next : Addr → Timespec) (a t : Addr) (ts : List Addr)
    → timespec_gt (next t) (next a) ≡ false
    → Later next t ts
    → Later next t (insert_sorted next a ts)
unfolding insert_sorted
Later-insert next a t [] h l = (h, tt)
Later-insert next a t (u ∷ us) h l = ground (arith, Later-insert next a t us h)

pub insert_sorted-IsSorted :
    (next : Addr → Timespec) (a : Addr) (ts : List Addr)
    → IsSorted next ts
    → IsSorted next (insert_sorted next a ts)
unfolding insert_sorted
insert_sorted-IsSorted next a [] s = (tt, tt)
insert_sorted-IsSorted next a (t ∷ ts) s = ground (
  arith,
  Later-mono next a t ts,
  gt_total (next t) (next a),
  Later-insert next a t ts,
  insert_sorted-IsSorted next a ts s.1,
)

pub count-insert_sorted :
    (next : Addr → Timespec) (a b : Addr) (ts : List Addr)
    → count b (insert_sorted next a ts) ≡ count b (a ∷ ts)
unfolding insert_sorted count
count-insert_sorted next a b [] = refl
count-insert_sorted next a b (t ∷ ts) = ground (arith, count-insert_sorted next a b ts)

Later-unlink :
    (next : Addr → Timespec) (a t : Addr) (ts : List Addr)
    → Later next t ts
    → Later next t (unlink a ts)
unfolding unlink
Later-unlink next a t [] l = tt
Later-unlink next a t (u ∷ us) l = ground (arith, Later-unlink next a t us l.1)

pub unlink-IsSorted :
    (next : Addr → Timespec) (a : Addr) (ts : List Addr)
    → IsSorted next ts
    → IsSorted next (unlink a ts)
unfolding unlink
unlink-IsSorted next a [] s = tt
unlink-IsSorted next a (t ∷ ts) s =
    ground (arith, unlink-IsSorted next a ts s.1, Later-unlink next a t ts s.0)

Later-agree :
    (f g : Addr → Timespec) (t : Addr) (ts : List Addr)
    → g t ≡ f t
    → ((b : Addr) → 1 ≤ count b ts → g b ≡ f b)
    → Later f t ts
    → Later g t ts
unfolding count
Later-agree f g t [] e h l = tt
Later-agree f g t (u ∷ us) e h l =
    (rw (e, h u (ground arith)) l.0, Later-agree f g t us e (λ b m. h b (ground arith)) l.1)

-- The order depends on the times of the listed timers only.
pub IsSorted-agree :
    (f g : Addr → Timespec) (ts : List Addr)
    → ((b : Addr) → 1 ≤ count b ts → g b ≡ f b)
    → IsSorted f ts
    → IsSorted g ts
unfolding count
IsSorted-agree f g [] h s = tt
IsSorted-agree f g (t ∷ ts) h s = (
  Later-agree f g t ts (h t (ground arith)) (λ b m. h b (ground arith)) s.0,
  IsSorted-agree f g ts (λ b m. h b (ground arith)) s.1,
)
