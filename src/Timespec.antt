-- ===== src/Timespec.antt =====
-- timespec.h: seconds and nanoseconds. Times are taken as not negative, as the timers use them,
-- and the seconds of a 64-bit time_t as unbounded.
use dimmon.Prelude.{
  ℕ, ◌+◌, ◌-◌, ◌*◌, ◌<◌, ◌≡◌, Bool, ◌&&◌, ◌||◌, arith, ltb, leb, ◌==◌, if◌then◌else◌,
}

pub record Timespec : Type 0 where
  pub tv_sec : ℕ
  pub tv_nsec : ℕ

abbrev pub timespec : ℕ → ℕ → Timespec
timespec s n = record { tv_sec = s; tv_nsec = n }

abbrev pub nsec_per_sec : ℕ
nsec_per_sec = 1_000_000_000

-- `a += b`, with one carry.
unfoldable pub timespec_inc : Timespec → Timespec → Timespec
timespec_inc a b =
    let nsec : ℕ = a.tv_nsec + b.tv_nsec in
    let sec : ℕ = a.tv_sec + b.tv_sec in
    if leb nsec_per_sec nsec then timespec (sec + 1) (nsec - nsec_per_sec) else timespec sec nsec

unfoldable pub timespec_iszero : Timespec → Bool
timespec_iszero a = a.tv_sec == 0 && a.tv_nsec == 0

unfoldable pub timespec_gt : Timespec → Timespec → Bool
timespec_gt a b = ltb b.tv_sec a.tv_sec || (a.tv_sec == b.tv_sec && ltb b.tv_nsec a.tv_nsec)

-- A normalised time, and the number of nanoseconds that it stands for.
abbrev pub IsNormal : Timespec → Type 0
IsNormal a = a.tv_nsec < nsec_per_sec

abbrev pub nanos : Timespec → ℕ
nanos a = a.tv_sec * nsec_per_sec + a.tv_nsec

-- Addition of normalised times keeps them normalised and adds their nanoseconds.
pub timespec_inc-nanos :
    (a b : Timespec)
    → IsNormal a
    → IsNormal b
    → IsNormal (timespec_inc a b) × (nanos (timespec_inc a b) ≡ nanos a + nanos b)
unfolding timespec_inc
timespec_inc-nanos a b na nb = ground arith

-- On normalised times the comparison is that of the nanoseconds.
pub timespec_gt-nanos :
    (a b : Timespec) → IsNormal a → IsNormal b → timespec_gt a b ≡ ltb (nanos b) (nanos a)
unfolding timespec_gt
timespec_gt-nanos a b na nb = ground arith
