-- ===== src/Timer/Next.antt =====
-- dmm_timers_next: the time of the earliest timer.
use dimmon.Timespec.{Timespec}
