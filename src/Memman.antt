-- ===== src/Memman.antt =====
-- dmm_memman.h: reference counts. `none` is a failed assertion.
use dimmon.Prelude.{ℕ, ◌+◌, ◌-◌, Bool, Option, none, some, ltb, ◌==◌, if◌then◌else◌}
use dimmon.State.{u32_mod}

abbrev pub dmm_refnum_max : ℕ
dmm_refnum_max = u32_mod - 1

unfoldable pub refacquire : ℕ → Option ℕ
refacquire refs = if ltb refs dmm_refnum_max then some (refs + 1) else none

-- The count that is left, and whether it was the last reference.
unfoldable pub refrelease : ℕ → Option (ℕ × Bool)
refrelease refs = if ltb 0 refs then some (refs - 1, refs - 1 == 0) else none
