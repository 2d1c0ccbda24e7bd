-- ===== src/Proc/Priority.antt =====
-- kernel/proc.c: `calculate_RBI`, `minOf`, `maxOf`, and the dynamic priority made of them.
-- The constants are those of kernel/defs.h.
pub mod Bounds
use osn_mp.Common.{ℕ, ◌+◌, Bool, ◌&&◌, ltb, ◌==◌, if◌then◌else◌}
use osn_mp.Common.Words.{add32, sub32, mul32, div32, signed_lt}
use osn_mp.Proc.Types.{Proc}

abbrev pub max_prio : ℕ
max_prio = 100

abbrev pub default_prio : ℕ
default_prio = 50

abbrev pub default_rbi : ℕ
default_rbi = 100

unfoldable pub min_of : ℕ → ℕ → ℕ
min_of a b = if signed_lt a b then a else b

unfoldable pub max_of : ℕ → ℕ → ℕ
max_of a b = if signed_lt b a then a else b

-- The operands are `uint`, so the whole expression is unsigned; `max_of` reads it as an `int`.
unfoldable pub calculate_rbi : ℕ → ℕ → ℕ → ℕ
unfolding max_of
calculate_rbi rtime stime wtime =
    if rtime == 0 && stime == 0
    then default_rbi
    else max_of
        (mul32
          (div32 (sub32 (sub32 (mul32 3 rtime) stime) wtime)
            (add32 (add32 (add32 rtime wtime) stime) 1))
          50)
        0

-- `p->RBI = calculate_RBI(...)` and `p->DYNAMIC_PRIO = minOf(p->STATIC_PRIO + p->RBI, MAX_PRIO)`.
unfoldable pub refresh : Proc → Proc
unfolding min_of
refresh p =
    let rbi = calculate_rbi p.rtime p.stime p.wtime in
    record p { rbi = rbi; dynamic_prio = min_of (add32 p.static_prio rbi) max_prio }
