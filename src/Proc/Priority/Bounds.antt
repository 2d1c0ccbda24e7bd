-- ===== src/Proc/Priority/Bounds.antt =====
-- The range of the recent behaviour index and of the dynamic priority, and where wrap-around
-- breaks it.
use osn_mp.Common.{ℕ, ◌+◌, ◌-◌, ◌*◌, ◌/◌, ◌^◌, ◌≤◌, ◌<◌, min, ◌≡◌, false, ◌&&◌, arith, ◌==◌}
use osn_mp.Proc.Priority.{max_prio, min_of, max_of, calculate_rbi, refresh}
use osn_mp.Common.Words.{add32, sub32, mul32}
use osn_mp.Proc.Types.{Proc}

-- A process that has run at least a third of the time it slept and waited, with clocks that have not overflowed.
pub record Busy (r s w : ℕ) : Type 0 where
  pub small : r + s + w < 2 ^ 30
  pub worked : s + w ≤ 3 * r
  pub begun : 0 < r

quotient_le : (r s w : ℕ) → Busy r s w → (3 * r - s - w) / (r + w + s + 1) ≤ 2
quotient_le r s w b = grind arith

pub calculate_rbi-Busy :
    (r s w : ℕ)
    → Busy r s w
    → (calculate_rbi r s w ≡ (3 * r - s - w) / (r + w + s + 1) * 50) × (calculate_rbi r s w ≤ 100)
unfolding calculate_rbi
calculate_rbi-Busy r s w b = ground (arith, quotient_le r s w b)

-- The dynamic priority that `scheduler` gives to a process that has run at least a third of the time it
-- slept and waited is the sum of its static priority, which is at most 100, and its index, at most 100.
refresh-Busy :
    (p : Proc)
    → Busy p.rtime p.stime p.wtime
    → p.static_prio ≤ max_prio
    → ((refresh p).dynamic_prio ≡ min (p.static_prio + (refresh p).rbi) max_prio)
      × ((refresh p).dynamic_prio ≤ max_prio)
      × (p.static_prio ≤ (refresh p).dynamic_prio)
unfolding refresh min_of
refresh-Busy p b h =
    let le = (calculate_rbi-Busy p.rtime p.stime p.wtime b).1 in
    (ground (arith, le), ground (arith, le), ground (arith, le))

-- A process that has slept and waited more than three times as long as it has run, over a hundred
-- ticks at least and fewer than 2 ^ 30.
pub record Lazy (r s w : ℕ) : Type 0 where
  pub small : r + s + w < 2 ^ 30
  pub slept : 3 * r < s + w
  pub long : 100 ≤ r + s + w
  pub begun : 0 < r + s

Lazy-quotient : (r s w : ℕ) → Lazy r s w → (2 ^ 32 + 3 * r - s - w) / (r + w + s + 1) ≤ 42949000
Lazy-quotient r s w b = grind (arith, b.small, b.long, b.slept)

Lazy-quotient_ge : (r s w : ℕ) → Lazy r s w → 2 ≤ (2 ^ 32 + 3 * r - s - w) / (r + w + s + 1)
Lazy-quotient_ge r s w b = grind (arith, b.small, b.long, b.slept)

-- The difference wraps at 2 ^ 32 instead of being negative, so the index of such a process is not 0
-- but positive, and the process gets the lowest priority whatever its static one.
calculate_rbi-Lazy :
    (r s w : ℕ)
    → Lazy r s w
    → (calculate_rbi r s w ≡ (2 ^ 32 + 3 * r - s - w) / (r + w + s + 1) * 50)
      × (100 ≤ calculate_rbi r s w)
      × (calculate_rbi r s w < 2 ^ 31 - 100)
unfolding calculate_rbi max_of
calculate_rbi-Lazy r s w b =
    let le = Lazy-quotient r s w b in
    let ge = Lazy-quotient_ge r s w b in
    let n : sub32 (sub32 (mul32 3 r) s) w ≡ 2 ^ 32 + 3 * r - s - w =
      omega (arith, b.small, b.slept, b.begun) in
    let d : add32 (add32 (add32 r w) s) 1 ≡ r + w + s + 1 = omega (arith, b.small) in
    let one : (r == 0 && s == 0) ≡ false = ground (arith, b.begun) in
    rw (one, n, d) (ground (arith, le, ge))

-- A process that has run or slept, has slept and waited more than three times as long as it has run, and has
-- done the three for 100 ticks or more and fewer than 2 ^ 30, gets an index of 100 or more, and the lowest
-- priority 100 whatever its static one, which is at most 100.
pub refresh-Lazy :
    (p : Proc)
    → Lazy p.rtime p.stime p.wtime
    → p.static_prio ≤ max_prio
    → ((refresh p).dynamic_prio ≡ max_prio) × (100 ≤ (refresh p).rbi)
unfolding refresh min_of
refresh-Lazy p b h =
    let (e, ge, lt) = calculate_rbi-Lazy p.rtime p.stime p.wtime b in (ground (arith, ge, lt), ge)
