-- ===== src/Tests/Scheduling.antt =====
-- The scheduler, the clock, sleeping and `set_priority` on a small table.
use osn_mp.Common.{ℕ, ◌≤◌, ◌≡◌, refl, ◌⊎◌, true, none, some, List, [], ◌∷◌, ◌++◌, arith}
use osn_mp.Spinlock.{Lock, Cpu}
use osn_mp.Proc.Types.{runnable, Proc, is}
use osn_mp.Proc.Priority.{max_prio, calculate_rbi, min_of, max_of, refresh}
use osn_mp.Proc.Priority.Bounds.{refresh-Lazy}
use osn_mp.Proc.Scheduler.{scan, visit, choose, takes, launch, launch_at, schedule, no_pick}
use osn_mp.Proc.Scheduler.Order.{Before, StrictlyBefore}
use osn_mp.Proc.Scheduler.Select.{schedule-Before, schedule_conserves_work}
use osn_mp.Proc.Race.{Machine, Reach, boot, inside, run_on_two_cpus}
use osn_mp.Proc.SetPriority.{halts, set_priority}
use osn_mp.Proc.SetPriority.Results.{set_priority-halts}
use osn_mp.Tests.Samples.{init, shell}

-- Two runnable processes; the first has run more of its time and so comes behind the other.
abbrev slow : Proc
slow = record shell { pid = 7; rtime = 9; wtime = 0; static_prio = 60; dynamic_prio = 100 }

abbrev ready : List Proc
ready = slow ∷ shell ∷ []

ready_picked : (schedule ready).1 ≡ some 1
unfolding schedule scan visit choose takes launch launch_at refresh calculate_rbi min_of max_of
ready_picked = refl

ready_scanned : (scan 0 ready no_pick).1.min_proc ≡ some (1, refresh shell)
unfolding scan visit choose takes refresh calculate_rbi min_of max_of
ready_scanned = refl

schedule-Before_example :
    (is runnable shell ≡ true)
    × Before (refresh shell) (refresh slow)
    × ((0 ≤ 1) ⊎ StrictlyBefore (refresh shell) (refresh slow))
schedule-Before_example = schedule-Before ready 1 0 shell slow ready_picked refl refl refl

schedule_conserves_work_example : (j : ℕ) × ((schedule ready).1 ≡ some j)
schedule_conserves_work_example = schedule_conserves_work ready 0 slow refl refl

run_on_two_cpus_example :
    (m : Machine) × Reach (boot ready) m × (m.place 0 ≡ inside 1) × (m.place 1 ≡ inside 1)
run_on_two_cpus_example = run_on_two_cpus ready 1 (refresh shell) ready_scanned

abbrev sleeper : Proc
sleeper = record shell { rtime = 10; stime = 90; wtime = 40; static_prio = 0 }

refresh-Lazy_example : ((refresh sleeper).dynamic_prio ≡ max_prio) × (100 ≤ (refresh sleeper).rbi)
refresh-Lazy_example =
    refresh-Lazy sleeper
      (record { small = omega arith; slept = omega arith; long = omega arith; begun = omega arith })
      (omega arith)

abbrev cpu : Cpu
cpu = record { id = 0; noff = 0; intena = true; intr = true }

abbrev locks : ℕ → Lock
locks j = record { locked = 0; cpu = none }

-- A caller in front of the target, with a smaller dynamic priority.
abbrev busy_init : Proc
busy_init = record init { dynamic_prio = 40 }

set_priority-halts_example :
    set_priority 80 2 cpu 0 busy_init locks 0
      ((record init { dynamic_prio = 70 } ∷ []) ++ shell ∷ [])
    ≡ halts
set_priority-halts_example =
    set_priority-halts 80 2 cpu 0 busy_init locks 0 (record init { dynamic_prio = 70 } ∷ []) []
      shell (λ j. (refl, refl)) ((λ e. absurd (omega arith)), tt) refl (omega arith)
