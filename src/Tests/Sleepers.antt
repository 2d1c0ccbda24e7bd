-- ===== src/Tests/Sleepers.antt =====
-- A sleep lock with one holder and one sleeper.
use osn_mp.Common.{ℕ, ◌≡◌, refl, true}
use osn_mp.Sleeplock.{
  testing, asleep, holding, System, update, acquire_round, holdingsleep, initsleeplock, ask, test,
  Reach, here, next, start,
}
use osn_mp.Sleeplock.Exclusion.{sleeplock_exclusive}

-- Process 3 asks and holds, then process 4 asks and sleeps.
abbrev asked : System
asked = record start { place = update start.place 3 testing }

abbrev held : System
held = acquire_round 3 asked

abbrev asked_again : System
asked_again = record held { place = update held.place 4 testing }

abbrev waited : System
waited = acquire_round 4 asked_again

waited-Reach : Reach start waited
unfolding acquire_round initsleeplock
waited-Reach = next (next (next (next here (ask 3 refl)) (test 3 refl)) (ask 4 refl)) (test 4 refl)

sleeplock_exclusive_example :
    ((i j : ℕ) → waited.place i ≡ holding → waited.place j ≡ holding → i ≡ j)
    × ((i : ℕ) → waited.place i ≡ holding → holdingsleep i waited.lock ≡ true)
    × ((i : ℕ) → waited.place i ≡ asleep → waited.place waited.lock.pid ≡ holding)
sleeplock_exclusive_example = sleeplock_exclusive waited waited-Reach
