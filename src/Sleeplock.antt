-- ===== src/Sleeplock.antt =====
-- kernel/sleeplock.c: one sleep lock and the processes that use it, one section of `lk->lk` at a time. `sleep`
-- gives up `lk->lk` and falls asleep in one step, and `wakeup` is that of Proc.Sleep for this lock. A process is
-- its pid.
pub mod Exclusion
use osn_mp.Common.{
  ℕ, zero, suc, ◌+◌, ◌-◌, ◌*◌, ◌/◌, ◌%◌, ◌^◌, ◌≤◌, ◌<◌, min, ◌≡◌, refl, sym, ap, ◌∙◌, ◌≢◌, ◌↔◌, ◌⊎◌,
  inl, inr, Bool, true, false, not, ◌&&◌, ◌||◌, Option, none, some, List, [], ◌∷◌, ◌++◌, map, arith,
  ltb, leb, ◌==◌, if◌then◌else◌, points_to, ltb→lt, lt→ltb, ==_iff, Bool-cases, Option-cases,
  some_inj, of_some, length, get_elem?, get_or, set, modify, map_idx, take, drop, replicate, All,
  length-append, length-set, length-modify, length-map_idx, length-replicate, get_elem?-eq-get_or,
  get_or-set_self, get_or-set_ne, get_elem?-modify_self, get_elem?-modify_ne, get_elem?-map_idx,
  get_elem?-modify, get_elem?-set, get_elem?-set_self, get_elem?-set_ne, take-append_le,
  take-append_add, take-map, take_all, length-map, All-get,
}

pub record Sleeplock : Type 0 where
  pub locked : Bool
  pub pid : ℕ

-- Where a process stands: not concerned, before the test of the loop of `acquiresleep`, asleep in it, or behind
-- `acquiresleep`.
pub data Place : Type 0 where
  away : Place
  testing : Place
  asleep : Place
  holding : Place

pub record System : Type 0 where
  pub lock : Sleeplock
  pub place : ℕ → Place

abbrev pub update : (ℕ → Place) → ℕ → Place → ℕ → Place
update f i a j = if i == j then a else f j

unfoldable pub initsleeplock : Sleeplock
initsleeplock = record { locked = false; pid = 0 }

-- A test in the loop of `acquiresleep`, and the end of it or the `sleep`.
unfoldable pub acquire_round : ℕ → System → System
acquire_round i s =
    if s.lock.locked
    then record s { place = update s.place i asleep }
    else record { lock = record { locked = true; pid = i }; place = update s.place i holding }

-- `wakeup(lk)`: who sleeps tests again.
abbrev pub woken : Place → Place
woken asleep = testing
woken away = away
woken testing = testing
woken holding = holding

unfoldable pub releasesleep : ℕ → System → System
releasesleep i s = record {
  lock = record { locked = false; pid = 0 };
  place = update (λ j. woken (s.place j)) i away;
}

unfoldable pub holdingsleep : ℕ → Sleeplock → Bool
holdingsleep i lk = lk.locked && lk.pid == i

-- A process asks for the lock, tests it, or gives it back.
pub data Step (s : System) : System → Type 0 where
  ask : (i : ℕ) → s.place i ≡ away → Step s (record s { place = update s.place i testing })
  test : (i : ℕ) → s.place i ≡ testing → Step s (acquire_round i s)
  release : (i : ℕ) → s.place i ≡ holding → Step s (releasesleep i s)

pub data Reach (s : System) : System → Type 0 where
  here : Reach s s
  next : {t u : System} → Reach s t → Step t u → Reach s u

abbrev pub start : System
start = record { lock = initsleeplock; place = λ i. away }
