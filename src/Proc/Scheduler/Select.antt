-- ===== src/Proc/Scheduler/Select.antt =====
-- What a round of `scheduler` picks and what it leaves.
use osn_mp.Common.{
  ℕ, ◌+◌, ◌≤◌, ◌≡◌, refl, ap, ◌∙◌, ◌⊎◌, inl, inr, true, Option, none, some, List, arith, ◌==◌,
  if◌then◌else◌, ==_iff, Bool-cases, Option-cases, get_elem?, modify, get_elem?-modify,
}
use mathlib.Core.Option
use native.Mathlib.Decide.{dec_lt}
use native.Mathlib.Nat.{zero-add}
use osn_mp.Proc.Types.{Proc, runnable, running, is}
use osn_mp.Proc.Priority.{refresh}
use osn_mp.Proc.Scheduler.{no_pick, set_running, scan, launch, launch_at, schedule}
use osn_mp.Proc.Scheduler.Order.{Before, StrictlyBefore, Beats}
use osn_mp.Proc.Scheduler.Scan.{refreshed, scan-table, Inv-start, scan-Origin, scan-Beats_self}

-- The process that the loop has picked is in the table, still runnable.
pub launch-pick :
    (ps : List Proc) (j : ℕ) (q : Proc)
    → (scan 0 ps no_pick).1.min_proc ≡ some (j, q)
    → (p : Proc) × (get_elem? ps j ≡ some p) × (is runnable p ≡ true) × (q ≡ refresh p)
launch-pick ps j q h = elim (scan-Origin 0 ps no_pick j q h) [
  | inl bad ↦ cc
  | inr (m, p, e, g, r, f) ↦ let same : m ≡ j = omega arith in (p, rw same at g, r, f)
]

launch_at-some :
    (ps : List Proc) (i j : ℕ) (o : Option Proc) → (launch_at ps i o).1 ≡ some j → i ≡ j
unfolding launch_at
launch_at-some ps i j none h = cc
launch_at-some ps i j (some q) h = ground arith

launch-some :
    (ps : List Proc) (m : Option (ℕ × Proc)) (j : ℕ)
    → (launch ps m).1 ≡ some j
    → (q : Proc) × (m ≡ some (j, q))
unfolding launch
launch-some ps none j h = cc
launch-some ps (some (i, q)) j h =
    (q, ap (λ k. some (k, q)) (launch_at-some ps i j (get_elem? ps i) h))

-- What a picked process becomes.
abbrev pub launched : Proc → Proc
launched p = record (refresh p) { state = running }

pub is-refresh : (p : Proc) → is runnable (refresh p) ≡ is runnable p
unfolding refresh
is-refresh p = refl

pub scan_elem :
    (ps : List Proc) (j : ℕ) (p : Proc)
    → get_elem? ps j ≡ some p
    → is runnable p ≡ true
    → get_elem? (scan 0 ps no_pick).0 j ≡ some (refresh p)
scan_elem ps j p g r = scan-table 0 ps no_pick j ∙ ap (Option.map refreshed) g ∙ rw r refl

launch_at-eq :
    (ps : List Proc) (j : ℕ) (p : Proc)
    → is runnable p ≡ true
    → launch_at ps j (some (refresh p)) ≡ (modify ps j set_running, some j)
unfolding launch_at
launch_at-eq ps j p r = rw (is-refresh p, r) refl

-- With a pick, the switch is made to it.
schedule-eq :
    (ps : List Proc) (j : ℕ) (p q : Proc)
    → (scan 0 ps no_pick).1.min_proc ≡ some (j, q)
    → get_elem? ps j ≡ some p
    → is runnable p ≡ true
    → schedule ps ≡ (modify (scan 0 ps no_pick).0 j set_running, some j)
unfolding schedule launch
schedule-eq ps j p q h g r = rw (h, scan_elem ps j p g r) (launch_at-eq (scan 0 ps no_pick).0 j p r)

schedule-some :
    (ps : List Proc) (j : ℕ)
    → (schedule ps).1 ≡ some j
    → (q : Proc) × ((scan 0 ps no_pick).1.min_proc ≡ some (j, q))
unfolding schedule
schedule-some ps j h = launch-some (scan 0 ps no_pick).0 (scan 0 ps no_pick).1.min_proc j h

Beats-eq :
    (p p' c q : Proc) (j k : ℕ)
    → p' ≡ p
    → c ≡ refresh p'
    → is runnable p' ≡ true
    → Beats (some (j, c)) k (refresh q)
    → (is runnable p ≡ true)
      × Before (refresh p) (refresh q)
      × ((k ≤ j) ⊎ StrictlyBefore (refresh p) (refresh q))
Beats-eq p p' c q j k same e r b =
    let f : c ≡ refresh p = cc in
    let b' : Beats (some (j, refresh p)) k (refresh q) = rw f at b in
    (rw same at r, b'.0, elim (dec_lt j k) [ yes l ↦ inr (b'.1 l) | no l ↦ inl (omega arith) ])

-- A round picks a runnable process that no runnable process precedes in the order; of equal ones
-- the last in the table.
pub schedule-Before :
    (ps : List Proc) (j k : ℕ) (p q : Proc)
    → (schedule ps).1 ≡ some j
    → get_elem? ps j ≡ some p
    → get_elem? ps k ≡ some q
    → is runnable q ≡ true
    → (is runnable p ≡ true)
      × Before (refresh p) (refresh q)
      × ((k ≤ j) ⊎ StrictlyBefore (refresh p) (refresh q))
schedule-Before ps j k p q h gp gq r =
    let (c, picked) = schedule-some ps j h in
    let (p', g, rp, e) = launch-pick ps j c picked in
    Beats-eq p p' c q j k (cc) e rp (rw (picked, zero-add) at beats)
  where
    beats : Beats (scan 0 ps no_pick).1.min_proc (0 + k) (refresh q)
    beats = scan-Beats_self 0 ps no_pick k q Inv-start gq r

-- A round picks some process if any is runnable.
pub schedule_conserves_work :
    (ps : List Proc) (k : ℕ) (q : Proc)
    → get_elem? ps k ≡ some q
    → is runnable q ≡ true
    → (j : ℕ) × ((schedule ps).1 ≡ some j)
schedule_conserves_work ps k q g r = elim (Option-cases (scan 0 ps no_pick).1.min_proc) [
  | inl e ↦ absurd (rw e at (scan-Beats_self 0 ps no_pick k q Inv-start g r))
  | inr ((j, c), e) ↦
      let (p, gp, rp, f) = launch-pick ps j c e in (j, ap (λ r. r.1) (schedule-eq ps j p c e gp rp))
]

if_launched :
    (ps : List Proc) (j k : ℕ) (p : Proc)
    → get_elem? ps j ≡ some p
    → is runnable p ≡ true
    → (if j == k
        then Option.map set_running (Option.map refreshed (get_elem? ps k))
        else Option.map refreshed (get_elem? ps k))
      ≡ Option.map (λ p. if j == k then launched p else refreshed p) (get_elem? ps k)
if_launched ps j k p g r = elim (Bool-cases (j == k)) [
  | inl e ↦ let here : get_elem? ps k ≡ some p = rw (← (==_iff j k).0 e) g in rw (e, here, r) refl
  | inr e ↦ rw e refl
]

-- A round that picks a process makes it `RUNNING`, gives it and the other runnable processes their
-- priorities anew, and changes nothing else in the table.
schedule-table :
    (ps : List Proc) (j k : ℕ)
    → (schedule ps).1 ≡ some j
    → get_elem? (schedule ps).0 k
      ≡ Option.map (λ p. if j == k then launched p else refreshed p) (get_elem? ps k)
schedule-table ps j k h =
    let (c, picked) = schedule-some ps j h in
    let (p, g, rp, e) = launch-pick ps j c picked in
    rw (schedule-eq ps j p c picked g rp) (
      get_elem?-modify (scan 0 ps no_pick).0 j k set_running
      ∙ ap (λ (o : Option Proc). if j == k then Option.map set_running o else o)
          (scan-table 0 ps no_pick k)
      ∙ (if_launched ps j k p g rp))
