-- ===== src/Proc/Scheduler/Again.antt =====
-- A second scan of the table that a scan leaves.
use osn_mp.Common.{ℕ, suc, ◌≡◌, refl, inl, inr, true, some, List, [], ◌∷◌, Bool-cases, get_elem?}
use osn_mp.Proc.Types.{Proc, runnable, is}
use osn_mp.Proc.Priority.{refresh}
use osn_mp.Proc.Scheduler.{Pick, no_pick, visit, scan}
use osn_mp.Proc.Scheduler.Select.{launch-pick, scan_elem, is-refresh}

-- What a pick leaves for a second scan: the process is there, still runnable.
pub scan-pick :
    (ps : List Proc) (j : ℕ) (q : Proc)
    → (scan 0 ps no_pick).1.min_proc ≡ some (j, q)
    → (p : Proc) × (get_elem? (scan 0 ps no_pick).0 j ≡ some p) × (is runnable p ≡ true)
scan-pick ps j q h =
    let (p, g, r, e) = launch-pick ps j q h in
    (refresh p, scan_elem ps j p g r, rw (is-refresh p) r)

refresh-refresh : (p : Proc) → refresh (refresh p) ≡ refresh p
unfolding refresh
refresh-refresh p = refl

visit_again : (k : Pick) (i : ℕ) (p : Proc) → visit k i (visit k i p).0 ≡ visit k i p
unfolding visit
visit_again k i p = elim (Bool-cases (is runnable p)) [
  | inl e ↦ rw (e, is-refresh p, e, refresh-refresh p) refl
  | inr e ↦ rw (e, e) refl
]

-- A second scan changes nothing and picks the same process.
pub scan_again : (i : ℕ) (ps : List Proc) (k : Pick) → scan i (scan i ps k).0 k ≡ scan i ps k
unfolding scan
scan_again i [] k = refl
scan_again i (p ∷ ps) k = rw (visit_again k i p, scan_again (suc i) ps (visit k i p).1) refl
