-- ===== src/Proc/Scheduler/Scan.antt =====
-- The loop of `scheduler` over the table: what it leaves and what it picks.
use osn_mp.Common.{
  ℕ, zero, suc, ◌+◌, ◌<◌, ◌≡◌, refl, ◌⊎◌, inl, inr, true, Option, some, List, [], ◌∷◌, arith,
  if◌then◌else◌, Bool-cases, get_elem?,
}
use mathlib.Core.Option
use native.Mathlib.Nat.{add-zero}
use osn_mp.Proc.Types.{Proc, runnable, is}
use osn_mp.Proc.Priority.{refresh}
use osn_mp.Proc.Scheduler.{Pick, no_pick, takes, choose, visit, scan}
use osn_mp.Proc.Scheduler.Order.{Beats, Valid, choose-Valid, choose-Beats_self, choose-Beats}

-- What the loop knows at index `i`.
pub record Inv (i : ℕ) (k : Pick) : Type 0 where
  pub valid : Valid k
  pub below : (j : ℕ) (q : Proc) → k.min_proc ≡ some (j, q) → j < i

choose-below :
    (d : ℕ) (m : Option (ℕ × Proc)) (i : ℕ) (p : Proc)
    → ((j : ℕ) (q : Proc) → m ≡ some (j, q) → j < i)
    → (j : ℕ) (q : Proc) → (choose d m i p).min_proc ≡ some (j, q)
    → j < suc i
unfolding choose
choose-below d m i p b j q h = ground (arith, b j q)

visit-Inv : (i : ℕ) (k : Pick) (p : Proc) → Inv i k → Inv (suc i) (visit k i p).1
unfolding visit
visit-Inv i k p v = elim (Bool-cases (is runnable p)) [
  | inl e ↦ rw e (record {
    valid = choose-Valid k.min_priority k.min_proc i (refresh p) v.valid;
    below = choose-below k.min_priority k.min_proc i (refresh p) v.below;
  })
  | inr e ↦ rw e (record { valid = v.valid; below = λ j q h. omega (arith, v.below j q h) })
]

visit-Beats :
    (i : ℕ) (k : Pick) (p : Proc) (j : ℕ) (r : Proc)
    → Inv i k
    → j < i
    → Beats k.min_proc j r
    → Beats (visit k i p).1.min_proc j r
unfolding visit
visit-Beats i k p j r v h b = elim (Bool-cases (is runnable p)) [
  | inl e ↦ rw e (choose-Beats k.min_priority k.min_proc i (refresh p) j r h v.valid b)
  | inr e ↦ rw e b
]

visit-Beats_self :
    (i : ℕ) (k : Pick) (p : Proc)
    → Inv i k
    → is runnable p ≡ true
    → Beats (visit k i p).1.min_proc i (refresh p)
unfolding visit
visit-Beats_self i k p v e =
    rw e (choose-Beats_self k.min_priority k.min_proc i (refresh p) v.below v.valid)

scan-Beats :
    (i : ℕ) (ps : List Proc) (k : Pick) (j : ℕ) (r : Proc)
    → Inv i k
    → j < i
    → Beats k.min_proc j r
    → Beats (scan i ps k).1.min_proc j r
unfolding scan
scan-Beats i [] k j r v h b = b
scan-Beats i (p ∷ ps) k j r v h b =
    scan-Beats (suc i) ps (visit k i p).1 j r (visit-Inv i k p v) (omega arith)
      (visit-Beats i k p j r v h b)

pub scan-Beats_self :
    (i : ℕ) (ps : List Proc) (k : Pick) (m : ℕ) (p : Proc)
    → Inv i k
    → get_elem? ps m ≡ some p
    → is runnable p ≡ true
    → Beats (scan i ps k).1.min_proc (i + m) (refresh p)
unfolding scan
scan-Beats_self i [] k m p v h r = cc
scan-Beats_self i (x ∷ ps) k zero p v h r =
    let same : x ≡ p = cc in
    rw (add-zero, ← same)
      (scan-Beats (suc i) ps (visit k i x).1 i (refresh x) (visit-Inv i k x v) (omega arith)
        (visit-Beats_self i k x v (rw same r)))
scan-Beats_self i (x ∷ ps) k (suc m) p v h r =
    let e : suc i + m ≡ i + suc m = omega arith in
    rw e at (scan-Beats_self (suc i) ps (visit k i x).1 m p (visit-Inv i k x v) h r)

-- Where the pick comes from.
abbrev Origin : ℕ → List Proc → ℕ → Proc → Type 0
Origin i ps j q =
    (m : ℕ) × (p : Proc) × (j ≡ i + m)
    × (get_elem? ps m ≡ some p)
    × (is runnable p ≡ true)
    × (q ≡ refresh p)

visit-origin :
    (i : ℕ) (k : Pick) (p : Proc) (j : ℕ) (q : Proc)
    → (visit k i p).1.min_proc ≡ some (j, q)
    → (k.min_proc ≡ some (j, q)) ⊎ ((j ≡ i) × (is runnable p ≡ true) × (q ≡ refresh p))
unfolding visit choose
visit-origin i k p j q h = elim (Bool-cases (is runnable p)) [
  | inl r ↦ elim (Bool-cases (takes k.min_priority k.min_proc (refresh p))) [
    | inl t ↦ inr (ground arith)
    | inr t ↦ inl (ground arith)
  ]
  | inr r ↦ inl (ground arith)
]

pub scan-Origin :
    (i : ℕ) (ps : List Proc) (k : Pick) (j : ℕ) (q : Proc)
    → (scan i ps k).1.min_proc ≡ some (j, q)
    → (k.min_proc ≡ some (j, q)) ⊎ Origin i ps j q
unfolding scan
scan-Origin i [] k j q h = inl h
scan-Origin i (x ∷ ps) k j q h = elim (scan-Origin (suc i) ps (visit k i x).1 j q h) [
  | inl old ↦ elim (visit-origin i k x j q old) [
    | inl older ↦ inl older
    | inr (e, r, f) ↦ inr (zero, x, omega arith, refl, r, f)
  ]
  | inr (m, p, e, g, r, f) ↦ inr (suc m, p, omega arith, g, r, f)
]

-- What the loop leaves in the table: the runnable processes with their priorities made anew.
abbrev pub refreshed : Proc → Proc
refreshed p = if is runnable p then refresh p else p

pub scan-table :
    (i : ℕ) (ps : List Proc) (k : Pick) (m : ℕ)
    → get_elem? (scan i ps k).0 m ≡ Option.map refreshed (get_elem? ps m)
unfolding scan visit
scan-table i [] k m = refl
scan-table i (x ∷ ps) k zero = ground arith
scan-table i (x ∷ ps) k (suc m) = scan-table (suc i) ps (visit k i x).1 m

pub Inv-start : Inv 0 no_pick
Inv-start = record { valid = tt; below = λ j q h. cc }
