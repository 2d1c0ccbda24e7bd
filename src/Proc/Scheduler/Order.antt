-- ===== src/Proc/Scheduler/Order.antt =====
-- The order in which `scheduler` prefers processes, and the tests that follow it.
use osn_mp.Common.{
  ℕ, ◌≤◌, ◌<◌, ◌≡◌, refl, ◌⊎◌, inl, inr, true, false, Option, none, some, arith, Bool-cases,
}
use osn_mp.Proc.Types.{Proc}
use osn_mp.Proc.Scheduler.{Pick, takes, choose}

-- The order by dynamic priority, then by the number of runs, then by the time of creation.
abbrev pub Before : Proc → Proc → Type 0
Before p q =
    (p.dynamic_prio < q.dynamic_prio)
    ⊎ ((p.dynamic_prio ≡ q.dynamic_prio)
        × ((p.n_run < q.n_run) ⊎ ((p.n_run ≡ q.n_run) × (p.ctime ≤ q.ctime))))

abbrev pub StrictlyBefore : Proc → Proc → Type 0
StrictlyBefore p q =
    (p.dynamic_prio < q.dynamic_prio)
    ⊎ ((p.dynamic_prio ≡ q.dynamic_prio)
        × ((p.n_run < q.n_run) ⊎ ((p.n_run ≡ q.n_run) × (p.ctime < q.ctime))))

pub Before-trans : (p q r : Proc) → Before p q → Before q r → Before p r
Before-trans p q r h k = ground arith

pub StrictlyBefore-trans : (p q r : Proc) → Before p q → StrictlyBefore q r → StrictlyBefore p r
StrictlyBefore-trans p q r h k = ground arith

abbrev pub IsConsistent : ℕ → Option (ℕ × Proc) → Type 0
IsConsistent d none = Unit
IsConsistent d (some (j, q)) = d ≡ q.dynamic_prio

-- The pick is at least as good as `p` at index `k`, and better if it stands before it.
abbrev pub Beats : Option (ℕ × Proc) → ℕ → Proc → Type 0
Beats none k p = ⊥
Beats (some (j, q)) k p = Before q p × (j < k → StrictlyBefore q p)

pub takes→Before :
    (d j : ℕ) (q p : Proc) → d ≡ q.dynamic_prio → takes d (some (j, q)) p ≡ true → Before p q
unfolding takes
takes→Before d j q p c h = ground arith

pub not_takes→StrictlyBefore :
    (d j : ℕ) (q p : Proc)
    → d ≡ q.dynamic_prio
    → takes d (some (j, q)) p ≡ false
    → StrictlyBefore q p
unfolding takes
not_takes→StrictlyBefore d j q p c h = ground arith

abbrev pub Valid : Pick → Type 0
Valid k = IsConsistent k.min_priority k.min_proc

pub choose-Valid :
    (d : ℕ) (m : Option (ℕ × Proc)) (i : ℕ) (p : Proc) → IsConsistent d m → Valid (choose d m i p)
unfolding choose
choose-Valid d m i p c = elim (Bool-cases (takes d m p)) [ inl e ↦ rw e refl | inr e ↦ rw e c ]

pub choose-Beats_self :
    (d : ℕ) (m : Option (ℕ × Proc)) (i : ℕ) (p : Proc)
    → ((j : ℕ) (q : Proc) → m ≡ some (j, q) → j < i)
    → IsConsistent d m
    → Beats (choose d m i p).min_proc i p
unfolding choose
choose-Beats_self d none i p b c = ground arith
choose-Beats_self d (some (j, q)) i p b c = elim (Bool-cases (takes d (some (j, q)) p)) [
  | inl e ↦ rw e (ground arith)
  | inr e ↦ rw e (ground (arith, not_takes→StrictlyBefore d j q p c e))
]

pub choose-Beats :
    (d : ℕ) (m : Option (ℕ × Proc)) (i : ℕ) (p : Proc) (k : ℕ) (r : Proc)
    → k < i
    → IsConsistent d m
    → Beats m k r
    → Beats (choose d m i p).min_proc k r
unfolding choose
choose-Beats d none i p k r h c b = absurd b
choose-Beats d (some (j, q)) i p k r h c b = elim (Bool-cases (takes d (some (j, q)) p)) [
  | inl e ↦ rw e (ground (arith, takes→Before d j q p c e))
  | inr e ↦ rw e b
]
