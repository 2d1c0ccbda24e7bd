-- ===== src/Proc/Wait/Reaping.antt =====
-- How a round of `wait` ends.
use osn_mp.Common.{
  ℕ, zero, suc, ◌+◌, ◌≡◌, refl, ap, ◌∙◌, inl, inr, Bool, true, false, not, ◌&&◌, ◌||◌, Option, none,
  some, List, [], ◌∷◌, arith, ◌==◌, points_to, Bool-cases, get_elem?, get_elem?-set_self,
}
use osn_mp.Proc.Types.{Proc, zombie, is}
use osn_mp.Proc.Env.{Env, Kernel}
use osn_mp.Proc.Life.{freeproc, cleared}
use osn_mp.Proc.Wait.{reaped, asleep, find_zombie, reap, wait_found, wait_round}
use osn_mp.Proc.Life.{freeproc, cleared}
use osn_mp.Proc.Env.{Env, Kernel}

-- `p` is a zombie child of `i`.
abbrev pub IsZombieChild : ℕ → Proc → Type 0
IsZombieChild i p = (points_to p.parent i ≡ true) × (is zombie p ≡ true)

find_zombie-some :
    (i j : ℕ) (b : Bool) (ps : List Proc) (m : ℕ) (p : Proc)
    → (find_zombie i j b ps).0 ≡ some (m, p)
    → (n : ℕ) × (m ≡ j + n) × (get_elem? ps n ≡ some p) × IsZombieChild i p
unfolding find_zombie
find_zombie-some i j b [] m p h = cc
find_zombie-some i j b (x ∷ ps) m p h = elim (Bool-cases (points_to x.parent i && is zombie x)) [
  | inl e ↦ (zero, ground arith, ground arith, ground arith)
  | inr e ↦
      let (n, a, g, z) =
        find_zombie-some i (suc j) (b || points_to x.parent i) ps m p (rw e at h) in
      (suc n, omega arith, g, z)
]

find_zombie-true : (i j : ℕ) (ps : List Proc) → (find_zombie i j true ps).1 ≡ true
unfolding find_zombie
find_zombie-true i j [] = refl
find_zombie-true i j (x ∷ ps) = ground (arith, find_zombie-true i (suc j) ps)

-- Where the scan finds no zombie child, no child is a zombie, and the flag tells if there is one.
find_zombie-none :
    (i j : ℕ) (b : Bool) (ps : List Proc) (n : ℕ) (p : Proc)
    → (find_zombie i j b ps).0 ≡ none
    → get_elem? ps n ≡ some p
    → points_to p.parent i ≡ true
    → (is zombie p ≡ false) × ((find_zombie i j b ps).1 ≡ true)
unfolding find_zombie
find_zombie-none i j b [] n p h g c = cc
find_zombie-none i j true (x ∷ ps) zero p h g c = ground (arith, find_zombie-true i (suc j) ps)
find_zombie-none i j false (x ∷ ps) zero p h g c = ground (arith, find_zombie-true i (suc j) ps)
find_zombie-none i j b (x ∷ ps) (suc n) p h g c =
    elim (Bool-cases (points_to x.parent i && is zombie x)) [
      | inl e ↦ cc (rw e at h)
      | inr e ↦ rw e (find_zombie-none i (suc j) (b || points_to x.parent i) ps n p (rw e at h) g c)
    ]

module _ {Rest : Type 0} (env : Env Rest) where
  reap-reaped :
      (p : Proc) (addr j pid : ℕ) (pp : Proc) (k : Kernel Rest)
      → (reap env p addr j pp k).1 ≡ reaped pid
      → get_elem? k.table j ≡ some pp
      → (pp.pid ≡ pid) × (get_elem? (reap env p addr j pp k).0.table j ≡ some (cleared pp))
  unfolding reap freeproc
  reap-reaped p addr j pid pp k h g =
      elim (Bool-cases (not (addr == 0) && not (env.copyout p.pagetable addr pp.xstate k.rest).1)) [
        | inl e ↦ cc (rw e at h)
        | inr e ↦ (cc (rw e at h), rw e (get_elem?-set_self k.table j pp (cleared pp) g))
      ]

  wait_found-reaped :
      (i : ℕ) (p : Proc) (addr pid : ℕ) (found : Option (ℕ × Proc)) (b : Bool) (k : Kernel Rest)
      → (wait_found env i p addr found b k).1 ≡ reaped pid
      → (j : ℕ) × (pp : Proc) × (found ≡ some (j, pp))
        × ((reap env p addr j pp k).1 ≡ reaped pid)
        × (wait_found env i p addr found b k ≡ reap env p addr j pp k)
  unfolding wait_found
  wait_found-reaped i p addr pid (some (j, pp)) b k h = (j, pp, refl, h, refl)
  wait_found-reaped i p addr pid none b k h = absurd (ground arith)

  -- A round of `wait` that returns a pid has found a zombie child with it, and `freeproc` has cleared
  -- its slot.
  pub wait_round-reaped :
      (i : ℕ) (p : Proc) (addr pid : ℕ) (k : Kernel Rest)
      → (wait_round env i p addr k).1 ≡ reaped pid
      → (j : ℕ) × (pp : Proc) × (get_elem? k.table j ≡ some pp)
        × IsZombieChild i pp
        × (pp.pid ≡ pid)
        × (get_elem? (wait_round env i p addr k).0.table j ≡ some (cleared pp))
  unfolding wait_round
  wait_round-reaped i p addr pid k h =
      let (found, b) = find_zombie i 0 false k.table in
      let (j, pp, e, r, same) = wait_found-reaped i p addr pid found b k h in
      let (n, a, g, z) = find_zombie-some i 0 false k.table j pp e in
      let jn : j ≡ n = omega arith in
      let g' : get_elem? k.table j ≡ some pp = rw jn g in
      let (eq, cl) = reap-reaped p addr j pid pp k r g' in
      (j, pp, g', z, eq, ap (λ w. get_elem? w.0.table j) same ∙ cl)

  wait_found-asleep :
      (i : ℕ) (p : Proc) (addr : ℕ) (found : Option (ℕ × Proc)) (b : Bool) (k : Kernel Rest)
      → (wait_found env i p addr found b k).1 ≡ asleep
      → (found ≡ none) × (p.killed ≡ 0)
  unfolding wait_found reap
  wait_found-asleep i p addr (some (j, pp)) b k h = absurd (ground arith)
  wait_found-asleep i p addr none b k h = (refl, ground arith)

  -- A round of `wait` falls asleep only if no child of the caller is a zombie and the caller is not
  -- marked killed.
  wait_round-asleep :
      (i : ℕ) (p : Proc) (addr n : ℕ) (q : Proc) (k : Kernel Rest)
      → (wait_round env i p addr k).1 ≡ asleep
      → get_elem? k.table n ≡ some q
      → points_to q.parent i ≡ true
      → (is zombie q ≡ false) × (p.killed ≡ 0)
  unfolding wait_round
  wait_round-asleep i p addr n q k h g c =
      let (none_found, alive) =
        wait_found-asleep i p addr (find_zombie i 0 false k.table).0
          (find_zombie i 0 false k.table).1 k h in
      ((find_zombie-none i 0 false k.table n q none_found g c).0, alive)
