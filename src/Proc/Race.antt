-- ===== src/Proc/Race.antt =====
-- kernel/proc.c: `scheduler` on several CPUs, one locked section at a time. `sched_lock` is released
-- before the second test of `state`, and `p->lock` is taken only after it.
use osn_mp.Common.{
  ℕ, ◌≡◌, refl, ap, ◌∙◌, Bool, true, false, some, List, arith, ◌==◌, if◌then◌else◌, get_elem?,
  modify,
}
use osn_mp.Proc.Types.{Proc, runnable, is}
use osn_mp.Proc.Scheduler.{no_pick, scan, set_running}
use osn_mp.Proc.Scheduler.Again.{scan-pick, scan_again}

-- Where a CPU stands in the loop of `scheduler`.
pub data Place : Type 0 where
  looking : Place  -- before `acquire(&sched_lock)`
  picked : ℕ → Place  -- `sched_lock` released, `min_proc` set
  tested : ℕ → Place  -- `min_proc->state == RUNNABLE` seen
  switching : ℕ → Place  -- in `swtch` with `min_proc->lock` held
  inside : ℕ → Place  -- the process has released its lock, and runs

pub record Machine : Type 0 where
  pub table : List Proc
  pub place : ℕ → Place
  pub locked : ℕ → Bool  -- `lock.locked` of process `j`

abbrev pub update {ℓ} : {A : Type ℓ} → (ℕ → A) → ℕ → A → ℕ → A
update f i a j = if i == j then a else f j

-- One step of CPU `c`.
pub data Step (m : Machine) : Machine → Type 0 where
  pick :
      (c j : ℕ) (q : Proc)
      → m.place c ≡ looking
      → (scan 0 m.table no_pick).1.min_proc ≡ some (j, q)
      → Step m
          (record m { table = (scan 0 m.table no_pick).0; place = update m.place c (picked j) })
  pass :
      (c j : ℕ) (p : Proc)
      → m.place c ≡ picked j
      → get_elem? m.table j ≡ some p
      → is runnable p ≡ true
      → Step m (record m { place = update m.place c (tested j) })
  fail :
      (c j : ℕ) (p : Proc)
      → m.place c ≡ picked j
      → get_elem? m.table j ≡ some p
      → is runnable p ≡ false
      → Step m (record m { place = update m.place c looking })
  switch :
      (c j : ℕ)
      → m.place c ≡ tested j
      → m.locked j ≡ false
      → Step m (record {
        table = modify m.table j set_running;
        place = update m.place c (switching j);
        locked = update m.locked j true;
      })
  resume :
      (c j : ℕ)
      → m.place c ≡ switching j
      → Step m (record m { place = update m.place c (inside j); locked = update m.locked j false })

pub data Reach (s : Machine) : Machine → Type 0 where
  here : Reach s s
  next : {t u : Machine} → Reach s t → Step t u → Reach s u

abbrev pub boot : List Proc → Machine
boot ps = record { table = ps; place = λ c. looking; locked = λ j. false }

-- From any table where the loop picks a process, two CPUs can both come to run that process at once.
pub run_on_two_cpus :
    (ps : List Proc) (j : ℕ) (q : Proc)
    → (scan 0 ps no_pick).1.min_proc ≡ some (j, q)
    → (m : Machine) × Reach (boot ps) m × (m.place 0 ≡ inside j) × (m.place 1 ≡ inside j)
run_on_two_cpus ps j q h =
    let ps' = (scan 0 ps no_pick).0 in
    let (p, g, r) = scan-pick ps j q h in
    let again : (scan 0 ps' no_pick).1.min_proc ≡ some (j, q) =
      ap (λ s. s.1.min_proc) (scan_again 0 ps no_pick) ∙ h in
    let g' : get_elem? (scan 0 ps' no_pick).0 j ≡ some p =
      ap (λ s. get_elem? s.0 j) (scan_again 0 ps no_pick) ∙ g in
    (
      _,
      next
          (next
            (next
              (next
                (next
                  (next (next (next here (pick 0 j q refl h)) (pick 1 j q refl again))
                    (pass 0 j p refl g' r))
                  (pass 1 j p refl g' r))
                (switch 0 j refl refl))
              (resume 0 j refl))
            (switch 1 j refl (ground arith)))
          (resume 1 j refl),
      refl,
      refl,
    )
