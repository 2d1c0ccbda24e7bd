-- ===== src/Sleeplock/Exclusion.antt =====
-- The processes at a sleep lock of kernel/sleeplock.c: one holds it, and none sleeps while it is free.
use mathlib.Core.Path.{subst}
use osn_mp.Common.{
  ℕ, ◌≡◌, refl, sym, ap, ◌∙◌, inl, inr, Bool, true, false, arith, ◌==◌, if◌then◌else◌, ==_iff,
  Bool-cases,
}
use osn_mp.Sleeplock.{
  Place, away, testing, asleep, holding, System, update, acquire_round, woken, releasesleep,
  holdingsleep, initsleeplock, Step, ask, test, release, Reach, here, next, start,
}

abbrev is_away : Place → Bool
is_away away = true
is_away _ = false

abbrev is_holding : Place → Bool
is_holding holding = true
is_holding _ = false

abbrev is_asleep : Place → Bool
is_asleep asleep = true
is_asleep _ = false

-- Who holds the lock is the process in it, who sleeps does so at a locked lock, and a locked lock is held.
record IsFair (s : System) : Type 0 where
  owner : (i : ℕ) → is_holding (s.place i) ≡ true → (s.lock.locked ≡ true) × (s.lock.pid ≡ i)
  taken : (i : ℕ) → is_asleep (s.place i) ≡ true → s.lock.locked ≡ true
  owned : s.lock.locked ≡ true → s.place s.lock.pid ≡ holding

is_holding-woken : (p : Place) → is_holding (woken p) ≡ is_holding p
is_holding-woken away = refl
is_holding-woken testing = refl
is_holding-woken asleep = refl
is_holding-woken holding = refl

is_asleep-woken : (p : Place) → is_asleep (woken p) ≡ false
is_asleep-woken away = refl
is_asleep-woken testing = refl
is_asleep-woken asleep = refl
is_asleep-woken holding = refl

update_self : (f : ℕ → Place) (i : ℕ) (a : Place) → update f i a i ≡ a
update_self f i a = ground arith

update_other : (f : ℕ → Place) (i j : ℕ) (a : Place) → (i == j) ≡ false → update f i a j ≡ f j
update_other f i j a e = rw e refl

-- A process that does not hold the lock is not the one in it.
other_pid :
    (s : System) (i : ℕ)
    → IsFair s
    → is_holding (s.place i) ≡ false
    → s.lock.locked ≡ true
    → (i == s.lock.pid) ≡ false
other_pid s i h n l = elim (Bool-cases (i == s.lock.pid)) [
  | inl e ↦ absurd (ground (arith, ap is_holding (ap s.place ((==_iff _ _).0 e) ∙ h.owned l), n))
  | inr e ↦ e
]

-- A process that does not hold the lock moves to a place `a`, while the lock stays.
move-IsFair :
    (s : System) (i : ℕ) (a : Place)
    → IsFair s
    → is_holding (s.place i) ≡ false
    → is_holding a ≡ false
    → (is_asleep a ≡ true → s.lock.locked ≡ true)
    → IsFair (record s { place = update s.place i a })
move-IsFair s i a h n m z = record {
  owner = λ j e. elim (Bool-cases (i == j)) [
    | inl q ↦ absurd (ground (arith, e, q, m))
    | inr q ↦ h.owner j (sym (ap is_holding (update_other s.place i j a q)) ∙ e)
  ];
  taken = λ j e. elim (Bool-cases (i == j)) [
    | inl q ↦ z (sym (ap (λ b. is_asleep (if b then a else s.place j)) q) ∙ e)
    | inr q ↦ h.taken j (sym (ap is_asleep (update_other s.place i j a q)) ∙ e)
  ];
  owned = λ l. update_other s.place i s.lock.pid a (other_pid s i h n l) ∙ h.owned l;
}

test-IsFair : (s : System) (i : ℕ) → IsFair s → s.place i ≡ testing → IsFair (acquire_round i s)
unfolding acquire_round
test-IsFair s i h p = elim (Bool-cases s.lock.locked) [
  | inl e ↦
      let q : acquire_round i s ≡ record s { place = update s.place i asleep } = rw e refl in
      subst IsFair (sym q) (move-IsFair s i asleep h (ap is_holding p) refl (λ z. e))
  | inr e ↦
      let q : acquire_round i s
          ≡ record { lock = record { locked = true; pid = i }; place = update s.place i holding } =
        rw e refl in
      subst IsFair (sym q) (record {
        owner = λ j q. elim (Bool-cases (i == j)) [
          | inl f ↦ (refl, (==_iff _ _).0 f)
          | inr f ↦ absurd (
              ground (
                arith,
                e,
                (h.owner j (sym (ap is_holding (update_other s.place i j holding f)) ∙ q)).0,
              ))
        ];
        taken = λ j q. refl;
        owned = λ l. update_self s.place i holding;
      })
]

release-IsFair : (s : System) (i : ℕ) → IsFair s → s.place i ≡ holding → IsFair (releasesleep i s)
unfolding releasesleep
release-IsFair s i h p = record {
  owner = λ j q. elim (Bool-cases (i == j)) [
    | inl f ↦ absurd (ground (arith, q, f))
    | inr f ↦
        let g : is_holding (s.place j) ≡ true =
          sym (is_holding-woken (s.place j))
          ∙ sym (ap is_holding (update_other (λ j. woken (s.place j)) i j away f))
          ∙ q in
        absurd (ground (arith, f, sym (h.owner i (ap is_holding p)).1 ∙ (h.owner j g).1))
  ];
  taken = λ j q. elim (Bool-cases (i == j)) [
    | inl f ↦ absurd (ground (arith, q, f))
    | inr f ↦ absurd (
        ground (
          arith,
          sym (is_asleep-woken (s.place j))
              ∙ sym (ap is_asleep (update_other (λ j. woken (s.place j)) i j away f))
              ∙ q,
        ))
  ];
  owned = λ l. absurd (ground (arith, l));
}

step-IsFair : (s t : System) → IsFair s → Step s t → IsFair t
step-IsFair s t h (ask i p) =
    move-IsFair s i testing h (ap is_holding p) refl (λ z. absurd (ground (arith, z)))
step-IsFair s t h (test i p) = test-IsFair s i h p
step-IsFair s t h (release i p) = release-IsFair s i h p

Reach-IsFair : (s : System) → Reach start s → IsFair s
unfolding initsleeplock
Reach-IsFair s here = record {
  owner = λ i e. absurd (ground (arith, e));
  taken = λ i e. absurd (ground (arith, e));
  owned = λ l. absurd (ground (arith, l));
}
Reach-IsFair s (next {t} r e) = step-IsFair t s (Reach-IsFair t r) e

-- However the processes come to the lock: two that hold it are one, `holdingsleep` says so of the holder, and
-- while a process sleeps in `acquiresleep` some process holds the lock.
pub sleeplock_exclusive :
    (s : System)
    → Reach start s
    → ((i j : ℕ) → s.place i ≡ holding → s.place j ≡ holding → i ≡ j)
      × ((i : ℕ) → s.place i ≡ holding → holdingsleep i s.lock ≡ true)
      × ((i : ℕ) → s.place i ≡ asleep → s.place s.lock.pid ≡ holding)
unfolding holdingsleep
sleeplock_exclusive s r =
    let h = Reach-IsFair s r in
    (
      λ i j a b. sym (h.owner i (ap is_holding a)).1 ∙ (h.owner j (ap is_holding b)).1,
      λ i a. let (l, q) = h.owner i (ap is_holding a) in rw (l, (==_iff _ _).1 q) refl,
      λ i a. h.owned (h.taken i (ap is_asleep a)),
    )
