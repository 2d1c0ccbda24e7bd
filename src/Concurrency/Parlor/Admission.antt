-- ===== src/Concurrency/Parlor/Admission.antt =====
-- Which customers the parlor takes.
use osn_mp.Common.{
  ℕ, ◌+◌, ◌≡◌, refl, ◌⊎◌, inl, inr, true, false, Option, none, some, List, [], ◌∷◌, map, arith, ltb,
  Bool-cases,
}
use osn_mp.Concurrency.Parlor.{
  Machine, IceCream, some_machine, machines_fit, time_required, Verdict, no_flavor, no_time,
  no_machine, serviced, admit_times, admit_ids, admit, flavor_ids, time_at,
}

once_set : (arrival : ℕ) (ms : List Machine) (ts : List ℕ) → machines_fit true arrival ms ts ≡ true
unfolding machines_fit
once_set arrival ms [] = refl
once_set arrival ms (t ∷ ts) = once_set arrival ms ts

-- Only the first order of a customer is checked against the running times of the machines.
machines_fit-first :
    (arrival t : ℕ) (ts : List ℕ) (ms : List Machine)
    → machines_fit false arrival ms (t ∷ ts) ≡ some_machine arrival t ms
unfolding machines_fit
machines_fit-first arrival t ts ms = elim (Bool-cases (some_machine arrival t ms)) [
  | inl e ↦ rw e (once_set arrival ms ts)
  | inr e ↦ rw e refl
]

abbrev pub IsRefusal : Verdict → Type 0
IsRefusal v = (v ≡ no_flavor) ⊎ (v ≡ no_time) ⊎ (v ≡ no_machine)

-- Taken, with the machine time for it, or refused.
abbrev pub IsAccounted : ℕ → Verdict × ℕ → Type 0
IsAccounted available (v, left) =
    ((left ≡ available) × IsRefusal v)
    ⊎ ((times : List ℕ) × (v ≡ serviced times) × (left + time_required times ≡ available))

admit_times-IsAccounted :
    (arrival : ℕ) (times : List ℕ) (ms : List Machine) (available : ℕ)
    → IsAccounted available (admit_times arrival times ms available)
unfolding admit_times
admit_times-IsAccounted arrival times ms available =
    elim (Bool-cases (ltb available (time_required times))) [
      | inl e ↦ rw e (inl (refl, inr (inl refl)))
      | inr e ↦ elim (Bool-cases (machines_fit false arrival ms times)) [
        | inl f ↦ rw (e, f) (inr (times, refl, ground arith))
        | inr f ↦ rw (e, f) (inl (refl, inr (inr refl)))
      ]
    ]

admit_ids-IsAccounted :
    (arrival : ℕ) (ids : Option (List ℕ)) (flavors : List IceCream) (ms : List Machine)
    (available : ℕ)
    → IsAccounted available (admit_ids arrival ids flavors ms available)
unfolding admit_ids
admit_ids-IsAccounted arrival none flavors ms available = inl (refl, inl refl)
admit_ids-IsAccounted arrival (some is) flavors ms available =
    admit_times-IsAccounted arrival (map (time_at flavors) is) ms available

-- A customer that is taken has orders that need at most the machine time left, and exactly that time
-- is taken off it; a customer that is refused leaves it as it is.
admit-IsAccounted :
    (arrival : ℕ) (orders : List (List ℕ)) (flavors : List IceCream) (ms : List Machine)
    (available : ℕ)
    → IsAccounted available (admit arrival orders flavors ms available)
unfolding admit
admit-IsAccounted arrival orders flavors ms available =
    admit_ids-IsAccounted arrival (flavor_ids orders flavors) flavors ms available
