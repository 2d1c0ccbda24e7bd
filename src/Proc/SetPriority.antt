-- ===== src/Proc/SetPriority.antt =====
-- kernel/proc.c: `set_priority`, with the locks that it takes, and the tests of `sched`.
pub mod Results
use osn_mp.Common.{
  ℕ, zero, suc, ◌+◌, ◌-◌, ◌*◌, ◌/◌, ◌%◌, ◌^◌, ◌≤◌, ◌<◌, min, ◌≡◌, refl, sym, ap, ◌∙◌, ◌≢◌, ◌↔◌, ◌⊎◌,
  inl, inr, Bool, true, false, not, ◌&&◌, ◌||◌, Option, none, some, List, [], ◌∷◌, ◌++◌, map, arith,
  ltb, leb, ◌==◌, if◌then◌else◌, points_to, ltb→lt, lt→ltb, ==_iff, Bool-cases, Option-cases,
  length, get_elem?, get_or, set, modify, map_idx, take, drop, replicate, All, length-append,
  length-set, length-modify, length-map_idx, length-replicate, get_elem?-eq-get_or, get_or-set_self,
  get_or-set_ne, get_elem?-modify_self, get_elem?-modify_ne, get_elem?-map_idx, get_elem?-modify,
  get_elem?-set, get_elem?-set_self, get_elem?-set_ne,
}
use osn_mp.Common.Words.{minus_one}
use osn_mp.Spinlock.{Lock, Cpu, holding, Acquired, got, spins, panics, acquire}
use osn_mp.Proc.Types.{Proc, runnable, running, is}
use osn_mp.Proc.Priority.{refresh}
use osn_mp.Proc.Sleep.{give_up}

-- What the loop leaves: the table, the index of `p`, and the two old priorities.
pub record Search : Type 0 where
  pub table : List Proc
  pub index : ℕ
  pub old_static : ℕ
  pub old_dynamic : ℕ

unfoldable pub search_from : ℕ → ℕ → ℕ → ℕ → List Proc → Search
search_from new pid i old_dynamic [] = record {
  table = [];
  index = i;
  old_static = minus_one;
  old_dynamic = old_dynamic;
}
search_from new pid i old_dynamic (p ∷ ps) =
    let rest = search_from new pid (suc i) p.dynamic_prio ps in
    if p.pid == pid
    then record {
      table = record p { static_prio = new } ∷ ps;
      index = i;
      old_static = p.static_prio;
      old_dynamic = old_dynamic;
    }
    else record rest { table = refresh p ∷ rest.table }

-- `sched`: false is one of its four panics.
unfoldable pub sched_allows : Lock → Cpu → Proc → Bool
unfolding holding
sched_allows lk c p = holding lk c && c.noff == 1 && not (is running p) && not c.intr

-- How the call goes on: it returns the old static priority, it waits for a lock, it switches to the
-- scheduler, or it panics (`halts`).
pub data Outcome : Type 0 where
  returns : List Proc → ℕ → Outcome
  waits : Outcome
  switches : List Proc → Outcome
  halts : Outcome

-- `yield`, with the lock of the caller, which is the entry `p` at index `self`.
unfoldable pub yield : Lock → Cpu → ℕ → Proc → List Proc → Outcome
unfolding sched_allows give_up
yield lk c self p ps = elim (acquire lk c) [
  | got lk' c' ↦
      if sched_allows lk' c' (give_up p) then switches (modify ps self give_up) else halts
  | spins c' ↦ waits
  | panics ↦ halts
]

-- `p->DYNAMIC_PRIO` after the loop. Where no process was found `p` points past the table, and
-- `beyond` is the word that is read there.
unfoldable pub dynamic_at : List Proc → ℕ → ℕ → ℕ
dynamic_at [] i beyond = beyond
dynamic_at (p ∷ ps) zero beyond = p.dynamic_prio
dynamic_at (p ∷ ps) (suc i) beyond = dynamic_at ps i beyond

-- `old_dyn_priority > p->DYNAMIC_PRIO` compares an `int` with a `uint`, so both are unsigned. The
-- caller is the entry `me` at index `self`; `locks` are the locks of the table.
unfoldable pub after_loop : Cpu → ℕ → Proc → (ℕ → Lock) → ℕ → Search → Outcome
unfolding dynamic_at yield
after_loop c self me locks beyond s =
    if ltb (dynamic_at s.table s.index beyond) s.old_dynamic
    then elim (acquire (locks s.index) c) [
      | got lk c' ↦ yield (if s.index == self then lk else locks self) c' self me s.table
      | spins c' ↦ waits
      | panics ↦ halts
    ]
    else returns s.table s.old_static

unfoldable pub set_priority : ℕ → ℕ → Cpu → ℕ → Proc → (ℕ → Lock) → ℕ → List Proc → Outcome
unfolding after_loop search_from
set_priority new pid c self me locks beyond ps =
    after_loop c self me locks beyond (search_from new pid 0 minus_one ps)
