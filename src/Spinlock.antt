-- ===== src/Spinlock.antt =====
-- kernel/spinlock.c: spin locks, and the nesting of `push_off` and `pop_off`.
pub mod Pairs
use osn_mp.Common.{
  ℕ, zero, suc, ◌+◌, ◌-◌, ◌*◌, ◌/◌, ◌%◌, ◌^◌, ◌≤◌, ◌<◌, min, ◌≡◌, refl, sym, ap, ◌∙◌, ◌≢◌, ◌↔◌, ◌⊎◌,
  inl, inr, Bool, true, false, not, ◌&&◌, ◌||◌, Option, none, some, List, [], ◌∷◌, ◌++◌, map, arith,
  ltb, leb, ◌==◌, if◌then◌else◌, points_to, ltb→lt, lt→ltb, ==_iff, Bool-cases, Option-cases,
  length, get_elem?, get_or, set, modify, map_idx, take, drop, replicate, All, length-append,
  length-set, length-modify, length-map_idx, length-replicate, get_elem?-eq-get_or, get_or-set_self,
  get_or-set_ne, get_elem?-modify_self, get_elem?-modify_ne, get_elem?-map_idx, get_elem?-modify,
  get_elem?-set, get_elem?-set_self, get_elem?-set_ne,
}

-- `struct spinlock`; the CPU that holds it is named by its id.
pub record Lock : Type 0 where
  pub locked : ℕ
  pub cpu : Option ℕ

-- `struct cpu` and the interrupt enable bit of `sstatus` (`intr_get`).
pub record Cpu : Type 0 where
  pub id : ℕ
  pub noff : ℕ
  pub intena : Bool
  pub intr : Bool

unfoldable pub initlock : Lock → Lock
initlock lk = record lk { locked = 0; cpu = none }

unfoldable pub push_off : Cpu → Cpu
push_off c = record c {
  intr = false;
  intena = if c.noff == 0 then c.intr else c.intena;
  noff = c.noff + 1;
}

-- `none` is a panic.
unfoldable pub pop_off : Cpu → Option Cpu
pop_off c =
    if c.intr
    then none
    else if ltb c.noff 1
    then none
    else some (record c { noff = c.noff - 1; intr = c.noff - 1 == 0 && c.intena })

unfoldable pub holding : Lock → Cpu → Bool
holding lk c = not (lk.locked == 0) && points_to lk.cpu c.id

pub data Acquired : Type 0 where
  got : Lock → Cpu → Acquired
  spins : Cpu → Acquired  -- in the loop, the lock held by another CPU
  panics : Acquired

unfoldable pub acquire : Lock → Cpu → Acquired
unfolding push_off holding
acquire lk c =
    let c' = push_off c in
    if holding lk c'
    then panics
    else if lk.locked == 0
    then got (record { locked = 1; cpu = some c.id }) c'
    else spins c'

unfoldable pub release : Lock → Cpu → Option (Lock × Cpu)
unfolding pop_off holding
release lk c =
    if not (holding lk c)
    then none
    else elim (pop_off c) [ none ↦ none | some c' ↦ some (record { locked = 0; cpu = none }, c') ]
