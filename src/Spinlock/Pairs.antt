-- ===== src/Spinlock/Pairs.antt =====
-- `acquire` and `release` in pairs.
use osn_mp.Common.{◌≡◌, refl, ◌≢◌, ◌⊎◌, false, none, some, arith, ◌==◌, if◌then◌else◌}
use osn_mp.Spinlock.{Lock, Cpu, push_off, pop_off, got, spins, panics, acquire, release}

-- Inside a `push_off` interrupts are off.
pub record IsValid (c : Cpu) : Type 0 where
  pub off : (c.intr ≡ false) ⊎ (c.noff ≡ 0)

-- The CPU after a pair: `intena` alone may differ.
abbrev pub restored : Cpu → Cpu
restored c = record c { intena = if c.noff == 0 then c.intr else c.intena }

abbrev pub IsFree : Lock → Type 0
IsFree lk = (lk.locked ≡ 0) × (lk.cpu ≡ none)

-- `pop_off` undoes `push_off`: the depth and the interrupt bit are as before.
pop_off-push_off : (c : Cpu) → IsValid c → pop_off (push_off c) ≡ some (restored c)
unfolding pop_off push_off
pop_off-push_off c v = ground arith

-- The lock and the CPU after `acquire` of a free lock.
abbrev pub held_by : Cpu → Lock
held_by c = record { locked = 1; cpu = some c.id }

-- A free lock is acquired at once, with interrupts off. Then a second `acquire` by the same CPU
-- panics, one by another CPU spins, and `release` gives the lock and the CPU back.
release-acquire :
    (lk : Lock) (c other : Cpu)
    → IsFree lk
    → IsValid c
    → other.id ≢ c.id
    → (acquire lk c ≡ got (held_by c) (push_off c))
      × ((push_off c).intr ≡ false)
      × (acquire (held_by c) (push_off c) ≡ panics)
      × (acquire (held_by c) other ≡ spins (push_off other))
      × (release (held_by c) (push_off c) ≡ some (lk, restored c))
unfolding acquire release
release-acquire lk c other f v ne = (ground arith, refl, ground arith, ground arith, ground arith)
