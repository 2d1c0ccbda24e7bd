-- ===== src/Proc/Types.antt =====
-- kernel/proc.h: `enum procstate` and the fields of `struct proc`.
use osn_mp.Common.{ℕ, Bool, Option, List, ◌==◌}

pub data ProcState : Type 0 where
  unused used sleeping runnable running zombie : ProcState

-- The value of the enumerator.
abbrev pub state_code : ProcState → ℕ
state_code unused = 0
state_code used = 1
state_code sleeping = 2
state_code runnable = 3
state_code running = 4
state_code zombie = 5

abbrev pub in_state : ProcState → ProcState → Bool
in_state s t = state_code s == state_code t

-- `a0` and the other saved registers of the user, in a page of its own.
pub record Trapframe : Type 0 where
  pub page : ℕ
  pub a0 : ℕ
  pub regs : List ℕ

-- `struct context`: `ra`, `sp` and the callee-saved registers.
pub record Context : Type 0 where
  pub ra : ℕ
  pub sp : ℕ
  pub saved : List ℕ

-- An entry of the table. A process is named by its index there, `chan` and `pagetable` are
-- addresses with 0 for null. The lock is in Spinlock.antt.
pub record Proc : Type 0 where
  pub state : ProcState
  pub chan : ℕ
  pub killed : ℕ
  pub xstate : ℕ
  pub pid : ℕ
  pub parent : Option ℕ
  pub kstack : ℕ
  pub sz : ℕ
  pub pagetable : ℕ
  pub trapframe : Option Trapframe
  pub context : Context
  pub ofile : List (Option ℕ)
  pub cwd : Option ℕ
  pub name : List ℕ
  pub rtime : ℕ
  pub ctime : ℕ
  pub etime : ℕ
  pub stime : ℕ
  pub wtime : ℕ
  pub static_prio : ℕ
  pub dynamic_prio : ℕ
  pub rbi : ℕ
  pub n_run : ℕ

abbrev pub is : ProcState → Proc → Bool
is s p = in_state p.state s
