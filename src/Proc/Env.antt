-- ===== src/Proc/Env.antt =====
-- What kernel/proc.c calls in other files, as an interface over a state of their own: the page
-- allocator and page tables (kalloc.c, vm.c), the file layer (file.c, fs.c, log.c).
use osn_mp.Common.{ℕ, Bool, List}
use osn_mp.Proc.Types.{Proc}

-- `Rest` is the state of the other files. A page or page table is an address, 0 for null.
pub record Env (Rest : Type 0) : Type 0 where
  pub kalloc : Rest → Rest × ℕ
  pub kfree : ℕ → Rest → Rest
  pub proc_pagetable : ℕ → Rest → Rest × ℕ
  pub proc_freepagetable : ℕ → ℕ → Rest → Rest
  pub uvmcopy : ℕ → ℕ → ℕ → Rest → Rest × Bool
  pub filedup : ℕ → Rest → Rest
  pub fileclose : ℕ → Rest → Rest
  pub idup : ℕ → Rest → Rest
  pub begin_op : Rest → Rest
  pub iput : ℕ → Rest → Rest
  pub end_op : Rest → Rest
  pub copyout : ℕ → ℕ → ℕ → Rest → Rest × Bool
  pub forkret : ℕ
  pub proc_addr : ℕ → ℕ  -- the address of `proc[i]`, as a channel

-- The globals of proc.c with `ticks`, and the rest of the kernel.
pub record Kernel (Rest : Type 0) : Type 0 where
  pub table : List Proc
  pub nextpid : ℕ
  pub initproc : ℕ
  pub ticks : ℕ
  pub rest : Rest
