-- ===== src/Tests/Samples.antt =====
-- Sample values: processes, a kernel with its other files, a page allocator.
use osn_mp.Common.{ℕ, ◌+◌, ◌*◌, true, none, some, List, [], ◌∷◌, ◌==◌, if◌then◌else◌}
use osn_mp.Proc.Types.{unused, sleeping, runnable, zombie, Proc}
use osn_mp.Proc.Env.{Env, Kernel}
use osn_mp.Kalloc.{Kmem}

abbrev pub blank : Proc
blank = record {
  state = unused;
  chan = 0;
  killed = 0;
  xstate = 0;
  pid = 0;
  parent = none;
  kstack = 8192;
  sz = 0;
  pagetable = 0;
  trapframe = none;
  context = record { ra = 0; sp = 0; saved = [] };
  ofile = none ∷ none ∷ [];
  cwd = none;
  name = 0 ∷ 0 ∷ [];
  rtime = 0;
  ctime = 0;
  etime = 0;
  stime = 0;
  wtime = 0;
  static_prio = 50;
  dynamic_prio = 0;
  rbi = 0;
  n_run = 0;
}

abbrev pub init : Proc
init = record blank {
  state = sleeping;
  pid = 1;
  chan = 1000;
  pagetable = 4096;
  rtime = 3;
  stime = 6;
}

abbrev pub shell : Proc
shell = record blank {
  state = runnable;
  pid = 2;
  parent = some 0;
  pagetable = 8192;
  sz = 4096;
  trapframe = some (record { page = 12288; a0 = 7; regs = 1 ∷ 2 ∷ [] });
  ofile = some 4 ∷ none ∷ [];
  cwd = some 1;
  rtime = 5;
  wtime = 2;
  ctime = 4;
  dynamic_prio = 60;
}

abbrev pub ended_child : Proc
ended_child = record blank {
  state = zombie;
  pid = 3;
  parent = some 1;
  pagetable = 16384;
  xstate = 9;
}

-- The other files as one counter: each page is the next number of pages handed out.
abbrev pub env : Env ℕ
env = record {
  kalloc = λ s. (s + 1, (s + 1) * 4096);
  kfree = λ a s. s;
  proc_pagetable = λ page s. (s + 1, (s + 1) * 4096);
  proc_freepagetable = λ table sz s. s;
  uvmcopy = λ from to sz s. (s, true);
  filedup = λ f s. s + 1;
  fileclose = λ f s. s;
  idup = λ c s. s + 1;
  begin_op = λ s. s;
  iput = λ c s. s;
  end_op = λ s. s;
  copyout = λ table addr v s. (s, true);
  forkret = 64;
  proc_addr = λ i. 1000 + i;
}

abbrev pub table : List Proc
table = init ∷ shell ∷ ended_child ∷ blank ∷ []

abbrev pub kernel : Kernel ℕ
kernel = record { table = table; nextpid = 4; initproc = 0; ticks = 20; rest = 10 }

-- A kernel that ends at the second page, with two free pages behind it and a third in use.
abbrev pub kernel_end : ℕ
kernel_end = 8192

abbrev pub counts : ℕ → ℕ
counts n = if n == 4 then 1 else 0

abbrev pub memory : Kmem
memory = record { freelist = 8192 ∷ 12288 ∷ []; refcnt = counts; bytes = λ a. 0 }
