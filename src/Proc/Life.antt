-- ===== src/Proc/Life.antt =====
-- kernel/proc.c: `allocpid`, `allocproc`, `freeproc` and `procinit`.
pub mod Slots
pub mod Marked
use osn_mp.Common.{
  ℕ, zero, suc, ◌+◌, ◌-◌, ◌*◌, ◌/◌, ◌%◌, ◌^◌, ◌≤◌, ◌<◌, min, ◌≡◌, refl, sym, ap, ◌∙◌, ◌≢◌, ◌↔◌, ◌⊎◌,
  inl, inr, Bool, true, false, not, ◌&&◌, ◌||◌, Option, none, some, List, [], ◌∷◌, ◌++◌, map, arith,
  ltb, leb, ◌==◌, if◌then◌else◌, points_to, ltb→lt, lt→ltb, ==_iff, Bool-cases, Option-cases,
  length, get_elem?, get_or, set, modify, map_idx, take, drop, replicate, All, length-append,
  length-set, length-modify, length-map_idx, length-replicate, get_elem?-eq-get_or, get_or-set_self,
  get_or-set_ne, get_elem?-modify_self, get_elem?-modify_ne, get_elem?-map_idx, get_elem?-modify,
}
use osn_mp.Common.Words.{add32}
use osn_mp.Proc.Types.{Proc, ProcState, Trapframe, Context, unused, used, is}
use osn_mp.Proc.Priority.{default_prio, default_rbi}
use osn_mp.Kalloc.{pgsize}
use osn_mp.Proc.Env.{Env, Kernel}

-- TRAMPOLINE and KSTACK of kernel/memlayout.h.
abbrev pub trampoline_va : ℕ
trampoline_va = 2 ^ 38 - pgsize

abbrev pub kstack_va : ℕ → ℕ
kstack_va i = trampoline_va - (i + 1) * 2 * pgsize

unfoldable pub procinit : List Proc → List Proc
procinit ps = map_idx (λ i p. record p { state = unused; kstack = kstack_va i }) 0 ps

-- A fresh page is filled with the byte 5 (`kalloc`).
abbrev pub junk : ℕ
junk = 0x0505050505050505

abbrev pub junk_frame : ℕ → Trapframe
junk_frame page = record { page = page; a0 = junk; regs = replicate 35 junk }

-- The fields that `freeproc` resets: the open files, the times and the priorities stay.
unfoldable pub cleared : Proc → Proc
cleared p = record p {
  trapframe = none;
  pagetable = 0;
  sz = 0;
  pid = 0;
  parent = none;
  name = set p.name 0 0;
  chan = 0;
  killed = 0;
  xstate = 0;
  state = unused;
}

unfoldable pub find_unused : List Proc → ℕ → Option (ℕ × Proc)
find_unused [] i = none
find_unused (p ∷ ps) i = if is unused p then some (i, p) else find_unused ps (suc i)

module _ {Rest : Type 0} (env : Env Rest) where
  open env use {kalloc, kfree, proc_pagetable, proc_freepagetable, forkret}

  unfoldable pub allocpid : Kernel Rest → Kernel Rest × ℕ
  allocpid k = (record k { nextpid = add32 k.nextpid 1 }, k.nextpid)

  unfoldable pub free_frame : Option Trapframe → Rest → Rest
  free_frame none rest = rest
  free_frame (some t) rest = kfree t.page rest

  unfoldable pub freeproc : Proc → Rest → Proc × Rest
  unfolding free_frame cleared
  freeproc p rest =
      let rest1 = free_frame p.trapframe rest in
      let rest2 = if p.pagetable == 0 then rest1 else proc_freepagetable p.pagetable p.sz rest1 in
      (cleared p, rest2)

  -- `freeproc` of process `i`, where the caller returns an error.
  unfoldable pub abandon : Kernel Rest → ℕ → Proc → Kernel Rest
  unfolding freeproc
  abandon k i p =
      let (p', rest) = freeproc p k.rest in record k { table = set k.table i p'; rest = rest }

  -- The last part of `allocproc`: the context, the times and the priorities.
  unfoldable pub initialised : ℕ → Proc → Proc
  initialised ticks p = record p {
    context = record { ra = forkret; sp = p.kstack + pgsize; saved = replicate 12 0 };
    rtime = 0;
    etime = 0;
    ctime = ticks;
    stime = 0;
    wtime = 0;
    static_prio = default_prio;
    dynamic_prio = 0;
    n_run = 0;
    rbi = default_rbi;
  }

  -- With the page table at hand, or 0.
  unfoldable pub alloc_mapped : Kernel Rest → ℕ → Proc → ℕ → Kernel Rest × Option ℕ
  unfolding abandon initialised
  alloc_mapped k i p table =
      let p' = record p { pagetable = table } in
      if table == 0
      then (abandon k i p', none)
      else (record k { table = set k.table i (initialised k.ticks p') }, some i)

  -- With the trapframe page at hand, or 0.
  unfoldable pub alloc_framed : Kernel Rest → ℕ → Proc → ℕ → Kernel Rest × Option ℕ
  unfolding abandon alloc_mapped
  alloc_framed k i p page =
      if page == 0
      then (abandon k i (record p { trapframe = none }), none)
      else let (rest, table) = proc_pagetable page k.rest in
        alloc_mapped (record k { rest = rest }) i (record p { trapframe = some (junk_frame page) })
          table

  unfoldable pub alloc_at : Kernel Rest → ℕ → Proc → Kernel Rest × Option ℕ
  unfolding allocpid alloc_framed
  alloc_at k i p =
      let (k1, pid) = allocpid k in
      let (rest, page) = kalloc k1.rest in
      alloc_framed (record k1 { rest = rest }) i (record p { pid = pid; state = used }) page

  unfoldable pub alloc_found : Kernel Rest → Option (ℕ × Proc) → Kernel Rest × Option ℕ
  unfolding alloc_at
  alloc_found k none = (k, none)
  alloc_found k (some (i, p)) = alloc_at k i p

  -- The index of the new process, or none.
  unfoldable pub allocproc : Kernel Rest → Kernel Rest × Option ℕ
  unfolding alloc_found find_unused
  allocproc k = alloc_found k (find_unused k.table 0)
