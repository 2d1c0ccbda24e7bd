-- ===== src/Proc/Fork.antt =====
-- kernel/proc.c: `fork`, `userinit` aside. The result is the child's pid, or none for -1.
pub mod Child
use osn_mp.Common.{
  ℕ, zero, suc, ◌+◌, ◌-◌, ◌*◌, ◌/◌, ◌%◌, ◌^◌, ◌≤◌, ◌<◌, min, ◌≡◌, refl, sym, ap, ◌∙◌, ◌≢◌, ◌↔◌, ◌⊎◌,
  inl, inr, Bool, true, false, not, ◌&&◌, ◌||◌, Option, none, some, List, [], ◌∷◌, ◌++◌, map, arith,
  ltb, leb, ◌==◌, if◌then◌else◌, points_to, ltb→lt, lt→ltb, ==_iff, Bool-cases, Option-cases,
  length, get_elem?, get_or, set, modify, map_idx, take, drop, replicate, All, length-append,
  length-set, length-modify, length-map_idx, length-replicate, get_elem?-eq-get_or, get_or-set_self,
  get_or-set_ne, get_elem?-modify_self, get_elem?-modify_ne, get_elem?-map_idx, get_elem?-modify,
  get_elem?-set, get_elem?-set_self, get_elem?-set_ne,
}
use osn_mp.Str.{safestrcpy}
use osn_mp.Proc.Types.{Proc, ProcState, Trapframe, used, runnable, is}
use osn_mp.Proc.Env.{Env, Kernel}
use osn_mp.Proc.Life.{allocproc, abandon}

-- `*(np->trapframe) = *(p->trapframe)` into the child's page, then `a0 = 0`.
unfoldable pub child_frame : Option Trapframe → Option Trapframe → Option Trapframe
child_frame (some own) (some t) = some (record { page = own.page; a0 = 0; regs = t.regs })
child_frame none t = none
child_frame own none = own

module _ {Rest : Type 0} (env : Env Rest) where
  open env use {uvmcopy, filedup, idup}

  -- The loop over the open files of the parent; a null entry leaves that of the child.
  unfoldable pub dup_files : List (Option ℕ) → List (Option ℕ) → Rest → List (Option ℕ) × Rest
  dup_files [] own rest = (own, rest)
  dup_files (f ∷ fs) [] rest = ([], rest)
  dup_files (none ∷ fs) (o ∷ own) rest =
      let (own', rest') = dup_files fs own rest in (o ∷ own', rest')
  dup_files (some f ∷ fs) (o ∷ own) rest =
      let (own', rest') = dup_files fs own (filedup f rest) in (some f ∷ own', rest')

  unfoldable pub dup_cwd : Option ℕ → Rest → Rest
  dup_cwd none rest = rest
  dup_cwd (some c) rest = idup c rest

  -- The child when `fork` is done with it; `i` is the index of the parent.
  unfoldable pub child : ℕ → Proc → Proc → List (Option ℕ) → Proc
  unfolding child_frame safestrcpy
  child i p np files = record np {
    sz = p.sz;
    trapframe = child_frame np.trapframe p.trapframe;
    ofile = files;
    cwd = p.cwd;
    name = safestrcpy np.name p.name 16;
    parent = some i;
    state = runnable;
  }

  -- From the copying of the user's memory on.
  unfoldable pub fork_copy : ℕ → Proc → ℕ → Proc → Kernel Rest → Kernel Rest × Option ℕ
  unfolding child dup_files dup_cwd
  fork_copy i p j np k =
      let (rest, copied) = uvmcopy p.pagetable np.pagetable p.sz k.rest in
      if not copied
      then (abandon env (record k { rest = rest }) j np, none)
      else let (files, rest') = dup_files p.ofile np.ofile rest in
        (
          record k { table = set k.table j (child i p np files); rest = dup_cwd p.cwd rest' },
          some np.pid,
        )

  unfoldable pub fork_at : ℕ → Proc → ℕ → Option Proc → Kernel Rest → Kernel Rest × Option ℕ
  unfolding fork_copy
  fork_at i p j none k = (k, none)
  fork_at i p j (some np) k = fork_copy i p j np k

  unfoldable pub fork_into : ℕ → Proc → Option ℕ → Kernel Rest → Kernel Rest × Option ℕ
  unfolding fork_at
  fork_into i p none k = (k, none)
  fork_into i p (some j) k = fork_at i p j (get_elem? k.table j) k

  unfoldable pub fork : ℕ → Proc → Kernel Rest → Kernel Rest × Option ℕ
  unfolding fork_into
  fork i p k = let (k', new) = allocproc env k in fork_into i p new k'
