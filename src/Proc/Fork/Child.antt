-- ===== src/Proc/Fork/Child.antt =====
-- What `fork` makes.
use osn_mp.Common.{
  ℕ, ◌≡◌, refl, sym, ◌∙◌, ◌≢◌, inl, inr, true, Option, some, List, Bool-cases, Option-cases,
  get_elem?, get_elem?-set_self,
}
use osn_mp.Proc.Types.{Proc, unused, runnable, is}
use osn_mp.Proc.Life.{allocproc}
use osn_mp.Proc.Life.Slots.{allocproc-IsFresh}
use osn_mp.Proc.Env.{Env, Kernel}
use osn_mp.Proc.Fork.{child, dup_files, fork_copy, fork_at, fork_into, fork}

-- The child `c` of process `i`, with the entry `p`, under the pid that was next.
pub record IsChild (i : ℕ) (p : Proc) (pid : ℕ) (c : Proc) : Type 0 where
  pub state : c.state ≡ runnable
  pub parent : c.parent ≡ some i
  pub sz : c.sz ≡ p.sz
  pub cwd : c.cwd ≡ p.cwd
  pub own_pid : c.pid ≡ pid
  pub own_memory : c.pagetable ≢ 0

module _ {Rest : Type 0} (env : Env Rest) (i : ℕ) (p : Proc) where
  child-IsChild :
      (np : Proc) (files : List (Option ℕ))
      → np.pagetable ≢ 0
      → IsChild i p np.pid (child env i p np files)
  unfolding child
  child-IsChild np files ne = record {
    state = refl;
    parent = refl;
    sz = refl;
    cwd = refl;
    own_pid = refl;
    own_memory = ne;
  }

  fork_copy-some :
      (j pid : ℕ) (np : Proc) (k : Kernel Rest)
      → (fork_copy env i p j np k).1 ≡ some pid
      → get_elem? k.table j ≡ some np
      → np.pagetable ≢ 0
      → (np.pid ≡ pid)
        × (c : Proc) × (get_elem? (fork_copy env i p j np k).0.table j ≡ some c)
        × IsChild i p np.pid c
  unfolding fork_copy
  fork_copy-some j pid np k h g ne =
      let (rest, copied) = env.uvmcopy p.pagetable np.pagetable p.sz k.rest in
      let (files, rest') = dup_files env p.ofile np.ofile rest in
      elim (Bool-cases copied) [
        | inl e ↦ (
          cc (rw e at h),
          child env i p np files,
          rw e (get_elem?-set_self k.table j np (child env i p np files) g),
          child-IsChild np files ne,
        )
        | inr e ↦ cc (rw e at h)
      ]

  -- A `fork` that succeeds returns the next pid, and has put a runnable child of the caller with that
  -- pid into a slot that was unused.
  pub fork-IsChild :
      (k : Kernel Rest) (pid : ℕ)
      → (fork env i p k).1 ≡ some pid
      → (pid ≡ k.nextpid)
        × (j : ℕ) × (x : Proc) × (c : Proc) × (get_elem? k.table j ≡ some x)
        × (is unused x ≡ true)
        × (get_elem? (fork env i p k).0.table j ≡ some c)
        × IsChild i p pid c
  unfolding fork fork_into fork_at
  fork-IsChild k pid h =
      let k' = (allocproc env k).0 in
      elim (Option-cases (allocproc env k).1) [
        | inl e ↦ cc (rw e at h)
        | inr (j, e) ↦
            let (x, q, gx, gq, f) = allocproc-IsFresh env k j e in
            let (same, c, gc, is_child) = fork_copy-some j pid q k' (rw (e, gq) at h) gq f.mapped in
            (sym same ∙ f.pid, j, x, c, gx, f.was_unused, rw (e, gq) gc, rw same at is_child)
      ]
