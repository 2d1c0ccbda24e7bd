-- ===== src/Proc/Exit.antt =====
-- kernel/proc.c: `reparent` and `exit`, up to the call of `sched`.
pub mod Orphans
use osn_mp.Common.{
  ℕ, zero, suc, ◌+◌, ◌-◌, ◌*◌, ◌/◌, ◌%◌, ◌^◌, ◌≤◌, ◌<◌, min, ◌≡◌, refl, sym, ap, ◌∙◌, ◌≢◌, ◌↔◌, ◌⊎◌,
  inl, inr, Bool, true, false, not, ◌&&◌, ◌||◌, Option, none, some, List, [], ◌∷◌, ◌++◌, map, arith,
  ltb, leb, ◌==◌, if◌then◌else◌, points_to, ltb→lt, lt→ltb, ==_iff, Bool-cases, Option-cases,
  length, get_elem?, get_or, set, modify, map_idx, take, drop, replicate, All, length-append,
  length-set, length-modify, length-map_idx, length-replicate, get_elem?-eq-get_or, get_or-set_self,
  get_or-set_ne, get_elem?-modify_self, get_elem?-modify_ne, get_elem?-map_idx, get_elem?-modify,
  get_elem?-set, get_elem?-set_self, get_elem?-set_ne,
}
use osn_mp.Proc.Types.{Proc, zombie, is}
use osn_mp.Proc.Env.{Env, Kernel}
use osn_mp.Proc.Sleep.{wakeup}

-- The assignments of `exit` to the fields of the process itself, and of `reparent` to a child.
unfoldable pub ended : ℕ → ℕ → Proc → Proc
ended status ticks p = record p { xstate = status; state = zombie; etime = ticks }

abbrev pub with_files : List (Option ℕ) → Proc → Proc
with_files files q = record q { ofile = files; cwd = none }

abbrev pub adopt : ℕ → Proc → Proc
adopt init q = record q { parent = some init }

module _ {Rest : Type 0} (env : Env Rest) where
  open env use {fileclose, begin_op, iput, end_op, proc_addr}

  -- The body of the loop of `reparent(p)` at index `j`; `wakeup` goes through the whole table. The
  -- caller is process `i` itself.
  unfoldable pub reparent_one : ℕ → ℕ → ℕ → Option Proc → List Proc → List Proc
  reparent_one i init j none ps = ps
  reparent_one i init j (some pp) ps =
      if points_to pp.parent i
      then wakeup (some i) (proc_addr init) (modify ps j (adopt init))
      else ps

  -- The loop with `rounds` entries left from `j` on.
  unfoldable pub reparent_from : ℕ → ℕ → ℕ → ℕ → List Proc → List Proc
  reparent_from i init j zero ps = ps
  reparent_from i init j (suc rounds) ps =
      reparent_from i init (suc j) rounds (reparent_one i init j (get_elem? ps j) ps)

  unfoldable pub reparent : ℕ → ℕ → List Proc → List Proc
  unfolding reparent_from
  reparent i init ps = reparent_from i init 0 (length ps) ps

  unfoldable pub close_files : List (Option ℕ) → Rest → List (Option ℕ) × Rest
  close_files [] rest = ([], rest)
  close_files (none ∷ fs) rest = let (fs', rest') = close_files fs rest in (none ∷ fs', rest')
  close_files (some f ∷ fs) rest =
      let (fs', rest') = close_files fs (fileclose f rest) in (none ∷ fs', rest')

  unfoldable pub put_cwd : Option ℕ → Rest → Rest
  put_cwd none rest = rest
  put_cwd (some c) rest = iput c rest

  -- The channel of a parent; that of the null pointer is 0.
  unfoldable pub chan_of : Option ℕ → ℕ
  chan_of none = 0
  chan_of (some j) = proc_addr j

  -- `none` is the panic "init exiting".
  unfoldable pub exit : ℕ → Proc → ℕ → Kernel Rest → Option (Kernel Rest)
  unfolding close_files put_cwd chan_of ended
  exit i p status k =
      if i == k.initproc
      then none
      else let (files, rest) = close_files p.ofile k.rest in
        let rest' = end_op (put_cwd p.cwd (begin_op rest)) in
        let closed = modify k.table i (with_files files) in
        let given = reparent i k.initproc closed in
        let woken = wakeup (some i) (chan_of p.parent) given in
        some (record k { table = modify woken i (ended status k.ticks); rest = rest' })
