-- ===== src/Proc/Wait.antt =====
-- kernel/proc.c: one round of the loops of `wait` and `waitx`.
pub mod Reaping
use osn_mp.Common.{
  ℕ, zero, suc, ◌+◌, ◌-◌, ◌*◌, ◌/◌, ◌%◌, ◌^◌, ◌≤◌, ◌<◌, min, ◌≡◌, refl, sym, ap, ◌∙◌, ◌≢◌, ◌↔◌, ◌⊎◌,
  inl, inr, Bool, true, false, not, ◌&&◌, ◌||◌, Option, none, some, List, [], ◌∷◌, ◌++◌, map, arith,
  ltb, leb, ◌==◌, if◌then◌else◌, points_to, ltb→lt, lt→ltb, ==_iff, Bool-cases, Option-cases,
  length, get_elem?, get_or, set, modify, map_idx, take, drop, replicate, All, length-append,
  length-set, length-modify, length-map_idx, length-replicate, get_elem?-eq-get_or, get_or-set_self,
  get_or-set_ne, get_elem?-modify_self, get_elem?-modify_ne, get_elem?-map_idx, get_elem?-modify,
  get_elem?-set, get_elem?-set_self, get_elem?-set_ne,
}
use osn_mp.Common.Words.{sub32}
use osn_mp.Proc.Types.{Proc, zombie, is}
use osn_mp.Proc.Env.{Env, Kernel}
use osn_mp.Proc.Sleep.{fall_asleep}
use osn_mp.Proc.Life.{freeproc}

-- How a round ends: with a child's pid, with -1 (no child, killed, or `copyout` failed), or asleep on
-- the caller's own address.
pub data Round : Type 0 where
  reaped : ℕ → Round
  failed : Round
  asleep : Round

-- The scan for a zombie child of `i`, with `havekids`.
unfoldable pub find_zombie : ℕ → ℕ → Bool → List Proc → Option (ℕ × Proc) × Bool
find_zombie i j havekids [] = (none, havekids)
find_zombie i j havekids (p ∷ ps) =
    let rest = find_zombie i (suc j) (havekids || points_to p.parent i) ps in
    if points_to p.parent i && is zombie p then (some (j, p), true) else rest

module _ {Rest : Type 0} (env : Env Rest) where
  open env use {copyout, proc_addr}

  -- The branch "Found one".
  unfoldable pub reap : Proc → ℕ → ℕ → Proc → Kernel Rest → Kernel Rest × Round
  reap p addr j pp k =
      let (rest, copied) = copyout p.pagetable addr pp.xstate k.rest in
      if not (addr == 0) && not copied
      then (record k { rest = rest }, failed)
      else let (pp', rest') = freeproc env pp (if addr == 0 then k.rest else rest) in
        (record k { table = set k.table j pp'; rest = rest' }, reaped pp.pid)

  unfoldable pub wait_found :
      ℕ → Proc → ℕ → Option (ℕ × Proc) → Bool → Kernel Rest → Kernel Rest × Round
  unfolding reap
  wait_found i p addr (some (j, pp)) havekids k = reap p addr j pp k
  wait_found i p addr none havekids k =
      if not havekids || not (p.killed == 0)
      then (k, failed)
      else (record k { table = modify k.table i (fall_asleep (proc_addr i)) }, asleep)

  -- Process `i`, with the entry `p`.
  unfoldable pub wait_round : ℕ → Proc → ℕ → Kernel Rest → Kernel Rest × Round
  unfolding wait_found
  wait_round i p addr k =
      let (found, havekids) = find_zombie i 0 false k.table in wait_found i p addr found havekids k

-- What `waitx` stores through its last two arguments.
unfoldable pub waitx_times : Proc → ℕ × ℕ
waitx_times np = (sub32 (sub32 np.etime np.ctime) np.rtime, np.rtime)

unfoldable pub times_of : Option (ℕ × Proc) → Option (ℕ × ℕ)
unfolding waitx_times
times_of none = none
times_of (some (j, np)) = some (waitx_times np)

-- `waitx` is `wait` with these two results beside it.
unfoldable pub waitx_round :
    {Rest : Type 0} → Env Rest → ℕ → Proc → ℕ → Kernel Rest → Kernel Rest × Round × Option (ℕ × ℕ)
unfolding times_of
waitx_round env i p addr k =
    let (k', r) = wait_round env i p addr k in (k', r, times_of (find_zombie i 0 false k.table).0)
