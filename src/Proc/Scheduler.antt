-- ===== src/Proc/Scheduler.antt =====
-- kernel/proc.c: one round of `scheduler` on one CPU, under `sched_lock`.
pub mod Order
pub mod Scan
pub mod Select
pub mod Again
use osn_mp.Common.{
  ℕ, zero, suc, ◌+◌, ◌-◌, ◌*◌, ◌/◌, ◌%◌, ◌^◌, ◌≤◌, ◌<◌, min, ◌≡◌, refl, sym, ap, ◌∙◌, ◌≢◌, ◌↔◌, ◌⊎◌,
  inl, inr, Bool, true, false, not, ◌&&◌, ◌||◌, Option, none, some, List, [], ◌∷◌, ◌++◌, map, arith,
  ltb, leb, ◌==◌, if◌then◌else◌, points_to, ltb→lt, lt→ltb, ==_iff, Bool-cases, Option-cases,
  length, get_elem?, get_or, set, modify, map_idx, take, drop, replicate, All, length-append,
  length-set, length-modify, length-map_idx, length-replicate, get_elem?-eq-get_or, get_or-set_self,
  get_or-set_ne, get_elem?-modify_self, get_elem?-modify_ne, get_elem?-map_idx,
}
use osn_mp.Proc.Types.{Proc, runnable, running, is}
use osn_mp.Proc.Priority.{refresh, max_prio}

-- `min_priority` and `min_proc`. Of the process that `min_proc` points to the loop reads `N_RUN`
-- and `ctime`; nothing writes them meanwhile, so the pick holds the process beside its index.
pub record Pick : Type 0 where
  pub min_priority : ℕ
  pub min_proc : Option (ℕ × Proc)

abbrev pub no_pick : Pick
no_pick = record { min_priority = max_prio + 1; min_proc = none }

-- The chain of tests: its four branches all make `p` the new pick.
unfoldable pub takes : ℕ → Option (ℕ × Proc) → Proc → Bool
takes min_priority none p = true
takes min_priority (some (j, q)) p =
    ltb p.dynamic_prio min_priority
    || (p.dynamic_prio == min_priority && ltb p.n_run q.n_run)
    || (p.dynamic_prio == min_priority && p.n_run == q.n_run && ltb p.ctime q.ctime)
    || (p.dynamic_prio == min_priority && p.n_run == q.n_run && p.ctime == q.ctime)

-- `min_priority` and `min_proc` after process `i` has been looked at.
unfoldable pub choose : ℕ → Option (ℕ × Proc) → ℕ → Proc → Pick
unfolding takes
choose d m i p =
    if takes d m p
    then record { min_priority = p.dynamic_prio; min_proc = some (i, p) }
    else record { min_priority = d; min_proc = m }

-- The body of the loop at index `i`.
unfoldable pub visit : Pick → ℕ → Proc → Proc × Pick
visit k i p =
    if is runnable p then (refresh p, choose k.min_priority k.min_proc i (refresh p)) else (p, k)

unfoldable pub scan : ℕ → List Proc → Pick → List Proc × Pick
scan i [] k = ([], k)
scan i (p ∷ ps) k =
    let (p', k') = visit k i p in let (ps', out) = scan (suc i) ps k' in (p' ∷ ps', out)

abbrev pub set_running : Proc → Proc
set_running p = record p { state = running }

-- What follows the loop: the second test of the state, then the switch. The index is `c->proc`.
unfoldable pub launch_at : List Proc → ℕ → Option Proc → List Proc × Option ℕ
launch_at ps j none = (ps, none)
launch_at ps j (some q) = if is runnable q then (modify ps j set_running, some j) else (ps, none)

unfoldable pub launch : List Proc → Option (ℕ × Proc) → List Proc × Option ℕ
unfolding launch_at
launch ps none = (ps, none)
launch ps (some (j, q)) = launch_at ps j (get_elem? ps j)

unfoldable pub schedule : List Proc → List Proc × Option ℕ
unfolding launch
schedule ps = let (ps', k) = scan 0 ps no_pick in launch ps' k.min_proc
