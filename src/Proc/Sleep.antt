-- ===== src/Proc/Sleep.antt =====
-- kernel/proc.c: sleeping and waking, `kill`, `setkilled`, `killed`, and the clock's `update_time`.
pub mod Wakeups
use osn_mp.Common.{
  ℕ, zero, suc, ◌+◌, ◌-◌, ◌*◌, ◌/◌, ◌%◌, ◌^◌, ◌≤◌, ◌<◌, min, ◌≡◌, refl, sym, ap, ◌∙◌, ◌≢◌, ◌↔◌, ◌⊎◌,
  inl, inr, Bool, true, false, not, ◌&&◌, ◌||◌, Option, none, some, List, [], ◌∷◌, ◌++◌, map, arith,
  ltb, leb, ◌==◌, if◌then◌else◌, points_to, ltb→lt, lt→ltb, ==_iff, Bool-cases, Option-cases,
  length, get_elem?, get_or, set, modify, map_idx, take, drop, replicate, All, length-append,
  length-set, length-modify, length-map_idx, length-replicate, get_elem?-eq-get_or, get_or-set_self,
  get_or-set_ne, get_elem?-modify_self, get_elem?-modify_ne, get_elem?-map_idx, get_elem?-modify,
}
use osn_mp.Common.Words.{add32}
use osn_mp.Proc.Types.{Proc, runnable, running, sleeping, is}

-- The body of the loop of `wakeup` at index `i`; `self` is `myproc()`, null outside a process.
unfoldable pub wake_one : Option ℕ → ℕ → ℕ → Proc → Proc
wake_one self chan i p =
    if not (points_to self i) && is sleeping p && p.chan == chan
    then record p { state = runnable }
    else p

unfoldable pub wakeup : Option ℕ → ℕ → List Proc → List Proc
wakeup self chan ps = map_idx (wake_one self chan) 0 ps

-- `sleep` up to its call of `sched`, and from the return of `sched` on.
unfoldable pub fall_asleep : ℕ → Proc → Proc
fall_asleep chan p = record p { chan = chan; state = sleeping }

unfoldable pub tidy_up : Proc → Proc
tidy_up p = record p { chan = 0 }

-- What `yield` does before `sched`.
unfoldable pub give_up : Proc → Proc
give_up p = record p { state = runnable }

unfoldable pub kill_one : Proc → Proc
kill_one p =
    let q = record p { killed = 1 } in if is sleeping p then record q { state = runnable } else q

-- The result is true for 0 and false for -1.
unfoldable pub kill : ℕ → List Proc → List Proc × Bool
unfolding kill_one
kill pid [] = ([], false)
kill pid (p ∷ ps) =
    let (ps', found) = kill pid ps in
    if p.pid == pid then (kill_one p ∷ ps, true) else (p ∷ ps', found)

unfoldable pub setkilled : ℕ → List Proc → List Proc
setkilled i ps = modify ps i (λ p. record p { killed = 1 })

unfoldable pub killed : ℕ → List Proc → ℕ
killed i ps = go (get_elem? ps i)
  where
    go : Option Proc → ℕ
    go none = 0
    go (some p) = p.killed

-- `update_time`, called once a clock tick. The counters are `uint`.
unfoldable pub tick : Proc → Proc
tick p =
    if is running p
    then record p { rtime = add32 p.rtime 1 }
    else if is sleeping p
    then record p { stime = add32 p.stime 1 }
    else if is runnable p
    then record p { wtime = add32 p.wtime 1 }
    else p

unfoldable pub update_time : List Proc → List Proc
update_time ps = map tick ps

-- kernel/trap.c, `clockintr`: `tick_chan` is `&ticks`.
unfoldable pub clockintr : Option ℕ → ℕ → ℕ × List Proc → ℕ × List Proc
clockintr self tick_chan (ticks, ps) = (add32 ticks 1, wakeup self tick_chan (update_time ps))
