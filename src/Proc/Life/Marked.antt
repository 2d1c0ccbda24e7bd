-- ===== src/Proc/Life/Marked.antt =====
-- `kill(0)` and the slots that no process uses: their pid is 0 too.
use osn_mp.Common.{
  ℕ, suc, ◌+◌, ◌≡◌, refl, ap, ◌∙◌, ◌≢◌, true, false, some, List, [], ◌∷◌, ◌++◌, arith, length,
  get_elem?, All,
}
use osn_mp.Proc.Types.{Proc, unused, sleeping, is}
use osn_mp.Proc.Env.{Env, Kernel}
use osn_mp.Proc.Sleep.{kill, kill_one}
use osn_mp.Proc.Sleep.Wakeups.{kill_first}
use osn_mp.Proc.Life.{allocproc, find_unused, alloc_found}
use osn_mp.Proc.Life.Slots.{IsFresh-at}

abbrev pub InUse : Proc → Type 0
InUse p = (p.pid ≢ 0) × (is unused p ≡ false)

kill_one-marked : (p : Proc) → is unused p ≡ true → kill_one p ≡ record p { killed = 1 }
unfolding kill_one
kill_one-marked p h = let e : is sleeping p ≡ false = ground arith in rw e refl

find_unused-append :
    (before after : List Proc) (i : ℕ) (p : Proc)
    → All InUse before
    → is unused p ≡ true
    → find_unused (before ++ p ∷ after) i ≡ some (i + length before, p)
unfolding find_unused
find_unused-append [] after i p a u = ground arith
find_unused-append (q ∷ before) after i p (h, a) u =
    rw (h.1, find_unused-append before after (suc i) p a u) (ground arith)

All-pid : (ps : List Proc) → All InUse ps → All (λ q. q.pid ≢ 0) ps
All-pid [] a = tt
All-pid (q ∷ ps) (h, a) = (h.0, All-pid ps a)

get_elem?-middle :
    (before after : List Proc) (p : Proc) → get_elem? (before ++ p ∷ after) (length before) ≡ some p
get_elem?-middle [] after p = refl
get_elem?-middle (q ∷ before) after p = get_elem?-middle before after p

-- Where the first free slot of the table has the pid 0, and every slot before it is in use with another pid,
-- `kill(0)` returns 0, sets `killed` in that slot and changes nothing else; and if `allocproc` then returns a
-- process, it is in that slot and is marked killed from the start.
pub kill_zero-allocproc :
    {Rest : Type 0} (env : Env Rest) (k : Kernel Rest) (before after : List Proc) (p : Proc)
    → k.table ≡ before ++ p ∷ after
    → All InUse before
    → p.pid ≡ 0
    → is unused p ≡ true
    → (kill 0 k.table ≡ (before ++ record p { killed = 1 } ∷ after, true))
      × ((j : ℕ)
          → (allocproc env (record k { table = (kill 0 k.table).0 })).1 ≡ some j
          → (j ≡ length before)
            × (q : Proc) × (get_elem?
                  (allocproc env (record k { table = (kill 0 k.table).0 })).0.table
                  j
                ≡ some q)
            × (q.killed ≡ 1))
unfolding allocproc alloc_found
kill_zero-allocproc env k before after p t a z u =
    let first : kill 0 k.table ≡ (before ++ record p { killed = 1 } ∷ after, true) =
      rw t (kill_first 0 before after p (All-pid before a) z)
      ∙ ap (λ q. (before ++ q ∷ after, true)) (kill_one-marked p u) in
    (
      first,
      λ j h.
          let table : (kill 0 k.table).0 ≡ before ++ record p { killed = 1 } ∷ after =
            ap (λ r. r.0) first in
          let found : find_unused (kill 0 k.table).0 0
              ≡ some (0 + length before, record p { killed = 1 }) =
            rw table (find_unused-append before after 0 (record p { killed = 1 }) a u) in
          let k' = record k { table = (kill 0 k.table).0 } in
          let (q, same, g, gq, f) =
            IsFresh-at env k' (0 + length before) j (record p { killed = 1 }) found
              (rw found at h) in
          (omega (arith, same), q, gq, f.same_killed),
    )
