-- ===== src/Pipe.antt =====
-- kernel/pipe.c. Each function runs with `pi->lock` held; where it sleeps the lock is given up, so one
-- definition here is the code up to the next sleep or return.
pub mod Contents
pub mod Fifo
use osn_mp.Common.{
  ℕ, zero, suc, ◌+◌, ◌-◌, ◌*◌, ◌/◌, ◌%◌, ◌^◌, ◌≤◌, ◌<◌, min, ◌≡◌, refl, sym, ap, ◌∙◌, ◌≢◌, ◌↔◌, ◌⊎◌,
  inl, inr, Bool, true, false, not, ◌&&◌, ◌||◌, Option, none, some, List, [], ◌∷◌, ◌++◌, map, arith,
  ltb, leb, ◌==◌, if◌then◌else◌, points_to, ltb→lt, lt→ltb, ==_iff, Bool-cases, Option-cases,
  some_inj, of_some, length, get_elem?, get_or, set, modify, map_idx, take, drop, replicate, All,
  length-append, length-set, length-modify, length-map_idx, length-replicate, get_elem?-eq-get_or,
  get_or-set_self, get_or-set_ne, get_elem?-modify_self, get_elem?-modify_ne, get_elem?-map_idx,
  get_elem?-modify, get_elem?-set, get_elem?-set_self, get_elem?-set_ne,
}
use osn_mp.Common.Words.{add32}

abbrev pub pipesize : ℕ
pipesize = 512

-- `struct pipe`; `nread` and `nwrite` are `uint`.
pub record Pipe : Type 0 where
  pub buf : List ℕ
  pub nread : ℕ
  pub nwrite : ℕ
  pub readopen : Bool
  pub writeopen : Bool

-- The page from `kalloc`, made a pipe by `pipealloc`.
unfoldable pub pipe_init : Pipe → Pipe
pipe_init pi = record pi { readopen = true; writeopen = true; nwrite = 0; nread = 0 }

-- With true if the page is freed.
unfoldable pub pipeclose : Pipe → Bool → Pipe × Bool
pipeclose pi writable =
    let pi' =
      if writable then record pi { writeopen = false } else record pi { readopen = false } in
    (pi', not pi'.readopen && not pi'.writeopen)

-- How the call goes on: it returns a count, it returns -1, or it sleeps with `i` bytes moved so far.
pub data Outcome : Type 0 where
  returns : ℕ → Outcome
  fails : Outcome
  sleeps : ℕ → Outcome

unfoldable pub is_full : Pipe → Bool
is_full pi = pi.nwrite == add32 pi.nread pipesize

-- `pi->data[pi->nwrite++ % PIPESIZE] = ch`
unfoldable pub put : ℕ → Pipe → Pipe
put ch pi = record pi { buf = set pi.buf (pi.nwrite % pipesize) ch; nwrite = add32 pi.nwrite 1 }

-- The loop of `pipewrite` at `i`; the list holds what `copyin` gets of the bytes left, none where it
-- fails.
unfoldable pub pipewrite_from : Bool → ℕ → List (Option ℕ) → Pipe → Pipe × Outcome
unfolding is_full put
pipewrite_from killed i [] pi = (pi, returns i)
pipewrite_from killed i (none ∷ cs) pi =
    if not pi.readopen || killed
    then (pi, fails)
    else if is_full pi
    then (pi, sleeps i)
    else (pi, returns i)
pipewrite_from killed i (some ch ∷ cs) pi =
    let rest = pipewrite_from killed (i + 1) cs (put ch pi) in
    if not pi.readopen || killed then (pi, fails) else if is_full pi then (pi, sleeps i) else rest

unfoldable pub pipewrite : Bool → List (Option ℕ) → Pipe → Pipe × Outcome
unfolding pipewrite_from
pipewrite killed src pi = pipewrite_from killed 0 src pi

-- `pi->nread++`
unfoldable pub advance : Pipe → Pipe
advance pi = record pi { nread = add32 pi.nread 1 }

-- The copying loop of `piperead`, with `n` rounds at most to go; the list tells which `copyout` succeeds.
-- The bytes that reach the user come beside the pipe.
unfoldable pub copy_from : List Bool → Pipe → Pipe × List ℕ
unfolding advance
copy_from [] pi = (pi, [])
copy_from (false ∷ oks) pi = if pi.nread == pi.nwrite then (pi, []) else (advance pi, [])
copy_from (true ∷ oks) pi =
    let rest = copy_from oks (advance pi) in
    let ch = get_or pi.buf (pi.nread % pipesize) 0 in
    if pi.nread == pi.nwrite then (pi, []) else (rest.0, ch ∷ rest.1)

-- The loop that waits for data is left if there is some, or if no writer is left.
unfoldable pub piperead : Bool → List Bool → Pipe → Pipe × List ℕ × Outcome
unfolding copy_from
piperead killed oks pi =
    if pi.nread == pi.nwrite && pi.writeopen
    then (pi, [], if killed then fails else sleeps 0)
    else let (pi', out) = copy_from oks pi in (pi', out, returns (length out))
