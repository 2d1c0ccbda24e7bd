-- ===== src/Proc/Life/Slots.antt =====
-- What `allocproc` does to the slots of the table, on each of its ways out.
use osn_mp.Common.{
  ℕ, zero, suc, ◌+◌, ◌≡◌, refl, sym, ◌∙◌, ◌≢◌, inl, inr, true, false, none, some, List, [], ◌∷◌,
  arith, ◌==◌, Bool-cases, Option-cases, get_elem?, get_elem?-set_self, get_elem?-set_ne,
}
use osn_mp.Proc.Types.{Proc, unused, used, is}
use osn_mp.Proc.Priority.{default_prio, default_rbi}
use osn_mp.Proc.Env.{Env, Kernel}
use osn_mp.Proc.Life.{
  alloc_at, alloc_found, allocproc, cleared, find_unused, initialised, junk_frame,
}
use mathlib.Core.Bool.{false≢true}

pub find_unused-some :
    (ps : List Proc) (i j : ℕ) (p : Proc)
    → find_unused ps i ≡ some (j, p)
    → (m : ℕ) × (j ≡ i + m) × (get_elem? ps m ≡ some p) × (is unused p ≡ true)
unfolding find_unused
find_unused-some [] i j p h = cc
find_unused-some (x ∷ ps) i j p h = elim (Bool-cases (is unused x)) [
  | inl e ↦ (zero, ground arith, ground arith, ground arith)
  | inr e ↦
      let (m, a, b, c) = find_unused-some ps (suc i) j p (rw e at h) in (suc m, omega arith, b, c)
]

-- A new process in its slot: made from the entry `p` that was there.
pub record IsFresh {Rest : Type 0} (k : Kernel Rest) (p q : Proc) : Type 0 where
  pub was_unused : is unused p ≡ true
  pub state : q.state ≡ used
  pub pid : q.pid ≡ k.nextpid
  pub mapped : q.pagetable ≢ 0
  pub static_prio : q.static_prio ≡ default_prio
  pub rbi : q.rbi ≡ default_rbi
  pub created : q.ctime ≡ k.ticks
  pub same_parent : q.parent ≡ p.parent
  pub same_killed : q.killed ≡ p.killed
  pub same_files : q.ofile ≡ p.ofile

not_unused :
    (ps : List Proc) (m j : ℕ) (x p : Proc)
    → m ≡ j
    → get_elem? ps m ≡ some x
    → is unused x ≡ true
    → get_elem? ps j ≡ some p
    → is unused p ≡ false
    → ⊥
not_unused ps m j x p e g u h v =
    let same : x ≡ p = cc (rw e at g) in false≢true (sym v ∙ (rw same at u))

module _ {Rest : Type 0} (env : Env Rest) where
  -- The process that `alloc_at` leaves where all goes well.
  abbrev made : Kernel Rest → Proc → ℕ → ℕ → Proc
  made k p page table = initialised env k.ticks (record p {
    pid = k.nextpid;
    state = used;
    trapframe = some (junk_frame page);
    pagetable = table;
  })

  made-IsFresh :
      (k : Kernel Rest) (p : Proc) (page table : ℕ)
      → is unused p ≡ true
      → table ≢ 0
      → IsFresh k p (made k p page table)
  unfolding initialised
  made-IsFresh k p page table u h = record {
    was_unused = u;
    state = refl;
    pid = refl;
    mapped = h;
    static_prio = refl;
    rbi = refl;
    created = refl;
    same_parent = refl;
    same_killed = refl;
    same_files = refl;
  }

  alloc_at-ne :
      (k : Kernel Rest) (i j : ℕ) (p : Proc)
      → i ≢ j
      → get_elem? (alloc_at env k i p).0.table j ≡ get_elem? k.table j
  unfolding alloc_at
  alloc_at-ne k i j p ne =
      let (rest, page) = env.kalloc k.rest in
      let (rest', table) = env.proc_pagetable page rest in
      elim (Bool-cases (page == 0)) [
        | inl e ↦ rw e (get_elem?-set_ne k.table i j _ ne)
        | inr e ↦ elim (Bool-cases (table == 0)) [
          | inl f ↦ rw (e, f) (get_elem?-set_ne k.table i j _ ne)
          | inr f ↦ rw (e, f) (get_elem?-set_ne k.table i j _ ne)
        ]
      ]

  alloc_at-some :
      (k : Kernel Rest) (i j : ℕ) (p : Proc)
      → (alloc_at env k i p).1 ≡ some j
      → get_elem? k.table i ≡ some p
      → is unused p ≡ true
      → (i ≡ j) × (q : Proc) × (get_elem? (alloc_at env k i p).0.table i ≡ some q) × IsFresh k p q
  unfolding alloc_at
  alloc_at-some k i j p h g u =
      let (rest, page) = env.kalloc k.rest in
      let (rest', table) = env.proc_pagetable page rest in
      elim (Bool-cases (page == 0)) [
        | inl e ↦ cc (rw e at h)
        | inr e ↦ elim (Bool-cases (table == 0)) [
          | inl f ↦ cc (rw (e, f) at h)
          | inr f ↦
              let same : i ≡ j = cc (rw (e, f) at h) in
              (
                same,
                made k p page table,
                rw (e, f) (get_elem?-set_self k.table i p (made k p page table) g),
                made-IsFresh k p page table u (ground arith),
              )
        ]
      ]

  alloc_at-none :
      (k : Kernel Rest) (i : ℕ) (p : Proc)
      → (alloc_at env k i p).1 ≡ none
      → get_elem? k.table i ≡ some p
      → (q : Proc) × (get_elem? (alloc_at env k i p).0.table i ≡ some q) × (is unused q ≡ true)
  unfolding alloc_at cleared
  alloc_at-none k i p h g =
      let (rest, page) = env.kalloc k.rest in
      let (rest', table) = env.proc_pagetable page rest in
      elim (Bool-cases (page == 0)) [
        | inl e ↦ (cleared p, rw e (get_elem?-set_self k.table i p (cleared p) g), refl)
        | inr e ↦ elim (Bool-cases (table == 0)) [
          | inl f ↦ (cleared p, rw (e, f) (get_elem?-set_self k.table i p (cleared p) g), refl)
          | inr f ↦ cc (rw (e, f) at h)
        ]
      ]

  pub IsFresh-at :
      (k : Kernel Rest) (i j : ℕ) (x : Proc)
      → find_unused k.table 0 ≡ some (i, x)
      → (alloc_at env k i x).1 ≡ some j
      → (q : Proc) × (i ≡ j)
        × (get_elem? k.table j ≡ some x)
        × (get_elem? (alloc_found env k (find_unused k.table 0)).0.table j ≡ some q)
        × IsFresh k x q
  unfolding alloc_found
  IsFresh-at k i j x e h =
      let (m, a, b, c) = find_unused-some k.table 0 i x e in
      let im : i ≡ m = omega arith in
      let g : get_elem? k.table i ≡ some x = rw im b in
      let (same, q, gq, f) = alloc_at-some k i j x h g c in
      (q, same, rw (← same) g, rw (e, ← same) gq, f)

  -- `allocproc` writes no slot in use, whether it succeeds or fails.
  allocproc_keeps :
      (k : Kernel Rest) (j : ℕ) (p : Proc)
      → get_elem? k.table j ≡ some p
      → is unused p ≡ false
      → get_elem? (allocproc env k).0.table j ≡ some p
  unfolding allocproc alloc_found
  allocproc_keeps k j p g u = elim (Option-cases (find_unused k.table 0)) [
    | inl e ↦ rw e g
    | inr ((i, x), e) ↦
        let (m, a, b, c) = find_unused-some k.table 0 i x e in
        let ne : i ≢ j = λ same. not_unused k.table m j x p (omega arith) b c g u in
        rw e (alloc_at-ne k i j x ne ∙ g)
  ]

  -- What `allocproc` returns is a slot that was unused and now holds a fresh process.
  pub allocproc-IsFresh :
      (k : Kernel Rest) (j : ℕ)
      → (allocproc env k).1 ≡ some j
      → (p : Proc) × (q : Proc) × (get_elem? k.table j ≡ some p)
        × (get_elem? (allocproc env k).0.table j ≡ some q)
        × IsFresh k p q
  unfolding allocproc alloc_found
  allocproc-IsFresh k j h = elim (Option-cases (find_unused k.table 0)) [
    | inl e ↦ cc (rw e at h)
    | inr ((i, x), e) ↦ let (q, _, a, b, c) = IsFresh-at k i j x e (rw e at h) in (x, q, a, b, c)
  ]
