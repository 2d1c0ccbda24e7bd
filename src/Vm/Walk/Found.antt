-- ===== src/Vm/Walk/Found.antt =====
-- A walk in kernel/vm.c that makes the tables it needs, and the walk after it.
use mathlib.Core.Path.{subst}
use osn_mp.Kalloc.Valid.{Distinct}
use osn_mp.Common.{
  ℕ, zero, suc, ◌+◌, ◌≡◌, refl, sym, ap, ◌∙◌, ◌≢◌, inl, inr, true, false, some, List, ◌∷◌, ◌++◌,
  arith, leb, Bool-cases, some_inj, All,
}
use osn_mp.Kalloc.{kalloc}
use osn_mp.Vm.Walk.{maxva, walk, Memory, pte_v, pte2pa, pa2pte, link, entry_at, walk_from}
use osn_mp.Vm.Walk.Pages.{
  pte2pa-pa2pte, pte_v-pa2pte, entry-Outside, tables, px_bound, IsAligned, Outside, entry-All,
}
use osn_mp.Vm.Walk.Rounds.{
  again, valid_round, empty_round, tables-valid, tables-empty, tables-new, link-entry, link-other,
  Outside-in, kalloc_first-inv, grow-Grown,
}

-- The pages that a walk may write: the tables on its way, and the free pages.
abbrev pub pages : ℕ → ℕ → ℕ → Memory → List ℕ
pages level table va t = tables level table va t ++ t.kmem.freelist

abbrev IsApart : List ℕ → Type 0
IsApart ps = All IsAligned ps × Distinct ps

abbrev Keeps : List ℕ → Memory → Memory → Type 0
Keeps ps t t' = (x : ℕ) → All (Outside x) ps → t'.words x ≡ t.words x

-- A walk that makes tables is followed by the walk that finds them, and leaves all else.
abbrev Finds : ℕ → ℕ → Type 0
Finds level va =
    (table : ℕ) (t t' : Memory) (a : ℕ)
    → IsApart (pages level table va t)
    → walk_from level table va true t ≡ some (t', a)
    → a ≢ 0
    → (walk_from level table va false t' ≡ some (t', a))
      × Keeps (pages level table va t) t t'
      × (pages level table va t' ≡ pages level table va t)

Finds-zero : (va : ℕ) → Finds zero va
unfolding walk_from
Finds-zero va table t t' a p h n = (
  ap (λ b. some (t', b)) (ap (λ r. r.1) (some_inj h)),
  λ x o. sym (ap (λ r. r.0.words x) (some_inj h)),
  sym (ap (λ r. pages zero table va r.0) (some_inj h)),
)

pages-again :
    (level table va pte : ℕ) (t : Memory)
    → t.words (entry_at (suc level) table va) ≡ pte
    → pte_v pte ≡ true
    → pages (suc level) table va t ≡ table ∷ pages level (pte2pa pte) va t
pages-again level table va pte t q v =
    ap (λ xs. xs ++ t.kmem.freelist) (tables-valid level table va t (ap pte_v q ∙ v))
    ∙ ap (λ z. table ∷ pages level (pte2pa z) va t) q

-- Through an entry that is there.
Finds-valid :
    (level va : ℕ)
    → Finds level va
    → (table : ℕ) (t t' : Memory) (a : ℕ) → IsApart (pages (suc level) table va t)
    → pte_v (t.words (entry_at (suc level) table va)) ≡ true
    → walk_from (suc level) table va true t ≡ some (t', a)
    → a ≢ 0
    → (walk_from (suc level) table va false t' ≡ some (t', a))
      × Keeps (pages (suc level) table va t) t t'
      × (pages (suc level) table va t' ≡ pages (suc level) table va t)
Finds-valid level va ih table t t' a p v h n =
    let at : ℕ = entry_at (suc level) table va in
    let s : ℕ = pte2pa (t.words at) in
    let q : pages (suc level) table va t ≡ table ∷ pages level s va t =
      ap (λ xs. xs ++ t.kmem.freelist) (tables-valid level table va t v) in
    let ((al, als), (d, ds)) : IsApart (table ∷ pages level s va t) = subst IsApart q p in
    let (w, k, u) = ih s t t' a (als, ds) (sym (valid_round level table va true t v) ∙ h) n in
    (
      again level table va (t.words at) a t'
          (k at (entry-All (suc level) table va (pages level s va t) al als d)) v w,
      λ x o. k x ((subst (λ ps. All (Outside x) ps) q o).1),
      pages-again level table va (t.words at) t'
            (k at (entry-All (suc level) table va (pages level s va t) al als d)) v
          ∙ ap (λ ps. table ∷ ps) u
          ∙ sym q,
    )

-- Where a table is missing and is made.
Finds-empty :
    (level va : ℕ)
    → Finds level va
    → (table : ℕ) (t t' : Memory) (a : ℕ) → IsApart (pages (suc level) table va t)
    → pte_v (t.words (entry_at (suc level) table va)) ≡ false
    → walk_from (suc level) table va true t ≡ some (t', a)
    → a ≢ 0
    → (walk_from (suc level) table va false t' ≡ some (t', a))
      × Keeps (pages (suc level) table va t) t t'
      × (pages (suc level) table va t' ≡ pages (suc level) table va t)
unfolding kalloc link
Finds-empty level va ih table t t' a p v h n =
    let at : ℕ = entry_at (suc level) table va in
    let (m, pa, e, ne, b) =
      grow-Grown (λ pa t'. walk_from level pa va true t') at t.words (kalloc t.kmem) t' a
        (sym (empty_round level table va t v) ∙ h) n in
    let f = kalloc_first-inv t.kmem.freelist t.kmem m pa e ne in
    let q : pages (suc level) table va t ≡ table ∷ pa ∷ m.freelist =
      ap (λ xs. xs ++ t.kmem.freelist) (tables-empty level table va t v)
      ∙ ap (λ xs. table ∷ xs) f in
    let ((al, (alp, als)), (d, ds)) : IsApart (table ∷ pa ∷ m.freelist) = subst IsApart q p in
    let r : pages level pa va (link at pa m t.words) ≡ pa ∷ m.freelist =
      ap (λ xs. xs ++ m.freelist)
        (tables-new level va at pa m t.words (entry-Outside (suc level) table va pa al alp d.0)) in
    let (w, k, u) =
      ih pa (link at pa m t.words) t' a (subst IsApart (sym r) ((alp, als), ds)) b n in
    let o = entry-All (suc level) table va (pa ∷ m.freelist) al (alp, als) d in
    let l = px_bound (suc level) va in
    (
      again level table va (pa2pte pa + 1) a t'
          (k at (subst (All (Outside at)) (sym r) o) ∙ link-entry at pa m t.words) (pte_v-pa2pte pa)
          (ap (λ z. walk_from level z va false t') (pte2pa-pa2pte pa alp) ∙ w),
      λ x o'.
          let (ot, op) = subst (All (Outside x)) q o' in
          k x (subst (All (Outside x)) (sym r) op)
          ∙ link-other at pa x m t.words
              (λ z. absurd (Outside-in x table at (sym z) ot (omega arith) (omega (arith, l))))
              op.0,
      pages-again level table va (pa2pte pa + 1) t'
            (k at (subst (All (Outside at)) (sym r) o) ∙ link-entry at pa m t.words)
            (pte_v-pa2pte pa)
          ∙ ap (λ z. table ∷ pages level z va t') (pte2pa-pa2pte pa alp)
          ∙ ap (λ ps. table ∷ ps) (u ∙ r)
          ∙ sym q,
    )

walk_from-Finds : (level va : ℕ) → Finds level va
walk_from-Finds zero va table t t' a p h n = Finds-zero va table t t' a p h n
walk_from-Finds (suc level) va table t t' a p h n =
    elim (Bool-cases (pte_v (t.words (entry_at (suc level) table va)))) [
      | inl v ↦ Finds-valid level va (walk_from-Finds level va) table t t' a p v h n
      | inr v ↦ Finds-empty level va (walk_from-Finds level va) table t t' a p v h n
    ]

-- When `walk` may make tables and gives an entry, `walk` that may not gives the same entry afterwards and
-- changes nothing; no word of memory has changed outside the tables on the way and the pages that were free;
-- and the new tables on the way with the pages still free are the old ones with the pages that were free, in
-- order. The tables on the way and the free pages are aligned and are different pages.
pub walk-found :
    (table va : ℕ) (t t' : Memory) (a : ℕ)
    → All IsAligned (pages 2 table va t)
    → Distinct (pages 2 table va t)
    → walk table va true t ≡ some (t', a)
    → a ≢ 0
    → (walk table va false t' ≡ some (t', a))
      × ((x : ℕ) → All (Outside x) (pages 2 table va t) → t'.words x ≡ t.words x)
      × (pages 2 table va t' ≡ pages 2 table va t)
unfolding walk
walk-found table va t t' a al d h n = elim (Bool-cases (leb maxva va)) [
  | inl e ↦ absurd (ground (arith, e, h))
  | inr e ↦
      let q : walk table va true t ≡ walk_from 2 table va true t = rw e refl in
      let (w, k, u) = walk_from-Finds 2 va table t t' a (al, d) (sym q ∙ h) n in (rw e w, k, u)
]
