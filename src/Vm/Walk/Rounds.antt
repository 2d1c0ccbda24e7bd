-- ===== src/Vm/Walk/Rounds.antt =====
-- One round of walk in kernel/vm.c, and the table that it makes.
use osn_mp.Common.{
  ℕ, zero, suc, ◌+◌, ◌/◌, ◌≤◌, ◌<◌, ◌≡◌, refl, sym, ap, ◌∙◌, ◌≢◌, inl, inr, Bool, true, false, not,
  Option, none, some, List, [], ◌∷◌, arith, ◌==◌, if◌then◌else◌, Bool-cases, some_inj,
}
use osn_mp.Kalloc.{Kmem, pgsize, kalloc, kalloc_first}
use osn_mp.Vm.Walk.{Memory, pte_v, pte2pa, pa2pte, link, entry_at, grow, walk_from}
use osn_mp.Vm.Walk.Pages.{tables, px_bound, Outside}

if-some : {A : Type 0} (b : Bool) (x y : A) → (if b then none else some x) ≡ some y → x ≡ y
if-some true x y h = absurd (ground (arith, h))
if-some false x y h = some_inj h

-- The first page of the list is taken.
pub kalloc_first-inv :
    (xs : List ℕ) (m m' : Kmem) (pa : ℕ)
    → kalloc_first xs m ≡ some (m', pa)
    → pa ≢ 0
    → xs ≡ pa ∷ m'.freelist
unfolding kalloc_first
kalloc_first-inv [] m m' pa h n = absurd (n (sym (ap (λ r. r.1) (some_inj h))))
kalloc_first-inv (x ∷ xs) m m' pa h n =
    ap (λ r. r.1 ∷ r.0.freelist) (if-some (not (m.refcnt (x / pgsize) == 0)) _ (m', pa) h)

-- What `grow` does when the walk gives an entry.
abbrev pub Grown :
    (ℕ → Memory → Option (Memory × ℕ)) → ℕ → (ℕ → ℕ) → Option (Kmem × ℕ) → Memory → ℕ → Type 0
Grown below at words k t' a =
    (m : Kmem) × (pa : ℕ) × (k ≡ some (m, pa))
    × (pa ≢ 0)
    × (below pa (link at pa m words) ≡ some (t', a))

pub grow-Grown :
    (below : ℕ → Memory → Option (Memory × ℕ)) (at : ℕ) (words : ℕ → ℕ) (k : Option (Kmem × ℕ))
    (t' : Memory) (a : ℕ)
    → grow below at words k ≡ some (t', a)
    → a ≢ 0
    → Grown below at words k t' a
unfolding grow
grow-Grown below at words none t' a h n = absurd (ground (arith, h))
grow-Grown below at words (some (m, pa)) t' a h n = elim (Bool-cases (pa == 0)) [
  | inl e ↦
      let q : grow below at words (some (m, pa)) ≡ some (record { kmem = m; words = words }, 0) =
        rw e refl in
      absurd (n (sym (ap (λ r. r.1) (some_inj (sym q ∙ h)))))
  | inr e ↦
      let q : grow below at words (some (m, pa)) ≡ below pa (link at pa m words) = rw e refl in
      (m, pa, refl, λ z. absurd (ground (arith, e, z)), sym q ∙ h)
]

pub valid_round :
    (level table va : ℕ) (alloc : Bool) (t : Memory)
    → pte_v (t.words (entry_at (suc level) table va)) ≡ true
    → walk_from (suc level) table va alloc t
      ≡ walk_from level (pte2pa (t.words (entry_at (suc level) table va))) va alloc t
unfolding walk_from
valid_round level table va alloc t v = rw v refl

pub empty_round :
    (level table va : ℕ) (t : Memory)
    → pte_v (t.words (entry_at (suc level) table va)) ≡ false
    → walk_from (suc level) table va true t
      ≡ grow
          (λ pa t'. walk_from level pa va true t')
          (entry_at (suc level) table va)
          t.words
          (kalloc t.kmem)
unfolding walk_from
empty_round level table va t v = rw v refl

pub again :
    (level table va pte a : ℕ) (t : Memory)
    → t.words (entry_at (suc level) table va) ≡ pte
    → pte_v pte ≡ true
    → walk_from level (pte2pa pte) va false t ≡ some (t, a)
    → walk_from (suc level) table va false t ≡ some (t, a)
again level table va pte a t q v w =
    valid_round level table va false t (ap pte_v q ∙ v)
    ∙ ap (λ z. walk_from level (pte2pa z) va false t) q
    ∙ w

pub tables-valid :
    (level table va : ℕ) (t : Memory)
    → pte_v (t.words (entry_at (suc level) table va)) ≡ true
    → tables (suc level) table va t
      ≡ table ∷ tables level (pte2pa (t.words (entry_at (suc level) table va))) va t
unfolding tables
tables-valid level table va t v = rw v refl

pub tables-empty :
    (level table va : ℕ) (t : Memory)
    → pte_v (t.words (entry_at (suc level) table va)) ≡ false
    → tables (suc level) table va t ≡ table ∷ []
unfolding tables
tables-empty level table va t v = rw v refl

pub Outside-in : (y pa x : ℕ) → x ≡ y → Outside y pa → pa ≤ x → x < pa + pgsize → ⊥
Outside-in y pa x e (inl l) a b = omega (arith, e)
Outside-in y pa x e (inr l) a b = omega (arith, e)

-- The words of a new table and of its entry.
pub link-entry :
    (at pa : ℕ) (m : Kmem) (words : ℕ → ℕ) → (link at pa m words).words at ≡ pa2pte pa + 1
unfolding link
link-entry at pa m words = ground arith

link-new :
    (at pa x : ℕ) (m : Kmem) (words : ℕ → ℕ)
    → x ≢ at
    → pa ≤ x
    → x < pa + pgsize
    → (link at pa m words).words x ≡ 0
unfolding link
link-new at pa x m words n l u = ground (arith, n, l, u)

pub link-other :
    (at pa x : ℕ) (m : Kmem) (words : ℕ → ℕ)
    → x ≢ at
    → Outside x pa
    → (link at pa m words).words x ≡ words x
unfolding link
link-other at pa x m words n (inl l) = ground (arith, n, l)
link-other at pa x m words n (inr u) = ground (arith, n, u)

-- Nothing stands below a new table.
pub tables-new :
    (level va at pa : ℕ) (m : Kmem) (words : ℕ → ℕ)
    → Outside at pa
    → tables level pa va (link at pa m words) ≡ pa ∷ []
unfolding tables
tables-new zero va at pa m words o = refl
tables-new (suc level) va at pa m words o =
    let l = px_bound (suc level) va in
    let x : ℕ = entry_at (suc level) pa va in
    let q =
      link-new at pa x m words
        (λ e. absurd (Outside-in at pa x e o (omega arith) (omega (arith, l)))) (omega arith)
        (omega (arith, l)) in
    tables-empty level pa va (link at pa m words) (ap pte_v q)
