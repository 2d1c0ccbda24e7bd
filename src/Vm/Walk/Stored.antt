-- ===== src/Vm/Walk/Stored.antt =====
-- The walk of kernel/vm.c after a store to the entry that it gave.
use osn_mp.Common.{
  ℕ, zero, suc, ◌≡◌, refl, sym, ap, ◌∙◌, ◌≢◌, inl, inr, false, some, arith, Bool-cases, some_inj,
  All,
}
use mathlib.Core.Path.{subst}
use osn_mp.Kalloc.Valid.{Distinct}
use osn_mp.Vm.Walk.{Memory, pte_v, pte2pa, store, put, entry_at, walk_from}
use osn_mp.Vm.Walk.Pages.{tables, px_bound, IsAligned, Outside, entry-All}
use osn_mp.Vm.Walk.Rounds.{again, valid_round, tables-valid, Outside-in}

missing_round :
    (level table va : ℕ) (t : Memory)
    → pte_v (t.words (entry_at (suc level) table va)) ≡ false
    → walk_from (suc level) table va false t ≡ some (t, 0)
unfolding walk_from
missing_round level table va t v = rw v refl

-- The entry lies in a table on the way.
walk_from-inside :
    (level table va a x : ℕ) (t : Memory)
    → walk_from level table va false t ≡ some (t, a)
    → a ≢ 0
    → All (Outside x) (tables level table va t)
    → x ≢ a
unfolding walk_from tables
walk_from-inside zero table va a x t h n (o, _) e =
    let l = px_bound 0 va in
    let q : entry_at 0 table va ≡ a = ap (λ r. r.1) (some_inj h) in
    absurd (Outside-in x table (entry_at 0 table va) (q ∙ sym e) o (omega arith) (omega (arith, l)))
walk_from-inside (suc level) table va a x t h n o e =
    elim (Bool-cases (pte_v (t.words (entry_at (suc level) table va)))) [
      | inl v ↦
          walk_from-inside level (pte2pa (t.words (entry_at (suc level) table va))) va a x t
            (sym (valid_round level table va false t v) ∙ h) n
            ((subst (All (Outside x)) (tables-valid level table va t v) o).1) e
      | inr v ↦
          absurd (n (sym (ap (λ r. r.1) (some_inj (sym (missing_round level table va t v) ∙ h)))))
    ]

store_other : (a v x : ℕ) (words : ℕ → ℕ) → x ≢ a → store a v words x ≡ words x
store_other a v x words n = ground (arith, n)

-- A store to the entry leaves the way to it.
pub walk_from-put :
    (level table va a v : ℕ) (t : Memory)
    → All IsAligned (tables level table va t)
    → Distinct (tables level table va t)
    → walk_from level table va false t ≡ some (t, a)
    → a ≢ 0
    → walk_from level table va false (put a v t) ≡ some (put a v t, a)
unfolding walk_from
walk_from-put zero table va a v t al d h n = ap (λ r. some (put a v t, r.1)) (some_inj h)
walk_from-put (suc level) table va a v t al d h n =
    let at : ℕ = entry_at (suc level) table va in
    let s : ℕ = pte2pa (t.words at) in
    elim (Bool-cases (pte_v (t.words at))) [
      | inl e ↦
          let q = tables-valid level table va t e in
          let (al0, als) = subst (All IsAligned) q al in
          let (d0, ds) = subst Distinct q d in
          let w = sym (valid_round level table va false t e) ∙ h in
          let o = entry-All (suc level) table va (tables level s va t) al0 als d0 in
          again level table va (t.words at) a (put a v t)
            (store_other a v at t.words (walk_from-inside level s va a at t w n o)) e
            (walk_from-put level s va a v t als ds w n)
      | inr e ↦
          absurd (n (sym (ap (λ r. r.1) (some_inj (sym (missing_round level table va t e) ∙ h)))))
    ]
