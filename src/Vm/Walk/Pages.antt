-- ===== src/Vm/Walk/Pages.antt =====
-- The pages of the tables that a walk in kernel/vm.c goes through.
use osn_mp.Common.{
  ℕ, zero, suc, ◌+◌, ◌*◌, ◌/◌, ◌%◌, ◌≤◌, ◌<◌, ◌≡◌, ◌≢◌, ◌⊎◌, inl, inr, true, List, [], ◌∷◌, arith,
  ltb, leb, if◌then◌else◌, ltb→lt, Bool-cases, All,
}
use osn_mp.Kalloc.{pgsize}
use osn_mp.Kalloc.Valid.{NotIn}
use osn_mp.Vm.Walk.{Memory, px, pte_v, pte2pa, pa2pte, entry_at}

-- The tables on the way of an address, as far as they are there.
unfoldable pub tables : ℕ → ℕ → ℕ → Memory → List ℕ
unfolding pte2pa px
tables zero table va t = table ∷ []
tables (suc level) table va t =
    let pte = t.words (entry_at (suc level) table va) in
    let rest = tables level (pte2pa pte) va t in table ∷ (if pte_v pte then rest else [])

abbrev pub IsAligned : ℕ → Type 0
IsAligned a = a % pgsize ≡ 0

-- An address that is not in a page.
abbrev pub Outside : ℕ → ℕ → Type 0
Outside x p = (x < p) ⊎ (p + pgsize ≤ x)

pub px_bound : (level va : ℕ) → px level va < 512
unfolding px
px_bound level va = omega arith

apart :
    (table p x : ℕ)
    → IsAligned table
    → IsAligned p
    → p ≢ table
    → table ≤ x
    → x < table + pgsize
    → Outside x p
apart table p x a b ne l u = elim (Bool-cases (ltb x p)) [
  | inl e ↦ inl (ltb→lt x p e)
  | inr e ↦ elim (Bool-cases (leb (p + pgsize) x)) [
    | inl f ↦ inr (ground (arith, f))
    | inr f ↦ absurd (ne (ground (arith, e, f)))
  ]
]

pub entry-Outside :
    (level table va p : ℕ)
    → IsAligned table
    → IsAligned p
    → p ≢ table
    → Outside (entry_at level table va) p
entry-Outside level table va p a b ne =
    let l = px_bound level va in
    apart table p (entry_at level table va) a b ne (omega arith) (omega (arith, l))

pub entry-All :
    (level table va : ℕ) (ps : List ℕ)
    → IsAligned table
    → All IsAligned ps
    → NotIn table ps
    → All (Outside (entry_at level table va)) ps
entry-All level table va [] a b n = tt
entry-All level table va (p ∷ ps) a (b, bs) (n, ns) =
    (entry-Outside level table va p a b n, entry-All level table va ps a bs ns)

pub pte2pa-pa2pte : (pa : ℕ) → IsAligned pa → pte2pa (pa2pte pa + 1) ≡ pa
unfolding pte2pa pa2pte
pte2pa-pa2pte pa a = omega (arith, a)

pub pte_v-pa2pte : (pa : ℕ) → pte_v (pa2pte pa + 1) ≡ true
unfolding pa2pte
pte_v-pa2pte pa = let h : (pa / 4096 * 1024 + 1) % 2 ≡ 1 = omega arith in ground (arith, h)
