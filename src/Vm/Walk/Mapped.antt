-- ===== src/Vm/Walk/Mapped.antt =====
-- mappages in kernel/vm.c, and walkaddr after it.
use osn_mp.Common.{
  ℕ, ◌+◌, ◌-◌, ◌*◌, ◌/◌, ◌%◌, ◌≤◌, ◌<◌, ◌≡◌, refl, sym, ap, ◌∙◌, ◌≢◌, inl, inr, Bool, true, false,
  Option, none, some, List, [], ◌∷◌, ◌++◌, arith, leb, ◌==◌, if◌then◌else◌, ==_iff, Bool-cases,
  some_inj, All,
}
use mathlib.Core.Path.{subst}
use mathlib.Core.Option
use osn_mp.Kalloc.{pgsize}
use osn_mp.Kalloc.Valid.{Distinct}
use osn_mp.Vm.{maxva}
use osn_mp.Vm.Walk.{
  Memory, Perm, bit, leaf, pte_v, pte_u, pte2pa, pa2pte, store, put, map_page, mappages_from,
  mappages, walk_from, walk, walkaddr, address_of, address_at,
}
use osn_mp.Vm.Walk.Pages.{tables, IsAligned}
use osn_mp.Vm.Walk.Found.{pages, walk-found}
use osn_mp.Vm.Walk.Stored.{walk_from-put}

bit_bound : (b : Bool) → bit b ≤ 1
bit_bound true = omega arith
bit_bound false = omega arith

-- The fields of an entry.
leaf-valid : (pa : ℕ) (perm : Perm) → pte_v (leaf pa perm) ≡ true
unfolding leaf pa2pte
leaf-valid pa perm = (==_iff (leaf pa perm % 2) 1).1 (omega arith)

leaf-user : (pa : ℕ) (perm : Perm) → perm.u ≡ true → pte_u (leaf pa perm) ≡ true
unfolding leaf pa2pte
leaf-user pa perm h =
    let r = bit_bound perm.r in
    let w = bit_bound perm.w in
    let x = bit_bound perm.x in
    let u : bit perm.u ≡ 1 = ap bit h in
    (==_iff (leaf pa perm / 16 % 2) 1).1 (omega (arith, r, w, x, u))

leaf-page : (pa : ℕ) (perm : Perm) → IsAligned pa → pte2pa (leaf pa perm) ≡ pa
unfolding leaf pa2pte pte2pa
leaf-page pa perm h =
    let r = bit_bound perm.r in
    let w = bit_bound perm.w in
    let x = bit_bound perm.x in let u = bit_bound perm.u in omega (arith, r, w, x, u, h)

address_of-leaf :
    (pa : ℕ) (perm : Perm) → IsAligned pa → perm.u ≡ true → address_of (leaf pa perm) ≡ pa
address_of-leaf pa perm h u = rw (leaf-valid pa perm, leaf-user pa perm u) (leaf-page pa perm h)

-- The walk of a page that `mappages` has mapped.
abbrev Placed : ℕ → Perm → Option (Memory × ℕ) → Memory → Type 0
Placed pa perm k t' =
    (t1 : Memory) × (at : ℕ) × (k ≡ some (t1, at)) × (at ≢ 0) × (put at (leaf pa perm) t1 ≡ t')

map_page-Placed :
    (pa : ℕ) (perm : Perm) (k : Option (Memory × ℕ)) (t' : Memory)
    → map_page pa perm k ≡ some (t', true)
    → Placed pa perm k t'
unfolding map_page
map_page-Placed pa perm none t' h = absurd (ground (arith, h))
map_page-Placed pa perm (some (t1, at)) t' h = elim (Bool-cases (at == 0)) [
  | inl e ↦
      let q : map_page pa perm (some (t1, at)) ≡ some (t1, false) = rw e refl in
      absurd (ground (arith, ap (λ r. r.1) (some_inj (sym q ∙ h))))
  | inr e ↦ elim (Bool-cases (pte_v (t1.words at))) [
    | inl v ↦
        let q : map_page pa perm (some (t1, at)) ≡ none = rw (e, v) refl in
        absurd (ground (arith, sym q ∙ h))
    | inr v ↦
        let q : map_page pa perm (some (t1, at)) ≡ some (put at (leaf pa perm) t1, true) =
          rw (e, v) refl in
        (t1, at, refl, λ z. absurd (ground (arith, e, z)), ap (λ r. r.0) (some_inj (sym q ∙ h)))
  ]
]

-- One page.
mappages-one :
    (table va size pa : ℕ) (perm : Perm) (t : Memory)
    → IsAligned va
    → 0 < size
    → size ≤ pgsize
    → mappages table va size pa perm t ≡ map_page pa perm (walk table va true t)
unfolding mappages mappages_from
mappages-one table va size pa perm t al z l =
    let b : (size == 0) ≡ false = ground (arith, z) in
    let a : va / pgsize * pgsize ≡ va = omega (arith, al) in
    let n : ((va + size - 1) / pgsize * pgsize - va / pgsize * pgsize) / pgsize ≡ 0 =
      omega (arith, al, z, l) in
    ap
      (λ q.
        if q
        then none
        else mappages_from (((va + size - 1) / pgsize * pgsize - va / pgsize * pgsize) / pgsize)
            table (va / pgsize * pgsize) pa perm t)
      b
    ∙ ap (λ n. mappages_from n table (va / pgsize * pgsize) pa perm t) n
    ∙ ap (λ a. map_page pa perm (walk table a true t)) a

All-prefix : (P : ℕ → Type 0) (xs ys : List ℕ) → All P (xs ++ ys) → All P xs
All-prefix P [] ys h = tt
All-prefix P (x ∷ xs) ys (h, hs) = (h, All-prefix P xs ys hs)

Distinct-prefix : (xs ys : List ℕ) → Distinct (xs ++ ys) → Distinct xs
Distinct-prefix [] ys h = tt
Distinct-prefix (x ∷ xs) ys (h, hs) = (All-prefix _ xs ys h, Distinct-prefix xs ys hs)

-- The walk after the store.
walk-put :
    (table va at v : ℕ) (t : Memory)
    → All IsAligned (pages 2 table va t)
    → Distinct (pages 2 table va t)
    → walk table va false t ≡ some (t, at)
    → at ≢ 0
    → (va < maxva) × (walk table va false (put at v t) ≡ some (put at v t, at))
unfolding walk
walk-put table va at v t al d h n = elim (Bool-cases (leb maxva va)) [
  | inl e ↦ absurd (ground (arith, e, h))
  | inr e ↦
      let q : walk table va false t ≡ walk_from 2 table va false t = rw e refl in
      let w =
        walk_from-put 2 table va at v t
          (All-prefix IsAligned (tables 2 table va t) t.kmem.freelist al)
          (Distinct-prefix (tables 2 table va t) t.kmem.freelist d) (sym q ∙ h) n in
      (ground (arith, e), rw e w)
]

walkaddr-walk :
    (table va at : ℕ) (t : Memory)
    → va < maxva
    → at ≢ 0
    → walk table va false t ≡ some (t, at)
    → walkaddr table va t ≡ some (address_of (t.words at))
unfolding walkaddr
walkaddr-walk table va at t l n h =
    let e : leb maxva va ≡ false = ground (arith, l) in
    let z : (at == 0) ≡ false = ground (arith, n) in
    ap (λ q. if q then some 0 else Option.map address_at (walk table va false t)) e
    ∙ ap (Option.map address_at) h
    ∙ rw z refl

-- When `mappages` maps a page of the user at `va` to the page `pa` and returns 0, `walkaddr` gives `pa` at `va`
-- afterwards. Both are aligned, the size is that of a page at most, and the tables on the way and the free pages
-- are aligned and are different pages.
pub walkaddr-mappages :
    (table va size pa : ℕ) (perm : Perm) (t t' : Memory)
    → IsAligned va
    → IsAligned pa
    → 0 < size
    → size ≤ pgsize
    → perm.u ≡ true
    → All IsAligned (pages 2 table va t)
    → Distinct (pages 2 table va t)
    → mappages table va size pa perm t ≡ some (t', true)
    → walkaddr table va t' ≡ some pa
walkaddr-mappages table va size pa perm t t' av ap' z l u al d h =
    let (t1, at, e, n, q) =
      map_page-Placed pa perm (walk table va true t) t'
        (sym (mappages-one table va size pa perm t av z l) ∙ h) in
    let (w, k, same) = walk-found table va t t1 at al d e n in
    let v : ℕ = leaf pa perm in
    let (b, w') =
      walk-put table va at v t1 (subst (All IsAligned) (sym same) al) (subst Distinct (sym same) d)
        w n in
    let here : store at v t1.words at ≡ v = ground arith in
    subst (λ s. walkaddr table va s ≡ some pa) q
      (walkaddr-walk table va at (put at v t1) b n w'
        ∙ ap (λ x. some (address_of x)) here
        ∙ ap some (address_of-leaf pa perm ap' u))
