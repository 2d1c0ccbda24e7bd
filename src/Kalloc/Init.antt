-- ===== src/Kalloc/Init.antt =====
-- `kinit`: what the allocator starts with.
use osn_mp.Common.{
  ℕ, zero, suc, ◌+◌, ◌-◌, ◌/◌, ◌%◌, ◌≤◌, ◌<◌, ◌≡◌, refl, ◌∙◌, inl, inr, true, false, some, List, [],
  ◌∷◌, arith, leb, Bool-cases, length, All,
}
use native.Mathlib.Nat.{zero-add}
use osn_mp.Kalloc.{Kmem, pgsize, phystop, update, kfree, round_up, freerange_from, freerange, kinit}
use osn_mp.Kalloc.Valid.{IsValid, NotIn, kfree-IsValid, counted-IsValid}
use osn_mp.Kalloc.Counts.{with_free, kfree-last}

-- All pages on the list lie below `p`.
abbrev AllBelow : ℕ → List ℕ → Type 0
AllBelow p xs = All (λ x. x < p) xs

AllBelow-NotIn : (p : ℕ) (xs : List ℕ) → AllBelow p xs → NotIn p xs
AllBelow-NotIn p [] h = tt
AllBelow-NotIn p (x ∷ xs) (l, h) = ((λ e. absurd (omega arith)), AllBelow-NotIn p xs h)

AllBelow-le : (p q : ℕ) (xs : List ℕ) → p ≤ q → AllBelow p xs → AllBelow q xs
AllBelow-le p q [] le h = tt
AllBelow-le p q (x ∷ xs) le (l, h) = (omega arith, AllBelow-le p q xs le h)

abbrev one_reference : Kmem → ℕ → Kmem
one_reference m p = record m { refcnt = update m.refcnt (p / pgsize) 1 }

freerange_from-suc :
    (end rounds p pa_end : ℕ) (m m' : Kmem)
    → leb (p + pgsize) pa_end ≡ true
    → kfree end p (one_reference m p) ≡ some m'
    → freerange_from end (suc rounds) p pa_end m ≡ freerange_from end rounds (p + pgsize) pa_end m'
unfolding freerange_from
freerange_from-suc end rounds p pa_end m m' g h = rw (g, h, freerange_from) refl

freerange_from-stop :
    (end rounds p pa_end : ℕ) (m : Kmem)
    → leb (p + pgsize) pa_end ≡ false
    → freerange_from end rounds p pa_end m ≡ some m
unfolding freerange_from
freerange_from-stop end zero p pa_end m g = refl
freerange_from-stop end (suc rounds) p pa_end m g = rw (g, freerange_from) refl

freerange_from-IsValid :
    (end rounds p : ℕ) (m : Kmem)
    → p % pgsize ≡ 0
    → end ≤ p
    → IsValid end m
    → AllBelow p m.freelist
    → (phystop - p) / pgsize ≤ rounds
    → (m' : Kmem) × (freerange_from end rounds p phystop m ≡ some m')
      × IsValid end m'
      × (length m'.freelist ≡ length m.freelist + (phystop - p) / pgsize)
freerange_from-IsValid end zero p m al ge v b fuel =
    (m, freerange_from-stop end zero p phystop m (ground (arith, fuel)), v, omega (arith, fuel))
freerange_from-IsValid end (suc rounds) p m al ge v b fuel =
    elim (Bool-cases (leb (p + pgsize) phystop)) [
      | inr g ↦ (m, freerange_from-stop end (suc rounds) p phystop m g, v, ground (arith, g, al))
      | inl g ↦
          let below : p + pgsize ≤ phystop = ground (arith, g) in
          let m1 = one_reference m p in
          let k = kfree-last end p m1 (al, ge, omega (arith, below)) (ground arith) in
          let v1 : IsValid end m1 =
            counted-IsValid end p 1 m al (AllBelow-NotIn p m.freelist b) v in
          let (m', e, w, n) =
            freerange_from-IsValid end rounds (p + pgsize) (with_free m1 p) (omega (arith, al))
              (omega (arith, ge)) (kfree-IsValid end p m1 (with_free m1 p) v1 k)
              (omega arith, AllBelow-le p (p + pgsize) m.freelist (omega arith) b)
              (omega (arith, fuel, below)) in
          (
            m',
            freerange_from-suc end rounds p phystop m (with_free m1 p) g k ∙ e,
            w,
            omega (arith, n, below),
          )
    ]

-- Where the kernel ends behind the first page, `kinit` never panics: the free list is then valid and holds
-- all whole pages between the end of the kernel and the end of memory.
pub kinit-IsValid :
    (end : ℕ) (m : Kmem)
    → pgsize ≤ end
    → m.freelist ≡ []
    → (m' : Kmem) × (kinit end m ≡ some m')
      × IsValid end m'
      × (length m'.freelist ≡ (phystop - round_up end) / pgsize)
unfolding kinit freerange
kinit-IsValid end m le e =
    let v : IsValid end m = record { kernel = le; pages = rw e tt; once = rw e tt } in
    let (m', k, w, n) =
      freerange_from-IsValid end (phystop / pgsize) (round_up end) m (omega arith) (omega arith) v
        (rw e tt) (omega arith) in
    (m', k, w, n ∙ rw e (zero-add ((phystop - round_up end) / pgsize)))
