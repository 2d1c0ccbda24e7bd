-- ===== src/Kalloc/Valid.antt =====
-- The invariant of the allocator, and that every operation keeps it.
use osn_mp.Common.{
  ℕ, ◌+◌, ◌-◌, ◌/◌, ◌%◌, ◌≤◌, ◌<◌, ◌≡◌, refl, ◌≢◌, ◌⊎◌, inl, inr, not, ◌||◌, some, List, [], ◌∷◌,
  arith, ltb, leb, ◌==◌, Bool-cases, of_some, All,
}
use osn_mp.Kalloc.{
  pgsize, phystop, Kmem, update, junkfill, kalloc, kalloc_first, increase_cnt, kfree,
}

abbrev pub NotIn : ℕ → List ℕ → Type 0
NotIn a xs = All (λ x. x ≢ a) xs

abbrev pub Distinct : List ℕ → Type 0
Distinct [] = Unit
Distinct (x ∷ xs) = NotIn x xs × Distinct xs

-- A page on the free list: aligned, in range, with no reference.
pub record IsFreePage (end : ℕ) (refcnt : ℕ → ℕ) (a : ℕ) : Type 0 where
  pub aligned : a % pgsize ≡ 0
  pub above : end ≤ a
  pub below : a < phystop
  pub unreferenced : refcnt (a / pgsize) ≡ 0

-- The free list holds free pages, each once. `end` lies behind the first page.
pub record IsValid (end : ℕ) (m : Kmem) : Type 0 where
  pub kernel : pgsize ≤ end
  pub pages : All (IsFreePage end m.refcnt) m.freelist
  pub once : Distinct m.freelist

-- A page that is not on the list may change its count.
pages-update :
    (end : ℕ) (refcnt : ℕ → ℕ) (a v : ℕ) (xs : List ℕ)
    → a % pgsize ≡ 0
    → NotIn a xs
    → All (IsFreePage end refcnt) xs
    → All (IsFreePage end (update refcnt (a / pgsize) v)) xs
pages-update end refcnt a v [] al ni h = tt
pages-update end refcnt a v (x ∷ xs) al (n, ni) (h, hs) = (
  record {
    aligned = h.aligned;
    above = h.above;
    below = h.below;
    unreferenced = ground (arith, h.unreferenced, h.aligned);
  },
  pages-update end refcnt a v xs al ni hs,
)

-- A page with a reference is not on the list.
referenced-NotIn :
    (end : ℕ) (refcnt : ℕ → ℕ) (a : ℕ) (xs : List ℕ)
    → 0 < refcnt (a / pgsize)
    → All (IsFreePage end refcnt) xs
    → NotIn a xs
referenced-NotIn end refcnt a [] lt h = tt
referenced-NotIn end refcnt a (x ∷ xs) lt (h, hs) =
    (λ e. absurd (ground (arith, h.unreferenced)), referenced-NotIn end refcnt a xs lt hs)

-- The state after the first page is taken.
abbrev pub taken : Kmem → ℕ → List ℕ → Kmem
taken m r next = record {
  freelist = next;
  refcnt = update m.refcnt (r / pgsize) 1;
  bytes = junkfill r 5 m.bytes;
}

-- What `kalloc` returns on a valid state.
abbrev pub Allocates : ℕ → Kmem → Kmem → ℕ → Type 0
Allocates end m m' a =
    ((a ≡ 0) × (m.freelist ≡ []) × (m' ≡ m))
    ⊎ ((m.freelist ≡ a ∷ m'.freelist)
        × (m'.refcnt (a / pgsize) ≡ 1)
        × NotIn a m'.freelist
        × (end ≤ a))

kalloc_first-IsValid :
    (end : ℕ) (m : Kmem) (xs : List ℕ)
    → IsValid end m
    → m.freelist ≡ xs
    → (m' : Kmem) × (a : ℕ) × (kalloc_first xs m ≡ some (m', a))
      × IsValid end m'
      × Allocates end m m' a
unfolding kalloc_first
kalloc_first-IsValid end m [] v e = (m, 0, refl, v, inl (refl, e, refl))
kalloc_first-IsValid end m (x ∷ xs) v e =
    let (h, hs) = rw e at v.pages in
    let (n, o) = rw e at v.once in
    (
      taken m x xs,
      x,
      ground (arith, h.unreferenced),
      record {
        kernel = v.kernel;
        pages = pages-update end m.refcnt x 1 xs h.aligned n hs;
        once = o;
      },
      inr (e, ground arith, n, h.above),
    )

-- On a valid state `kalloc` never panics and leaves a valid state. It returns the null pointer exactly
-- if no page is free; else the first free page, now with one reference and no longer on the list.
pub kalloc-IsValid :
    (end : ℕ) (m : Kmem)
    → IsValid end m
    → (m' : Kmem) × (a : ℕ) × (kalloc m ≡ some (m', a)) × IsValid end m' × Allocates end m m' a
unfolding kalloc
kalloc-IsValid end m v = kalloc_first-IsValid end m m.freelist v refl

pub counted-IsValid :
    (end a n : ℕ) (m : Kmem)
    → a % pgsize ≡ 0
    → NotIn a m.freelist
    → IsValid end m
    → IsValid end (record m { refcnt = update m.refcnt (a / pgsize) n })
counted-IsValid end a n m al ni v = record {
  kernel = v.kernel;
  pages = pages-update end m.refcnt a n m.freelist al ni v.pages;
  once = v.once;
}

-- `kfree` keeps a valid state valid: every page on the free list is aligned, between the kernel and the end
-- of memory, without a reference, and there once.
pub kfree-IsValid :
    (end a : ℕ) (m m' : Kmem) → IsValid end m → kfree end a m ≡ some m' → IsValid end m'
unfolding kfree
kfree-IsValid end a m m' v h =
    elim (Bool-cases (not (a % pgsize == 0) || ltb a end || leb phystop a)) [
      | inl e ↦ cc (rw e at h)
      | inr e ↦ elim (Bool-cases (ltb (m.refcnt (a / pgsize)) 1)) [
        | inl f ↦ cc (rw (e, f) at h)
        | inr f ↦
            let ni : NotIn a m.freelist =
              referenced-NotIn end m.refcnt a m.freelist (ground arith) v.pages in
            let al : a % pgsize ≡ 0 = ground arith in
            let n = m.refcnt (a / pgsize) - 1 in
            let c : IsValid end (record m { refcnt = update m.refcnt (a / pgsize) n }) =
              counted-IsValid end a n m al ni v in
            elim (Bool-cases (ltb 0 (update m.refcnt (a / pgsize) n (a / pgsize)))) [
              | inl g ↦ of_some (IsValid end) (rw (e, f, g) at h) c
              | inr g ↦ of_some (IsValid end) (rw (e, f, g) at h) (record {
                kernel = v.kernel;
                pages = (
                  record {
                    aligned = al;
                    above = ground arith;
                    below = ground arith;
                    unreferenced = ground arith;
                  },
                  c.pages,
                );
                once = (ni, v.once);
              })
            ]
      ]
    ]

-- `increase_cnt` of a page address keeps a valid state valid.
increase_cnt-IsValid :
    (end a : ℕ) (m m' : Kmem)
    → a % pgsize ≡ 0
    → IsValid end m
    → increase_cnt a m ≡ some m'
    → IsValid end m'
unfolding increase_cnt
increase_cnt-IsValid end a m m' al v h = elim (Bool-cases (ltb phystop a)) [
  | inl e ↦ cc (rw e at h)
  | inr e ↦ elim (Bool-cases (ltb (m.refcnt (a / pgsize)) 1)) [
    | inl f ↦ cc (rw (e, f) at h)
    | inr f ↦ of_some (IsValid end) (rw (e, f) at h) (
        counted-IsValid end a (m.refcnt (a / pgsize) + 1) m al
          (referenced-NotIn end m.refcnt a m.freelist (ground arith) v.pages) v)
  ]
]
