-- ===== src/Kalloc/Counts.antt =====
-- Sharing and freeing: what `increase_cnt` and `kfree` do to the count of a page.
use osn_mp.Common.{
  ℕ, ◌+◌, ◌-◌, ◌/◌, ◌%◌, ◌≤◌, ◌<◌, ◌≡◌, refl, sym, ◌≢◌, none, some, List, ◌∷◌, arith,
}
use osn_mp.Kalloc.{
  pgsize, phystop, Kmem, update, junkfill, kalloc, kalloc_first, increase_cnt, kfree,
}
use osn_mp.Kalloc.Valid.{IsValid, taken}
use osn_mp.Kalloc.Valid.{IsValid, taken}

-- The guard of `kfree`.
abbrev pub IsPage : ℕ → ℕ → Type 0
IsPage end a = (a % pgsize ≡ 0) × (end ≤ a) × (a < phystop)

abbrev with_count : Kmem → ℕ → ℕ → Kmem
with_count m a n = record m { refcnt = update m.refcnt (a / pgsize) n }

-- A state with the page at `a` freed.
abbrev pub with_free : Kmem → ℕ → Kmem
with_free m a = record {
  freelist = a ∷ m.freelist;
  refcnt = update m.refcnt (a / pgsize) 0;
  bytes = junkfill a 1 m.bytes;
}

-- `kfree` of a page with one reference puts it at the head of the free list, with no reference, and
-- fills it with ones.
pub kfree-last :
    (end a : ℕ) (m : Kmem)
    → IsPage end a
    → m.refcnt (a / pgsize) ≡ 1
    → kfree end a m ≡ some (with_free m a)
unfolding kfree
kfree-last end a m g one = ground arith

-- A page that has no reference, such as one on the free list, cannot be freed: `kfree` panics.
kfree_twice : (end a : ℕ) (m : Kmem) → m.refcnt (a / pgsize) ≡ 0 → kfree end a m ≡ none
unfolding kfree
kfree_twice end a m z = ground arith

-- A reference taken and dropped: the free list, the counts and the contents are as before.
kfree-increase_cnt :
    (end a : ℕ) (m : Kmem)
    → IsPage end a
    → 0 < m.refcnt (a / pgsize)
    → (m1 : Kmem) × (m2 : Kmem) × (increase_cnt a m ≡ some m1)
      × (kfree end a m1 ≡ some m2)
      × (m2.freelist ≡ m.freelist)
      × ((n : ℕ) → m2.refcnt n ≡ m.refcnt n)
      × (m2.bytes ≡ m.bytes)
unfolding kfree increase_cnt
kfree-increase_cnt end a m g lt =
    let m1 = with_count m a (m.refcnt (a / pgsize) + 1) in
    let m2 = with_count m1 a (m1.refcnt (a / pgsize) - 1) in
    (m1, m2, ground arith, ground arith, refl, λ n. ground arith, refl)

-- On a valid state with a free page, `kalloc` and `kfree` of its page both succeed, and leave the free
-- list and the counts as they were.
kfree-kalloc :
    (end a : ℕ) (next : List ℕ) (m : Kmem)
    → IsValid end m
    → m.freelist ≡ a ∷ next
    → (m1 : Kmem) × (m2 : Kmem) × (kalloc m ≡ some (m1, a))
      × (kfree end a m1 ≡ some m2)
      × (m2.freelist ≡ m.freelist)
      × ((n : ℕ) → m2.refcnt n ≡ m.refcnt n)
unfolding kalloc kalloc_first
kfree-kalloc end a next m v e =
    let (h, hs) = rw e at v.pages in
    let m1 = taken m a next in
    (
      m1,
      with_free m1 a,
      rw (e, h.unreferenced) refl,
      kfree-last end a m1 (h.aligned, h.above, h.below) (ground arith),
      sym e,
      λ n. ground (arith, h.unreferenced),
    )

-- `increase_cnt` tests `pa > PHYSTOP`: it lets through the address PHYSTOP itself, whose page number is
-- the length of `refcnt`, though `kfree` refuses it.
increase_cnt-phystop :
    (end : ℕ) (m : Kmem)
    → 0 < m.refcnt (phystop / pgsize)
    → (increase_cnt phystop m ≢ none) × (kfree end phystop m ≡ none)
unfolding kfree increase_cnt
increase_cnt-phystop end m lt = (ground arith, ground arith)
