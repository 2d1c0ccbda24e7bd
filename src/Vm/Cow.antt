-- ===== src/Vm/Cow.antt =====
-- A write to a shared page.
use osn_mp.Common.{
  ℕ, ◌+◌, ◌-◌, ◌/◌, ◌%◌, ◌<◌, ◌≡◌, refl, sym, ap, ◌∙◌, ◌≢◌, true, false, ◌&&◌, some, List, ◌∷◌,
  arith, ltb, leb, ◌==◌, of_some,
}
use osn_mp.Kalloc
use osn_mp.Kalloc.Counts.{IsPage, with_free, kfree-last}
use osn_mp.Kalloc.Valid.{taken, IsFreePage}
use osn_mp.Kalloc.{Kmem, pgsize, kalloc, kfree}
use osn_mp.Kalloc.Valid.{IsValid, kalloc-IsValid, kfree-IsValid}
use osn_mp.Vm.{
  maxva, Pte, PageTable, update, check_valid_page, copy_page, allocate_and_copy_page, copied_entry,
  replace_page, replaced, copy_into, copy_at, cow_handler,
}

kalloc-first :
    (m : Kmem) (a : ℕ) (next : List ℕ)
    → m.freelist ≡ a ∷ next
    → m.refcnt (a / pgsize) ≡ 0
    → kalloc m ≡ some (taken m a next, a)
unfolding kalloc Kalloc.kalloc_first
kalloc-first m a next e z = rw (e, z) refl

abbrev drop_count : Kmem → ℕ → Kmem
drop_count m a = record m {
  refcnt = Kalloc.update m.refcnt (a / pgsize) (m.refcnt (a / pgsize) - 1);
}

kfree-shared :
    (end a : ℕ) (m : Kmem)
    → IsPage end a
    → 1 < m.refcnt (a / pgsize)
    → kfree end a m ≡ some (drop_count m a)
unfolding kfree
kfree-shared end a m g lt = ground arith

-- Two pages apart share no address.
copied-byte :
    (bytes : ℕ → ℕ) (a b i : ℕ)
    → a % pgsize ≡ 0
    → b % pgsize ≡ 0
    → a / pgsize ≢ b / pgsize
    → i < pgsize
    → (copy_page a b (Kalloc.junkfill a 5 bytes) (a + i) ≡ bytes (b + i))
      × (copy_page a b (Kalloc.junkfill a 5 bytes) (b + i) ≡ bytes (b + i))
unfolding Kalloc.junkfill
copied-byte bytes a b i ha hb ne h =
    let out : leb a (b + i) && ltb (b + i) (a + pgsize) ≡ false = ground arith in
    let inside : leb a (a + i) && ltb (a + i) (a + pgsize) ≡ true = ground arith in
    let off : b + (a + i - a) ≡ b + i = omega arith in (rw (inside, off, out) refl, rw out refl)

-- A page of the user that is in use, and the page that `kalloc` returns next.
pub record IsFault (end : ℕ) (pt : PageTable) (va : ℕ) (m : Kmem) (e : Pte) (a : ℕ) (next : List ℕ)
    : Type 0 where
  pub valid : IsValid end m
  pub in_range : va < maxva
  pub not_null : va ≢ 0
  pub entry : pt (va / pgsize) ≡ some e
  pub user : e.u ≡ true
  pub present : e.v ≡ true
  pub page : IsPage end e.pa
  pub free : m.freelist ≡ a ∷ next

-- The state with the copy made.
abbrev pub with_copy : Kmem → ℕ → ℕ → List ℕ → Kmem
with_copy m pa a next = record (taken m a next) { bytes = copy_page a pa (taken m a next).bytes }

free_page :
    (end a : ℕ) (next : List ℕ) (m : Kmem)
    → IsValid end m
    → m.freelist ≡ a ∷ next
    → IsFreePage end m.refcnt a
free_page end a next m v e = (rw e at v.pages).0

allocated :
    (pa : ℕ) (m : Kmem) (a : ℕ) (next : List ℕ)
    → kalloc m ≡ some (taken m a next, a)
    → a == 0 ≡ false
    → allocate_and_copy_page pa m ≡ some (with_copy m pa a next, a)
unfolding allocate_and_copy_page copy_into
allocated pa m a next l z = ap (copy_into pa) l ∙ rw z refl

copy_at-kfree :
    (end page : ℕ) (pt : PageTable) (m m' : Kmem) (e : Pte) (a : ℕ) (next : List ℕ)
    → kalloc m ≡ some (taken m a next, a)
    → a == 0 ≡ false
    → kfree end e.pa (with_copy m e.pa a next) ≡ some m'
    → copy_at end page (some e) pt m ≡ some (update pt page (some (copied_entry a)), m', true)
unfolding copy_at replace_page
copy_at-kfree end page pt m m' e a next l z k =
    ap (replace_page end page e.pa pt) (allocated e.pa m a next l z)
    ∙ rw z (ap (replaced (update pt page (some (copied_entry a)))) k)

present_and_user : (e : Pte) → e.u ≡ true → e.v ≡ true → check_valid_page (some e) ≡ true
unfolding check_valid_page
present_and_user e u v = ground (arith, u, v)

-- The handler up to the `kfree` of the old page.
handler-kfree :
    (end : ℕ) (pt : PageTable) (va : ℕ) (m m' : Kmem) (e : Pte) (a : ℕ) (next : List ℕ)
    → IsFault end pt va m e a next
    → kfree end e.pa (with_copy m e.pa a next) ≡ some m'
    → cow_handler end pt va m ≡ some (update pt (va / pgsize) (some (copied_entry a)), m', true)
unfolding cow_handler
handler-kfree end pt va m m' e a next f k =
    let p = free_page end a next m f.valid f.free in
    let above : leb maxva va ≡ false = ground (arith, f.in_range) in
    let zero_va : va == 0 ≡ false = ground (arith, f.not_null) in
    let zero_a : a == 0 ≡ false = ground (arith, p.above, f.valid.kernel) in
    rw (above, zero_va, f.entry, present_and_user e f.user f.present)
      (copy_at-kfree end (va / pgsize) pt m m' e a next
        (kalloc-first m a next f.free p.unreferenced) zero_a k)

copy-IsValid :
    (end pa a : ℕ) (next : List ℕ) (m : Kmem)
    → IsValid end m
    → m.freelist ≡ a ∷ next
    → IsValid end (with_copy m pa a next)
copy-IsValid end pa a next m v e =
    let p = free_page end a next m v e in
    let (m', b, k, v', al) = kalloc-IsValid end m v in
    let w : IsValid end (taken m a next) =
      of_some (λ r. IsValid end r.0) (sym k ∙ kalloc-first m a next e p.unreferenced) v' in
    record { kernel = w.kernel; pages = w.pages; once = w.once }

-- A write fault at an address from 1 up on a valid page of the user that others share, with a valid
-- allocator and a page free: the page is copied byte for byte into a page of its own, which has one
-- reference and is mapped writable; the shared page loses a reference and keeps its bytes, and the
-- allocator stays valid.
pub cow_handler-shared :
    (end : ℕ) (pt : PageTable) (va : ℕ) (m : Kmem) (e : Pte) (a : ℕ) (next : List ℕ) (i : ℕ)
    → IsFault end pt va m e a next
    → 1 < m.refcnt (e.pa / pgsize)
    → i < pgsize
    → (m' : Kmem) × (cow_handler end pt va m
        ≡ some (update pt (va / pgsize) (some (copied_entry a)), m', true))
      × IsValid end m'
      × (a ≢ e.pa)
      × (m'.refcnt (a / pgsize) ≡ 1)
      × (m'.refcnt (e.pa / pgsize) ≡ m.refcnt (e.pa / pgsize) - 1)
      × (m'.bytes (a + i) ≡ m.bytes (e.pa + i))
      × (m'.bytes (e.pa + i) ≡ m.bytes (e.pa + i))
cow_handler-shared end pt va m e a next i f lt h =
    let p = free_page end a next m f.valid f.free in
    let (al, ge, below) = f.page in
    let apart : a / pgsize ≢ e.pa / pgsize =
      λ eq. absurd (omega (arith, ap m.refcnt eq, p.unreferenced, lt)) in
    let c = with_copy m e.pa a next in
    let kept : c.refcnt (e.pa / pgsize) ≡ m.refcnt (e.pa / pgsize) = ground arith in
    let k = kfree-shared end e.pa c f.page (omega (arith, kept, lt)) in
    let (fresh, old) = copied-byte m.bytes a e.pa i p.aligned al apart h in
    (
      drop_count c e.pa,
      handler-kfree end pt va m (drop_count c e.pa) e a next f k,
      kfree-IsValid end e.pa c (drop_count c e.pa) (copy-IsValid end e.pa a next m f.valid f.free)
          k,
      (λ eq. apart (ap (λ n. n / pgsize) eq)),
      ground arith,
      ground (arith, kept),
      fresh,
      old,
    )

-- The same on a page that no other has: it is copied as well, and the old page is freed.
cow_handler-last :
    (end : ℕ) (pt : PageTable) (va : ℕ) (m : Kmem) (e : Pte) (a : ℕ) (next : List ℕ)
    → IsFault end pt va m e a next
    → m.refcnt (e.pa / pgsize) ≡ 1
    → (m' : Kmem) × (cow_handler end pt va m
        ≡ some (update pt (va / pgsize) (some (copied_entry a)), m', true))
      × IsValid end m'
      × (m'.freelist ≡ e.pa ∷ next)
cow_handler-last end pt va m e a next f one =
    let p = free_page end a next m f.valid f.free in
    let apart : a / pgsize ≢ e.pa / pgsize =
      λ eq. absurd (omega (arith, ap m.refcnt eq, p.unreferenced, one)) in
    let c = with_copy m e.pa a next in
    let k = kfree-last end e.pa c f.page (ground arith) in
    (
      with_free c e.pa,
      handler-kfree end pt va m (with_free c e.pa) e a next f k,
      kfree-IsValid end e.pa c (with_free c e.pa) (copy-IsValid end e.pa a next m f.valid f.free) k,
      refl,
    )
