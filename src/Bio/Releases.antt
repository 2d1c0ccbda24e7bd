-- ===== src/Bio/Releases.antt =====
-- `brelse` keeps what the cache shows, and the order of the list.
use osn_mp.Common.{
  ℕ, ◌-◌, ◌≡◌, refl, sym, ap, ◌∙◌, ◌≢◌, inl, inr, true, false, ◌||◌, some, List, [], ◌∷◌, arith,
  ◌==◌, Bool-cases, some_inj, All,
}
use mathlib.Core.Path.{subst, ap₂}
use osn_mp.Bio.Reads.{holds_of, or_right}
use osn_mp.Bio.{Buf, put_back, brelse, at_index, holds, find_index, unlink}
use osn_mp.Bio.Views.{
  Matching-Same, at_index-Matching, Matching-IsValid, IsValid, Matching, Blocks, shown, view,
  cached, Unique, IsClean, holds-eq, cached-inv, view-cons,
}

view-hit :
    (disk : Blocks) (x : Buf) (bs : List Buf) (d b : ℕ)
    → holds d b x ≡ true
    → view disk (x ∷ bs) d b ≡ shown disk x
view-hit disk x bs d b h = rw h refl

view-miss :
    (disk : Blocks) (x : Buf) (bs : List Buf) (d b : ℕ)
    → holds d b x ≡ false
    → view disk (x ∷ bs) d b ≡ view disk bs d b
view-miss disk x bs d b h = rw h refl

find_index-cached :
    (i d b : ℕ) (x : Buf) (bs : List Buf)
    → find_index i bs ≡ some x
    → holds d b x ≡ true
    → cached d b bs ≡ true
find_index-cached i d b x [] = λ f h. cc f
find_index-cached i d b x (y ∷ bs) = elim (Bool-cases (y.index == i)) [
  | inl e ↦
      rw e
        (λ f h. subst (λ z. (holds d b z || cached d b bs) ≡ true) (sym (some_inj f)) (rw h refl))
  | inr e ↦ rw e (λ f h. or_right (holds d b y) (cached d b bs) (find_index-cached i d b x bs f h))
]

unlink-cached :
    (i d b : ℕ) (bs : List Buf) → cached d b bs ≡ false → cached d b (unlink i bs) ≡ false
unlink-cached i d b [] c = refl
unlink-cached i d b (y ∷ bs) c =
    let (h, r) = cached-inv d b y bs c in
    elim (Bool-cases (y.index == i)) [
      | inl e ↦ rw e r
      | inr e ↦ rw (e, h) (unlink-cached i d b bs r)
    ]

unlink-Unique : (i : ℕ) (bs : List Buf) → Unique bs → Unique (unlink i bs)
unlink-Unique i [] u = tt
unlink-Unique i (y ∷ bs) (u, v) = elim (Bool-cases (y.index == i)) [
  | inl e ↦ rw e v
  | inr e ↦ rw e (λ n. unlink-cached i y.dev y.blockno bs (u n), unlink-Unique i bs v)
]

unlink-IsClean :
    (disk : Blocks) (i : ℕ) (bs : List Buf)
    → All (IsClean disk) bs
    → All (IsClean disk) (unlink i bs)
unlink-IsClean disk i [] a = tt
unlink-IsClean disk i (y ∷ bs) (k, a) = elim (Bool-cases (y.index == i)) [
  | inl e ↦ rw e a
  | inr e ↦ rw e (k, unlink-IsClean disk i bs a)
]

-- The buffers before the one with the index do not hold its block.
apart :
    (i d b : ℕ) (x y : Buf) (bs : List Buf)
    → find_index i bs ≡ some x
    → (y.dev ≢ 0 → cached y.dev y.blockno bs ≡ false)
    → d ≢ 0
    → holds d b x ≡ true
    → holds d b y ≡ false
apart i d b x y bs f u n hx = elim (Bool-cases (holds d b y)) [
  | inr e ↦ e
  | inl e ↦
      let (p, q) = holds-eq d b y e in
      cc (
        find_index-cached i d b x bs f hx,
        ap₂ (λ k l. cached k l bs) (sym p) (sym q) ∙ u (λ z. n (sym p ∙ z)),
      )
]

unlink-front :
    (i : ℕ) (x : Buf) (bs : List Buf)
    → find_index i bs ≡ some x
    → Unique bs
    → x.dev ≢ 0
    → cached x.dev x.blockno (unlink i bs) ≡ false
unlink-front i x [] = λ f u n. refl
unlink-front i x (y ∷ bs) = elim (Bool-cases (y.index == i)) [
  | inl e ↦
      rw e (λ f (u, _) n.
        subst (λ z. (z.dev ≢ 0) → cached z.dev z.blockno bs ≡ false) (some_inj f) u n)
  | inr e ↦ rw e (λ f (u, v) n.
      rw (apart i x.dev x.blockno x y bs f u n (holds_of x.dev x.blockno x refl refl))
        (unlink-front i x bs f v n))
]

unlink-view :
    (disk : Blocks) (i : ℕ) (x : Buf) (bs : List Buf) (d b : ℕ)
    → find_index i bs ≡ some x
    → Unique bs
    → d ≢ 0
    → view disk (x ∷ unlink i bs) d b ≡ view disk bs d b
unlink-view disk i x [] d b = λ f u n. cc f
unlink-view disk i x (y ∷ bs) d b = elim (Bool-cases (y.index == i)) [
  | inl e ↦ rw e (λ f u n. ap (λ z. view disk (z ∷ bs) d b) (sym (some_inj f)))
  | inr e ↦ rw e (λ f (u, v) n. elim (Bool-cases (holds d b x)) [
    | inl h ↦
        view-hit disk x (y ∷ unlink i bs) d b h
        ∙ sym (view-hit disk x (unlink i bs) d b h)
        ∙ (unlink-view disk i x bs d b f v n
            ∙ sym (view-miss disk y bs d b (apart i d b x y bs f u n h)))
    | inr h ↦
        view-miss disk x (y ∷ unlink i bs) d b h
        ∙ view-cons disk d b y y bs (unlink i bs) (refl, refl, refl)
            (sym (view-miss disk x (unlink i bs) d b h) ∙ unlink-view disk i x bs d b f v n)
  ])
]

-- A list without a buffer, and the buffer before it with no references left.
front-IsValid :
    (disk : Blocks) (i : ℕ) (x : Buf) (bs : List Buf)
    → find_index i bs ≡ some x
    → shown disk x ≡ disk x.dev x.blockno
    → IsValid disk bs
    → IsValid disk (record x { refcnt = 0 } ∷ unlink i bs)
front-IsValid disk i x bs f c v = record {
  unique = (unlink-front i x bs f v.unique, unlink-Unique i bs v.unique);
  clean = (λ _. c, unlink-IsClean disk i bs v.clean);
}

abbrev dropped : Buf → Buf
dropped x = record x { refcnt = x.refcnt - 1 }

-- The release of a buffer with references, which shows what the disk has when the last reference goes, does
-- not change what the cache and the disk show for any block of a device other than 0, and keeps the cache as
-- `bread` needs it.
pub brelse-view :
    (disk : Blocks) (i : ℕ) (x : Buf) (bs : List Buf)
    → find_index i bs ≡ some x
    → (x.refcnt ≡ 1 → shown disk x ≡ disk x.dev x.blockno)
    → x.refcnt ≢ 0
    → IsValid disk bs
    → ((d b : ℕ) → d ≢ 0 → view disk (brelse i bs) d b ≡ view disk bs d b)
      × IsValid disk (brelse i bs)
unfolding brelse put_back
brelse-view disk i x bs f c n v = elim (Bool-cases (x.refcnt - 1 == 0)) [
  | inl e ↦
      rw (f, e)
        (
          λ d b z. unlink-view disk i x bs d b f v.unique z,
          front-IsValid disk i x bs f (c (ground (arith, e, n))) v,
        )
  | inr e ↦
      let m : Matching disk (at_index i dropped bs) bs = at_index-Matching disk dropped i bs (λ y g.
        (
          (refl, refl, refl),
          λ _ z.
              let same : x.refcnt ≡ y.refcnt = ap (λ t. t.refcnt) (some_inj (sym f ∙ g)) in
              absurd (ground (arith, e, z, same)),
        )) in
      rw (f, e)
        (
          λ d b z. (Matching-Same disk (at_index i dropped bs) bs m d b).0,
          Matching-IsValid disk (at_index i dropped bs) bs m v,
        )
]
