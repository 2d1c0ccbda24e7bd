-- ===== src/Bio/Reads.antt =====
-- `bget` and `bread`: a read returns what the buffers and the disk say is in the block, and changes nothing
-- of it.
use osn_mp.Common.{
  ℕ, ◌+◌, ◌≡◌, refl, sym, ap, ◌∙◌, ◌≢◌, ◌⊎◌, inl, inr, Bool, true, false, ◌||◌, none, some, List,
  [], ◌∷◌, arith, ◌==◌, Bool-cases, Option-cases, some_inj, of_some, All,
}
use mathlib.Core.Path.{subst, ap₂}
use osn_mp.Bio.{Buf, holds, at_index, find_cached, recycled, recycle, bget, fill, bread}
use osn_mp.Bio.Views.{
  Matching-Same, at_index-Matching, Matching-IsValid, IsValid, view-cons, IsClean, cached-inv,
  view-cached, Unique, Blocks, shown, view, cached, holds-eq, Like, Like-refl, Matching,
  Matching-refl,
}

abbrev counted : Buf → Buf
counted x = record x { refcnt = x.refcnt + 1 }

find_cached-inv :
    (dev blockno : ℕ) (x : Buf) (bs : List Buf) (r : List Buf × Buf)
    → find_cached dev blockno (x ∷ bs) ≡ some r
    → ((holds dev blockno x ≡ true) × ((counted x ∷ bs, counted x) ≡ r))
      ⊎ ((holds dev blockno x ≡ false)
          × ((s : List Buf × Buf) × (find_cached dev blockno bs ≡ some s) × ((x ∷ s.0, s.1) ≡ r)))
unfolding find_cached
find_cached-inv dev blockno x bs r = elim (Bool-cases (holds dev blockno x)) [
  | inl e ↦ rw e (λ h. inl (refl, some_inj h))
  | inr e ↦ elim (Option-cases (find_cached dev blockno bs)) [
    | inl n ↦ rw (e, n) (λ h. cc h)
    | inr (s, f) ↦ rw (e, f) (λ h. inr (refl, (s, refl, some_inj h)))
  ]
]

counted-Like : (disk : Blocks) (x : Buf) → Like disk (counted x) x
counted-Like disk x = ((refl, refl, refl), λ c h. absurd (omega (arith, h)))

-- What `find_cached` returns.
abbrev Cached : Blocks → ℕ → ℕ → List Buf → (List Buf × Buf) → Type 0
Cached disk dev blockno bs r =
    Matching disk r.0 bs
    × (shown disk r.1 ≡ view disk bs dev blockno)
    × (r.1.dev ≡ dev)
    × (r.1.blockno ≡ blockno)

find_cached-Cached :
    (disk : Blocks) (dev blockno : ℕ) (bs : List Buf) (r : List Buf × Buf)
    → find_cached dev blockno bs ≡ some r
    → Cached disk dev blockno bs r
unfolding find_cached
find_cached-Cached disk dev blockno [] r h = cc h
find_cached-Cached disk dev blockno (x ∷ bs) r h = elim (find_cached-inv dev blockno x bs r h) [
  | inl (e, q) ↦
      let (d, b) = holds-eq dev blockno x e in
      subst (Cached disk dev blockno (x ∷ bs)) q
        ((counted-Like disk x, Matching-refl disk bs), rw e refl, d, b)
  | inr (e, (s, f, q)) ↦
      let (m, v, kd, kb) = find_cached-Cached disk dev blockno bs s f in
      subst (Cached disk dev blockno (x ∷ bs)) q ((Like-refl disk x, m), rw e v, kd, kb)
]

find_cached-none :
    (dev blockno : ℕ) (bs : List Buf)
    → find_cached dev blockno bs ≡ none
    → cached dev blockno bs ≡ false
unfolding find_cached
find_cached-none dev blockno [] = λ h. refl
find_cached-none dev blockno (x ∷ bs) = elim (Bool-cases (holds dev blockno x)) [
  | inl e ↦ rw e (λ h. cc h)
  | inr e ↦ elim (Option-cases (find_cached dev blockno bs)) [
    | inl n ↦ rw (e, n) (λ h. find_cached-none dev blockno bs n)
    | inr (p, f) ↦ rw (e, f) (λ h. cc h)
  ]
]

recycle-inv :
    (dev blockno : ℕ) (x : Buf) (bs : List Buf) (r : List Buf × Buf)
    → recycle dev blockno (x ∷ bs) ≡ some r
    → ((x.refcnt ≡ 0) × ((recycled dev blockno x ∷ bs, recycled dev blockno x) ≡ r))
      ⊎ ((s : List Buf × Buf) × (recycle dev blockno bs ≡ some s) × ((x ∷ s.0, s.1) ≡ r))
unfolding recycle
recycle-inv dev blockno x bs r = elim (Option-cases (recycle dev blockno bs)) [
  | inr (s, f) ↦ rw (f) (λ h. inr (s, refl, some_inj h))
  | inl n ↦ elim (Bool-cases (x.refcnt == 0)) [
    | inl e ↦ rw (n, e) (λ h. inl (ground (arith, e), some_inj h))
    | inr e ↦ rw (n, e) (λ h. cc h)
  ]
]

-- A buffer that shows what the disk has, before a list that does not hold the block.
view-clean :
    (disk : Blocks) (y : Buf) (bs : List Buf) (d b : ℕ)
    → shown disk y ≡ disk y.dev y.blockno
    → cached d b bs ≡ false
    → view disk (y ∷ bs) d b ≡ disk d b
view-clean disk y bs d b e c = elim (Bool-cases (holds d b y)) [
  | inl h ↦ let (hd, hb) = holds-eq d b y h in rw h (e ∙ ap₂ disk hd hb)
  | inr h ↦ rw h (view-cached disk bs d b c)
]

-- A clean buffer made over to a block that no buffer holds.
view-recycled :
    (disk : Blocks) (dev blockno : ℕ) (x : Buf) (bs : List Buf) (d b : ℕ)
    → shown disk x ≡ disk x.dev x.blockno
    → (x.dev ≢ 0 → cached x.dev x.blockno bs ≡ false)
    → cached dev blockno bs ≡ false
    → d ≢ 0
    → view disk (recycled dev blockno x ∷ bs) d b ≡ view disk (x ∷ bs) d b
view-recycled disk dev blockno x bs d b e u c n = elim (Bool-cases (holds d b x)) [
  | inl h ↦
      let (hd, hb) = holds-eq d b x h in
      let later : cached d b bs ≡ false =
        ap₂ (λ p q. cached p q bs) (sym hd) (sym hb) ∙ u (λ z. n (sym hd ∙ z)) in
      view-clean disk (recycled dev blockno x) bs d b refl later
      ∙ sym (view-clean disk x bs d b e later)
  | inr h ↦ elim (Bool-cases (holds d b (recycled dev blockno x))) [
    | inl k ↦
        let (kd, kb) = holds-eq d b (recycled dev blockno x) k in
        let later : cached d b bs ≡ false = ap₂ (λ p q. cached p q bs) (sym kd) (sym kb) ∙ c in
        view-clean disk (recycled dev blockno x) bs d b refl later
        ∙ sym (view-clean disk x bs d b e later)
    | inr k ↦ rw (h, k) refl
  ]
]

or-inv : (a b : Bool) → (a || b) ≡ true → (a ≡ true) ⊎ (b ≡ true)
or-inv true b h = inl refl
or-inv false b h = inr h

pub or_right : (a b : Bool) → b ≡ true → (a || b) ≡ true
or_right true b h = refl
or_right false b h = h

pub holds_of : (d b : ℕ) (x : Buf) → d ≡ x.dev → b ≡ x.blockno → holds d b x ≡ true
holds_of d b x p q = ground (arith, p, q)

-- What `recycle` returns: no block changes, and only the block asked for is new.
abbrev Recycled : Blocks → ℕ → ℕ → List Buf → (List Buf × Buf) → Type 0
Recycled disk dev blockno bs r =
    ((d b : ℕ) → d ≢ 0 → view disk r.0 d b ≡ view disk bs d b)
    × ((d b : ℕ) → cached d b r.0 ≡ true → (cached d b bs ≡ true) ⊎ ((dev ≡ d) × (blockno ≡ b)))
    × (r.1 ≡ recycled dev blockno r.1)
    × Unique r.0
    × All (IsClean disk) r.0

recycle-Recycled :
    (disk : Blocks) (dev blockno : ℕ) (bs : List Buf) (r : List Buf × Buf)
    → dev ≢ 0
    → Unique bs
    → All (IsClean disk) bs
    → cached dev blockno bs ≡ false
    → recycle dev blockno bs ≡ some r
    → Recycled disk dev blockno bs r
unfolding recycle
recycle-Recycled disk dev blockno [] r n v a c h = cc h
recycle-Recycled disk dev blockno (x ∷ bs) r n (u, v) (k, a) c h =
    let (cx, cbs) = cached-inv dev blockno x bs c in
    elim (recycle-inv dev blockno x bs r h) [
      | inl (z, q) ↦ subst (Recycled disk dev blockno (x ∷ bs)) q (
        λ d b nz. view-recycled disk dev blockno x bs d b (k z) u cbs nz,
        λ d b t. elim (or-inv (holds d b (recycled dev blockno x)) (cached d b bs) t) [
          | inl e ↦ inr (holds-eq d b (recycled dev blockno x) e)
          | inr e ↦ inl (or_right (holds d b x) (cached d b bs) e)
        ],
        refl,
        (λ _. cbs, v),
        (λ _. refl, a),
      )
      | inr (s, f, q) ↦
          let (w, t, e, us, cs) = recycle-Recycled disk dev blockno bs s n v a cbs f in
          subst (Recycled disk dev blockno (x ∷ bs)) q (
            λ d b nz. view-cons disk d b x x bs s.0 (refl, refl, refl) (w d b nz),
            λ d b y. elim (or-inv (holds d b x) (cached d b s.0) y) [
              | inl e ↦ inl (rw e refl)
              | inr e ↦ elim (t d b e) [
                | inl o ↦ inl (or_right (holds d b x) (cached d b bs) o)
                | inr o ↦ inr o
              ]
            ],
            e,
            (
              λ nz. elim (Bool-cases (cached x.dev x.blockno s.0)) [
                | inr o ↦ o
                | inl o ↦ elim (t x.dev x.blockno o) [
                  | inl y ↦ cc (u nz, y)
                  | inr (p, q) ↦ cc (cx, holds_of dev blockno x p q)
                ]
              ],
              us,
            ),
            (k, cs),
          )
    ]

-- A buffer of the block that shows what was in it, in a cache that shows the same as before.
abbrev Got : Blocks → ℕ → ℕ → List Buf → (List Buf × Buf) → Type 0
Got disk dev blockno bs r =
    (r.1.dev ≡ dev)
    × (r.1.blockno ≡ blockno)
    × (shown disk r.1 ≡ view disk bs dev blockno)
    × ((d b : ℕ) → d ≢ 0 → view disk r.0 d b ≡ view disk bs d b)
    × IsValid disk r.0

bget-Got :
    (disk : Blocks) (dev blockno : ℕ) (bs : List Buf) (r : List Buf × Buf)
    → dev ≢ 0
    → IsValid disk bs
    → bget dev blockno bs ≡ some r
    → Got disk dev blockno bs r
unfolding bget
bget-Got disk dev blockno bs r n v = elim (Option-cases (find_cached dev blockno bs)) [
  | inr (s, f) ↦
      rw (f, bget)
        (λ h.
          let (m, e, d, b) = find_cached-Cached disk dev blockno bs s f in
          of_some (Got disk dev blockno bs) h (
            d,
            b,
            e,
            λ d' b' _. (Matching-Same disk s.0 bs m d' b').0,
            Matching-IsValid disk s.0 bs m v,
          ))
  | inl f ↦
      rw (f, bget)
        (λ h.
          let c : cached dev blockno bs ≡ false = find_cached-none dev blockno bs f in
          let (w, _, e, u, cl) = recycle-Recycled disk dev blockno bs r n v.unique v.clean c h in
          (
            ap (λ y. y.dev) e,
            ap (λ y. y.blockno) e,
            ap (shown disk) e ∙ sym (view-cached disk bs dev blockno c),
            w,
            record { unique = u; clean = cl },
          ))
]

fill-Like : (disk : Blocks) (x : Buf) → Like disk (fill disk x) x
fill-Like disk x = elim (Bool-cases x.valid) [
  | inl e ↦ rw e ((refl, refl, refl), λ c. c)
  | inr e ↦ rw e ((refl, refl, refl), λ c z. refl)
]

fill-content : (disk : Blocks) (x : Buf) → (fill disk x).content ≡ shown disk x
fill-content disk x = elim (Bool-cases x.valid) [ inl e ↦ rw e refl | inr e ↦ rw e refl ]

fill-valid : (disk : Blocks) (x : Buf) → (fill disk x).valid ≡ true
fill-valid disk x = elim (Bool-cases x.valid) [ inl e ↦ rw e refl | inr e ↦ rw e refl ]

-- Where no two buffers hold one block and the buffers nobody refers to are clean, a buffer that `bread`
-- returns for a block of a device other than 0 has the content the cache and the disk together show for the
-- block; what they show for any block does not change, and the cache stays as it was in both respects.
pub bread-view :
    (disk : Blocks) (dev blockno : ℕ) (bs bs' : List Buf) (y : Buf)
    → dev ≢ 0
    → IsValid disk bs
    → bread disk dev blockno bs ≡ some (bs', y)
    → (y.content ≡ view disk bs dev blockno)
      × (y.valid ≡ true)
      × (y.dev ≡ dev)
      × (y.blockno ≡ blockno)
      × ((d b : ℕ) → d ≢ 0 → view disk bs' d b ≡ view disk bs d b)
      × IsValid disk bs'
unfolding bread
bread-view disk dev blockno bs bs' y n v = elim (Option-cases (bget dev blockno bs)) [
  | inl f ↦ rw f (λ h. cc h)
  | inr (s, f) ↦ rw f (λ h.
      let (d, b, e, w, v') = bget-Got disk dev blockno bs s n v f in
      let m : Matching disk (at_index s.1.index (fill disk) s.0) s.0 =
        at_index-Matching disk (fill disk) s.1.index s.0 (λ x _. fill-Like disk x) in
      of_some
        (λ r.
          (r.1.content ≡ view disk bs dev blockno)
          × (r.1.valid ≡ true)
          × (r.1.dev ≡ dev)
          × (r.1.blockno ≡ blockno)
          × ((d b : ℕ) → d ≢ 0 → view disk r.0 d b ≡ view disk bs d b)
          × IsValid disk r.0)
        h
        (
          fill-content disk s.1 ∙ e,
          fill-valid disk s.1,
          (fill-Like disk s.1).0.0 ∙ d,
          (fill-Like disk s.1).0.1 ∙ b,
          λ d' b' z.
              (Matching-Same disk (at_index s.1.index (fill disk) s.0) s.0 m d' b').0 ∙ w d' b' z,
          Matching-IsValid disk (at_index s.1.index (fill disk) s.0) s.0 m v',
        ))
]
