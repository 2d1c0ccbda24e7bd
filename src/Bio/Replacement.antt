-- ===== src/Bio/Replacement.antt =====
-- Which buffer `bget` takes for a block that no buffer holds.
use osn_mp.Common.{
  ℕ, ◌≡◌, refl, ◌≢◌, true, false, none, some, List, [], ◌∷◌, ◌++◌, arith, ◌==◌, All,
}
use osn_mp.Bio.{Buf, find_cached, recycled, recycle, bget}
use osn_mp.Bio.Views.{cached, cached-inv}

abbrev pub IsReferenced : Buf → Type 0
IsReferenced x = x.refcnt ≢ 0

recycle-none :
    (dev blockno : ℕ) (bs : List Buf) → All IsReferenced bs → recycle dev blockno bs ≡ none
unfolding recycle
recycle-none dev blockno [] a = refl
recycle-none dev blockno (x ∷ bs) (n, a) =
    let e : x.refcnt == 0 ≡ false = ground (arith, n) in rw (recycle-none dev blockno bs a, e) refl

recycle-last :
    (dev blockno : ℕ) (before after : List Buf) (x : Buf)
    → x.refcnt ≡ 0
    → All IsReferenced after
    → recycle dev blockno (before ++ x ∷ after)
      ≡ some (before ++ recycled dev blockno x ∷ after, recycled dev blockno x)
unfolding recycle
recycle-last dev blockno [] after x z a =
    let e : x.refcnt == 0 ≡ true = ground (arith, z) in
    rw (recycle-none dev blockno after a, e) refl
recycle-last dev blockno (y ∷ before) after x z a =
    rw (recycle-last dev blockno before after x z a) refl

find_cached-miss :
    (dev blockno : ℕ) (bs : List Buf)
    → cached dev blockno bs ≡ false
    → find_cached dev blockno bs ≡ none
unfolding find_cached
find_cached-miss dev blockno [] c = refl
find_cached-miss dev blockno (x ∷ bs) c =
    let (h, r) = cached-inv dev blockno x bs c in rw (h, find_cached-miss dev blockno bs r) refl

-- For a block that no buffer holds, `bget` takes the last buffer of the list without references, and so,
-- since a release moves a buffer to the front, the one released longest ago; it panics where every buffer
-- has references.
bget-last :
    (dev blockno : ℕ) (before after : List Buf) (x : Buf)
    → cached dev blockno (before ++ x ∷ after) ≡ false
    → All IsReferenced after
    → (x.refcnt ≡ 0
        → bget dev blockno (before ++ x ∷ after)
          ≡ some (before ++ recycled dev blockno x ∷ after, recycled dev blockno x))
      × (All IsReferenced (before ++ x ∷ after) → bget dev blockno (before ++ x ∷ after) ≡ none)
unfolding bget
bget-last dev blockno before after x c a = (
  λ z.
      rw (find_cached-miss dev blockno (before ++ x ∷ after) c, bget)
        (recycle-last dev blockno before after x z a),
  λ r.
      rw (find_cached-miss dev blockno (before ++ x ∷ after) c, bget)
        (recycle-none dev blockno (before ++ x ∷ after) r),
)
