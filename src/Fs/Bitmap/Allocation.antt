-- ===== src/Fs/Bitmap/Allocation.antt =====
-- Which block `balloc` takes.
use osn_mp.Common.{
  ℕ, zero, suc, ◌+◌, ◌-◌, ◌*◌, ◌/◌, ◌%◌, ◌≤◌, ◌<◌, ◌≡◌, refl, ap, ◌∙◌, ◌≢◌, ◌⊎◌, inl, inr, true,
  false, Option, none, some, arith, ltb, ◌==◌, ltb→lt, ==_iff, Bool-cases,
}
use mathlib.Core.Path.{ap₂, subst}
use osn_mp.Fs.Layout.{bpb, Superblock, bitmap_block, Block, Disk}
use osn_mp.Fs.Bitmap.Bits.{bit-cases}
use osn_mp.Fs.Bitmap.{bit, scan_bits, take_block, scan_blocks, balloc}
use osn_mp.Fs.Bitmap.Marks.{used, IsValid, Took, take_block-Took}

-- What the scan of one block finds.
abbrev Found : Superblock → Block → ℕ → ℕ → ℕ → Option ℕ → Type 0
Found sb f b bi n (some i) =
    (bi ≤ i)
    × (i < bi + n)
    × (b + i < sb.size)
    × (bit (f (i / 8)) (i % 8) ≡ 0)
    × ((j : ℕ) → bi ≤ j → j < i → bit (f (j / 8)) (j % 8) ≡ 1)
Found sb f b bi n none =
    (j : ℕ) → bi ≤ j → j < bi + n → b + j < sb.size → bit (f (j / 8)) (j % 8) ≡ 1

-- A set bit before the rest of the block.
Found-later :
    (sb : Superblock) (f : Block) (b bi n : ℕ) (o : Option ℕ)
    → bit (f (bi / 8)) (bi % 8) ≡ 1
    → Found sb f b (suc bi) n o
    → Found sb f b bi (suc n) o
Found-later sb f b bi n none h r = λ j l m s. elim (Bool-cases (j == bi)) [
  | inl e ↦ subst (λ k. bit (f (k / 8)) (k % 8) ≡ 1) (ground (arith, e)) h
  | inr e ↦ r j (ground (arith, e)) (omega arith) s
]
Found-later sb f b bi n (some i) h (l, m, s, z, r) = (
  omega arith,
  omega arith,
  s,
  z,
  λ j p q. elim (Bool-cases (j == bi)) [
    | inl e ↦ subst (λ k. bit (f (k / 8)) (k % 8) ≡ 1) (ground (arith, e)) h
    | inr e ↦ r j (ground (arith, e)) q
  ],
)

scan_bits-Found :
    (sb : Superblock) (f : Block) (b bi n : ℕ) → Found sb f b bi n (scan_bits sb f b bi n)
unfolding scan_bits
scan_bits-Found sb f b bi zero = λ j l m s. absurd (omega arith)
scan_bits-Found sb f b bi (suc n) = elim (Bool-cases (ltb (b + bi) sb.size)) [
  | inr e ↦ rw e (λ j l m s. absurd (ground (arith, e)))
  | inl e ↦ elim (bit-cases (f (bi / 8)) (bi % 8)) [
    | inl z ↦
        let y : (bit (f (bi / 8)) (bi % 8) == 0) ≡ true = (==_iff _ _).1 z in
        rw (e, y) (omega arith, omega arith, ltb→lt _ _ e, z, λ j p q. absurd (omega arith))
    | inr o ↦
        let y : (bit (f (bi / 8)) (bi % 8) == 0) ≡ false = ground (arith, o) in
        rw (e, y)
          (Found-later sb f b bi n (scan_bits sb f b (suc bi) n) o
            (scan_bits-Found sb f b (suc bi) n))
  ]
]

used-at :
    (sb : Superblock) (disk : Disk) (b bi : ℕ)
    → b % bpb ≡ 0
    → bi < bpb
    → used sb disk (b + bi) ≡ bit (disk (bitmap_block b sb) (bi / 8)) (bi % 8)
used-at sb disk b bi z l =
    let p : bitmap_block (b + bi) sb ≡ bitmap_block b sb = omega (arith, z, l) in
    let q : (b + bi) % bpb / 8 ≡ bi / 8 = omega (arith, z, l) in
    let r : (b + bi) % 8 ≡ bi % 8 = omega (arith, z, l) in
    ap₂ (λ x y. bit x y) (ap₂ (λ x y. disk x y) p q) r

-- The first clear bit from block `b` on, or none before block `e`.
pub data Allocates (sb : Superblock) (disk : Disk) (b e : ℕ) : Disk × ℕ → Type 0 where
  found :
      (c : ℕ)
      → b ≤ c
      → c < sb.size
      → used sb disk c ≡ 0
      → ((j : ℕ) → b ≤ j → j < c → used sb disk j ≡ 1)
      → Allocates sb disk b e (take_block sb c disk, c)
  full :
      ((j : ℕ) → b ≤ j → j < e → j < sb.size → used sb disk j ≡ 1) → Allocates sb disk b e (disk, 0)

Allocates-later :
    (sb : Superblock) (disk : Disk) (b e : ℕ) (r : Disk × ℕ)
    → ((j : ℕ) → b ≤ j → j < b + bpb → j < sb.size → used sb disk j ≡ 1)
    → Allocates sb disk (b + bpb) e r
    → Allocates sb disk b e r
Allocates-later sb disk b e r h (found c l s z f) = found c (omega arith) s z (λ j p q.
    elim (Bool-cases (ltb j (b + bpb))) [
      | inl t ↦ h j p (ltb→lt _ _ t) (omega arith)
      | inr t ↦ f j (ground (arith, t)) q
    ])
Allocates-later sb disk b e r h (full f) = full (λ j p q s. elim (Bool-cases (ltb j (b + bpb))) [
  | inl t ↦ h j p (ltb→lt _ _ t) s
  | inr t ↦ f j (ground (arith, t)) q s
])

-- The bits of a block of the bitmap, as numbers of blocks.
from_bits :
    (sb : Superblock) (disk : Disk) (b m : ℕ)
    → b % bpb ≡ 0
    → m ≤ bpb
    → ((j : ℕ)
        → 0 ≤ j
        → j < m
        → b + j < sb.size
        → bit (disk (bitmap_block b sb) (j / 8)) (j % 8) ≡ 1)
    → (j : ℕ) → b ≤ j
    → j < b + m
    → j < sb.size
    → used sb disk j ≡ 1
from_bits sb disk b m z l h j p q s =
    let e : b + (j - b) ≡ j = omega arith in
    subst (λ k. used sb disk k ≡ 1) e
      (used-at sb disk b (j - b) z (omega arith)
        ∙ h (j - b) (omega arith) (omega arith) (omega arith))

scan_blocks-Allocates :
    (sb : Superblock) (b n : ℕ) (disk : Disk)
    → b % bpb ≡ 0
    → Allocates sb disk b (b + n * bpb) (scan_blocks sb b n disk)
unfolding scan_blocks
scan_blocks-Allocates sb b zero disk z = full (λ j p q s. absurd (omega arith))
scan_blocks-Allocates sb b (suc n) disk z =
    from_scan (scan_blocks-Allocates sb (b + bpb) n disk (omega (arith, z)))
      (scan_bits sb (disk (bitmap_block b sb)) b 0 bpb)
      (scan_bits-Found sb (disk (bitmap_block b sb)) b 0 bpb)
  where
    from_scan :
        Allocates sb disk (b + bpb) (b + bpb + n * bpb) (scan_blocks sb (b + bpb) n disk)
        → (o : Option ℕ) → Found sb (disk (bitmap_block b sb)) b 0 bpb o
        → Allocates sb disk b (b + suc n * bpb) (elim o [
          | some bi ↦ (take_block sb (b + bi) disk, b + bi)
          | none ↦ scan_blocks sb (b + bpb) n disk
        ])
    from_scan r none h =
        let e : b + bpb + n * bpb ≡ b + suc n * bpb = omega arith in
        Allocates-later sb disk b (b + suc n * bpb) (scan_blocks sb (b + bpb) n disk)
          (from_bits sb disk b bpb z (omega arith) h)
          (subst (λ k. Allocates sb disk (b + bpb) k (scan_blocks sb (b + bpb) n disk)) e r)
    from_scan r (some i) (_, l, s, c, f) =
        found (b + i) (omega arith) s (used-at sb disk b i z l ∙ c)
          (λ j p q. from_bits sb disk b i z (omega arith) (λ k x y w. f k x y) j p q (omega arith))

from_first :
    (sb : Superblock) (disk : Disk)
    → IsValid sb disk
    → (e : ℕ) → sb.size ≤ e
    → (r : Disk × ℕ) → Allocates sb disk 0 e r
    → ((r.1 ≢ 0)
        × (r.1 < sb.size)
        × ((j : ℕ) → j < r.1 → used sb disk j ≡ 1)
        × Took sb disk r.0 r.1)
      ⊎ ((r.1 ≡ 0) × (r.0 ≡ disk) × ((j : ℕ) → j < sb.size → used sb disk j ≡ 1))
from_first sb disk v e h r (found c l s z f) = inl (
  λ q. cc (ap (used sb disk) q, z, v.boot),
  s,
  λ j p. f j (omega arith) p,
  take_block-Took sb disk c v s z,
)
from_first sb disk v e h r (full f) = inr (refl, refl, λ j p. f j (omega arith) (omega arith) p)

-- Where the bitmap marks its own blocks and block 0 as in use, `balloc` either takes the first block of the
-- file system that is not in use, zeroes it and frees, takes and changes no other but the bitmap; or it
-- returns 0, every block is in use, and nothing changes.
pub balloc-Took :
    (sb : Superblock) (disk : Disk)
    → IsValid sb disk
    → (let (disk', b) = balloc sb disk in
        ((b ≢ 0) × (b < sb.size) × ((j : ℕ) → j < b → used sb disk j ≡ 1) × Took sb disk disk' b)
        ⊎ ((b ≡ 0) × (disk' ≡ disk) × ((j : ℕ) → j < sb.size → used sb disk j ≡ 1)))
unfolding balloc
balloc-Took sb disk v =
    from_first sb disk v (0 + (sb.size + (bpb - 1)) / bpb * bpb) (omega arith) (balloc sb disk)
      (scan_blocks-Allocates sb 0 ((sb.size + (bpb - 1)) / bpb) disk refl)
