-- ===== src/Fs/Bitmap/Marks.antt =====
-- The set of the blocks in use, and what taking and freeing a block does to it.
use osn_mp.Common.{
  ℕ, ◌/◌, ◌%◌, ◌<◌, ◌≡◌, refl, sym, ap, ◌∙◌, ◌≢◌, inl, inr, true, false, none, some, arith, ◌==◌,
  ==_iff, Bool-cases,
}
use mathlib.Core.Path.{ap₂}
use osn_mp.Fs.Layout.{
  bpb, Superblock, bitmap_block, Block, Disk, store_byte, log_block, log_block_self, log_block-ne,
}
use osn_mp.Fs.Bitmap.Bits.{bit-raise_bit, bit-raise_bit_ne, bit-clear_bit, bit-clear_bit_ne}
use osn_mp.Fs.Bitmap.{bit, raise_bit, clear_bit, bzero, take_block, bfree}

-- The bit of a block: 1 where it is in use.
abbrev pub used : Superblock → Disk → ℕ → ℕ
used sb disk b = bit (disk (bitmap_block b sb) (b % bpb / 8)) (b % 8)

-- Bits with different numbers stand in different blocks, bytes or places.
places :
    (sb : Superblock) (b c : ℕ)
    → bitmap_block c sb ≡ bitmap_block b sb
    → c % bpb / 8 ≡ b % bpb / 8
    → c % 8 ≡ b % 8
    → c ≡ b
places sb b c h k l = omega (arith, h, k, l)

-- A change of the bit of `b` in its byte.
used-store :
    (sb : Superblock) (disk : Disk) (b c v : ℕ)
    → ((j : ℕ) → j ≢ b % 8 → bit v j ≡ bit (disk (bitmap_block b sb) (b % bpb / 8)) j)
    → c ≢ b
    → used sb
        (log_block (bitmap_block b sb) (store_byte (b % bpb / 8) v (disk (bitmap_block b sb))) disk)
        c
      ≡ used sb disk c
used-store sb disk b c v h n = elim (Bool-cases (bitmap_block c sb == bitmap_block b sb)) [
  | inr e ↦ rw e refl
  | inl e ↦ elim (Bool-cases (c % bpb / 8 == b % bpb / 8)) [
    | inr f ↦ rw (e, f) (ap (λ q. bit (disk q (c % bpb / 8)) (c % 8)) (sym ((==_iff _ _).0 e)))
    | inl f ↦
        let eb : bitmap_block c sb ≡ bitmap_block b sb = (==_iff _ _).0 e in
        let ef : c % bpb / 8 ≡ b % bpb / 8 = (==_iff _ _).0 f in
        rw (e, f)
          (h (c % 8) (λ k. n (places sb b c eb ef k))
            ∙ ap₂ (λ q r. bit (disk q r) (c % 8)) (sym eb) (sym ef))
  ]
]

used-store_self :
    (sb : Superblock) (disk : Disk) (b v : ℕ)
    → used sb
        (log_block (bitmap_block b sb) (store_byte (b % bpb / 8) v (disk (bitmap_block b sb))) disk)
        b
      ≡ bit v (b % 8)
used-store_self sb disk b v = rw (same (bitmap_block b sb), same (b % bpb / 8)) refl
  where
    same : (n : ℕ) → (n == n) ≡ true
    same n = ground arith

-- The bitmap's own blocks are in use, as mkfs leaves them, and block 0.
pub record IsValid (sb : Superblock) (disk : Disk) : Type 0 where
  pub boot : used sb disk 0 ≡ 1
  pub maps : (c : ℕ) → c < sb.size → used sb disk (bitmap_block c sb) ≡ 1

-- A block in use, zeroed; no other block of the file system is freed, taken or, but for the bitmap, changed.
abbrev pub Took : Superblock → Disk → Disk → ℕ → Type 0
Took sb disk disk' b =
    (used sb disk b ≡ 0)
    × (used sb disk' b ≡ 1)
    × ((j : ℕ) → disk' b j ≡ 0)
    × ((c : ℕ) → c < sb.size → c ≢ b → used sb disk' c ≡ used sb disk c)
    × ((c : ℕ) → c ≢ b → c ≢ bitmap_block b sb → disk' c ≡ disk c)

used-ne :
    (sb : Superblock) (disk : Disk) (b c : ℕ) (f : Block)
    → bitmap_block c sb ≢ b
    → used sb (log_block b f disk) c ≡ used sb disk c
used-ne sb disk b c f n =
    ap (λ g. bit (g (c % bpb / 8)) (c % 8)) (log_block-ne b (bitmap_block c sb) f disk n)

-- A block that is not in use is no block of the bitmap.
no_map :
    (sb : Superblock) (disk : Disk) (b c : ℕ)
    → IsValid sb disk
    → c < sb.size
    → used sb disk b ≡ 0
    → bitmap_block c sb ≢ b
no_map sb disk b c v l z = λ e. cc (v.maps c l, ap (used sb disk) e, z)

pub take_block-Took :
    (sb : Superblock) (disk : Disk) (b : ℕ)
    → IsValid sb disk
    → b < sb.size
    → used sb disk b ≡ 0
    → Took sb disk (take_block sb b disk) b
unfolding take_block bzero
take_block-Took sb disk b v l z =
    let map_block : Block = disk (bitmap_block b sb) in
    let byte : ℕ = raise_bit (map_block (b % bpb / 8)) (b % 8) in
    let marked : Disk =
      log_block (bitmap_block b sb) (store_byte (b % bpb / 8) byte map_block) disk in
    (
      z,
      used-ne sb marked b b (λ _. 0) (no_map sb disk b b v l z)
          ∙ used-store_self sb disk b byte
          ∙ bit-raise_bit (b % 8) (map_block (b % bpb / 8)) z,
      λ j. ap (λ f. f j) (log_block_self b (λ _. 0) marked),
      λ c m n.
          used-ne sb marked b c (λ _. 0) (no_map sb disk b c v m z)
          ∙ used-store sb disk b c byte
              (λ j k. bit-raise_bit_ne (b % 8) j (map_block (b % bpb / 8)) z k) n,
      λ c n m. log_block-ne b c (λ _. 0) marked n ∙ log_block-ne (bitmap_block b sb) c _ disk m,
    )

-- `bfree` of a block in use frees it and no other and changes no block but that of its bit; of a block that is
-- not in use it panics.
bfree-frees :
    (sb : Superblock) (disk : Disk) (b : ℕ)
    → (used sb disk b ≡ 0 → bfree sb b disk ≡ none)
      × (used sb disk b ≡ 1
          → (disk' : Disk) × (bfree sb b disk ≡ some disk')
            × (used sb disk' b ≡ 0)
            × ((c : ℕ) → c ≢ b → used sb disk' c ≡ used sb disk c)
            × ((c : ℕ) → c ≢ bitmap_block b sb → disk' c ≡ disk c))
unfolding bfree
bfree-frees sb disk b =
    let map_block : Block = disk (bitmap_block b sb) in
    let byte : ℕ = clear_bit (map_block (b % bpb / 8)) (b % 8) in
    (
      λ z. let e : (used sb disk b == 0) ≡ true = ground (arith, z) in rw e refl,
      λ z.
          let e : (used sb disk b == 0) ≡ false = ground (arith, z) in
          (
            log_block (bitmap_block b sb) (store_byte (b % bpb / 8) byte map_block) disk,
            rw e refl,
            used-store_self sb disk b byte ∙ bit-clear_bit (b % 8) (map_block (b % bpb / 8)) z,
            λ c n.
                used-store sb disk b c byte
                  (λ j k. bit-clear_bit_ne (b % 8) j (map_block (b % bpb / 8)) z k) n,
            λ c n. log_block-ne (bitmap_block b sb) c _ disk n,
          ),
    )
