-- ===== src/Fs/Bitmap.antt =====
-- kernel/fs.c: the allocator of blocks. `sb.size` is below 2 ^ 31, so that the counter `b` does not wrap.
pub mod Bits
pub mod Marks
pub mod Allocation
use osn_mp.Common.{
  ℕ, zero, suc, ◌+◌, ◌-◌, ◌*◌, ◌/◌, ◌%◌, ◌^◌, ◌≤◌, ◌<◌, min, ◌≡◌, refl, sym, ap, ◌∙◌, ◌≢◌, ◌↔◌, ◌⊎◌,
  inl, inr, Bool, true, false, not, ◌&&◌, ◌||◌, Option, none, some, List, [], ◌∷◌, ◌++◌, map, arith,
  ltb, leb, ◌==◌, if◌then◌else◌, points_to, ltb→lt, lt→ltb, ==_iff, Bool-cases, Option-cases,
  some_inj, of_some, length, get_elem?, get_or, set, modify, map_idx, take, drop, replicate, All,
  length-append, length-set, length-modify, length-map_idx, length-replicate, get_elem?-eq-get_or,
  get_or-set_self, get_or-set_ne, get_elem?-modify_self, get_elem?-modify_ne, get_elem?-map_idx,
  get_elem?-modify, get_elem?-set, get_elem?-set_self, get_elem?-set_ne, take-append_le,
  take-append_add, take-map, take_all, length-map,
}
use osn_mp.Fs.Layout.{bsize, bpb, Superblock, bitmap_block, Block, Disk, store_byte, log_block}

-- `byte & (1 << k)`, not 0 or 0, and `byte | m` where the bit is clear and `byte & ~m` where it is set.
abbrev pub bit : ℕ → ℕ → ℕ
bit byte k = byte / 2 ^ k % 2

abbrev pub raise_bit : ℕ → ℕ → ℕ
raise_bit byte k = byte + 2 ^ k

abbrev pub clear_bit : ℕ → ℕ → ℕ
clear_bit byte k = byte - 2 ^ k

unfoldable pub bzero : ℕ → Disk → Disk
bzero b disk = log_block b (λ _. 0) disk

-- The inner loop of `balloc`, from `bi` on: the first clear bit.
unfoldable pub scan_bits : Superblock → Block → ℕ → ℕ → ℕ → Option ℕ
scan_bits sb f b bi zero = none
scan_bits sb f b bi (suc n) =
    let rest = scan_bits sb f b (suc bi) n in
    if ltb (b + bi) sb.size then if bit (f (bi / 8)) (bi % 8) == 0 then some bi else rest else none

-- The bit of a block is set in its bitmap block, and the block zeroed.
unfoldable pub take_block : Superblock → ℕ → Disk → Disk
unfolding bzero
take_block sb b disk =
    let f = disk (bitmap_block b sb) in
    let i = b % bpb / 8 in
    bzero b (log_block (bitmap_block b sb) (store_byte i (raise_bit (f i) (b % 8)) f) disk)

-- The outer loop, from block `b` on.
unfoldable pub scan_blocks : Superblock → ℕ → ℕ → Disk → Disk × ℕ
unfolding scan_bits take_block
scan_blocks sb b zero disk = (disk, 0)
scan_blocks sb b (suc n) disk = elim (scan_bits sb (disk (bitmap_block b sb)) b 0 bpb) [
  | some bi ↦ (take_block sb (b + bi) disk, b + bi)
  | none ↦ scan_blocks sb (b + bpb) n disk
]

-- The number of bitmap blocks is fuel enough: after it `b` is past `sb.size`.
unfoldable pub balloc : Superblock → Disk → Disk × ℕ
unfolding scan_blocks
balloc sb disk = scan_blocks sb 0 ((sb.size + (bpb - 1)) / bpb) disk

-- `none` is the panic "freeing free block".
unfoldable pub bfree : Superblock → ℕ → Disk → Option Disk
bfree sb b disk =
    let f = disk (bitmap_block b sb) in
    let i = b % bpb / 8 in
    if bit (f i) (b % 8) == 0
    then none
    else some (log_block (bitmap_block b sb) (store_byte i (clear_bit (f i) (b % 8)) f) disk)
