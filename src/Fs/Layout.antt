-- ===== src/Fs/Layout.antt =====
-- kernel/fs.h: the sizes, the super block and the places of the blocks. A disk gives the bytes of each block,
-- as `bread` shows them to the running transaction.
use osn_mp.Common.{ℕ, ◌+◌, ◌*◌, ◌/◌, ◌≡◌, refl, ◌≢◌, true, false, arith, ◌==◌, if◌then◌else◌}

abbrev pub bsize : ℕ
bsize = 1024

abbrev pub ndirect : ℕ
ndirect = 12

abbrev pub nindirect : ℕ
nindirect = bsize / 4

abbrev pub maxfile : ℕ
maxfile = ndirect + nindirect

-- Bits of a bitmap block; inodes of a block.
abbrev pub bpb : ℕ
bpb = bsize * 8

abbrev pub ipb : ℕ
ipb = bsize / 64

-- `struct superblock`.
pub record Superblock : Type 0 where
  pub magic : ℕ
  pub size : ℕ
  pub nblocks : ℕ
  pub ninodes : ℕ
  pub nlog : ℕ
  pub logstart : ℕ
  pub inodestart : ℕ
  pub bmapstart : ℕ

-- BBLOCK and IBLOCK.
abbrev pub bitmap_block : ℕ → Superblock → ℕ
bitmap_block b sb = b / bpb + sb.bmapstart

abbrev pub inode_block : ℕ → Superblock → ℕ
inode_block i sb = i / ipb + sb.inodestart

abbrev pub Block : Type 0
Block = ℕ → ℕ

abbrev pub Disk : Type 0
Disk = ℕ → Block

-- A store to one byte, and a change of one block by `log_write`.
abbrev pub store_byte : ℕ → ℕ → Block → Block
store_byte i v f j = if j == i then v else f j

abbrev pub log_block : ℕ → Block → Disk → Disk
log_block b f disk c = if c == b then f else disk c

pub log_block_self : (b : ℕ) (f : Block) (disk : Disk) → log_block b f disk b ≡ f
log_block_self b f disk = let e : (b == b) ≡ true = ground arith in rw e refl

pub log_block-ne : (b c : ℕ) (f : Block) (disk : Disk) → c ≢ b → log_block b f disk c ≡ disk c
log_block-ne b c f disk n = let e : (c == b) ≡ false = ground (arith, n) in rw e refl
