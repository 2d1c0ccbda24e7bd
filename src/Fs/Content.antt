-- ===== src/Fs/Content.antt =====
-- kernel/fs.c: the blocks of an inode, and its bytes. An inode in hand is locked; the state is the disk and
-- the inode.
pub mod Mapping
use osn_mp.Common.{
  ℕ, ◌-◌, ◌*◌, false, ◌&&◌, Option, none, some, List, [], ◌∷◌, map, ltb, ◌==◌, if◌then◌else◌,
  get_elem?, get_or, set, take,
}
use osn_mp.Fs.Layout.{bsize, ndirect, nindirect, Superblock, Block, Disk, log_block}
use osn_mp.Fs.Bytes.{le32, of_le, store_bytes, fetch_bytes}
use osn_mp.Fs.Bitmap.{balloc, bfree}
use osn_mp.Fs.Inode.{Inode, of_words, iupdate}

abbrev pub State : Type 0
State = Disk × Inode

-- `a[i]` of an indirect block.
unfoldable pub word_at : Block → ℕ → ℕ
word_at f i = of_le (fetch_bytes (4 * i) 4 f)

unfoldable pub store_word : ℕ → ℕ → Block → Block
store_word i v f = store_bytes (4 * i) (le32 v) f

abbrev pub with_addr : ℕ → ℕ → Inode → Inode
with_addr k a ip = record ip { node = record ip.node { addrs = set ip.node.addrs k a } }

-- `addrs[k]`, with a new block where it is 0, after `balloc`.
abbrev pub slot_new : ℕ → Inode → Disk × ℕ → State × ℕ
slot_new k ip (disk, a) = if a == 0 then ((disk, ip), 0) else ((disk, with_addr k a ip), a)

unfoldable pub slot : Superblock → ℕ → State → State × ℕ
slot sb k (disk, ip) =
    let addr = get_or ip.node.addrs k 0 in
    if addr == 0 then slot_new k ip (balloc sb disk) else ((disk, ip), addr)

-- The entry of the indirect block `ind`, with a new block where it is 0, after `balloc`.
abbrev pub entry_new : ℕ → ℕ → Inode → Disk × ℕ → State × ℕ
entry_new ind bn ip (disk, a) =
    if a == 0 then ((disk, ip), 0) else ((log_block ind (store_word bn a (disk ind)) disk, ip), a)

unfoldable pub entry : Superblock → ℕ → State × ℕ → State × ℕ
unfolding word_at store_word
entry sb bn ((disk, ip), ind) =
    if ind == 0
    then ((disk, ip), 0)
    else if word_at (disk ind) bn == 0
    then entry_new ind bn ip (balloc sb disk)
    else ((disk, ip), word_at (disk ind) bn)

-- `none` is the panic "bmap: out of range".
unfoldable pub bmap : Superblock → ℕ → State → Option (State × ℕ)
unfolding slot entry
bmap sb bn s =
    if ltb bn ndirect
    then some (slot sb bn s)
    else if ltb (bn - ndirect) nindirect
    then some (entry sb (bn - ndirect) (slot sb ndirect s))
    else none

-- The loops of `itrunc` over block numbers. `none` is the panic of `bfree`.
unfoldable pub free_all : Superblock → List ℕ → Disk → Option Disk
free_all sb [] disk = some disk
free_all sb (a ∷ rest) disk =
    let kept = free_all sb rest disk in
    if a == 0
    then kept
    else elim (bfree sb a disk) [ none ↦ none | some disk' ↦ free_all sb rest disk' ]

-- The indirect block and the blocks it names.
unfoldable pub free_indirect : Superblock → ℕ → Disk → Option Disk
unfolding free_all
free_indirect sb ind disk =
    if ind == 0
    then some disk
    else elim (free_all sb (of_words (fetch_bytes 0 bsize (disk ind))) disk) [
      | none ↦ none
      | some disk' ↦ bfree sb ind disk'
    ]

abbrev pub emptied : Inode → Inode
emptied ip = record ip { node = record ip.node { size = 0; addrs = map (λ _. 0) ip.node.addrs } }

unfoldable pub itrunc : Superblock → State → Option State
unfolding free_indirect
itrunc sb (disk, ip) = elim (free_all sb (take ndirect ip.node.addrs) disk) [
  | none ↦ none
  | some disk1 ↦ elim (free_indirect sb (get_or ip.node.addrs ndirect 0) disk1) [
    | none ↦ none
    | some disk2 ↦ some (iupdate sb (emptied ip) disk2, emptied ip)
  ]
]

-- `ip->type = 0; iupdate(ip); ip->valid = 0` of `iput`, after `itrunc`.
abbrev pub discard : Superblock → State → State
discard sb (disk, ip) =
    let freed = record ip { node = record ip.node { type = 0 } } in
    (iupdate sb freed disk, record freed { valid = false })

-- The part of `iput` before the count goes down: none is a panic.
unfoldable pub iput_last : Superblock → State → Option State
unfolding itrunc
iput_last sb (disk, ip) =
    if ip.ref == 1 && (ip.valid && ip.node.nlink == 0)
    then elim (itrunc sb (disk, ip)) [ none ↦ none | some s ↦ some (discard sb s) ]
    else some (disk, ip)

-- `iput` of the entry `i`, which has a reference.
unfoldable pub iput : Superblock → ℕ → Disk × List Inode → Option (Disk × List Inode)
unfolding iput_last
iput sb i (disk, table) = elim (get_elem? table i) [
  | none ↦ some (disk, table)
  | some ip ↦ elim (iput_last sb (disk, ip)) [
    | none ↦ none
    | some (disk', ip') ↦ some (disk', set table i (record ip' { ref = ip'.ref - 1 }))
  ]
]

-- `struct stat`.
pub record Stat : Type 0 where
  pub dev : ℕ
  pub ino : ℕ
  pub type : ℕ
  pub nlink : ℕ
  pub size : ℕ

unfoldable pub stati : Inode → Stat
stati ip = record {
  dev = ip.dev;
  ino = ip.inum;
  type = ip.node.type;
  nlink = ip.node.nlink;
  size = ip.node.size;
}
