-- ===== src/Fs/Inode.antt =====
-- kernel/fs.c and kernel/file.h: inodes on the disk and in the table.
pub mod Image
pub mod Allocation
pub mod Table
pub mod Unique
use osn_mp.Common.{
  ℕ, zero, suc, ◌+◌, ◌-◌, ◌*◌, ◌/◌, ◌%◌, ◌^◌, ◌≤◌, ◌<◌, min, ◌≡◌, refl, sym, ap, ◌∙◌, ◌≢◌, ◌↔◌, ◌⊎◌,
  inl, inr, Bool, true, false, not, ◌&&◌, ◌||◌, Option, none, some, List, [], ◌∷◌, ◌++◌, map, arith,
  ltb, leb, ◌==◌, if◌then◌else◌, points_to, ltb→lt, lt→ltb, ==_iff, Bool-cases, Option-cases,
  some_inj, of_some, length, get_elem?, get_or, set, modify, map_idx, take, drop, replicate, All,
  length-append, length-set, length-modify, length-map_idx, length-replicate, get_elem?-eq-get_or,
  get_or-set_self, get_or-set_ne, get_elem?-modify_self, get_elem?-modify_ne, get_elem?-map_idx,
  get_elem?-modify, get_elem?-set, get_elem?-set_self, get_elem?-set_ne, take-append_le,
  take-append_add, take-map, take_all, length-map,
}
use osn_mp.Fs.Layout.{Superblock, ipb, inode_block, Block, Disk, log_block}
use osn_mp.Fs.Bytes.{le16, le32, of_le, store_bytes, fetch_bytes}

-- `struct dinode`: a `short` is its bit pattern. `addrs` has the 12 direct blocks and the indirect one.
pub record Dinode : Type 0 where
  pub type : ℕ
  pub major : ℕ
  pub minor : ℕ
  pub nlink : ℕ
  pub size : ℕ
  pub addrs : List ℕ

-- `struct inode` without its lock: `node` is the copy of the fields on the disk.
pub record Inode : Type 0 where
  pub dev : ℕ
  pub inum : ℕ
  pub ref : ℕ
  pub valid : Bool
  pub node : Dinode

-- The layout of the 64 bytes of a dinode.
unfoldable pub words : List ℕ → List ℕ
words [] = []
words (v ∷ vs) = le32 v ++ words vs

unfoldable pub encode : Dinode → List ℕ
unfolding words
encode d =
    le16 d.type
    ++ (le16 d.major ++ (le16 d.minor ++ (le16 d.nlink ++ (le32 d.size ++ words d.addrs))))

unfoldable pub of_words : List ℕ → List ℕ
of_words (a ∷ b ∷ c ∷ d ∷ rest) = of_le (a ∷ b ∷ c ∷ d ∷ []) ∷ of_words rest
of_words _ = []

abbrev pub empty_dinode : Dinode
empty_dinode = record {
  type = 0;
  major = 0;
  minor = 0;
  nlink = 0;
  size = 0;
  addrs = replicate 13 0;
}

unfoldable pub decode : List ℕ → Dinode
unfolding of_words
decode (t0 ∷ t1 ∷ j0 ∷ j1 ∷ m0 ∷ m1 ∷ l0 ∷ l1 ∷ s0 ∷ s1 ∷ s2 ∷ s3 ∷ rest) = record {
  type = of_le (t0 ∷ t1 ∷ []);
  major = of_le (j0 ∷ j1 ∷ []);
  minor = of_le (m0 ∷ m1 ∷ []);
  nlink = of_le (l0 ∷ l1 ∷ []);
  size = of_le (s0 ∷ s1 ∷ s2 ∷ s3 ∷ []);
  addrs = of_words rest;
}
decode _ = empty_dinode

-- `dip`, the place of an inode in its block.
abbrev pub dip : ℕ → ℕ
dip inum = inum % ipb * 64

unfoldable pub read_dinode : Superblock → ℕ → Disk → Dinode
unfolding decode
read_dinode sb inum disk = decode (fetch_bytes (dip inum) 64 (disk (inode_block inum sb)))

unfoldable pub write_dinode : Superblock → ℕ → Dinode → Disk → Disk
unfolding encode
write_dinode sb inum d disk =
    log_block (inode_block inum sb) (store_bytes (dip inum) (encode d) (disk (inode_block inum sb)))
      disk

unfoldable pub iupdate : Superblock → Inode → Disk → Disk
unfolding write_dinode
iupdate sb ip disk = write_dinode sb ip.inum ip.node disk

-- `ilock` with the sleep lock taken. `none` is one of the two panics.
unfoldable pub ilock : Superblock → Disk → Inode → Option Inode
unfolding read_dinode
ilock sb disk ip =
    let d = read_dinode sb ip.inum disk in
    if ltb ip.ref 1
    then none
    else if ip.valid
    then some ip
    else if d.type == 0
    then none
    else some (record ip { node = d; valid = true })

-- The first empty entry so far, after the one at index `i`.
abbrev pub remember : Option ℕ → ℕ → ℕ → Option ℕ
remember (some e) i ref = some e
remember none i ref = if ref == 0 then some i else none

-- The loop of `iget` over the table, from index `i` on: the entry of the inode, and the first empty one.
unfoldable pub iget_from : ℕ → ℕ → ℕ → Option ℕ → List Inode → Option ℕ × Option ℕ
iget_from dev inum i empty [] = (none, empty)
iget_from dev inum i empty (ip ∷ table) =
    let rest = iget_from dev inum (suc i) (remember empty i ip.ref) table in
    if ltb 0 ip.ref && (ip.dev == dev && ip.inum == inum) then (some i, empty) else rest

abbrev pub recycled : ℕ → ℕ → Inode → Inode
recycled dev inum ip = record ip { dev = dev; inum = inum; ref = 1; valid = false }

abbrev pub one_more : Inode → Inode
one_more ip = record ip { ref = ip.ref + 1 }

-- What follows the loop. `none` is the panic "iget: no inodes".
unfoldable pub iget_found : ℕ → ℕ → Option ℕ × Option ℕ → List Inode → Option (List Inode × ℕ)
iget_found dev inum (some i, _) table = some (modify table i one_more, i)
iget_found dev inum (none, some e) table = some (modify table e (recycled dev inum), e)
iget_found dev inum (none, none) table = none

unfoldable pub iget : ℕ → ℕ → List Inode → Option (List Inode × ℕ)
unfolding iget_from iget_found
iget dev inum table = iget_found dev inum (iget_from dev inum 0 none table) table

unfoldable pub idup : ℕ → List Inode → List Inode
idup i table = modify table i one_more

-- The loop of `ialloc`: the disk and the number of the inode. `n` is `sb.ninodes - inum`.
unfoldable pub ialloc_from : Superblock → ℕ → ℕ → ℕ → Disk → Option (Disk × ℕ)
unfolding read_dinode write_dinode
ialloc_from sb type inum zero disk = none
ialloc_from sb type inum (suc n) disk =
    let rest = ialloc_from sb type (suc inum) n disk in
    if (read_dinode sb inum disk).type == 0
    then some (write_dinode sb inum (record empty_dinode { type = type }) disk, inum)
    else rest

-- The inner option is the null pointer, the outer one the panic of `iget`.
unfoldable pub ialloc :
    Superblock → ℕ → ℕ → Disk × List Inode → Option ((Disk × List Inode) × Option ℕ)
unfolding ialloc_from iget
ialloc sb dev type (disk, table) = elim (ialloc_from sb type 1 (sb.ninodes - 1) disk) [
  | none ↦ some ((disk, table), none)
  | some (disk', inum) ↦ elim (iget dev inum table) [
    | none ↦ none
    | some (table', i) ↦ some ((disk', table'), some i)
  ]
]
