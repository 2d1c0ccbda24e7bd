-- ===== src/Fs/Content/Mapping.antt =====
-- Which block `bmap` gives for a block of a file.
use osn_mp.Common.{
  ℕ, ◌-◌, ◌≤◌, ◌<◌, ◌≡◌, refl, sym, ap, ◌∙◌, ◌≢◌, inl, inr, true, false, some, arith, ltb, ◌==◌,
  if◌then◌else◌, ltb→lt, lt→ltb, Bool-cases, get_or,
}
use osn_mp.Fs.Layout.{ndirect, nindirect, maxfile, Superblock, Disk}
use osn_mp.Fs.Inode.{Inode}
use osn_mp.Fs.Content.{State, word_at, slot, entry, bmap}

-- The block of the disk that holds block `bn` of the file, 0 where there is none.
abbrev pub file_block : Disk → Inode → ℕ → ℕ
file_block disk ip bn =
    if ltb bn ndirect
    then get_or ip.node.addrs bn 0
    else if get_or ip.node.addrs ndirect 0 == 0
    then 0
    else word_at (disk (get_or ip.node.addrs ndirect 0)) (bn - ndirect)

slot-mapped :
    (sb : Superblock) (k : ℕ) (disk : Disk) (ip : Inode)
    → get_or ip.node.addrs k 0 ≢ 0
    → slot sb k (disk, ip) ≡ ((disk, ip), get_or ip.node.addrs k 0)
unfolding slot
slot-mapped sb k disk ip n =
    let e : (get_or ip.node.addrs k 0 == 0) ≡ false = ground (arith, n) in rw e refl

entry-mapped :
    (sb : Superblock) (bn ind : ℕ) (disk : Disk) (ip : Inode)
    → ind ≢ 0
    → word_at (disk ind) bn ≢ 0
    → entry sb bn ((disk, ip), ind) ≡ ((disk, ip), word_at (disk ind) bn)
unfolding entry
entry-mapped sb bn ind disk ip n m =
    let e : (ind == 0) ≡ false = ground (arith, n) in
    let f : (word_at (disk ind) bn == 0) ≡ false = ground (arith, m) in rw (e, f) refl

pub bmap-direct :
    (sb : Superblock) (bn : ℕ) (s : State) → bn < ndirect → bmap sb bn s ≡ some (slot sb bn s)
unfolding bmap
bmap-direct sb bn s l = rw (lt→ltb bn ndirect l) refl

pub bmap-indirect :
    (sb : Superblock) (bn : ℕ) (s : State)
    → ndirect ≤ bn
    → bn < maxfile
    → bmap sb bn s ≡ some (entry sb (bn - ndirect) (slot sb ndirect s))
unfolding bmap
bmap-indirect sb bn s l m =
    let e : ltb bn ndirect ≡ false = ground (arith, l) in
    let b : ltb (bn - ndirect) nindirect ≡ true = ground (arith, l, m) in rw (e, b) refl

pub file_block-direct :
    (disk : Disk) (ip : Inode) (bn : ℕ)
    → bn < ndirect
    → file_block disk ip bn ≡ get_or ip.node.addrs bn 0
file_block-direct disk ip bn l = rw (lt→ltb bn ndirect l) refl

pub file_block-indirect :
    (disk : Disk) (ip : Inode) (bn : ℕ)
    → ndirect ≤ bn
    → get_or ip.node.addrs ndirect 0 ≢ 0
    → file_block disk ip bn ≡ word_at (disk (get_or ip.node.addrs ndirect 0)) (bn - ndirect)
file_block-indirect disk ip bn l n =
    let e : ltb bn ndirect ≡ false = ground (arith, l) in
    let z : (get_or ip.node.addrs ndirect 0 == 0) ≡ false = ground (arith, n) in rw (e, z) refl

pub file_block-none :
    (disk : Disk) (ip : Inode) (bn : ℕ)
    → ndirect ≤ bn
    → get_or ip.node.addrs ndirect 0 ≡ 0
    → file_block disk ip bn ≡ 0
file_block-none disk ip bn l n =
    let e : ltb bn ndirect ≡ false = ground (arith, l) in
    let z : (get_or ip.node.addrs ndirect 0 == 0) ≡ true = ground (arith, n) in rw (e, z) refl

-- A block that the file has is found, and nothing changes.
pub bmap-mapped :
    (sb : Superblock) (bn : ℕ) (disk : Disk) (ip : Inode)
    → bn < maxfile
    → file_block disk ip bn ≢ 0
    → bmap sb bn (disk, ip) ≡ some ((disk, ip), file_block disk ip bn)
bmap-mapped sb bn disk ip l n = elim (Bool-cases (ltb bn ndirect)) [
  | inl e ↦
      let d = ltb→lt bn ndirect e in
      let f = file_block-direct disk ip bn d in
      bmap-direct sb bn (disk, ip) d
      ∙ ap some (slot-mapped sb bn disk ip (λ z. n (f ∙ z)) ∙ ap (λ a. ((disk, ip), a)) (sym f))
  | inr e ↦
      let d : ndirect ≤ bn = ground (arith, e) in
      let i : get_or ip.node.addrs ndirect 0 ≢ 0 = λ z. n (file_block-none disk ip bn d z) in
      let f = file_block-indirect disk ip bn d i in
      bmap-indirect sb bn (disk, ip) d l
      ∙ ap some (
          ap (entry sb (bn - ndirect)) (slot-mapped sb ndirect disk ip i)
          ∙ (entry-mapped sb (bn - ndirect) (get_or ip.node.addrs ndirect 0) disk ip i
                (λ z. n (f ∙ z))
              ∙ ap (λ a. ((disk, ip), a)) (sym f)))
]
