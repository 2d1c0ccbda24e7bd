-- ===== src/Fs/Transfer/Writes.antt =====
-- What `writei` stores in the blocks that a file has, and that `readi` gives it back.
use osn_mp.Common.{
  ℕ, zero, suc, ◌+◌, ◌-◌, ◌/◌, ◌≤◌, ◌<◌, min, ◌≡◌, refl, ap, ◌∙◌, ◌≢◌, ◌⊎◌, inl, inr, false, Option,
  some, arith, ltb, ◌==◌, if◌then◌else◌, ltb→lt, lt→ltb, Bool-cases, get_or,
}
use mathlib.Core.Path.{ap₂, subst}
use osn_mp.Fs.Layout.{ndirect, inode_block, maxfile, bsize, Superblock, Block, Disk}
use osn_mp.Fs.Inode.{Inode}
use osn_mp.Fs.Content.{State}
use osn_mp.Fs.Content.Mapping.{file_block, bmap-mapped}
use osn_mp.Fs.Transfer.{Copied, piece, writei_from}
use osn_mp.Fs.Transfer.Reads.{file_byte, IsMapped, piece-bounds}
use osn_mp.Fs.Transfer.Pieces.{
  IsSeparate, Wrote, stored, stored-Wrote, IsSeparate-blocks, IsMapped-blocks, Wrote-then,
}

Wrote-nothing :
    (src : Block) (ip : Inode) (tot off n : ℕ) (disk : Disk)
    → n ≡ 0
    → Wrote src ip tot off n disk disk
Wrote-nothing src ip tot off n disk e = record {
  blocks = λ b. refl;
  written = λ k l h. absurd (omega (arith, e, l, h));
  kept = λ k l h o. refl;
  others = λ c h. refl;
}

abbrev stopped : Disk → Inode → ℕ → ℕ → Option (State × ℕ × ℕ)
stopped disk ip tot off = some ((disk, ip), tot, off)

-- What the loop comes to.
abbrev pub Written : Superblock → Copied → Block → ℕ → ℕ → ℕ → ℕ → Disk → Inode → Type 0
Written sb copied src fuel tot off n disk ip =
    (disk' : Disk) × (writei_from sb copied src fuel tot off n (disk, ip)
      ≡ stopped disk' ip n (off + (n - tot)))
    × Wrote src ip tot off (n - tot) disk disk'

ends :
    (disk : Disk) (ip : Inode) (tot off n : ℕ)
    → tot ≤ n
    → n ≤ tot
    → stopped disk ip tot off ≡ stopped disk ip n (off + (n - tot))
ends disk ip tot off n l m = ap₂ (stopped disk ip) (omega arith) (omega arith)

writei_from_end :
    (sb : Superblock) (copied : Copied) (src : Block) (fuel tot off n : ℕ) (disk : Disk)
    (ip : Inode)
    → tot ≤ n
    → n ≤ tot
    → Written sb copied src fuel tot off n disk ip
unfolding writei_from
writei_from_end sb copied src zero tot off n disk ip l m =
    (disk, ends disk ip tot off n l m, Wrote-nothing src ip tot off (n - tot) disk (omega arith))
writei_from_end sb copied src (suc fuel) tot off n disk ip l m =
    let e : ltb tot n ≡ false = ground (arith, m) in
    (
      disk,
      rw e (ends disk ip tot off n l m),
      Wrote-nothing src ip tot off (n - tot) disk (omega arith),
    )

writei_from_step :
    (sb : Superblock) (copied : Copied) (src : Block) (fuel tot off n : ℕ) (disk : Disk)
    (ip : Inode)
    → ((t m : ℕ) → copied t m ≡ m)
    → tot < n
    → IsMapped disk ip off (n - tot)
    → Wrote src ip tot off (piece tot off n) disk (stored src ip tot off (piece tot off n) disk)
    → Written sb copied src fuel
        (tot + piece tot off n)
        (off + piece tot off n)
        n
        (stored src ip tot off (piece tot off n) disk)
        ip
    → Written sb copied src (suc fuel) tot off n disk ip
unfolding writei_from
writei_from_step sb copied src fuel tot off n disk ip full l h first (disk', eq, w) =
    let m : ℕ = piece tot off n in
    let (positive, in_range, in_block) = piece-bounds tot off n l in
    let (in_file, has) = h off (omega arith) (omega arith) in
    let held : (file_block disk ip (off / bsize) == 0) ≡ false = ground (arith, has) in
    let count : min (copied tot m) m ≡ m = let q = full tot m in omega (arith, q) in
    let all : ltb m m ≡ false = ground arith in
    (
      disk',
      rw (lt→ltb tot n l, bmap-mapped sb (off / bsize) disk ip in_file has, held, count, all)
          (eq ∙ ap (stopped disk' ip n) (omega arith)),
      subst (λ k. Wrote src ip tot off k disk disk') (omega arith)
          (Wrote-then src ip tot off m (n - (tot + m)) disk (stored src ip tot off m disk) disk'
            (λ k p q. h k p (omega arith)) first w),
    )

pub writei_from-Written :
    (sb : Superblock) (copied : Copied) (src : Block) (fuel tot off n : ℕ) (disk : Disk)
    (ip : Inode)
    → ((t m : ℕ) → copied t m ≡ m)
    → tot ≤ n
    → n - tot ≤ fuel
    → IsMapped disk ip off (n - tot)
    → IsSeparate disk ip
    → Written sb copied src fuel tot off n disk ip
writei_from-Written sb copied src zero tot off n disk ip full l f h sep =
    writei_from_end sb copied src zero tot off n disk ip l (omega arith)
writei_from-Written sb copied src (suc fuel) tot off n disk ip full l f h sep =
    elim (Bool-cases (ltb tot n)) [
      | inr e ↦ writei_from_end sb copied src (suc fuel) tot off n disk ip l (ground (arith, e))
      | inl e ↦
          let m : ℕ = piece tot off n in
          let (positive, in_range, in_block) = piece-bounds tot off n (ltb→lt tot n e) in
          let (in_file, has) = h off (omega arith) (omega arith) in
          let first : Wrote src ip tot off m disk (stored src ip tot off m disk) =
            stored-Wrote src ip tot off m disk in_file has in_block sep in
          writei_from_step sb copied src fuel tot off n disk ip full (ltb→lt tot n e) h first (
            writei_from-Written sb copied src fuel (tot + m) (off + m) n
              (stored src ip tot off m disk) ip full (omega arith) (omega arith)
              (IsMapped-blocks disk (stored src ip tot off m disk) ip (off + m) (n - (tot + m))
                first.blocks (λ k p q. h k (omega arith) (omega arith)))
              (IsSeparate-blocks disk (stored src ip tot off m disk) ip first.blocks sep))
    ]

-- The block of the inode is not one of the file's.
abbrev pub IsApart : Superblock → Disk → Inode → Type 0
IsApart sb disk ip =
    ((b : ℕ) → b < maxfile → inode_block ip.inum sb ≢ file_block disk ip b)
    × (get_or ip.node.addrs ndirect 0 ≢ inode_block ip.inum sb)

-- A file after a write of `n` bytes at `off`: its size, its bytes and its blocks.
abbrev pub Rewritten : Block → ℕ → ℕ → State → State → Type 0
Rewritten src off n (disk, ip) (disk', ip') =
    (ip'.node.size ≡ (if ltb ip.node.size (off + n) then off + n else ip.node.size))
    × ((b : ℕ) → file_block disk' ip' b ≡ file_block disk ip b)
    × ((k : ℕ) → off ≤ k → k < off + n → file_byte disk' ip' k ≡ src (k - off))
    × ((k : ℕ)
        → k / bsize < maxfile
        → file_block disk ip (k / bsize) ≢ 0
        → (k < off) ⊎ (off + n ≤ k)
        → file_byte disk' ip' k ≡ file_byte disk ip k)
