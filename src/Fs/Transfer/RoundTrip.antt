-- ===== src/Fs/Transfer/RoundTrip.antt =====
-- What `writei` stores in the blocks that a file has, `readi` gives back.
use osn_mp.Common.{
  ℕ, ◌+◌, ◌-◌, ◌*◌, ◌/◌, ◌%◌, ◌≤◌, ◌<◌, min, ◌≡◌, refl, sym, ap, ◌∙◌, ◌≢◌, ◌⊎◌, inl, inr, false,
  some, arith, ltb, ◌==◌, if◌then◌else◌, Bool-cases, get_or,
}
use mathlib.Core.Path.{subst}
use osn_mp.Common.Words.{word, add32}
use osn_mp.Fs.Layout.{bsize, ndirect, maxfile, Superblock, inode_block, Block, Disk, log_block-ne}
use osn_mp.Fs.Bytes.{fetch_bytes, fetch_bytes-shift}
use osn_mp.Fs.Inode.{Inode, iupdate, write_dinode}
use osn_mp.Fs.Content.{State, word_at}
use osn_mp.Fs.Content.Mapping.{file_block}
use osn_mp.Fs.Transfer.{Copied, sized, write_end, writei, readi}
use osn_mp.Fs.Transfer.Reads.{file_byte, IsMapped, moved, readi-reads}
use osn_mp.Fs.Transfer.Pieces.{IsSeparate, file_block-index}
use osn_mp.Fs.Transfer.Writes.{Written, writei_from-Written, IsApart, Rewritten}

file_block-addrs :
    (disk : Disk) (ip ip' : Inode) (b : ℕ)
    → ip'.node.addrs ≡ ip.node.addrs
    → file_block disk ip' b ≡ file_block disk ip b
file_block-addrs disk ip ip' b e =
    ap
      (λ a.
        if ltb b ndirect
        then get_or a b 0
        else if get_or a ndirect 0 == 0
        then 0
        else word_at (disk (get_or a ndirect 0)) (b - ndirect))
      e

iupdate-ne :
    (sb : Superblock) (ip : Inode) (disk : Disk) (c : ℕ)
    → c ≢ inode_block ip.inum sb
    → iupdate sb ip disk c ≡ disk c
unfolding iupdate write_dinode
iupdate-ne sb ip disk c n = log_block-ne (inode_block ip.inum sb) c _ disk n

sized-same :
    (off : ℕ) (ip : Inode)
    → ((sized off ip).node.addrs ≡ ip.node.addrs)
      × ((sized off ip).inum ≡ ip.inum)
      × ((sized off ip).node.size ≡ (if ltb ip.node.size off then off else ip.node.size))
sized-same off ip = elim (Bool-cases (ltb ip.node.size off)) [
  | inl e ↦ rw e (refl, refl, refl)
  | inr e ↦ rw e (refl, refl, refl)
]

-- The inode is written beside the file.
module _ (sb : Superblock) (disk : Disk) (ip ip' : Inode) (addrs : ip'.node.addrs ≡ ip.node.addrs)
    (inum : ip'.inum ≡ ip.inum) (apart : IsApart sb disk ip) where
  updated-blocks : (b : ℕ) → file_block (iupdate sb ip' disk) ip' b ≡ file_block disk ip b
  updated-blocks b =
      file_block-addrs (iupdate sb ip' disk) ip ip' b addrs
      ∙ file_block-index disk (iupdate sb ip' disk) ip b (
          iupdate-ne sb ip' disk (get_or ip.node.addrs ndirect 0)
            (λ e. apart.1 (e ∙ ap (λ i. inode_block i sb) inum)))

  updated-byte :
      (k : ℕ) → k / bsize < maxfile → file_byte (iupdate sb ip' disk) ip' k ≡ file_byte disk ip k
  updated-byte k l =
      ap (λ b. iupdate sb ip' disk b (k % bsize)) (updated-blocks (k / bsize))
      ∙ ap (λ f. f (k % bsize))
          (iupdate-ne sb ip' disk (file_block disk ip (k / bsize))
            (λ e. apart.0 (k / bsize) l (sym (e ∙ ap (λ i. inode_block i sb) inum))))

Written-end :
    (sb : Superblock) (copied : Copied) (src : Block) (off n : ℕ) (disk : Disk) (ip : Inode)
    → off ≤ ip.node.size
    → off + n < word
    → off + n ≤ maxfile * bsize
    → IsMapped disk ip off n
    → IsApart sb disk ip
    → Written sb copied src n 0 off n disk ip
    → (s : State) × (writei sb copied src off n (disk, ip) ≡ some (s, some n))
      × Rewritten src off n (disk, ip) s
unfolding writei write_end
Written-end sb copied src off n disk ip l b f h apart (disk', eq, w) =
    let sum : add32 off n ≡ off + n = omega (arith, b) in
    let inside : ltb ip.node.size off ≡ false = ground (arith, l) in
    let forward : ltb (add32 off n) off ≡ false = ground (arith, sum) in
    let fits : ltb (maxfile * bsize) (add32 off n) ≡ false = ground (arith, sum, f) in
    let ip' : Inode = sized (off + n) ip in
    let (addrs, inum, size) = sized-same (off + n) ip in
    let apart' : IsApart sb disk' ip = (λ c m q. apart.0 c m (q ∙ w.blocks c), apart.1) in
    let count : n - 0 ≡ n = omega arith in
    (
      (iupdate sb ip' disk', ip'),
      rw (inside, forward, fits, eq)
          (ap (λ k. write_end sb (some ((disk', ip), n, off + k))) count),
      (
        size,
        λ c. updated-blocks sb disk' ip ip' addrs inum apart' c ∙ w.blocks c,
        λ k p q.
            updated-byte sb disk' ip ip' addrs inum apart' k (h k p q).0
            ∙ (w.written k p (omega arith) ∙ ap src (omega arith)),
        λ k m z o.
            updated-byte sb disk' ip ip' addrs inum apart' k m
            ∙ w.kept k m z (subst (λ d. (k < off) ⊎ (off + d ≤ k)) (sym count) o),
      ),
    )

-- Where every copy succeeds, `writei` of `n` bytes at an offset within the file, up to blocks that the file
-- has, returns `n`; the file then has these bytes at the offset and its other bytes, in the same blocks, and
-- its size has grown to the end of the write if that was beyond it. No block is in the file twice, and the
-- block of the inode is not one of them.
pub writei-Rewritten :
    (sb : Superblock) (copied : Copied) (src : Block) (off n : ℕ) (disk : Disk) (ip : Inode)
    → ((t m : ℕ) → copied t m ≡ m)
    → off ≤ ip.node.size
    → off + n < word
    → off + n ≤ maxfile * bsize
    → IsMapped disk ip off n
    → IsSeparate disk ip
    → IsApart sb disk ip
    → (s : State) × (writei sb copied src off n (disk, ip) ≡ some (s, some n))
      × Rewritten src off n (disk, ip) s
writei-Rewritten sb copied src off n disk ip full l b f h sep apart =
    Written-end sb copied src off n disk ip l b f h apart (
      writei_from-Written sb copied src n 0 off n disk ip full (omega arith) (omega arith)
        (λ k p q. h k p (omega arith)) sep)

read_back :
    (sb : Superblock) (copied : Copied) (src : Block) (off n : ℕ) (disk : Disk) (ip : Inode)
    → ((t m : ℕ) → copied t m ≡ m)
    → off + n < word
    → IsMapped disk ip off n
    → (s : State) → Rewritten src off n (disk, ip) s
    → readi sb copied off n s ≡ moved s (fetch_bytes 0 n src) n
read_back sb copied src off n disk ip full b h (disk', ip') (size, blocks, bytes, _) =
    let reach : off + n ≤ ip'.node.size = ground (arith, size) in
    let count : min n (ip'.node.size - off) ≡ n = omega (arith, reach) in
    (readi-reads sb copied off n disk' ip' full (omega arith) (omega arith)).0
      (omega (arith, reach)) b
      (λ k p q.
        let (m, z) = h k p (omega (arith, q, count)) in (m, λ e. z (sym (blocks (k / bsize)) ∙ e)))
    ∙ ap (λ d. moved (disk', ip') (fetch_bytes off d (file_byte disk' ip')) d) count
    ∙ ap (λ l. moved (disk', ip') l n)
        (fetch_bytes-shift off 0 n (file_byte disk' ip') src
          (λ j l. bytes (off + j) (omega arith) (omega arith) ∙ ap src (omega arith)))

-- What `writei` writes at an offset within a file, up to blocks that the file has, `readi` reads back, where
-- every copy succeeds, no block is in the file twice and the block of the inode is not one of them.
pub readi-writei :
    (sb : Superblock) (copied : Copied) (src : Block) (off n : ℕ) (disk : Disk) (ip : Inode)
    → ((t m : ℕ) → copied t m ≡ m)
    → off ≤ ip.node.size
    → off + n < word
    → off + n ≤ maxfile * bsize
    → IsMapped disk ip off n
    → IsSeparate disk ip
    → IsApart sb disk ip
    → (s : State) × (writei sb copied src off n (disk, ip) ≡ some (s, some n))
      × (readi sb copied off n s ≡ moved s (fetch_bytes 0 n src) n)
readi-writei sb copied src off n disk ip full l b f h sep apart =
    let (s, e, r) = writei-Rewritten sb copied src off n disk ip full l b f h sep apart in
    (s, e, read_back sb copied src off n disk ip full b h s r)
