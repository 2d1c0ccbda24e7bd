-- ===== src/Fs/Inode/Image.antt =====
-- An inode written to the disk and read back.
use osn_mp.Common.{
  ℕ, ◌+◌, ◌*◌, ◌^◌, ◌≤◌, ◌<◌, ◌≡◌, refl, sym, ap, ◌∙◌, ◌≢◌, ◌⊎◌, inl, inr, true, false, some, List,
  [], ◌∷◌, arith, ltb, ◌==◌, ==_iff, Bool-cases, length, All,
}
use mathlib.Core.Path.{ap₂, subst}
use osn_mp.Fs.Layout.{Superblock, inode_block, Block, Disk, log_block_self, log_block-ne}
use osn_mp.Fs.Bytes.{
  le16, le32, store_bytes, fetch_bytes, store_bytes-outside, fetch_bytes-cong,
  fetch_bytes-store_bytes, of_le-le16, of_le-le32,
}
use osn_mp.Fs.Inode.{
  Dinode, Inode, words, encode, of_words, decode, dip, read_dinode, write_dinode, iupdate, ilock,
}

-- The ranges of the C fields, and the size of `addrs`.
pub record IsValid (d : Dinode) : Type 0 where
  pub type_short : d.type < 2 ^ 16
  pub major_short : d.major < 2 ^ 16
  pub minor_short : d.minor < 2 ^ 16
  pub nlink_short : d.nlink < 2 ^ 16
  pub size_word : d.size < 2 ^ 32
  pub addrs_count : length d.addrs ≡ 13
  pub addrs_word : All (λ a. a < 2 ^ 32) d.addrs

of_words-words : (vs : List ℕ) → All (λ a. a < 2 ^ 32) vs → of_words (words vs) ≡ vs
unfolding of_words words le32
of_words-words [] h = refl
of_words-words (v ∷ vs) (h, hs) = ap₂ (λ x l. x ∷ l) (of_le-le32 v h) (of_words-words vs hs)

decode-encode : (d : Dinode) → IsValid d → decode (encode d) ≡ d
unfolding decode encode le16 le32
decode-encode d v = λ i. record {
  type = of_le-le16 d.type v.type_short i;
  major = of_le-le16 d.major v.major_short i;
  minor = of_le-le16 d.minor v.minor_short i;
  nlink = of_le-le16 d.nlink v.nlink_short i;
  size = of_le-le32 d.size v.size_word i;
  addrs = of_words-words d.addrs v.addrs_word i;
}

length-words : (vs : List ℕ) → length (words vs) ≡ 4 * length vs
unfolding words le32
length-words [] = refl
length-words (v ∷ vs) = omega (arith, length-words vs)

length-encode : (d : Dinode) → IsValid d → length (encode d) ≡ 64
unfolding encode le16 le32
length-encode d v = let e = length-words d.addrs in let l = v.addrs_count in omega (arith, e, l)

-- Two inodes of one block.
apart :
    (sb : Superblock) (c inum j : ℕ)
    → inode_block c sb ≡ inode_block inum sb
    → c ≢ inum
    → dip c ≤ j
    → j < dip c + 64
    → (j < dip inum) ⊎ (dip inum + 64 ≤ j)
apart sb c inum j q n l m = ground (arith, q, n, l, m)

-- What is written is read, and no other inode changes.
pub read_dinode-write_dinode :
    (sb : Superblock) (inum : ℕ) (d : Dinode) (disk : Disk)
    → IsValid d
    → read_dinode sb inum (write_dinode sb inum d disk) ≡ d
unfolding read_dinode write_dinode
read_dinode-write_dinode sb inum d disk v =
    let old : Block = disk (inode_block inum sb) in
    ap (λ f. decode (fetch_bytes (dip inum) 64 f))
      (log_block_self (inode_block inum sb) (store_bytes (dip inum) (encode d) old) disk)
    ∙ ap (λ n. decode (fetch_bytes (dip inum) n (store_bytes (dip inum) (encode d) old)))
        (sym (length-encode d v))
    ∙ ap decode (fetch_bytes-store_bytes (dip inum) (encode d) old)
    ∙ decode-encode d v

pub read_dinode-write_dinode_ne :
    (sb : Superblock) (inum c : ℕ) (d : Dinode) (disk : Disk)
    → IsValid d
    → c ≢ inum
    → read_dinode sb c (write_dinode sb inum d disk) ≡ read_dinode sb c disk
unfolding read_dinode write_dinode
read_dinode-write_dinode_ne sb inum c d disk v n =
    ap decode (elim (Bool-cases (inode_block c sb == inode_block inum sb)) [
      | inr e ↦ ap (fetch_bytes (dip c) 64) (
          log_block-ne (inode_block inum sb) (inode_block c sb) _ disk
            (λ q. cc ((==_iff _ _).1 q, e)))
      | inl e ↦
          let q : inode_block c sb ≡ inode_block inum sb = (==_iff _ _).0 e in
          ap (λ b. fetch_bytes (dip c) 64 (write_dinode sb inum d disk b)) q
          ∙ ap (fetch_bytes (dip c) 64) (
              log_block_self (inode_block inum sb)
                (store_bytes (dip inum) (encode d) (disk (inode_block inum sb))) disk)
          ∙ fetch_bytes-cong (dip c) 64
              (store_bytes (dip inum) (encode d) (disk (inode_block inum sb)))
              (disk (inode_block inum sb))
              (λ j l m. store_bytes-outside (dip inum) (encode d) (disk (inode_block inum sb)) j (
                subst (λ k. (j < dip inum) ⊎ (dip inum + k ≤ j)) (sym (length-encode d v))
                  (apart sb c inum j q n l m)))
          ∙ ap (λ b. fetch_bytes (dip c) 64 (disk b)) (sym q)
    ])

-- A table entry whose fields are in the ranges of the C types, and whose type is not 0, is written by `iupdate`
-- such that `ilock` on an entry of the same inode that has a reference and is not valid reads the same fields;
-- and for an entry of any other inode `ilock` does what it did before.
pub ilock-iupdate :
    (sb : Superblock) (disk : Disk) (ip other : Inode)
    → IsValid ip.node
    → ip.node.type ≢ 0
    → (other.inum ≡ ip.inum
        → other.valid ≡ false
        → 0 < other.ref
        → ilock sb (iupdate sb ip disk) other
          ≡ some (record other { node = ip.node; valid = true }))
      × (other.inum ≢ ip.inum → ilock sb (iupdate sb ip disk) other ≡ ilock sb disk other)
unfolding ilock iupdate
ilock-iupdate sb disk ip other v t = (
  λ e nv r.
      let d : read_dinode sb other.inum (write_dinode sb ip.inum ip.node disk) ≡ ip.node =
        ap (λ i. read_dinode sb i (write_dinode sb ip.inum ip.node disk)) e
        ∙ read_dinode-write_dinode sb ip.inum ip.node disk v in
      let held : ltb other.ref 1 ≡ false = ground arith in
      let typed : (ip.node.type == 0) ≡ false = ground (arith, t) in rw (held, nv, d, typed) refl,
  λ n. rw (read_dinode-write_dinode_ne sb ip.inum other.inum ip.node disk v n) refl,
)
