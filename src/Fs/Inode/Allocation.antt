-- ===== src/Fs/Inode/Allocation.antt =====
-- Which inode `ialloc` takes.
use osn_mp.Common.{
  ℕ, zero, suc, ◌+◌, ◌^◌, ◌≤◌, ◌<◌, ◌≡◌, refl, ◌≢◌, inl, inr, Option, none, some, arith, ◌==◌,
  ==_iff, Bool-cases, replicate, All,
}
use mathlib.Core.Path.{subst}
use osn_mp.Fs.Layout.{Superblock, Disk}
use osn_mp.Fs.Inode.{Dinode, read_dinode, ialloc_from, empty_dinode}
use osn_mp.Fs.Inode.Image
use osn_mp.Fs.Inode.Image.{read_dinode-write_dinode, read_dinode-write_dinode_ne}

-- What `ialloc` does to the disk.
abbrev pub Claims : Superblock → ℕ → ℕ → ℕ → Disk → Option (Disk × ℕ) → Type 0
Claims sb type inum n disk none =
    (j : ℕ) → inum ≤ j → j < inum + n → (read_dinode sb j disk).type ≢ 0
Claims sb type inum n disk (some (disk', i)) =
    (inum ≤ i)
    × (i < inum + n)
    × ((read_dinode sb i disk).type ≡ 0)
    × ((j : ℕ) → inum ≤ j → j < i → (read_dinode sb j disk).type ≢ 0)
    × (read_dinode sb i disk' ≡ record empty_dinode { type = type })
    × ((j : ℕ) → j ≢ i → read_dinode sb j disk' ≡ read_dinode sb j disk)

new-IsValid : (type : ℕ) → type < 2 ^ 16 → Image.IsValid (record empty_dinode { type = type })
new-IsValid type h = record {
  type_short = h;
  major_short = omega arith;
  minor_short = omega arith;
  nlink_short = omega arith;
  size_word = omega arith;
  addrs_count = refl;
  addrs_word = zeros 13;
}
  where
    zeros : (n : ℕ) → All (λ a. a < 2 ^ 32) (replicate n 0)
    zeros zero = tt
    zeros (suc n) = (omega arith, zeros n)

Claims-later :
    (sb : Superblock) (type inum n : ℕ) (disk : Disk) (o : Option (Disk × ℕ))
    → (read_dinode sb inum disk).type ≢ 0
    → Claims sb type (suc inum) n disk o
    → Claims sb type inum (suc n) disk o
Claims-later sb type inum n disk none h r = λ j l m. elim (Bool-cases (j == inum)) [
  | inl e ↦ subst (λ k. (read_dinode sb k disk).type ≢ 0) (ground (arith, e)) h
  | inr e ↦ r j (ground (arith, e)) (omega arith)
]
Claims-later sb type inum n disk (some r) h (l, m, z, f, k, o) = (
  omega arith,
  omega arith,
  z,
  λ j p q. elim (Bool-cases (j == inum)) [
    | inl e ↦ subst (λ k. (read_dinode sb k disk).type ≢ 0) (ground (arith, e)) h
    | inr e ↦ f j (ground (arith, e)) q
  ],
  k,
  o,
)

-- `ialloc` takes the first inode from 1 on whose type on the disk is 0, sets its type and clears its other
-- fields, and changes no other inode; where it finds none, every inode has a type.
ialloc_from-Claims :
    (sb : Superblock) (type inum n : ℕ) (disk : Disk)
    → type < 2 ^ 16
    → Claims sb type inum n disk (ialloc_from sb type inum n disk)
unfolding ialloc_from
ialloc_from-Claims sb type inum zero disk t = λ j l m. absurd (omega arith)
ialloc_from-Claims sb type inum (suc n) disk t =
    elim (Bool-cases ((read_dinode sb inum disk).type == 0)) [
      | inl e ↦
          let d : Dinode = record empty_dinode { type = type } in
          rw e (
            omega arith,
            omega arith,
            (==_iff _ _).0 e,
            λ j p q. absurd (omega arith),
            read_dinode-write_dinode sb inum d disk (new-IsValid type t),
            λ j k. read_dinode-write_dinode_ne sb inum j d disk (new-IsValid type t) k,
          )
      | inr e ↦ rw e (
          Claims-later sb type inum n disk (ialloc_from sb type (suc inum) n disk)
            (λ z. cc ((==_iff _ _).1 z, e)) (ialloc_from-Claims sb type (suc inum) n disk t))
    ]
