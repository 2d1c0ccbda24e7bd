-- ===== src/Fs/Directory/Lookup.antt =====
-- Which entry `dirlookup` finds.
use osn_mp.Common.{
  ℕ, zero, suc, ◌+◌, ◌-◌, ◌*◌, ◌/◌, ◌%◌, ◌≤◌, ◌<◌, min, ◌≡◌, refl, ap, ◌∙◌, ◌≢◌, inl, inr, true,
  Option, none, some, List, arith, ltb, ◌==◌, ltb→lt, ==_iff, Bool-cases,
}
use mathlib.Core.Path.{subst}
use osn_mp.Common.Words.{word}
use osn_mp.Fs.Layout.{Superblock, Disk}
use osn_mp.Fs.Bytes.{fetch_bytes}
use osn_mp.Fs.Inode.{Inode}
use osn_mp.Fs.Transfer.Reads.{file_byte, IsMapped, readi-reads, moved}
use osn_mp.Fs.Directory.{
  whole, t_dir, same_name, dirent_of, read_dirent, inum_of, name_of, lookup_from, find_name,
}

-- The bytes of the entry at an offset.
abbrev pub dirent_at : Disk → Inode → ℕ → List ℕ
dirent_at disk dp off = fetch_bytes off 16 (file_byte disk dp)

-- The entry is in use and has the name.
abbrev pub IsNamed : List ℕ → List ℕ → Type 0
IsNamed name de = (inum_of de ≢ 0) × (same_name name (name_of de) ≡ true)

-- A directory with whole entries in blocks that it has.
pub record IsDirectory (disk : Disk) (dp : Inode) : Type 0 where
  pub typed : dp.node.type ≡ t_dir
  pub whole_entries : dp.node.size % 16 ≡ 0
  pub size_word : dp.node.size < word
  pub mapped : IsMapped disk dp 0 dp.node.size

-- The first entry with the name from an offset on.
abbrev pub First : List ℕ → Disk → Inode → ℕ → Option (ℕ × ℕ) → Type 0
First name disk dp off none =
    (o : ℕ) → off ≤ o → o < dp.node.size → o % 16 ≡ 0 → ¬ IsNamed name (dirent_at disk dp o)
First name disk dp off (some (inum, found)) =
    (off ≤ found)
    × (found < dp.node.size)
    × (found % 16 ≡ 0)
    × IsNamed name (dirent_at disk dp found)
    × (inum_of (dirent_at disk dp found) ≡ inum)
    × ((o : ℕ) → off ≤ o → o < found → o % 16 ≡ 0 → ¬ IsNamed name (dirent_at disk dp o))

pub read_dirent-reads :
    (sb : Superblock) (off : ℕ) (disk : Disk) (dp : Inode)
    → IsDirectory disk dp
    → off % 16 ≡ 0
    → off < dp.node.size
    → read_dirent sb off (disk, dp) ≡ some ((disk, dp), dirent_at disk dp off)
unfolding read_dirent
read_dirent-reads sb off disk dp d m l =
    let w = d.whole_entries in
    let s = d.size_word in
    let count : min 16 (dp.node.size - off) ≡ 16 = omega (arith, w, m, l) in
    ap dirent_of (
      (readi-reads sb whole off 16 disk dp (λ t k. refl) (omega (arith, s, l)) (omega arith)).0
        (omega (arith, l)) (omega (arith, w, m, l, s))
        (λ k p q. d.mapped k (omega arith) (omega (arith, q, count)))
      ∙ ap (λ n. moved (disk, dp) (fetch_bytes off n (file_byte disk dp)) n) count)

-- An entry without the name, before the rest.
First-later :
    (name : List ℕ) (disk : Disk) (dp : Inode) (off : ℕ) (o : Option (ℕ × ℕ))
    → off % 16 ≡ 0
    → ¬ IsNamed name (dirent_at disk dp off)
    → First name disk dp (off + 16) o
    → First name disk dp off o
First-later name disk dp off none m n f = λ o l h r. elim (Bool-cases (o == off)) [
  | inl e ↦ λ t. n (subst (λ k. IsNamed name (dirent_at disk dp k)) ((==_iff _ _).0 e) t)
  | inr e ↦ f o (ground (arith, e, l, m, r)) h r
]
First-later name disk dp off (some (inum, found)) m n (l, h, z, t, i, f) = (
  omega arith,
  h,
  z,
  t,
  i,
  λ o p q r. elim (Bool-cases (o == off)) [
    | inl e ↦ λ t'. n (subst (λ k. IsNamed name (dirent_at disk dp k)) ((==_iff _ _).0 e) t')
    | inr e ↦ f o (ground (arith, e, p, m, r)) q r
  ],
)

-- What the loop finds.
abbrev Looked : Superblock → List ℕ → ℕ → ℕ → Disk → Inode → Type 0
Looked sb name fuel off disk dp =
    (o : Option (ℕ × ℕ)) × (lookup_from sb name fuel off (disk, dp) ≡ some ((disk, dp), o))
    × First name disk dp off o

lookup_from-Looked :
    (sb : Superblock) (name : List ℕ) (fuel off : ℕ) (disk : Disk) (dp : Inode)
    → IsDirectory disk dp
    → off % 16 ≡ 0
    → dp.node.size ≤ off + 16 * fuel
    → Looked sb name fuel off disk dp
unfolding lookup_from
lookup_from-Looked sb name zero off disk dp d m f = (none, refl, λ o l h r. absurd (omega arith))
lookup_from-Looked sb name (suc fuel) off disk dp d m f = elim (Bool-cases (ltb off dp.node.size)) [
  | inr e ↦ (none, rw e refl, λ o l h r. absurd (ground (arith, e)))
  | inl e ↦
      let lt : off < dp.node.size = ltb→lt off dp.node.size e in
      let read = read_dirent-reads sb off disk dp d m lt in
      let (o, eq, first) =
        lookup_from-Looked sb name fuel (off + 16) disk dp d (omega (arith, m))
          (omega (arith, f)) in
      elim (Bool-cases (inum_of (dirent_at disk dp off) == 0)) [
        | inl z ↦ (
          o,
          rw (e, read, z) eq,
          First-later name disk dp off o m (λ t. t.0 ((==_iff _ _).0 z)) first,
        )
        | inr z ↦ elim (Bool-cases (same_name name (name_of (dirent_at disk dp off)))) [
          | inl s ↦ (
            some (inum_of (dirent_at disk dp off), off),
            rw (e, read, z, s) refl,
            (
              omega arith,
              lt,
              m,
              (λ q. cc ((==_iff _ _).1 q, z), s),
              refl,
              λ o' p q r. absurd (omega arith),
            ),
          )
          | inr s ↦
              (o, rw (e, read, z, s) eq, First-later name disk dp off o m (λ t. cc (t.1, s)) first)
        ]
      ]
]

-- In a directory whose entries are in blocks that it has, the search of `dirlookup` returns the first entry
-- in use with the name, with its offset, and none exactly if no entry in use has it; it changes nothing.
pub find_name-First :
    (sb : Superblock) (name : List ℕ) (disk : Disk) (dp : Inode)
    → IsDirectory disk dp
    → (o : Option (ℕ × ℕ)) × (find_name sb name (disk, dp) ≡ some ((disk, dp), o))
      × First name disk dp 0 o
unfolding find_name
find_name-First sb name disk dp d =
    let dir : (dp.node.type == t_dir) ≡ true = (==_iff _ _).1 d.typed in
    rw dir (lookup_from-Looked sb name ((dp.node.size + 15) / 16) 0 disk dp d refl (omega arith))
