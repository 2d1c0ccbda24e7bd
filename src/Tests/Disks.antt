-- ===== src/Tests/Disks.antt =====
-- The file system at concrete inputs.
use osn_mp.Common.{
  ℕ, zero, suc, ◌+◌, ◌/◌, ◌^◌, ◌≤◌, ◌<◌, ◌≡◌, refl, sym, ap, ◌∙◌, ◌≢◌, ◌⊎◌, inl, inr, true, false,
  ◌&&◌, Option, some, List, [], ◌∷◌, arith, ltb, ◌==◌, if◌then◌else◌, Bool-cases, get_or, replicate,
  All, All-get,
}
use osn_mp.Fs.Layout.{Superblock, Disk, bitmap_block, bsize, Block}
use osn_mp.Fs.Bytes.{fetch_bytes}
use osn_mp.Fs.Bitmap.{balloc}
use osn_mp.Fs.Bitmap.Marks
use osn_mp.Fs.Bitmap.Marks.{used, Took}
use osn_mp.Fs.Bitmap.Allocation.{balloc-Took}
use osn_mp.Fs.Inode.{Dinode, Inode, ilock, iupdate, iget, empty_dinode}
use osn_mp.Fs.Inode.Image
use osn_mp.Fs.Inode.Image.{ilock-iupdate}
use osn_mp.Fs.Inode.Table.{IsUnique}
use osn_mp.Fs.Inode.Unique.{iget-IsUnique}
use osn_mp.Fs.Content.{State}
use osn_mp.Fs.Content.Mapping.{file_block}
use osn_mp.Fs.Transfer.{readi, writei}
use osn_mp.Fs.Transfer.Reads.{IsMapped, moved}
use osn_mp.Fs.Transfer.Pieces.{IsSeparate}
use osn_mp.Fs.Transfer.Writes.{IsApart, Rewritten}
use osn_mp.Fs.Transfer.RoundTrip.{readi-writei, writei-Rewritten}
use osn_mp.Fs.Directory.{whole, find_name}
use osn_mp.Fs.Directory.Lookup.{IsDirectory, First, find_name-First}
use osn_mp.Fs.Path.{skipelem, walk_from}
use osn_mp.Fs.Path.Elements.{Splits, skipelem-Splits}
use osn_mp.Fs.Path.Walk.{walk_from-enough}

-- A disk of 64 blocks: the inodes are in block 2, the bitmap in block 3; blocks 0 to 4 are in use. Block 4 is
-- a directory with the entry "a" of inode 7.
abbrev sb : Superblock
sb = record {
  magic = 0x10203040;
  size = 64;
  nblocks = 60;
  ninodes = 16;
  nlog = 0;
  logstart = 2;
  inodestart = 2;
  bmapstart = 3;
}

abbrev disk : Disk
disk b j =
    if b == 3 && j == 0
    then 31
    else if b == 4 && j == 0
    then 7
    else if b == 4 && j == 2
    then 97
    else 0

disk-IsValid : Marks.IsValid sb disk
disk-IsValid = record {
  boot = refl;
  maps = λ c l. let e : bitmap_block c sb ≡ 3 = omega (arith, l) in ap (used sb disk) e;
}

balloc-Took_example :
    let (disk', b) = balloc sb disk in
    ((b ≢ 0) × (b < sb.size) × ((j : ℕ) → j < b → used sb disk j ≡ 1) × Took sb disk disk' b)
    ⊎ ((b ≡ 0) × (disk' ≡ disk) × ((j : ℕ) → j < sb.size → used sb disk j ≡ 1))
balloc-Took_example = balloc-Took sb disk disk-IsValid

abbrev node : Dinode
node = record { type = 1; major = 0; minor = 0; nlink = 1; size = 16; addrs = 4 ∷ replicate 12 0 }

abbrev directory : Inode
directory = record { dev = 1; inum = 1; ref = 1; valid = true; node = node }

abbrev unread : Inode
unread = record { dev = 1; inum = 1; ref = 1; valid = false; node = empty_dinode }

small : (n : ℕ) → All (λ a. a < 2 ^ 32) (replicate n 0)
small zero = tt
small (suc n) = (omega arith, small n)

node-IsValid : Image.IsValid node
node-IsValid = record {
  type_short = omega arith;
  major_short = omega arith;
  minor_short = omega arith;
  nlink_short = omega arith;
  size_word = omega arith;
  addrs_count = refl;
  addrs_word = (omega arith, small 12);
}

ilock-iupdate_example :
    (unread.inum ≡ directory.inum
      → unread.valid ≡ false
      → 0 < unread.ref
      → ilock sb (iupdate sb directory disk) unread
        ≡ some (record unread { node = node; valid = true }))
    × (unread.inum ≢ directory.inum
        → ilock sb (iupdate sb directory disk) unread ≡ ilock sb disk unread)
ilock-iupdate_example =
    ilock-iupdate sb disk directory unread node-IsValid (λ e. absurd (omega (arith, e)))

abbrev table : List Inode
table = record directory { ref = 0 } ∷ record unread { ref = 0; inum = 2 } ∷ []

table-IsUnique : IsUnique table
table-IsUnique = λ i j x y gx gy h r.
    let e = All-get (λ z. z.ref ≡ 0) table i x (refl, (refl, tt)) gx in absurd (omega (arith, e, r))

abbrev table_after : List Inode
table_after =
    record directory { inum = 3; valid = false } ∷ record unread { ref = 0; inum = 2 } ∷ []

got_three : iget 1 3 table ≡ some (table_after, 0)
unfolding iget
got_three = refl

iget-IsUnique_example : IsUnique table_after
iget-IsUnique_example = iget-IsUnique 1 3 0 table table_after table-IsUnique got_three

-- The file has one block.
zeros : (n b : ℕ) → get_or (replicate n zero) b zero ≡ zero
zeros zero b = refl
zeros (suc n) zero = refl
zeros (suc n) (suc b) = zeros n b

only_first : (b : ℕ) → file_block disk directory b ≢ 0 → b ≡ 0
only_first zero = λ n. refl
only_first (suc b) = elim (Bool-cases (ltb (suc b) 12)) [
  | inl e ↦ rw e (λ n. absurd (n (zeros 12 b)))
  | inr e ↦ rw e (λ n. absurd (n refl))
]

in_first : (off n : ℕ) → off + n ≤ 1024 → IsMapped disk directory off n
in_first off n h = λ k l m.
    let e : k / bsize ≡ 0 = omega (arith, h, m) in
    (omega (arith, e), λ z. absurd (omega (arith, sym (ap (file_block disk directory) e) ∙ z)))

directory-IsSeparate : IsSeparate disk directory
directory-IsSeparate = record {
  distinct = λ b c l m n q. only_first b n ∙ sym (only_first c (λ z. n (q ∙ z)));
  no_index = λ b l n q. n (sym q);
}

apart_from : (b : ℕ) → 2 ≢ file_block disk directory b
apart_from b = λ e.
    let z : b ≡ 0 = only_first b (λ q. absurd (omega (arith, e, q))) in
    absurd (omega (arith, e ∙ ap (file_block disk directory) z))

directory-IsApart : IsApart sb disk directory
directory-IsApart = (λ b l. apart_from b, λ e. absurd (omega (arith, e)))

-- Three bytes at 10.
abbrev three : Block
three j = j + 65

readi-writei_example :
    (s : State) × (writei sb whole three 10 3 (disk, directory) ≡ some (s, some 3))
    × (readi sb whole 10 3 s ≡ moved s (fetch_bytes 0 3 three) 3)
readi-writei_example =
    readi-writei sb whole three 10 3 disk directory (λ t m. refl) (omega arith) (omega arith)
      (omega arith) (in_first 10 3 (omega arith)) directory-IsSeparate directory-IsApart

writei-Rewritten_example :
    (s : State) × (writei sb whole three 10 3 (disk, directory) ≡ some (s, some 3))
    × Rewritten three 10 3 (disk, directory) s
writei-Rewritten_example =
    writei-Rewritten sb whole three 10 3 disk directory (λ t m. refl) (omega arith) (omega arith)
      (omega arith) (in_first 10 3 (omega arith)) directory-IsSeparate directory-IsApart

directory-IsDirectory : IsDirectory disk directory
directory-IsDirectory = record {
  typed = refl;
  whole_entries = refl;
  size_word = omega arith;
  mapped = in_first 0 16 (omega arith);
}

find_name-First_example :
    (o : Option (ℕ × ℕ)) × (find_name sb (97 ∷ 0 ∷ []) (disk, directory)
      ≡ some ((disk, directory), o))
    × First (97 ∷ 0 ∷ []) disk directory 0 o
find_name-First_example = find_name-First sb (97 ∷ 0 ∷ []) disk directory directory-IsDirectory

-- "//a/b"
abbrev path : List ℕ
path = b'/' ∷ b'/' ∷ b'a' ∷ b'/' ∷ b'b' ∷ []

skipelem-Splits_example : Splits path (replicate 14 0) (skipelem path (replicate 14 0))
skipelem-Splits_example = skipelem-Splits path (replicate 14 0) refl

walk_from-enough_example :
    walk_from sb false 5 path 0 (replicate 14 0) (disk, directory ∷ [])
    ≡ walk_from sb false 9 path 0 (replicate 14 0) (disk, directory ∷ [])
walk_from-enough_example =
    walk_from-enough sb false 5 9 path 0 (replicate 14 0) (disk, directory ∷ []) (omega arith)
      (omega arith)
