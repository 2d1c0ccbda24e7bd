-- ===== src/Fs/Directory.antt =====
-- kernel/fs.c: directories. A name is the list of its bytes; it ends with a null byte if it is shorter than
-- 14 bytes. A directory in hand is locked.
pub mod Lookup
use osn_mp.Common.{
  ℕ, zero, suc, ◌+◌, ◌-◌, ◌*◌, ◌/◌, ◌%◌, ◌^◌, ◌≤◌, ◌<◌, min, ◌≡◌, refl, sym, ap, ◌∙◌, ◌≢◌, ◌↔◌, ◌⊎◌,
  inl, inr, Bool, true, false, not, ◌&&◌, ◌||◌, Option, none, some, List, [], ◌∷◌, ◌++◌, map, arith,
  ltb, leb, ◌==◌, if◌then◌else◌, points_to, ltb→lt, lt→ltb, ==_iff, Bool-cases, Option-cases,
  some_inj, of_some, length, get_elem?, get_or, set, modify, map_idx, take, drop, replicate, All,
  length-append, length-set, length-modify, length-map_idx, length-replicate, get_elem?-eq-get_or,
  get_or-set_self, get_or-set_ne, get_elem?-modify_self, get_elem?-modify_ne, get_elem?-map_idx,
  get_elem?-modify, get_elem?-set, get_elem?-set_self, get_elem?-set_ne, take-append_le,
  take-append_add, take-map, take_all, length-map, All-get,
}
use osn_mp.Str.{strncmp, strncpy}
use osn_mp.Fs.Layout.{Superblock, Disk}
use osn_mp.Fs.Bytes.{le16, of_le}
use osn_mp.Fs.Inode.{Inode, iget}
use osn_mp.Fs.Content.{State, iput}
use osn_mp.Fs.Transfer.{Copied, readi, writei}

abbrev pub dirsiz : ℕ
dirsiz = 14

-- T_DIR of kernel/stat.h.
abbrev pub t_dir : ℕ
t_dir = 1

-- Copies to and from the kernel succeed.
abbrev pub whole : Copied
whole tot m = m

-- `namecmp(s, t) == 0`.
unfoldable pub same_name : List ℕ → List ℕ → Bool
unfolding strncmp
same_name s t = elim (strncmp s t dirsiz) [ none ↦ true | some _ ↦ false ]

-- The bytes of a `struct dirent` read at an offset: none unless all 16 are read.
abbrev pub dirent_of : Option (State × List ℕ × Option ℕ) → Option (State × List ℕ)
dirent_of none = none
dirent_of (some (s, out, none)) = none
dirent_of (some (s, out, some r)) = if r == 16 then some (s, out) else none

unfoldable pub read_dirent : Superblock → ℕ → State → Option (State × List ℕ)
unfolding readi
read_dirent sb off s = dirent_of (readi sb whole off 16 s)

abbrev pub inum_of : List ℕ → ℕ
inum_of de = of_le (take 2 de)

abbrev pub name_of : List ℕ → List ℕ
name_of de = drop 2 de

-- The loop of `dirlookup`: the number and the offset of the entry. The outer option is the panic
-- "dirlookup read". `fuel` counts the entries that are left.
unfoldable pub lookup_from : Superblock → List ℕ → ℕ → ℕ → State → Option (State × Option (ℕ × ℕ))
unfolding read_dirent same_name
lookup_from sb name zero off s = some (s, none)
lookup_from sb name (suc fuel) off (disk, dp) =
    if ltb off dp.node.size
    then elim (read_dirent sb off (disk, dp)) [
      | none ↦ none
      | some (s', de) ↦
          let rest = lookup_from sb name fuel (off + 16) s' in
          if inum_of de == 0
          then rest
          else if same_name name (name_of de)
          then some (s', some (inum_of de, off))
          else rest
    ]
    else some ((disk, dp), none)

-- `dirlookup` before it calls `iget`, with the panic "dirlookup not DIR".
unfoldable pub find_name : Superblock → List ℕ → State → Option (State × Option (ℕ × ℕ))
unfolding lookup_from
find_name sb name (disk, dp) =
    if dp.node.type == t_dir
    then lookup_from sb name ((dp.node.size + 15) / 16) 0 (disk, dp)
    else none

-- The directory at an index of the table, as the operations on it leave it.
abbrev pub Files : Type 0
Files = Disk × List Inode

abbrev pub put_inode : ℕ → List Inode → State → Files
put_inode i table (disk, ip) = (disk, set table i ip)

-- What follows the loop: the entry of the table for the inode found, and its offset.
unfoldable pub lookup_end :
    ℕ → ℕ → List Inode → Option (State × Option (ℕ × ℕ)) → Option (Files × Option (ℕ × ℕ))
unfolding iget
lookup_end i dev table none = none
lookup_end i dev table (some (s, none)) = some (put_inode i table s, none)
lookup_end i dev table (some ((disk, dp), some (inum, off))) =
    elim (iget dev inum (set table i dp)) [
      | none ↦ none
      | some (table', k) ↦ some ((disk, table'), some (k, off))
    ]

-- `dirlookup` in the directory at index `i`; the inner none is the null pointer.
unfoldable pub dirlookup : Superblock → List ℕ → ℕ → Files → Option (Files × Option (ℕ × ℕ))
unfolding find_name lookup_end
dirlookup sb name i (disk, table) = elim (get_elem? table i) [
  | none ↦ none
  | some dp ↦ lookup_end i dp.dev table (find_name sb name (disk, dp))
]

-- The second loop of `dirlink`: the offset of an empty entry, or of the end.
unfoldable pub empty_from : Superblock → ℕ → ℕ → State → Option (State × ℕ)
unfolding read_dirent
empty_from sb zero off s = some (s, off)
empty_from sb (suc fuel) off (disk, dp) =
    if ltb off dp.node.size
    then elim (read_dirent sb off (disk, dp)) [
      | none ↦ none
      | some (s', de) ↦
          let rest = empty_from sb fuel (off + 16) s' in
          if inum_of de == 0 then some (s', off) else rest
    ]
    else some ((disk, dp), off)

-- The entry that `dirlink` writes. `de` is not initialised, and `strncpy` fills the name.
unfoldable pub new_dirent : List ℕ → ℕ → List ℕ
unfolding strncpy le16
new_dirent name inum = le16 inum ++ strncpy (replicate dirsiz 0) (name ++ 0 ∷ []) dirsiz

-- The write of the entry, and whether all of it was written.
abbrev pub link_written : Option (State × Option ℕ) → Option (State × Bool)
link_written none = none
link_written (some (s, none)) = some (s, false)
link_written (some (s, some r)) = some (s, r == 16)

unfoldable pub add_dirent : Superblock → List ℕ → ℕ → State → Option (State × Bool)
unfolding empty_from new_dirent writei
add_dirent sb name inum (disk, dp) = elim (empty_from sb ((dp.node.size + 15) / 16) 0 (disk, dp)) [
  | none ↦ none
  | some (s, off) ↦ link_written (writei sb whole (λ j. get_or (new_dirent name inum) j 0) off 16 s)
]

-- `dirlink` where the name is not present, and where it is: true for 0 and false for -1.
unfoldable pub link_end :
    Superblock → List ℕ → ℕ → ℕ → Option (Files × Option (ℕ × ℕ)) → Option (Files × Bool)
unfolding add_dirent iput
link_end sb name inum i none = none
link_end sb name inum i (some (st, some (k, _))) = elim (iput sb k st) [
  | none ↦ none
  | some st' ↦ some (st', false)
]
link_end sb name inum i (some ((disk, table), none)) = elim (get_elem? table i) [
  | none ↦ none
  | some dp ↦ elim (add_dirent sb name inum (disk, dp)) [
    | none ↦ none
    | some (s, ok) ↦ some (put_inode i table s, ok)
  ]
]

unfoldable pub dirlink : Superblock → List ℕ → ℕ → ℕ → Files → Option (Files × Bool)
unfolding dirlookup link_end
dirlink sb name inum i st = link_end sb name inum i (dirlookup sb name i st)
