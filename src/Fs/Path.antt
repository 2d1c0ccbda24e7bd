-- ===== src/Fs/Path.antt =====
-- kernel/fs.c: path names. A path is the list of its bytes before the null byte.
pub mod Elements
pub mod Walk
use osn_mp.Common.{
  ℕ, zero, suc, ◌+◌, ◌-◌, ◌*◌, ◌/◌, ◌%◌, ◌^◌, ◌≤◌, ◌<◌, min, ◌≡◌, refl, sym, ap, ◌∙◌, ◌≢◌, ◌↔◌, ◌⊎◌,
  inl, inr, Bool, true, false, not, ◌&&◌, ◌||◌, Option, none, some, List, [], ◌∷◌, ◌++◌, map, arith,
  ltb, leb, ◌==◌, if◌then◌else◌, points_to, ltb→lt, lt→ltb, ==_iff, Bool-cases, Option-cases,
  some_inj, of_some, length, get_elem?, get_or, set, modify, map_idx, take, drop, replicate, All,
  length-append, length-set, length-modify, length-map_idx, length-replicate, get_elem?-eq-get_or,
  get_or-set_self, get_or-set_ne, get_elem?-modify_self, get_elem?-modify_ne, get_elem?-map_idx,
  get_elem?-modify, get_elem?-set, get_elem?-set_self, get_elem?-set_ne, take-append_le,
  take-append_add, take-map, take_all, length-map, All-get,
}
use osn_mp.Fs.Layout.{Superblock, Disk}
use osn_mp.Fs.Inode.{Inode, ilock, iget, idup}
use osn_mp.Fs.Content.{iput}
use osn_mp.Fs.Directory.{Files, dirsiz, t_dir, dirlookup}

abbrev pub slash : ℕ
slash = b'/'

unfoldable pub skip_slashes : List ℕ → List ℕ
skip_slashes [] = []
skip_slashes (c ∷ path) = if c == slash then skip_slashes path else c ∷ path

-- The element at the start of a path, and what follows it.
unfoldable pub take_elem : List ℕ → List ℕ × List ℕ
take_elem [] = ([], [])
take_elem (c ∷ path) =
    let rest = take_elem path in if c == slash then ([], c ∷ path) else (c ∷ rest.0, rest.1)

-- The buffer `name` of 14 bytes after the element is moved into it.
unfoldable pub fill_name : List ℕ → List ℕ → List ℕ
fill_name elem name =
    if leb dirsiz (length elem) then take dirsiz elem else elem ++ (0 ∷ drop (length elem + 1) name)

abbrev pub elem_end : List ℕ → List ℕ → Option (List ℕ × List ℕ)
elem_end [] name = none
elem_end (c ∷ path) name =
    let e = take_elem (c ∷ path) in some (skip_slashes e.1, fill_name e.0 name)

unfoldable pub skipelem : List ℕ → List ℕ → Option (List ℕ × List ℕ)
unfolding skip_slashes take_elem fill_name
skipelem path name = elem_end (skip_slashes path) name

-- `ilock` of the entry `i` of the table.
unfoldable pub lock_at : Superblock → ℕ → Files → Option (Files × Inode)
unfolding ilock
lock_at sb i (disk, table) = elim (get_elem? table i) [
  | none ↦ none
  | some ip ↦ elim (ilock sb disk ip) [
    | none ↦ none
    | some ip' ↦ some ((disk, set table i ip'), ip')
  ]
]

-- What `namex` returns: the entry of the table, or none for 0; and the buffer `name`.
abbrev pub Named : Type 0
Named = Files × Option ℕ × List ℕ

-- `iput` before a return of 0, of `namex` and after `iunlock` (which is the sleep lock alone).
abbrev pub put_end : Superblock → ℕ → List ℕ → Files → Option Named
put_end sb i name st = elim (iput sb i st) [ none ↦ none | some st' ↦ some (st', none, name) ]

-- The end of the path.
unfoldable pub walk_end : Superblock → Bool → ℕ → List ℕ → Files → Option Named
unfolding iput
walk_end sb parent i name st = if parent then put_end sb i name st else some (st, some i, name)

-- The loop of `namex` from the entry `i` on; the outer none is a panic.
unfoldable pub walk_from : Superblock → Bool → ℕ → List ℕ → ℕ → List ℕ → Files → Option Named
unfolding skipelem lock_at walk_end dirlookup
walk_from sb parent zero path i name st = walk_end sb parent i name st
walk_from sb parent (suc fuel) path i name st = elim (skipelem path name) [
  | none ↦ walk_end sb parent i name st
  | some (path', name') ↦ elim (lock_at sb i st) [
    | none ↦ none
    | some (st1, ip) ↦
        if not (ip.node.type == t_dir)
        then put_end sb i name' st1
        else if parent && length path' == 0
        then some (st1, some i, name')
        else elim (dirlookup sb name' i st1) [
          | none ↦ none
          | some (st2, none) ↦ put_end sb i name' st2
          | some (st2, some (next, _)) ↦ elim (iput sb i st2) [
            | none ↦ none
            | some st3 ↦ walk_from sb parent fuel path' next name' st3
          ]
        ]
  ]
]

abbrev pub rootdev : ℕ
rootdev = 1

abbrev pub rootino : ℕ
rootino = 1

-- The first inode: the root, or the current directory of the process.
unfoldable pub walk_start : List ℕ → ℕ → Files → Option (Files × ℕ)
unfolding iget idup
walk_start [] cwd (disk, table) = some ((disk, idup cwd table), cwd)
walk_start (c ∷ path) cwd (disk, table) =
    if c == slash
    then elim (iget rootdev rootino table) [
      | none ↦ none
      | some (table', i) ↦ some ((disk, table'), i)
    ]
    else some ((disk, idup cwd table), cwd)

-- The length of the path is fuel enough, since each element is a byte at least.
unfoldable pub namex : Superblock → List ℕ → Bool → List ℕ → ℕ → Files → Option Named
unfolding walk_from walk_start
namex sb path parent name cwd st = elim (walk_start path cwd st) [
  | none ↦ none
  | some (st', i) ↦ walk_from sb parent (length path) path i name st'
]

unfoldable pub namei : Superblock → List ℕ → ℕ → Files → Option Named
unfolding namex
namei sb path cwd st = namex sb path false (replicate dirsiz 0) cwd st

unfoldable pub nameiparent : Superblock → List ℕ → List ℕ → ℕ → Files → Option Named
unfolding namex
nameiparent sb path name cwd st = namex sb path true name cwd st
