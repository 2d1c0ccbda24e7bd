-- ===== src/File.antt =====
-- kernel/file.c, the descriptors of kernel/sysfile.c, and pipealloc of kernel/pipe.c: the table of open files
-- and the descriptors of one process. A file is named by its index in the table.
pub mod Counts
pub mod Allocation
pub mod Calls
use osn_mp.Common.{
  ℕ, zero, suc, ◌+◌, ◌-◌, ◌*◌, ◌/◌, ◌%◌, ◌^◌, ◌≤◌, ◌<◌, min, ◌≡◌, refl, sym, ap, ◌∙◌, ◌≢◌, ◌↔◌, ◌⊎◌,
  inl, inr, Bool, true, false, not, ◌&&◌, ◌||◌, Option, none, some, List, [], ◌∷◌, ◌++◌, map, arith,
  ltb, leb, ◌==◌, if◌then◌else◌, points_to, ltb→lt, lt→ltb, ==_iff, Bool-cases, Option-cases,
  some_inj, of_some, length, get_elem?, get_or, set, modify, map_idx, take, drop, replicate, All,
  length-append, length-set, length-modify, length-map_idx, length-replicate, get_elem?-eq-get_or,
  get_or-set_self, get_or-set_ne, get_elem?-modify_self, get_elem?-modify_ne, get_elem?-map_idx,
  get_elem?-modify, get_elem?-set, get_elem?-set_self, get_elem?-set_ne, take-append_le,
  take-append_add, take-map, take_all, length-map, All-get,
}

-- The enum of `struct file`.
pub data FileType : Type 0 where
  fd_none : FileType
  fd_pipe : FileType
  fd_inode : FileType
  fd_device : FileType

-- `struct file`: the pipe is named by a number, the inode by its index in the table of inodes.
pub record File : Type 0 where
  pub type : FileType
  pub ref : ℕ
  pub readable : Bool
  pub writable : Bool
  pub pipe : ℕ
  pub ip : ℕ
  pub off : ℕ
  pub major : ℕ

abbrev pub with_ref : ℕ → File → File
with_ref n f = record f { ref = n }

-- The loop of `filealloc`.
unfoldable pub alloc_from : ℕ → List File → Option (List File × ℕ)
alloc_from i [] = none
alloc_from i (f ∷ files) =
    let rest = alloc_from (suc i) files in
    if f.ref == 0
    then some (with_ref 1 f ∷ files, i)
    else elim rest [ none ↦ none | some (files', k) ↦ some (f ∷ files', k) ]

unfoldable pub filealloc : List File → Option (List File × ℕ)
unfolding alloc_from
filealloc files = alloc_from 0 files

-- `none` is the panic "filedup".
unfoldable pub filedup : ℕ → List File → Option (List File)
filedup i files = elim (get_elem? files i) [
  | none ↦ none
  | some f ↦ if ltb f.ref 1 then none else some (set files i (with_ref (f.ref + 1) f))
]

-- What `fileclose` calls after the last reference is gone: pipeclose, iput in a transaction, or nothing.
pub data Closing : Type 0 where
  nothing : Closing
  close_pipe : ℕ → Bool → Closing
  put_inode : ℕ → Closing

unfoldable pub closing : File → Closing
closing f = elim f.type [
  | fd_pipe ↦ close_pipe f.pipe f.writable
  | fd_inode ↦ put_inode f.ip
  | fd_device ↦ put_inode f.ip
  | fd_none ↦ nothing
]

-- `none` is the panic "fileclose".
unfoldable pub fileclose : ℕ → List File → Option (List File × Closing)
unfolding closing
fileclose i files = elim (get_elem? files i) [
  | none ↦ none
  | some f ↦
      if ltb f.ref 1
      then none
      else if ltb 0 (f.ref - 1)
      then some (set files i (with_ref (f.ref - 1) f), nothing)
      else some (set files i (record f { ref = 0; type = fd_none }), closing f)
]

-- `p->ofile`, NOFILE entries.
abbrev pub Descriptors : Type 0
Descriptors = List (Option ℕ)

abbrev pub nofile : ℕ
nofile = 16

-- `argfd` of the pattern `fd` of an int: the file, or none for -1. A negative `fd` is a pattern above NOFILE.
unfoldable pub argfd : ℕ → Descriptors → Option ℕ
argfd fd ofile =
    if leb nofile fd then none else elim (get_elem? ofile fd) [ none ↦ none | some f ↦ f ]

-- The loop of `fdalloc`: none is -1.
unfoldable pub fdalloc_from : ℕ → ℕ → Descriptors → Option (Descriptors × ℕ)
fdalloc_from f fd [] = none
fdalloc_from f fd (none ∷ ofile) = some (some f ∷ ofile, fd)
fdalloc_from f fd (some g ∷ ofile) = elim (fdalloc_from f (suc fd) ofile) [
  | none ↦ none
  | some (ofile', k) ↦ some (some g ∷ ofile', k)
]

unfoldable pub fdalloc : ℕ → Descriptors → Option (Descriptors × ℕ)
unfolding fdalloc_from
fdalloc f ofile = fdalloc_from f 0 ofile

-- The descriptors and the table of files.
abbrev pub State : Type 0
State = Descriptors × List File

abbrev pub dup_end :
    List File → ℕ → Option (Descriptors × ℕ) → Descriptors → Option (State × Option ℕ)
dup_end files f none ofile = some ((ofile, files), none)
dup_end files f (some (ofile', fd)) ofile = elim (filedup f files) [
  | none ↦ none
  | some files' ↦ some ((ofile', files'), some fd)
]

-- The inner none is -1, the outer one a panic.
unfoldable pub sys_dup : ℕ → State → Option (State × Option ℕ)
unfolding argfd fdalloc filedup
sys_dup fd (ofile, files) = elim (argfd fd ofile) [
  | none ↦ some ((ofile, files), none)
  | some f ↦ dup_end files f (fdalloc f ofile) ofile
]

unfoldable pub sys_close : ℕ → State → Option (State × Option Closing)
unfolding argfd fileclose
sys_close fd (ofile, files) = elim (argfd fd ofile) [
  | none ↦ some ((ofile, files), none)
  | some f ↦ elim (fileclose f files) [
    | none ↦ none
    | some (files', c) ↦ some ((set ofile fd none, files'), some c)
  ]
]
