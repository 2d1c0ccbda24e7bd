-- ===== src/Fs/Transfer.antt =====
-- kernel/fs.c: `readi` and `writei`. `either_copyout` and `either_copyin` are given by how many bytes they
-- move of those asked for, by the place in the transfer: fewer make them return -1.
pub mod Reads
pub mod Pieces
pub mod Writes
pub mod RoundTrip
use osn_mp.Common.{
  ℕ, zero, suc, ◌+◌, ◌-◌, ◌*◌, ◌/◌, ◌%◌, ◌^◌, ◌≤◌, ◌<◌, min, ◌≡◌, refl, sym, ap, ◌∙◌, ◌≢◌, ◌↔◌, ◌⊎◌,
  inl, inr, Bool, true, false, not, ◌&&◌, ◌||◌, Option, none, some, List, [], ◌∷◌, ◌++◌, map, arith,
  ltb, leb, ◌==◌, if◌then◌else◌, points_to, ltb→lt, lt→ltb, ==_iff, Bool-cases, Option-cases,
  some_inj, of_some, length, get_elem?, get_or, set, modify, map_idx, take, drop, replicate, All,
  length-append, length-set, length-modify, length-map_idx, length-replicate, get_elem?-eq-get_or,
  get_or-set_self, get_or-set_ne, get_elem?-modify_self, get_elem?-modify_ne, get_elem?-map_idx,
  get_elem?-modify, get_elem?-set, get_elem?-set_self, get_elem?-set_ne, take-append_le,
  take-append_add, take-map, take_all, length-map, All-get,
}
use osn_mp.Common.Words.{add32}
use osn_mp.Fs.Layout.{bsize, maxfile, Superblock, Block, Disk, log_block}
use osn_mp.Fs.Bytes.{store_bytes, fetch_bytes}
use osn_mp.Fs.Inode.{Dinode, Inode, iupdate}
use osn_mp.Fs.Content.{State, bmap}

abbrev pub Copied : Type 0
Copied = ℕ → ℕ → ℕ

-- The size of a piece of the transfer, which stays in a block.
abbrev pub piece : ℕ → ℕ → ℕ → ℕ
piece tot off n = min (n - tot) (bsize - off % bsize)

-- What was copied, before what a later part of the loop copies.
abbrev pub copied_first :
    List ℕ → Option (State × List ℕ × Option ℕ) → Option (State × List ℕ × Option ℕ)
copied_first cs none = none
copied_first cs (some (s, out, r)) = some (s, cs ++ out, r)

-- The loop of `readi`: the bytes copied out, and `tot` or none for -1. The outer option is a panic. A piece
-- is not empty, so that `n` is fuel enough.
unfoldable pub readi_from :
    Superblock → Copied → ℕ → ℕ → ℕ → ℕ → State → Option (State × List ℕ × Option ℕ)
readi_from sb copied zero tot off n s = some (s, [], some tot)
readi_from sb copied (suc fuel) tot off n s =
    if ltb tot n
    then elim (bmap sb (off / bsize) s) [
      | none ↦ none
      | some ((disk, ip), addr) ↦
          let m = piece tot off n in
          let c = copied tot m in
          let rest = readi_from sb copied fuel (tot + m) (off + m) n (disk, ip) in
          if addr == 0
          then some ((disk, ip), [], some tot)
          else if ltb c m
          then some ((disk, ip), fetch_bytes (off % bsize) c (disk addr), none)
          else copied_first (fetch_bytes (off % bsize) m (disk addr)) rest
    ]
    else some (s, [], some tot)

abbrev pub clipped : ℕ → ℕ → ℕ → ℕ
clipped off n size = if ltb size (add32 off n) then size - off else n

unfoldable pub readi : Superblock → Copied → ℕ → ℕ → State → Option (State × List ℕ × Option ℕ)
unfolding readi_from
readi sb copied off n (disk, ip) =
    if ltb ip.node.size off || ltb (add32 off n) off
    then some ((disk, ip), [], some 0)
    else readi_from sb copied (clipped off n ip.node.size) 0 off (clipped off n ip.node.size)
        (disk, ip)

-- The loop of `writei` from the bytes of a source: `tot` and `off` at its end.
unfoldable pub writei_from :
    Superblock → Copied → Block → ℕ → ℕ → ℕ → ℕ → State → Option (State × ℕ × ℕ)
writei_from sb copied src zero tot off n s = some (s, tot, off)
writei_from sb copied src (suc fuel) tot off n s =
    if ltb tot n
    then elim (bmap sb (off / bsize) s) [
      | none ↦ none
      | some ((disk, ip), addr) ↦
          let m = piece tot off n in
          let c = min (copied tot m) m in
          let stored =
            log_block addr (store_bytes (off % bsize) (fetch_bytes tot c src) (disk addr)) disk in
          let rest = writei_from sb copied src fuel (tot + m) (off + m) n (stored, ip) in
          if addr == 0
          then some ((disk, ip), tot, off)
          else if ltb c m
          then some ((stored, ip), tot, off)
          else rest
    ]
    else some (s, tot, off)

-- The size is brought up to the end of the write, and the inode written.
abbrev pub sized : ℕ → Inode → Inode
sized off ip =
    if ltb ip.node.size off then record ip { node = record ip.node { size = off } } else ip

unfoldable pub write_end : Superblock → Option (State × ℕ × ℕ) → Option (State × Option ℕ)
write_end sb none = none
write_end sb (some ((disk, ip), tot, off)) =
    some ((iupdate sb (sized off ip) disk, sized off ip), some tot)

-- The inner none is -1.
unfoldable pub writei : Superblock → Copied → Block → ℕ → ℕ → State → Option (State × Option ℕ)
unfolding writei_from write_end
writei sb copied src off n (disk, ip) =
    if ltb ip.node.size off || ltb (add32 off n) off
    then some ((disk, ip), none)
    else if ltb (maxfile * bsize) (add32 off n)
    then some ((disk, ip), none)
    else write_end sb (writei_from sb copied src n 0 off n (disk, ip))
