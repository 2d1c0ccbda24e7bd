-- ===== src/Log.antt =====
-- kernel/log.c: the redo log of the file system. The contents of a block are one number here. `cache`
-- is what `bread` returns for a block, the disk changes by `bwrite` alone.
pub mod Space
pub mod Writes
pub mod Recovery
pub mod Crash
use osn_mp.Common.Words.{sub32}
use osn_mp.Common.{
  ℕ, zero, suc, ◌+◌, ◌-◌, ◌*◌, ◌/◌, ◌%◌, ◌^◌, ◌≤◌, ◌<◌, min, ◌≡◌, refl, sym, ap, ◌∙◌, ◌≢◌, ◌↔◌, ◌⊎◌,
  inl, inr, Bool, true, false, not, ◌&&◌, ◌||◌, Option, none, some, List, [], ◌∷◌, ◌++◌, map, arith,
  ltb, leb, ◌==◌, if◌then◌else◌, points_to, ltb→lt, lt→ltb, ==_iff, Bool-cases, Option-cases,
  some_inj, of_some, length, get_elem?, get_or, set, modify, map_idx, take, drop, replicate, All,
  length-append, length-set, length-modify, length-map_idx, length-replicate, get_elem?-eq-get_or,
  get_or-set_self, get_or-set_ne, get_elem?-modify_self, get_elem?-modify_ne, get_elem?-map_idx,
  get_elem?-modify, get_elem?-set, get_elem?-set_self, get_elem?-set_ne,
}

-- MAXOPBLOCKS and LOGSIZE of kernel/param.h.
abbrev pub max_op_blocks : ℕ
max_op_blocks = 10

abbrev pub log_size : ℕ
log_size = 30

-- `struct log`: `blocks` are the `lh.n` block numbers of `lh.block`.
pub record Log : Type 0 where
  pub start : ℕ
  pub size : ℕ
  pub outstanding : ℕ
  pub committing : Bool
  pub blocks : List ℕ

-- One round of the loop of `begin_op`: none where it sleeps.
unfoldable pub begin_op : Log → Option Log
begin_op l =
    if l.committing
    then none
    else if ltb log_size (length l.blocks + (l.outstanding + 1) * max_op_blocks)
    then none
    else some (record l { outstanding = l.outstanding + 1 })

-- The first locked section of `end_op`, with `do_commit`. `none` is the panic "log.committing".
unfoldable pub end_op : Log → Option (Log × Bool)
end_op l =
    let l' = record l { outstanding = sub32 l.outstanding 1 } in
    if l.committing
    then none
    else if l'.outstanding == 0
    then some (record l' { committing = true }, true)
    else some (l', false)

-- The last locked section of `end_op`, after `commit`.
unfoldable pub end_commit : Log → Log
end_commit l = record l { committing = false }

-- The loop of `log_write`: the block is found, or added behind the others.
unfoldable pub absorb : ℕ → List ℕ → List ℕ
absorb b [] = b ∷ []
absorb b (x ∷ xs) = if x == b then b ∷ xs else x ∷ absorb b xs

-- `none` is one of the two panics.
unfoldable pub log_write : ℕ → Log → Option Log
unfolding absorb
log_write b l =
    if leb log_size (length l.blocks) || leb l.size (length l.blocks + 1)
    then none
    else if ltb l.outstanding 1
    then none
    else some (record l { blocks = absorb b l.blocks })

-- The disk: its header block as the list of block numbers that it holds, and the other blocks.
pub record Disk : Type 0 where
  pub head : List ℕ
  pub block : ℕ → ℕ

-- A `bwrite` of the header block, or of another.
pub data Write : Type 0 where
  header : List ℕ → Write
  body : ℕ → ℕ → Write

abbrev pub update : (ℕ → ℕ) → ℕ → ℕ → ℕ → ℕ
update f i v j = if i == j then v else f j

unfoldable pub apply : Write → Disk → Disk
apply (header bs) d = record d { head = bs }
apply (body b v) d = record d { block = update d.block b v }

unfoldable pub apply_all : List Write → Disk → Disk
unfolding apply
apply_all [] d = d
apply_all (w ∷ ws) d = apply_all ws (apply w d)

-- `write_log` from `tail` on: the cache that it leaves and the writes that it makes, in order.
unfoldable pub write_log : ℕ → ℕ → List ℕ → (ℕ → ℕ) → (ℕ → ℕ) × List Write
write_log start tail [] cache = (cache, [])
write_log start tail (b ∷ bs) cache =
    let (cache', ws) = write_log start (tail + 1) bs (update cache (start + tail + 1) (cache b)) in
    (cache', body (start + tail + 1) (cache b) ∷ ws)

-- `install_trans` from `tail` on.
unfoldable pub install_trans : ℕ → ℕ → List ℕ → (ℕ → ℕ) → (ℕ → ℕ) × List Write
install_trans start tail [] cache = (cache, [])
install_trans start tail (b ∷ bs) cache =
    let v = cache (start + tail + 1) in
    let (cache', ws) = install_trans start (tail + 1) bs (update cache b v) in
    (cache', body b v ∷ ws)

-- `commit`: the cache and the writes. `write_head` is one write.
unfoldable pub commit : ℕ → List ℕ → (ℕ → ℕ) → (ℕ → ℕ) × List Write
unfolding write_log install_trans
commit start [] cache = (cache, [])
commit start (b ∷ bs) cache =
    let (cache1, ws1) = write_log start 0 (b ∷ bs) cache in
    let (cache2, ws2) = install_trans start 0 (b ∷ bs) cache1 in
    (cache2, ws1 ++ (header (b ∷ bs) ∷ (ws2 ++ (header [] ∷ []))))

-- `recover_from_log` after a boot, when the cache is empty and `bread` reads the disk.
unfoldable pub recover : ℕ → Disk → Disk
unfolding apply_all
recover start d =
    let (cache, ws) = install_trans start 0 d.head d.block in apply_all (ws ++ header [] ∷ []) d
