-- ===== src/Bio.antt =====
-- kernel/bio.c: the cache of disk blocks. The list runs from `head.next`, the buffer used last, to `head.prev`;
-- a buffer is named by its index in `buf`. The contents of a block are one number. The sleep lock of a buffer
-- keeps its content to one process; it is not modelled.
pub mod Views
pub mod Reads
pub mod Releases
pub mod Replacement
use mathlib.Core.Option
use osn_mp.Common.{
  ℕ, zero, suc, ◌+◌, ◌-◌, ◌*◌, ◌/◌, ◌%◌, ◌^◌, ◌≤◌, ◌<◌, min, ◌≡◌, refl, sym, ap, ◌∙◌, ◌≢◌, ◌↔◌, ◌⊎◌,
  inl, inr, Bool, true, false, not, ◌&&◌, ◌||◌, Option, none, some, List, [], ◌∷◌, ◌++◌, map, arith,
  ltb, leb, ◌==◌, if◌then◌else◌, points_to, ltb→lt, lt→ltb, ==_iff, Bool-cases, Option-cases,
  some_inj, of_some, length, get_elem?, get_or, set, modify, map_idx, take, drop, replicate, All,
  length-append, length-set, length-modify, length-map_idx, length-replicate, get_elem?-eq-get_or,
  get_or-set_self, get_or-set_ne, get_elem?-modify_self, get_elem?-modify_ne, get_elem?-map_idx,
  get_elem?-modify, get_elem?-set, get_elem?-set_self, get_elem?-set_ne, take-append_le,
  take-append_add, take-map, take_all, length-map,
}

-- `struct buf`.
pub record Buf : Type 0 where
  pub index : ℕ
  pub valid : Bool
  pub dev : ℕ
  pub blockno : ℕ
  pub refcnt : ℕ
  pub content : ℕ

-- The loop of `binit`: each buffer becomes the first of the list.
unfoldable pub binit_from : ℕ → ℕ → List Buf → List Buf
binit_from i zero bs = bs
binit_from i (suc n) bs =
    binit_from (suc i) n
      (record { index = i; valid = false; dev = 0; blockno = 0; refcnt = 0; content = 0 } ∷ bs)

unfoldable pub binit : ℕ → List Buf
unfolding binit_from
binit nbuf = binit_from 0 nbuf []

abbrev pub holds : ℕ → ℕ → Buf → Bool
holds dev blockno x = x.dev == dev && x.blockno == blockno

-- The first loop of `bget`: the list and the buffer, if the block is cached.
unfoldable pub find_cached : ℕ → ℕ → List Buf → Option (List Buf × Buf)
find_cached dev blockno [] = none
find_cached dev blockno (x ∷ bs) =
    let rest = Option.map (λ r. (x ∷ r.0, r.1)) (find_cached dev blockno bs) in
    if holds dev blockno x
    then some (record x { refcnt = x.refcnt + 1 } ∷ bs, record x { refcnt = x.refcnt + 1 })
    else rest

-- The buffer made over to another block.
abbrev pub recycled : ℕ → ℕ → Buf → Buf
recycled dev blockno x = record x { dev = dev; blockno = blockno; valid = false; refcnt = 1 }

-- The second loop of `bget`, from the end of the list.
unfoldable pub recycle : ℕ → ℕ → List Buf → Option (List Buf × Buf)
recycle dev blockno [] = none
recycle dev blockno (x ∷ bs) = elim (recycle dev blockno bs) [
  | some (bs', y) ↦ some (x ∷ bs', y)
  | none ↦
      if x.refcnt == 0 then some (recycled dev blockno x ∷ bs, recycled dev blockno x) else none
]

-- `none` is the panic "bget: no buffers".
unfoldable pub bget : ℕ → ℕ → List Buf → Option (List Buf × Buf)
unfolding find_cached recycle
bget dev blockno bs = elim (find_cached dev blockno bs) [
  | some r ↦ some r
  | none ↦ recycle dev blockno bs
]

-- An operation on the buffer with an index.
abbrev pub at_index : ℕ → (Buf → Buf) → List Buf → List Buf
at_index i f [] = []
at_index i f (x ∷ bs) = if x.index == i then f x ∷ bs else x ∷ at_index i f bs

-- `virtio_disk_rw(b, 0)` and `b->valid = 1`, where the buffer is not valid.
abbrev pub fill : (ℕ → ℕ → ℕ) → Buf → Buf
fill disk x = if x.valid then x else record x { content = disk x.dev x.blockno; valid = true }

unfoldable pub bread : (ℕ → ℕ → ℕ) → ℕ → ℕ → List Buf → Option (List Buf × Buf)
unfolding bget
bread disk dev blockno bs =
    Option.map (λ r. (at_index r.1.index (fill disk) r.0, fill disk r.1)) (bget dev blockno bs)

-- `bwrite` of a buffer.
unfoldable pub bwrite : Buf → (ℕ → ℕ → ℕ) → ℕ → ℕ → ℕ
bwrite x disk dev blockno =
    if x.dev == dev && x.blockno == blockno then x.content else disk dev blockno

-- The list without the buffer with an index, and that buffer.
abbrev pub unlink : ℕ → List Buf → List Buf
unlink i [] = []
unlink i (x ∷ bs) = if x.index == i then bs else x ∷ unlink i bs

abbrev pub find_index : ℕ → List Buf → Option Buf
find_index i [] = none
find_index i (x ∷ bs) = if x.index == i then some x else find_index i bs

-- `b->refcnt--`; at 0 the buffer becomes the first of the list.
unfoldable pub put_back : ℕ → Option Buf → List Buf → List Buf
put_back i none bs = bs
put_back i (some x) bs =
    if x.refcnt - 1 == 0
    then record x { refcnt = 0 } ∷ unlink i bs
    else at_index i (λ y. record y { refcnt = y.refcnt - 1 }) bs

-- `brelse` of the buffer with index `i`, after its sleep lock is released.
unfoldable pub brelse : ℕ → List Buf → List Buf
unfolding put_back
brelse i bs = put_back i (find_index i bs) bs

unfoldable pub bpin : ℕ → List Buf → List Buf
bpin i bs = at_index i (λ x. record x { refcnt = x.refcnt + 1 }) bs

unfoldable pub bunpin : ℕ → List Buf → List Buf
bunpin i bs = at_index i (λ x. record x { refcnt = x.refcnt - 1 }) bs
