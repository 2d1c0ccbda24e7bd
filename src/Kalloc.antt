-- ===== src/Kalloc.antt =====
-- kernel/kalloc.c: the page allocator with its reference counts.
pub mod Valid
pub mod Counts
pub mod Init
use osn_mp.Common.{
  ℕ, zero, suc, ◌+◌, ◌-◌, ◌*◌, ◌/◌, ◌%◌, ◌^◌, ◌≤◌, ◌<◌, min, ◌≡◌, refl, sym, ap, ◌∙◌, ◌≢◌, ◌↔◌, ◌⊎◌,
  inl, inr, Bool, true, false, not, ◌&&◌, ◌||◌, Option, none, some, List, [], ◌∷◌, ◌++◌, map, arith,
  ltb, leb, ◌==◌, if◌then◌else◌, points_to, ltb→lt, lt→ltb, ==_iff, Bool-cases, Option-cases,
  length, get_elem?, get_or, set, modify, map_idx, take, drop, replicate, All, length-append,
  length-set, length-modify, length-map_idx, length-replicate, get_elem?-eq-get_or, get_or-set_self,
  get_or-set_ne, get_elem?-modify_self, get_elem?-modify_ne, get_elem?-map_idx, get_elem?-modify,
  get_elem?-set, get_elem?-set_self, get_elem?-set_ne,
}

-- PGSIZE and PHYSTOP of kernel/riscv.h and kernel/memlayout.h.
abbrev pub pgsize : ℕ
pgsize = 4096

abbrev pub phystop : ℕ
phystop = 0x88000000

-- `kmem.freelist`, the first entry first, as the addresses of its pages; `refcnt` by page number;
-- and the bytes of memory. The links of the list stand in the first bytes of the free pages: they
-- are the list here, and are left out of `bytes`.
pub record Kmem : Type 0 where
  pub freelist : List ℕ
  pub refcnt : ℕ → ℕ
  pub bytes : ℕ → ℕ

abbrev pub update : (ℕ → ℕ) → ℕ → ℕ → ℕ → ℕ
update f i v j = if i == j then v else f j

unfoldable pub junkfill : ℕ → ℕ → (ℕ → ℕ) → ℕ → ℕ
junkfill addr val bytes a = if leb addr a && ltb a (addr + pgsize) then val else bytes a

-- With the first page of the list, if there is one. `none` is the panic "refcnt kalloc", and the
-- address 0 is the null pointer.
unfoldable pub kalloc_first : List ℕ → Kmem → Option (Kmem × ℕ)
unfolding junkfill
kalloc_first [] m = some (m, 0)
kalloc_first (r ∷ next) m =
    if not (m.refcnt (r / pgsize) == 0)
    then none
    else some (
      record {
        freelist = next;
        refcnt = update m.refcnt (r / pgsize) 1;
        bytes = junkfill r 5 m.bytes;
      },
      r,
    )

unfoldable pub kalloc : Kmem → Option (Kmem × ℕ)
unfolding kalloc_first
kalloc m = kalloc_first m.freelist m

unfoldable pub increase_cnt : ℕ → Kmem → Option Kmem
increase_cnt pa m =
    let pn = pa / pgsize in
    if ltb phystop pa
    then none
    else if ltb (m.refcnt pn) 1
    then none
    else some (record m { refcnt = update m.refcnt pn (m.refcnt pn + 1) })

unfoldable pub add_to_freelist : ℕ → Kmem → Kmem
add_to_freelist r m = record m { freelist = r ∷ m.freelist }

-- PGROUNDUP of kernel/riscv.h.
abbrev pub round_up : ℕ → ℕ
round_up a = (a + (pgsize - 1)) / pgsize * pgsize

-- `end` is the first address after the kernel, set by the linker script.
module _ (end : ℕ) where
  unfoldable pub kfree : ℕ → Kmem → Option Kmem
  unfolding add_to_freelist junkfill
  kfree pa m =
      if not (pa % pgsize == 0) || ltb pa end || leb phystop pa
      then none
      else let pn = pa / pgsize in
        if ltb (m.refcnt pn) 1
        then none
        else let m' = record m { refcnt = update m.refcnt pn (m.refcnt pn - 1) } in
          if ltb 0 (m'.refcnt pn)
          then some m'
          else some (add_to_freelist pa (record m' { bytes = junkfill pa 1 m'.bytes }))

  -- The loop of `freerange` with `rounds` pages at most to go; `none` is a panic of `kfree`.
  unfoldable pub freerange_from : ℕ → ℕ → ℕ → Kmem → Option Kmem
  freerange_from zero p pa_end m = some m
  freerange_from (suc rounds) p pa_end m =
      if leb (p + pgsize) pa_end
      then elim (kfree p (record m { refcnt = update m.refcnt (p / pgsize) 1 })) [
        | none ↦ none
        | some m' ↦ freerange_from rounds (p + pgsize) pa_end m'
      ]
      else some m

  unfoldable pub freerange : ℕ → ℕ → Kmem → Option Kmem
  unfolding freerange_from
  freerange pa_start pa_end m = freerange_from (pa_end / pgsize) (round_up pa_start) pa_end m

  unfoldable pub kinit : Kmem → Option Kmem
  unfolding freerange
  kinit m = freerange end phystop m
