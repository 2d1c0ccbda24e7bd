-- ===== src/Vm.antt =====
-- kernel/vm.c and kernel/trap.c: pages shared by `fork` and copied at the first write. A page table is
-- a function from page numbers to the entries that `walk` finds, without the pages that hold the table
-- itself. An outer `none` is a panic.
pub mod Cow
pub mod Sharing
pub mod Walk
use osn_mp.Common.{
  ℕ, zero, suc, ◌+◌, ◌-◌, ◌*◌, ◌/◌, ◌%◌, ◌^◌, ◌≤◌, ◌<◌, min, ◌≡◌, refl, sym, ap, ◌∙◌, ◌≢◌, ◌↔◌, ◌⊎◌,
  inl, inr, Bool, true, false, not, ◌&&◌, ◌||◌, Option, none, some, List, [], ◌∷◌, ◌++◌, map, arith,
  ltb, leb, ◌==◌, if◌then◌else◌, points_to, ltb→lt, lt→ltb, ==_iff, Bool-cases, Option-cases,
  some_inj, of_some, length, get_elem?, get_or, set, modify, map_idx, take, drop, replicate, All,
  length-append, length-set, length-modify, length-map_idx, length-replicate, get_elem?-eq-get_or,
  get_or-set_self, get_or-set_ne, get_elem?-modify_self, get_elem?-modify_ne, get_elem?-map_idx,
  get_elem?-modify, get_elem?-set, get_elem?-set_self, get_elem?-set_ne, take-append_le,
  take-append_add, take-map, take_all, length-map,
}
use mathlib.Core.Option
use osn_mp.Kalloc.{Kmem, pgsize, kalloc, kfree, increase_cnt}

-- MAXVA of kernel/riscv.h.
abbrev pub maxva : ℕ
maxva = 2 ^ 38

-- An entry with its flags PTE_V, PTE_R, PTE_W, PTE_X and PTE_U.
pub record Pte : Type 0 where
  pub pa : ℕ
  pub v : Bool
  pub r : Bool
  pub w : Bool
  pub x : Bool
  pub u : Bool

abbrev pub PageTable : Type 0
PageTable = ℕ → Option Pte

abbrev pub update : PageTable → ℕ → Option Pte → PageTable
update t i e j = if i == j then e else t j

-- An entry that `walk` does not find is `none`.
unfoldable pub check_valid_page : Option Pte → Bool
check_valid_page none = false
check_valid_page (some e) = e.u && e.v

-- `memmove(pa2, pa1, PGSIZE)` between two pages.
abbrev pub copy_page : ℕ → ℕ → (ℕ → ℕ) → ℕ → ℕ
copy_page pa2 pa1 bytes a =
    if leb pa2 a && ltb a (pa2 + pgsize) then bytes (pa1 + (a - pa2)) else bytes a

-- With the result of `kalloc`.
unfoldable pub copy_into : ℕ → Option (Kmem × ℕ) → Option (Kmem × ℕ)
copy_into pa1 none = none
copy_into pa1 (some (m, pa2)) =
    if pa2 == 0 then some (m, 0) else some (record m { bytes = copy_page pa2 pa1 m.bytes }, pa2)

unfoldable pub allocate_and_copy_page : ℕ → Kmem → Option (Kmem × ℕ)
unfolding copy_into
allocate_and_copy_page pa1 m = copy_into pa1 (kalloc m)

-- The entry of a page just copied.
abbrev pub copied_entry : ℕ → Pte
copied_entry pa2 = record { pa = pa2; v = true; r = true; w = true; x = true; u = true }

-- The end of `cowHandler`, with the result of `kfree`.
abbrev pub replaced : PageTable → Option Kmem → Option (PageTable × Kmem × Bool)
replaced pt none = none
replaced pt (some m) = some (pt, m, true)

-- With the copy.
unfoldable pub replace_page :
    ℕ → ℕ → ℕ → PageTable → Option (Kmem × ℕ) → Option (PageTable × Kmem × Bool)
replace_page end page pa1 pt none = none
replace_page end page pa1 pt (some (m, pa2)) =
    if pa2 == 0
    then some (pt, m, false)
    else replaced (update pt page (some (copied_entry pa2))) (kfree end pa1 m)

unfoldable pub copy_at : ℕ → ℕ → Option Pte → PageTable → Kmem → Option (PageTable × Kmem × Bool)
unfolding replace_page
copy_at end page none pt m = some (pt, m, false)
copy_at end page (some e) pt m = replace_page end page e.pa pt (allocate_and_copy_page e.pa m)

-- The result is true for 0 and false for -1.
unfoldable pub cow_handler : ℕ → PageTable → ℕ → Kmem → Option (PageTable × Kmem × Bool)
unfolding check_valid_page copy_at
cow_handler end pt va m =
    if leb maxva va
    then some (pt, m, false)
    else if va == 0
    then some (pt, m, false)
    else if not (check_valid_page (pt (va / pgsize)))
    then some (pt, m, false)
    else copy_at end (va / pgsize) (pt (va / pgsize)) pt m

-- The loop of `uvmunmap` with `do_free`, for `npages` pages from `page` on.
unfoldable pub unmap : ℕ → ℕ → ℕ → PageTable → Kmem → Option (PageTable × Kmem)
unmap end page zero pt m = some (pt, m)
unmap end page (suc npages) pt m = elim (pt page) [
  | none ↦ none
  | some e ↦ if not e.v || not (e.r || e.w || e.x || e.u) then none else elim (kfree end e.pa m) [
    | none ↦ none
    | some m' ↦ unmap end (suc page) npages (update pt page none) m'
  ]
]

-- `*pte &= ~PTE_W`
abbrev pub read_only : Pte → Pte
read_only e = record e { w = false }

-- The tables of parent and child, the allocator, and whether `uvmcopy` returns 0.
pub record Copied : Type 0 where
  pub old : PageTable
  pub new : PageTable
  pub kmem : Kmem
  pub ok : Bool

-- The label `err` at page `page`.
unfoldable pub undo : ℕ → ℕ → PageTable → PageTable → Kmem → Option Copied
undo end page old new m = elim (unmap end 0 page new m) [
  | none ↦ none
  | some (new', m') ↦ some (record { old = old; new = new'; kmem = m'; ok = false })
]

-- The body of the loop of `uvmcopy` at a page, up to `increase_cnt`: its entry and its allocator.
unfoldable pub share_page : Option Pte → Kmem → Option (Pte × Kmem)
share_page none m = none
share_page (some e) m =
    if e.v then Option.map (λ m'. (read_only e, m')) (increase_cnt e.pa m) else none

-- The loop with `n` pages to go from `page` on. `maps` tells at which pages `mappages` gets the pages
-- that it needs for the table itself; the entry of the child must not be valid before.
unfoldable pub uvmcopy_from : ℕ → (ℕ → Bool) → ℕ → ℕ → PageTable → PageTable → Kmem → Option Copied
unfolding share_page undo
uvmcopy_from end maps page zero old new m =
    some (record { old = old; new = new; kmem = m; ok = true })
uvmcopy_from end maps page (suc n) old new m = elim (share_page (old page) m) [
  | none ↦ none
  | some (e, m') ↦
      let old' = update old page (some e) in
      let rest = uvmcopy_from end maps (suc page) n old' (update new page (some e)) m' in
      if maps page then rest else undo end page old' new m'
]

-- `uvmcopy` of `sz` bytes.
unfoldable pub uvmcopy : ℕ → (ℕ → Bool) → PageTable → PageTable → ℕ → Kmem → Option Copied
unfolding uvmcopy_from
uvmcopy end maps old new sz m = uvmcopy_from end maps 0 ((sz + (pgsize - 1)) / pgsize) old new m
