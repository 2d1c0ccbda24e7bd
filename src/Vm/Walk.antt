-- ===== src/Vm/Walk.antt =====
-- kernel/vm.c and kernel/riscv.h: the page tables of three levels in memory, walk, walkaddr and mappages.
pub mod Pages
pub mod Rounds
pub mod Found
pub mod Stored
pub mod Mapped
use osn_mp.Common.{
  ℕ, zero, suc, ◌+◌, ◌-◌, ◌*◌, ◌/◌, ◌%◌, ◌^◌, ◌≤◌, ◌<◌, min, ◌≡◌, refl, sym, ap, ◌∙◌, ◌≢◌, ◌↔◌, ◌⊎◌,
  inl, inr, Bool, true, false, not, ◌&&◌, ◌||◌, Option, none, some, List, [], ◌∷◌, ◌++◌, map, arith,
  ltb, leb, ◌==◌, if◌then◌else◌, points_to, ltb→lt, lt→ltb, ==_iff, Bool-cases, Option-cases,
  some_inj, of_some, length, get_elem?, get_or, set, modify, map_idx, take, drop, replicate, All,
  length-append, length-set, length-modify, length-map_idx, length-replicate, get_elem?-eq-get_or,
  get_or-set_self, get_or-set_ne, get_elem?-modify_self, get_elem?-modify_ne, get_elem?-map_idx,
  get_elem?-modify, get_elem?-set, get_elem?-set_self, get_elem?-set_ne, take-append_le,
  take-append_add, take-map, take_all, length-map, All-get,
}
use mathlib.Core.Option
use osn_mp.Kalloc.{Kmem, pgsize, kalloc}
use osn_mp.Vm.{maxva}

-- The allocator, and the 64-bit words of memory by address. The pages of tables are filled with 0 when they
-- are made, so the bytes that `kalloc` leaves in them are not looked at.
pub record Memory : Type 0 where
  pub kmem : Kmem
  pub words : ℕ → ℕ

-- `PX(level, va)`
unfoldable pub px : ℕ → ℕ → ℕ
px level va = va / 2 ^ (12 + 9 * level) % 512

-- `*pte & PTE_V` and `*pte & PTE_U`
abbrev pub pte_v : ℕ → Bool
pte_v pte = pte % 2 == 1

abbrev pub pte_u : ℕ → Bool
pte_u pte = pte / 16 % 2 == 1

unfoldable pub pte2pa : ℕ → ℕ
pte2pa pte = pte / 1024 * 4096

unfoldable pub pa2pte : ℕ → ℕ
pa2pte pa = pa / 4096 * 1024

abbrev pub fill_zero : ℕ → (ℕ → ℕ) → ℕ → ℕ
fill_zero pa words a = if leb pa a && ltb a (pa + pgsize) then 0 else words a

abbrev pub store : ℕ → ℕ → (ℕ → ℕ) → ℕ → ℕ
store at v words a = if a == at then v else words a

-- A new table, and the entry at `at` that leads to it. `PA2PTE` leaves bit 0 clear, so that `| PTE_V` adds 1.
unfoldable pub link : ℕ → ℕ → Kmem → (ℕ → ℕ) → Memory
link at pa m words = record { kmem = m; words = store at (pa2pte pa + 1) (fill_zero pa words) }

-- The address of the entry of `table` at a level.
abbrev pub entry_at : ℕ → ℕ → ℕ → ℕ
entry_at level table va = table + 8 * px level va

-- What the loop does with an entry that is not valid, with the result of `kalloc`; `below` goes on in the new
-- table. An outer `none` is a panic, and the address 0 is the null pointer.
unfoldable pub grow :
    (ℕ → Memory → Option (Memory × ℕ)) → ℕ → (ℕ → ℕ) → Option (Kmem × ℕ) → Option (Memory × ℕ)
unfolding link
grow below at words none = none
grow below at words (some (m, pa)) =
    if pa == 0 then some (record { kmem = m; words = words }, 0) else below pa (link at pa m words)

-- The loop of `walk` in a table at a level.
unfoldable pub walk_from : ℕ → ℕ → ℕ → Bool → Memory → Option (Memory × ℕ)
unfolding grow pte2pa px
walk_from zero table va alloc t = some (t, entry_at 0 table va)
walk_from (suc level) table va alloc t =
    let at = entry_at (suc level) table va in
    let pte = t.words at in
    let rest = walk_from level (pte2pa pte) va alloc t in
    if pte_v pte
    then rest
    else if not alloc
    then some (t, 0)
    else grow (λ pa t'. walk_from level pa va alloc t') at t.words (kalloc t.kmem)

unfoldable pub walk : ℕ → ℕ → Bool → Memory → Option (Memory × ℕ)
unfolding walk_from
walk table va alloc t = if leb maxva va then none else walk_from 2 table va alloc t

-- The tests of `walkaddr` on an entry.
abbrev pub address_of : ℕ → ℕ
address_of pte = if not (pte_v pte) then 0 else if not (pte_u pte) then 0 else pte2pa pte

abbrev pub address_at : Memory × ℕ → ℕ
address_at (t, at) = if at == 0 then 0 else address_of (t.words at)

unfoldable pub walkaddr : ℕ → ℕ → Memory → Option ℕ
unfolding walk pte2pa
walkaddr table va t = if leb maxva va then some 0 else Option.map address_at (walk table va false t)

-- `perm`: which of PTE_R, PTE_W, PTE_X and PTE_U are set.
pub record Perm : Type 0 where
  pub r : Bool
  pub w : Bool
  pub x : Bool
  pub u : Bool

abbrev pub bit : Bool → ℕ
bit true = 1
bit false = 0

-- `PA2PTE(pa) | perm | PTE_V`: the bits are different, so the sum.
unfoldable pub leaf : ℕ → Perm → ℕ
unfolding pa2pte
leaf pa perm = pa2pte pa + 1 + 2 * bit perm.r + 4 * bit perm.w + 8 * bit perm.x + 16 * bit perm.u

abbrev pub put : ℕ → ℕ → Memory → Memory
put at v t = record t { words = store at v t.words }

-- A round of the loop of `mappages`, with the result of `walk`: true goes on, and false is -1.
unfoldable pub map_page : ℕ → Perm → Option (Memory × ℕ) → Option (Memory × Bool)
unfolding leaf
map_page pa perm none = none
map_page pa perm (some (t, at)) =
    if at == 0
    then some (t, false)
    else if pte_v (t.words at)
    then none
    else some (put at (leaf pa perm) t, true)

-- The loop, with `n` pages to go behind the one at `a`: `a == last` when there are none.
unfoldable pub mappages_from : ℕ → ℕ → ℕ → ℕ → Perm → Memory → Option (Memory × Bool)
unfolding map_page walk
mappages_from zero table a pa perm t = map_page pa perm (walk table a true t)
mappages_from (suc n) table a pa perm t = elim (map_page pa perm (walk table a true t)) [
  | none ↦ none
  | some (t', ok) ↦
      let rest = mappages_from n table (a + pgsize) (pa + pgsize) perm t' in
      if ok then rest else some (t', false)
]

-- With the pages from PGROUNDDOWN(va) to PGROUNDDOWN(va + size - 1).
unfoldable pub mappages : ℕ → ℕ → ℕ → ℕ → Perm → Memory → Option (Memory × Bool)
unfolding mappages_from
mappages table va size pa perm t =
    let a = va / pgsize * pgsize in
    let last = (va + size - 1) / pgsize * pgsize in
    if size == 0 then none else mappages_from ((last - a) / pgsize) table a pa perm t
