-- ===== src/Tests/Tables.antt =====
-- Page tables in memory at concrete inputs.
use osn_mp.Common.{ℕ, ◌≡◌, refl, true, false, Option, none, some, arith, All}
use osn_mp.Kalloc.{kalloc, kalloc_first}
use osn_mp.Kalloc.Valid.{Distinct}
use osn_mp.Vm.Walk.{
  Memory, Perm, px, pte2pa, pa2pte, leaf, link, grow, map_page, mappages_from, mappages, walk_from,
  walk, walkaddr,
}
use osn_mp.Vm.Walk.Pages.{tables, IsAligned, Outside}
use osn_mp.Vm.Walk.Found.{pages, walk-found}
use osn_mp.Vm.Walk.Mapped.{walkaddr-mappages}
use osn_mp.Tests.Samples.{memory}

-- An empty table at 1048576, with the two free pages of the sample.
abbrev empty : Memory
empty = record { kmem = memory; words = λ a. 0 }

abbrev user : Perm
user = record { r = true; w = true; x = false; u = true }

-- The memory of a result.
abbrev memory_of {ℓ} : {A : Type ℓ} → Option (Memory × A) → Memory
memory_of none = empty
memory_of (some (t, _)) = t

abbrev walked : Memory
walked = memory_of (walk 1048576 4096 true empty)

abbrev mapped : Memory
mapped = memory_of (mappages 1048576 4096 100 40960 user empty)

empty-IsAligned : All IsAligned (pages 2 1048576 4096 empty)
unfolding tables pte2pa px
empty-IsAligned = (refl, (refl, (refl, tt)))

empty-Distinct : Distinct (pages 2 1048576 4096 empty)
unfolding tables pte2pa px
empty-Distinct = (
  ((λ e. absurd (omega arith)), ((λ e. absurd (omega arith)), tt)),
  (((λ e. absurd (omega arith)), tt), (tt, tt)),
)

walked_now : walk 1048576 4096 true empty ≡ some (walked, 12296)
unfolding walk walk_from grow kalloc kalloc_first link pte2pa pa2pte px
walked_now = refl

mapped_now : mappages 1048576 4096 100 40960 user empty ≡ some (mapped, true)
unfolding mappages mappages_from map_page leaf walk walk_from grow kalloc kalloc_first link pte2pa
    pa2pte px
mapped_now = refl

walk-found_example :
    (walk 1048576 4096 false walked ≡ some (walked, 12296))
    × ((x : ℕ) → All (Outside x) (pages 2 1048576 4096 empty) → walked.words x ≡ 0)
    × (pages 2 1048576 4096 walked ≡ pages 2 1048576 4096 empty)
walk-found_example =
    walk-found 1048576 4096 empty walked 12296 empty-IsAligned empty-Distinct walked_now
      (λ e. absurd (omega arith))

walkaddr-mappages_example : walkaddr 1048576 4096 mapped ≡ some 40960
walkaddr-mappages_example =
    walkaddr-mappages 1048576 4096 100 40960 user empty mapped refl refl (omega arith) (omega arith)
      refl empty-IsAligned empty-Distinct mapped_now
