-- ===== src/Tests/Pages.antt =====
-- Shared pages at concrete inputs.
use osn_mp.Common.{
  ◌+◌, ◌-◌, ◌/◌, ◌≡◌, refl, ◌≢◌, true, false, ◌||◌, none, some, [], ◌∷◌, arith, ◌==◌, if◌then◌else◌,
}
use osn_mp.Kalloc
use osn_mp.Kalloc.{Kmem, pgsize, increase_cnt}
use osn_mp.Kalloc.Valid.{IsValid}
use osn_mp.Vm.{
  Pte, PageTable, update, copied_entry, cow_handler, Copied, read_only, share_page, uvmcopy,
  uvmcopy_from,
}
use osn_mp.Vm.Cow.{IsFault, cow_handler-shared}
use osn_mp.Vm.Sharing.{IsShared, uvmcopy-shares}
use osn_mp.Tests.Samples.{kernel_end, memory}

abbrev entry : Pte
entry = record { pa = 16384; v = true; r = true; w = false; x = false; u = true }

-- Page 3 is mapped, and page 0 as well.
abbrev table : PageTable
table page = if page == 3 || page == 0 then some entry else none

abbrev twice : Kmem
twice = record memory { refcnt = Kalloc.update memory.refcnt 4 2 }

twice-IsValid : IsValid kernel_end twice
twice-IsValid = record {
  kernel = omega arith;
  pages = (
    record { aligned = refl; above = omega arith; below = omega arith; unreferenced = refl },
    (record { aligned = refl; above = omega arith; below = omega arith; unreferenced = refl }, tt),
  );
  once = (((λ e. absurd (omega arith)), tt), (tt, tt));
}

twice-IsFault : IsFault kernel_end table 12300 twice entry 8192 (12288 ∷ [])
twice-IsFault = record {
  valid = twice-IsValid;
  in_range = omega arith;
  not_null = λ e. absurd (omega arith);
  entry = refl;
  user = refl;
  present = refl;
  page = (refl, omega arith, omega arith);
  free = refl;
}

cow_handler-shared_example :
    (m' : Kmem) × (cow_handler kernel_end table 12300 twice
      ≡ some (update table (12300 / pgsize) (some (copied_entry 8192)), m', true))
    × IsValid kernel_end m'
    × (8192 ≢ entry.pa)
    × (m'.refcnt (8192 / pgsize) ≡ 1)
    × (m'.refcnt (entry.pa / pgsize) ≡ twice.refcnt (entry.pa / pgsize) - 1)
    × (m'.bytes (8192 + 5) ≡ twice.bytes (entry.pa + 5))
    × (m'.bytes (entry.pa + 5) ≡ twice.bytes (entry.pa + 5))
cow_handler-shared_example =
    cow_handler-shared kernel_end table 12300 twice entry 8192 (12288 ∷ []) 5 twice-IsFault
      (omega arith) (omega arith)

abbrev empty : PageTable
empty page = none

abbrev copied : Copied
copied = record {
  old = update table 0 (some (read_only entry));
  new = update empty 0 (some (read_only entry));
  kmem = twice;
  ok = true;
}

first_copied : uvmcopy kernel_end (λ page. true) table empty 4096 memory ≡ some copied
unfolding uvmcopy uvmcopy_from share_page increase_cnt
first_copied = refl

uvmcopy-shares_example : IsShared table copied 0
uvmcopy-shares_example =
    uvmcopy-shares kernel_end (λ page. true) table empty 4096 memory copied 0 first_copied refl
      (omega arith)
