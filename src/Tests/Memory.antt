-- ===== src/Tests/Memory.antt =====
-- Locks, the page allocator and the log at concrete inputs.
use osn_mp.Common.{
  ℕ, ◌+◌, ◌-◌, ◌/◌, ◌≡◌, refl, ◌⊎◌, true, false, none, some, [], ◌∷◌, arith, length, take,
}
use osn_mp.Spinlock.{Lock, Cpu}
use osn_mp.Kalloc.{Kmem, kalloc, kfree, kinit, round_up, phystop, pgsize}
use osn_mp.Kalloc.Init.{kinit-IsValid}
use osn_mp.Kalloc.Valid
use osn_mp.Kalloc.Valid.{Allocates, kalloc-IsValid, kfree-IsValid, NotIn}
use osn_mp.Kalloc.Counts.{with_free, kfree-last}
use osn_mp.Log.{Log, Disk, commit, recover, apply_all}
use osn_mp.Log.Recovery.{home, installed}
use osn_mp.Log.Crash.{commit_atomic}
use osn_mp.Tests.Samples.{kernel_end, memory}

abbrev cpu : Cpu
cpu = record { id = 0; noff = 0; intena = false; intr = true }

abbrev other_cpu : Cpu
other_cpu = record { id = 1; noff = 1; intena = true; intr = false }

abbrev lock : Lock
lock = record { locked = 0; cpu = none }

memory-IsValid : Valid.IsValid kernel_end memory
memory-IsValid = record {
  kernel = omega arith;
  pages = (
    record { aligned = refl; above = omega arith; below = omega arith; unreferenced = refl },
    (record { aligned = refl; above = omega arith; below = omega arith; unreferenced = refl }, tt),
  );
  once = (((λ e. absurd (omega arith)), tt), (tt, tt));
}

kalloc-IsValid_example :
    (m' : Kmem) × (a : ℕ) × (kalloc memory ≡ some (m', a))
    × Valid.IsValid kernel_end m'
    × Allocates kernel_end memory m' a
kalloc-IsValid_example = kalloc-IsValid kernel_end memory memory-IsValid

freed : kfree kernel_end 16384 memory ≡ some (with_free memory 16384)
freed = kfree-last kernel_end 16384 memory (refl, omega arith, omega arith) refl

kfree-IsValid_example : Valid.IsValid kernel_end (with_free memory 16384)
kfree-IsValid_example =
    kfree-IsValid kernel_end 16384 memory (with_free memory 16384) memory-IsValid freed

abbrev disk : Disk
disk = record { head = []; block = λ b. b + 100 }

abbrev cache : ℕ → ℕ
cache b = b + 1

-- The log starts at block 2, and the transaction changes the blocks 50 and 60.
commit_atomic_example :
    (home 2 2 (recover 2 (apply_all (take 4 (commit 2 (50 ∷ 60 ∷ []) cache).1) disk)).block
      ≡ home 2 2 disk.block)
    ⊎ (home 2 2 (recover 2 (apply_all (take 4 (commit 2 (50 ∷ 60 ∷ []) cache).1) disk)).block
        ≡ home 2 2 (installed (50 ∷ 60 ∷ []) cache disk.block))
commit_atomic_example = commit_atomic 2 (50 ∷ 60 ∷ []) cache disk 4 refl (refl, (refl, tt))

abbrev log : Log
log = record { start = 2; size = 30; outstanding = 1; committing = false; blocks = 50 ∷ 60 ∷ [] }

-- A kernel that ends within the third page.
abbrev before_kinit : Kmem
before_kinit = record memory { freelist = [] }

kinit-IsValid_example :
    (m' : Kmem) × (kinit 9000 before_kinit ≡ some m')
    × Valid.IsValid 9000 m'
    × (length m'.freelist ≡ (phystop - round_up 9000) / pgsize)
kinit-IsValid_example = kinit-IsValid 9000 before_kinit (omega arith) refl
