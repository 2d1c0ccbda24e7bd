-- ===== src/Tests/Files.antt =====
-- The buffer cache and the descriptors at concrete inputs.
use osn_mp.Common.{
  ℕ, zero, suc, ◌+◌, ◌<◌, ◌≡◌, refl, ◌≢◌, true, false, Option, none, some, List, [], ◌∷◌, arith,
  some_inj, of_some, length, get_elem?,
}
use osn_mp.Bio.{Buf, bread, brelse, bget, find_cached, recycle}
use osn_mp.Bio.Views
use osn_mp.Bio.Views.{Blocks, view, shown}
use osn_mp.Bio.Reads.{bread-view}
use osn_mp.Bio.Releases.{brelse-view}
use osn_mp.File.{File, Closing, sys_close, fd_inode}
use osn_mp.File.Counts.{IsBalanced, count}
use osn_mp.File.Calls.{Closed, sys_close-Closed}

-- Block 5 of device 1 is in the cache, with a content that is not yet on the disk, and pinned.
abbrev blocks : Blocks
blocks d b = b + 100

abbrev free : Buf
free = record { index = 0; valid = false; dev = 0; blockno = 0; refcnt = 0; content = 0 }

abbrev pinned : Buf
pinned = record { index = 1; valid = true; dev = 1; blockno = 5; refcnt = 1; content = 9 }

abbrev cache : List Buf
cache = pinned ∷ free ∷ []

cache-IsValid : Views.IsValid blocks cache
cache-IsValid = record {
  unique = ((λ _. refl), ((λ _. refl), tt));
  clean = ((λ z. absurd (omega (arith, z))), ((λ _. refl), tt));
}

abbrev six : Buf
six = record { index = 0; valid = true; dev = 1; blockno = 6; refcnt = 1; content = 106 }

read_six : bread blocks 1 6 cache ≡ some (pinned ∷ six ∷ [], six)
unfolding bread bget find_cached recycle
read_six = refl

bread-view_example :
    (six.content ≡ view blocks cache 1 6)
    × (six.valid ≡ true)
    × (six.dev ≡ 1)
    × (six.blockno ≡ 6)
    × ((d b : ℕ) → d ≢ 0 → view blocks (pinned ∷ six ∷ []) d b ≡ view blocks cache d b)
    × Views.IsValid blocks (pinned ∷ six ∷ [])
bread-view_example =
    bread-view blocks 1 6 cache (pinned ∷ six ∷ []) six (λ e. absurd (omega arith)) cache-IsValid
      read_six

abbrev held : List Buf
held = pinned ∷ six ∷ []

held-IsValid : Views.IsValid blocks held
held-IsValid = record {
  unique = ((λ _. refl), ((λ _. refl), tt));
  clean = ((λ z. absurd (omega (arith, z))), ((λ z. refl), tt));
}

brelse-view_example :
    ((d b : ℕ) → d ≢ 0 → view blocks (brelse 0 held) d b ≡ view blocks held d b)
    × Views.IsValid blocks (brelse 0 held)
brelse-view_example =
    brelse-view blocks 0 six held refl (λ _. refl) (λ e. absurd (omega (arith, e))) held-IsValid

-- Descriptor 0 is the one of the file at 0.
abbrev open_file : File
open_file = record {
  type = fd_inode;
  ref = 1;
  readable = true;
  writable = false;
  pipe = 0;
  ip = 3;
  off = 0;
  major = 0;
}

abbrev files : List File
files = open_file ∷ []

abbrev ofile : List (Option ℕ)
ofile = some 0 ∷ none ∷ []

files-refs : (i : ℕ) (f : File) → get_elem? files i ≡ some f → f.ref ≡ 0 + count i ofile
files-refs zero f h = of_some (λ g. g.ref ≡ 0 + count 0 ofile) h refl
files-refs (suc i) f h = cc h

files-opened : (fd i : ℕ) → get_elem? ofile fd ≡ some (some i) → i < length files
files-opened zero i h = of_some (λ k. k < 1) (some_inj h) (omega arith)
files-opened (suc zero) i h = cc h
files-opened (suc (suc fd)) i h = cc h

files-IsBalanced : IsBalanced (λ _. 0) ofile files
files-IsBalanced = record { refs = files-refs; opened = files-opened }

sys_close-Closed_example :
    (r : (List (Option ℕ) × List File) × Option Closing) × (sys_close 0 (ofile, files) ≡ some r)
    × IsBalanced (λ _. 0) r.0.0 r.0.1
    × Closed 0 (ofile, files) r.0 r.1
sys_close-Closed_example = sys_close-Closed (λ _. 0) 0 ofile files files-IsBalanced
