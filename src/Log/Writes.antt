-- ===== src/Log/Writes.antt =====
-- The writes of a commit in closed form, and what a run of them does to the disk.
use osn_mp.Common.{
  ℕ, zero, suc, ◌+◌, ◌≤◌, ◌<◌, ◌≡◌, refl, ap, ◌∙◌, ◌⊎◌, Bool, false, ◌&&◌, ◌||◌, List, [], ◌∷◌,
  ◌++◌, map, arith, leb, ◌==◌, if◌then◌else◌, length, take, All,
}
use mathlib.Core.Path.{ap₂}
use osn_mp.Log.{Disk, Write, body, update, apply, apply_all, write_log, install_trans}

-- The blocks of the log: its header at `start`, and the `n` behind it.
abbrev pub in_log : ℕ → ℕ → ℕ → Bool
in_log start n x = leb start x && leb x (start + n)

abbrev pub Outside : ℕ → ℕ → List ℕ → Type 0
Outside start n bs = All (λ b. in_log start n b ≡ false) bs

-- The copies in the log hold the values `f` of the blocks `bs`, from `tail` on.
abbrev pub Slots : ℕ → ℕ → List ℕ → (ℕ → ℕ) → (ℕ → ℕ) → Type 0
Slots start tail [] f block = Unit
Slots start tail (b ∷ bs) f block =
    (block (start + tail + 1) ≡ f b) × Slots start (tail + 1) bs f block

abbrev pub slot_writes : ℕ → ℕ → List ℕ → (ℕ → ℕ) → List Write
slot_writes start tail [] f = []
slot_writes start tail (b ∷ bs) f =
    body (start + tail + 1) (f b) ∷ slot_writes start (tail + 1) bs f

abbrev pub home_write : (ℕ → ℕ) → ℕ → Write
home_write f b = body b (f b)

-- A change outside the slots that follow keeps them.
Slots-update :
    (start tail : ℕ) (bs : List ℕ) (f block : ℕ → ℕ) (x v : ℕ)
    → (x ≤ start + tail) ⊎ (start + tail + length bs < x)
    → Slots start tail bs f block
    → Slots start tail bs f (update block x v)
Slots-update start tail [] f block x v h s = tt
Slots-update start tail (b ∷ bs) f block x v h (e, s) =
    (ground arith, Slots-update start (tail + 1) bs f block x v (ground arith) s)

write_log-keeps :
    (start tail : ℕ) (bs : List ℕ) (cache : ℕ → ℕ) (x : ℕ)
    → x ≤ start + tail
    → (write_log start tail bs cache).0 x ≡ cache x
unfolding write_log
write_log-keeps start tail [] cache x h = refl
write_log-keeps start tail (b ∷ bs) cache x h =
    write_log-keeps start (tail + 1) bs (update cache (start + tail + 1) (cache b)) x (omega arith)
    ∙ ground arith

agree-update :
    (start n tail : ℕ) (bs : List ℕ) (f cache : ℕ → ℕ) (v : ℕ)
    → tail + 1 ≤ n
    → Outside start n bs
    → All (λ b. cache b ≡ f b) bs
    → All (λ b. update cache (start + tail + 1) v b ≡ f b) bs
agree-update start n tail [] f cache v h o a = tt
agree-update start n tail (b ∷ bs) f cache v h (ob, o) (ab, a) =
    (ground arith, agree-update start n tail bs f cache v h o a)

-- The values that `write_log` reads are not changed by its own writes.
pub write_log-eq :
    (start n tail : ℕ) (bs : List ℕ) (f cache : ℕ → ℕ)
    → tail + length bs ≤ n
    → Outside start n bs
    → All (λ b. cache b ≡ f b) bs
    → ((write_log start tail bs cache).1 ≡ slot_writes start tail bs f)
      × Slots start tail bs f (write_log start tail bs cache).0
unfolding write_log
write_log-eq start n tail [] f cache le o a = (refl, tt)
write_log-eq start n tail (b ∷ bs) f cache le (ob, o) (ab, a) =
    let cache' = update cache (start + tail + 1) (cache b) in
    let (w, s) =
      write_log-eq start n (tail + 1) bs f cache' (omega arith) o
        (agree-update start n tail bs f cache (cache b) (omega arith) o a) in
    (
      ap₂ (λ v ws. body (start + tail + 1) v ∷ ws) ab w,
      (
        write_log-keeps start (tail + 1) bs cache' (start + tail + 1) (omega arith) ∙ ground arith,
        s,
      ),
    )

-- `install_trans` writes home the values in the slots.
pub install_trans-eq :
    (start n tail : ℕ) (bs : List ℕ) (f cache : ℕ → ℕ)
    → tail + length bs ≤ n
    → Outside start n bs
    → Slots start tail bs f cache
    → (install_trans start tail bs cache).1 ≡ map (home_write f) bs
unfolding install_trans
install_trans-eq start n tail [] f cache le o s = refl
install_trans-eq start n tail (b ∷ bs) f cache le (ob, o) (e, s) = rw e (
    ap (λ ws. home_write f b ∷ ws)
      (install_trans-eq start n (tail + 1) bs f (update cache b (f b)) (omega arith) o
        (Slots-update start (tail + 1) bs f cache b (f b) (ground arith) s)))

-- Membership, as a test.
abbrev pub member : ℕ → List ℕ → Bool
member x [] = false
member x (b ∷ bs) = b == x || member x bs

-- Writes to the log change no block outside it, and not the header.
pub slot_writes-home :
    (start n tail k : ℕ) (bs : List ℕ) (f : ℕ → ℕ) (d : Disk) (x : ℕ)
    → tail + length bs ≤ n
    → in_log start n x ≡ false
    → ((apply_all (take k (slot_writes start tail bs f)) d).block x ≡ d.block x)
      × ((apply_all (take k (slot_writes start tail bs f)) d).head ≡ d.head)
unfolding apply_all
slot_writes-home start n tail zero bs f d x le o = (refl, refl)
slot_writes-home start n tail (suc k) [] f d x le o = (refl, refl)
slot_writes-home start n tail (suc k) (b ∷ bs) f d x le o =
    let d' = apply (body (start + tail + 1) (f b)) d in
    let (e, h) = slot_writes-home start n (tail + 1) k bs f d' x (omega arith) o in
    (e ∙ ground arith, h)

-- All of them leave the values in the slots.
slot_writes-keeps :
    (start tail : ℕ) (bs : List ℕ) (f : ℕ → ℕ) (d : Disk) (x : ℕ)
    → x ≤ start + tail
    → (apply_all (slot_writes start tail bs f) d).block x ≡ d.block x
unfolding apply_all
slot_writes-keeps start tail [] f d x h = refl
slot_writes-keeps start tail (b ∷ bs) f d x h =
    slot_writes-keeps start (tail + 1) bs f (apply (body (start + tail + 1) (f b)) d) x
      (omega arith)
    ∙ ground arith

pub slot_writes-Slots :
    (start tail : ℕ) (bs : List ℕ) (f : ℕ → ℕ) (d : Disk)
    → Slots start tail bs f (apply_all (slot_writes start tail bs f) d).block
unfolding apply_all
slot_writes-Slots start tail [] f d = tt
slot_writes-Slots start tail (b ∷ bs) f d =
    let d' = apply (body (start + tail + 1) (f b)) d in
    (
      slot_writes-keeps start (tail + 1) bs f d' (start + tail + 1) (omega arith) ∙ ground arith,
      slot_writes-Slots start (tail + 1) bs f d',
    )

-- Writes home give each of the blocks its value, and change no other.
pub home_writes-block :
    (bs : List ℕ) (f : ℕ → ℕ) (d : Disk) (x : ℕ)
    → ((apply_all (map (home_write f) bs) d).block x ≡ (if member x bs then f x else d.block x))
      × ((apply_all (map (home_write f) bs) d).head ≡ d.head)
unfolding apply_all
home_writes-block [] f d x = (refl, refl)
home_writes-block (b ∷ bs) f d x =
    let (e, h) = home_writes-block bs f (apply (home_write f b) d) x in (e ∙ ground arith, h)

pub apply_all-append :
    (xs ys : List Write) (d : Disk) → apply_all (xs ++ ys) d ≡ apply_all ys (apply_all xs d)
unfolding apply_all
apply_all-append [] ys d = refl
apply_all-append (x ∷ xs) ys d = apply_all-append xs ys (apply x d)

-- Writes home keep what is in the slots.
pub home_writes-Slots :
    (start n tail : ℕ) (cs bs : List ℕ) (f : ℕ → ℕ) (d : Disk)
    → tail + length bs ≤ n
    → Outside start n cs
    → Slots start tail bs f d.block
    → Slots start tail bs f (apply_all (map (home_write f) cs) d).block
unfolding apply_all
home_writes-Slots start n tail [] bs f d le o s = s
home_writes-Slots start n tail (c ∷ cs) bs f d le (oc, o) s =
    home_writes-Slots start n tail cs bs f (apply (home_write f c) d) le o
      (Slots-update start tail bs f d.block c (f c) (ground arith) s)
