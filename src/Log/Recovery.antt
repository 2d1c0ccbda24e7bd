-- ===== src/Log/Recovery.antt =====
-- What recovery does with the disk that a crash leaves, and the writes of a commit in closed form.
use osn_mp.Common.{
  ℕ, zero, suc, ◌≡◌, refl, inl, inr, false, List, [], ◌∷◌, ◌++◌, map, arith, if◌then◌else◌,
  Bool-cases, length, take, All,
}
use mathlib.Core.Path.{fun_ext, ap₂}
use osn_mp.Log.{Disk, Write, header, apply, apply_all, write_log, install_trans, commit, recover}
use osn_mp.Log.Writes.{
  in_log, Outside, Slots, slot_writes, home_write, write_log-eq, install_trans-eq, member,
  home_writes-block, apply_all-append,
}

-- The blocks outside the log.
abbrev pub home : ℕ → ℕ → (ℕ → ℕ) → ℕ → ℕ
home start n block x = if in_log start n x then 0 else block x

-- The blocks with the values of the transaction.
abbrev pub installed : List ℕ → (ℕ → ℕ) → (ℕ → ℕ) → ℕ → ℕ
installed bs cache block x = if member x bs then cache x else block x

pub home-eq :
    (start n : ℕ) (f g : ℕ → ℕ)
    → ((x : ℕ) → in_log start n x ≡ false → f x ≡ g x)
    → home start n f ≡ home start n g
home-eq start n f g h =
    fun_ext (λ x. elim (Bool-cases (in_log start n x)) [ inl e ↦ rw e refl | inr e ↦ rw e (h x e) ])

-- With an empty header recovery changes no block.
pub recover-clean :
    (start : ℕ) (d : Disk)
    → d.head ≡ []
    → ((recover start d).block ≡ d.block) × ((recover start d).head ≡ [])
unfolding recover install_trans apply_all apply
recover-clean start d e = rw e (refl, refl)

-- With the header of a transaction and its values in the log, recovery installs them.
pub recover-committed :
    (start : ℕ) (bs : List ℕ) (f : ℕ → ℕ) (d : Disk) (x : ℕ)
    → d.head ≡ bs
    → Outside start (length bs) bs
    → Slots start 0 bs f d.block
    → ((recover start d).block x ≡ installed bs f d.block x) × ((recover start d).head ≡ [])
unfolding recover
recover-committed start bs f d x e o s =
    let w : (install_trans start 0 d.head d.block).1 ≡ map (home_write f) bs =
      rw e (install_trans-eq start (length bs) 0 bs f d.block (omega arith) o s) in
    rw (w, apply_all-append (map (home_write f) bs) (header [] ∷ []) d)
      (last (apply_all (map (home_write f) bs) d) (home_writes-block bs f d x).0)
  where
    last :
        (d' : Disk) {v : ℕ}
        → d'.block x ≡ v
        → ((apply_all (header [] ∷ []) d').block x ≡ v)
          × ((apply_all (header [] ∷ []) d').head ≡ [])
    last d' h = (h, refl)

All-refl : (bs : List ℕ) (f : ℕ → ℕ) → All (λ b. f b ≡ f b) bs
All-refl [] f = tt
All-refl (b ∷ bs) f = (refl, All-refl bs f)

-- The writes of a commit: the values into the log, the header, the values home, the empty header.
pub commit-writes :
    (start b : ℕ) (bs : List ℕ) (cache : ℕ → ℕ)
    → Outside start (length (b ∷ bs)) (b ∷ bs)
    → (commit start (b ∷ bs) cache).1
      ≡ slot_writes start 0 (b ∷ bs) cache
        ++ (header (b ∷ bs) ∷ (map (home_write cache) (b ∷ bs) ++ (header [] ∷ [])))
unfolding commit
commit-writes start b bs cache o =
    let n = length (b ∷ bs) in
    let (w, s) =
      write_log-eq start n 0 (b ∷ bs) cache cache (omega arith) o (All-refl (b ∷ bs) cache) in
    let i =
      install_trans-eq start n 0 (b ∷ bs) cache (write_log start 0 (b ∷ bs) cache).0 (omega arith) o
        s in
    ap₂ (λ xs ys. xs ++ (header (b ∷ bs) ∷ (ys ++ (header [] ∷ [])))) w i

pub Outside-take : (start n j : ℕ) (bs : List ℕ) → Outside start n bs → Outside start n (take j bs)
Outside-take start n zero bs o = tt
Outside-take start n (suc j) [] o = tt
Outside-take start n (suc j) (b ∷ bs) (ob, o) = (ob, Outside-take start n j bs o)

abbrev no_writes : List Write
no_writes = []

pub take-nil : (k : ℕ) → take k no_writes ≡ no_writes
take-nil zero = refl
take-nil (suc k) = refl

pub member-take : (x j : ℕ) (bs : List ℕ) → member x bs ≡ false → member x (take j bs) ≡ false
member-take x zero bs h = refl
member-take x (suc j) [] h = refl
member-take x (suc j) (b ∷ bs) h = ground (arith, member-take x j bs)
