-- ===== src/Bio/Views.antt =====
-- What the buffers and the disk together say is in a block, and how `bget`, `bread`, `bwrite` and `brelse`
-- keep it.
use osn_mp.Common.{
  ℕ, ◌≡◌, refl, ◌∙◌, ◌≢◌, inl, inr, Bool, true, false, ◌&&◌, ◌||◌, some, List, [], ◌∷◌, arith, ◌==◌,
  if◌then◌else◌, Bool-cases, All,
}
use mathlib.Core.Path.{subst, ap₂}
use osn_mp.Bio.{Buf, holds, find_index, at_index}

abbrev pub Blocks : Type 0
Blocks = ℕ → ℕ → ℕ

-- The content of the block of a buffer.
abbrev pub shown : Blocks → Buf → ℕ
shown disk x = if x.valid then x.content else disk x.dev x.blockno

abbrev pub view : Blocks → List Buf → ℕ → ℕ → ℕ
view disk [] d b = disk d b
view disk (x ∷ bs) d b = if holds d b x then shown disk x else view disk bs d b

abbrev pub cached : ℕ → ℕ → List Buf → Bool
cached d b [] = false
cached d b (x ∷ bs) = holds d b x || cached d b bs

-- No two buffers hold the same block of a device other than 0, the device of the buffers never used.
abbrev pub Unique : List Buf → Type 0
Unique [] = Unit
Unique (x ∷ bs) = (x.dev ≢ 0 → cached x.dev x.blockno bs ≡ false) × Unique bs

-- A buffer that nobody refers to shows what the disk has.
abbrev pub IsClean : Blocks → Buf → Type 0
IsClean disk x = x.refcnt ≡ 0 → shown disk x ≡ disk x.dev x.blockno

pub record IsValid (disk : Blocks) (bs : List Buf) : Type 0 where
  pub unique : Unique bs
  pub clean : All (IsClean disk) bs

pub holds-eq : (d b : ℕ) (x : Buf) → holds d b x ≡ true → (x.dev ≡ d) × (x.blockno ≡ b)
holds-eq d b x h = (ground (arith, h), ground (arith, h))

abbrev pick : ℕ → ℕ → ℕ → ℕ → ℕ → ℕ → ℕ
pick d b d' b' v rest = if d' == d && b' == b then v else rest

-- Buffers of the same block that show the same, before lists that show the same.
pub view-cons :
    (disk : Blocks) (d b : ℕ) (x y : Buf) (bs cs : List Buf)
    → (y.dev ≡ x.dev) × (y.blockno ≡ x.blockno) × (shown disk y ≡ shown disk x)
    → view disk cs d b ≡ view disk bs d b
    → view disk (y ∷ cs) d b ≡ view disk (x ∷ bs) d b
view-cons disk d b x y bs cs (e, f, v) h =
    ap₂ (λ p q. pick d b p q (shown disk y) (view disk cs d b)) e f
    ∙ ap₂ (λ p q. pick d b x.dev x.blockno p q) v h

cached-cons :
    (d b : ℕ) (x y : Buf) (bs cs : List Buf)
    → (y.dev ≡ x.dev) × (y.blockno ≡ x.blockno)
    → cached d b cs ≡ cached d b bs
    → cached d b (y ∷ cs) ≡ cached d b (x ∷ bs)
cached-cons d b x y bs cs (e, f) h = rw (e, f, h) refl

pub cached-inv :
    (d b : ℕ) (x : Buf) (bs : List Buf)
    → cached d b (x ∷ bs) ≡ false
    → (holds d b x ≡ false) × (cached d b bs ≡ false)
cached-inv d b x bs h = elim (Bool-cases (holds d b x)) [
  | inl e ↦ cc (h, e)
  | inr e ↦ (e, subst (λ t. (t || cached d b bs) ≡ false) e h)
]

pub view-cached :
    (disk : Blocks) (bs : List Buf) (d b : ℕ) → cached d b bs ≡ false → view disk bs d b ≡ disk d b
view-cached disk [] d b h = refl
view-cached disk (x ∷ bs) d b h =
    let (e, r) = cached-inv d b x bs h in rw e (view-cached disk bs d b r)

-- What two lists with the same blocks and contents agree on.
abbrev pub Same : Blocks → List Buf → List Buf → Type 0
Same disk cs bs =
    (d b : ℕ) → (view disk cs d b ≡ view disk bs d b) × (cached d b cs ≡ cached d b bs)

-- A buffer that stands for another: it has the same block, shows the same and is as clean.
abbrev pub Like : Blocks → Buf → Buf → Type 0
Like disk y x =
    ((y.dev ≡ x.dev) × (y.blockno ≡ x.blockno) × (shown disk y ≡ shown disk x))
    × (IsClean disk x → IsClean disk y)

pub Like-refl : (disk : Blocks) (x : Buf) → Like disk x x
Like-refl disk x = ((refl, refl, refl), λ c. c)

abbrev pub Matching : Blocks → List Buf → List Buf → Type 0
Matching disk [] [] = Unit
Matching disk [] (x ∷ bs) = ⊥
Matching disk (y ∷ cs) [] = ⊥
Matching disk (y ∷ cs) (x ∷ bs) = Like disk y x × Matching disk cs bs

pub Matching-refl : (disk : Blocks) (bs : List Buf) → Matching disk bs bs
Matching-refl disk [] = tt
Matching-refl disk (x ∷ bs) = (Like-refl disk x, Matching-refl disk bs)

pub Matching-Same : (disk : Blocks) (cs bs : List Buf) → Matching disk cs bs → Same disk cs bs
Matching-Same disk [] [] m = λ d b. (refl, refl)
Matching-Same disk [] (x ∷ bs) m = elim m [ ]
Matching-Same disk (y ∷ cs) [] m = elim m [ ]
Matching-Same disk (y ∷ cs) (x ∷ bs) ((k, _), m) = λ d b.
    let (v, c) = Matching-Same disk cs bs m d b in
    (view-cons disk d b x y bs cs k v, cached-cons d b x y bs cs (k.0, k.1) c)

Matching-Unique : (disk : Blocks) (cs bs : List Buf) → Matching disk cs bs → Unique bs → Unique cs
Matching-Unique disk [] [] m u = tt
Matching-Unique disk [] (x ∷ bs) m u = elim m [ ]
Matching-Unique disk (y ∷ cs) [] m u = elim m [ ]
Matching-Unique disk (y ∷ cs) (x ∷ bs) (((e, f, _), _), m) (u, us) = (
  λ n.
      (Matching-Same disk cs bs m y.dev y.blockno).1
      ∙ (ap₂ (λ p q. cached p q bs) e f ∙ u (λ z. n (e ∙ z))),
  Matching-Unique disk cs bs m us,
)

Matching-IsClean :
    (disk : Blocks) (cs bs : List Buf)
    → Matching disk cs bs
    → All (IsClean disk) bs
    → All (IsClean disk) cs
Matching-IsClean disk [] [] m a = tt
Matching-IsClean disk [] (x ∷ bs) m a = elim m [ ]
Matching-IsClean disk (y ∷ cs) [] m a = elim m [ ]
Matching-IsClean disk (y ∷ cs) (x ∷ bs) ((_, k), m) (a, rest) =
    (k a, Matching-IsClean disk cs bs m rest)

pub Matching-IsValid :
    (disk : Blocks) (cs bs : List Buf) → Matching disk cs bs → IsValid disk bs → IsValid disk cs
Matching-IsValid disk cs bs m v = record {
  unique = Matching-Unique disk cs bs m v.unique;
  clean = Matching-IsClean disk cs bs m v.clean;
}

-- An update of the buffer with an index.
pub at_index-Matching :
    (disk : Blocks) (f : Buf → Buf) (i : ℕ) (bs : List Buf)
    → ((x : Buf) → find_index i bs ≡ some x → Like disk (f x) x)
    → Matching disk (at_index i f bs) bs
at_index-Matching disk f i [] = λ k. tt
at_index-Matching disk f i (x ∷ bs) = elim (Bool-cases (x.index == i)) [
  | inl e ↦ rw e (λ k. (k x refl, Matching-refl disk bs))
  | inr e ↦ rw e (λ k. (Like-refl disk x, at_index-Matching disk f i bs k))
]
