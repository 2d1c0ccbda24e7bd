-- ===== src/Fs/Bytes.antt =====
-- Numbers and fields in the bytes of a block, the least byte first, and `memmove` between a block and a
-- record.
use osn_mp.Common.{
  ℕ, zero, suc, ◌+◌, ◌-◌, ◌*◌, ◌/◌, ◌%◌, ◌^◌, ◌≤◌, ◌<◌, ◌≡◌, refl, sym, ap, ◌∙◌, ◌⊎◌, inl, inr,
  true, false, List, [], ◌∷◌, ◌++◌, arith, ◌==◌, if◌then◌else◌, Bool-cases, length,
}
use mathlib.Core.Path.{ap₂}
use osn_mp.Fs.Layout.{Block}

unfoldable pub le16 : ℕ → List ℕ
le16 v = v % 256 ∷ v / 256 % 256 ∷ []

unfoldable pub le32 : ℕ → List ℕ
le32 v = v % 256 ∷ v / 256 % 256 ∷ v / 65536 % 256 ∷ v / 16777216 % 256 ∷ []

unfoldable pub of_le : List ℕ → ℕ
of_le [] = 0
of_le (c ∷ cs) = c + 256 * of_le cs

-- `memmove` of bytes into a block and out of it.
unfoldable pub store_bytes : ℕ → List ℕ → Block → Block
store_bytes off [] f = f
store_bytes off (c ∷ cs) f = λ j. if j == off then c else store_bytes (suc off) cs f j

unfoldable pub fetch_bytes : ℕ → ℕ → Block → List ℕ
fetch_bytes off zero f = []
fetch_bytes off (suc n) f = f off ∷ fetch_bytes (suc off) n f

pub length-fetch_bytes : (off n : ℕ) (f : Block) → length (fetch_bytes off n f) ≡ n
unfolding fetch_bytes
length-fetch_bytes off zero f = refl
length-fetch_bytes off (suc n) f = ap suc (length-fetch_bytes (suc off) n f)

pub store_bytes-outside :
    (off : ℕ) (cs : List ℕ) (f : Block) (j : ℕ)
    → (j < off) ⊎ (off + length cs ≤ j)
    → store_bytes off cs f j ≡ f j
unfolding store_bytes
store_bytes-outside off [] f j h = refl
store_bytes-outside off (c ∷ cs) f j h =
    let e : (j == off) ≡ false = ground (arith, h) in
    rw e (store_bytes-outside (suc off) cs f j (ground (arith, h)))

pub fetch_bytes-cong :
    (off n : ℕ) (f g : Block)
    → ((j : ℕ) → off ≤ j → j < off + n → f j ≡ g j)
    → fetch_bytes off n f ≡ fetch_bytes off n g
unfolding fetch_bytes
fetch_bytes-cong off zero f g h = refl
fetch_bytes-cong off (suc n) f g h =
    ap₂ (λ x l. x ∷ l) (h off (omega arith) (omega arith))
      (fetch_bytes-cong (suc off) n f g (λ j p q. h j (omega arith) (omega arith)))

-- What was stored is fetched.
pub fetch_bytes-store_bytes :
    (off : ℕ) (cs : List ℕ) (f : Block) → fetch_bytes off (length cs) (store_bytes off cs f) ≡ cs
unfolding fetch_bytes store_bytes
fetch_bytes-store_bytes off [] f = refl
fetch_bytes-store_bytes off (c ∷ cs) f =
    let e : (off == off) ≡ true = ground arith in
    ap₂ (λ x l. x ∷ l) (rw e refl)
      (fetch_bytes-cong (suc off) (length cs) (store_bytes off (c ∷ cs) f)
          (store_bytes (suc off) cs f)
          (λ j p q. let n : (j == off) ≡ false = ground (arith, p) in rw n refl)
        ∙ fetch_bytes-store_bytes (suc off) cs f)

pub of_le-le32 : (v : ℕ) → v < 2 ^ 32 → of_le (le32 v) ≡ v
unfolding of_le le32
of_le-le32 v h = omega (arith, h)

pub of_le-le16 : (v : ℕ) → v < 2 ^ 16 → of_le (le16 v) ≡ v
unfolding of_le le16
of_le-le16 v h = omega (arith, h)

-- A stretch of bytes, wherever it stands.
pub fetch_bytes-shift :
    (a b n : ℕ) (f g : Block)
    → ((j : ℕ) → j < n → f (a + j) ≡ g (b + j))
    → fetch_bytes a n f ≡ fetch_bytes b n g
unfolding fetch_bytes
fetch_bytes-shift a b zero f g h = refl
fetch_bytes-shift a b (suc n) f g h =
    let further : (k j : ℕ) → suc k + j ≡ k + suc j = λ k j. omega arith in
    let start : (k : ℕ) → k ≡ k + 0 = λ k. omega arith in
    ap₂ (λ x l. x ∷ l) (ap f (start a) ∙ (h 0 (omega arith) ∙ ap g (sym (start b))))
      (fetch_bytes-shift (suc a) (suc b) n f g
        (λ j l. ap f (further a j) ∙ (h (suc j) (omega arith) ∙ ap g (sym (further b j)))))

pub fetch_bytes-append :
    (off n m : ℕ) (f : Block)
    → fetch_bytes off (n + m) f ≡ fetch_bytes off n f ++ fetch_bytes (off + n) m f
unfolding fetch_bytes
fetch_bytes-append off zero m f =
    ap (λ k. fetch_bytes off k f) (omega arith) ∙ ap (λ o. fetch_bytes o m f) (omega arith)
fetch_bytes-append off (suc n) m f =
    let e : suc n + m ≡ suc (n + m) = omega arith in
    ap (λ k. fetch_bytes off k f) e
    ∙ ap (λ l. f off ∷ l)
        (fetch_bytes-append (suc off) n m f
          ∙ ap (λ o. fetch_bytes (suc off) n f ++ fetch_bytes o m f) (omega arith))

-- A byte of a stretch that was moved.
pub store_bytes-fetch_bytes :
    (off a m : ℕ) (f g : Block) (k : ℕ)
    → off ≤ k
    → k < off + m
    → store_bytes off (fetch_bytes a m g) f k ≡ g (a + (k - off))
unfolding store_bytes fetch_bytes
store_bytes-fetch_bytes off a zero f g k l h = absurd (omega arith)
store_bytes-fetch_bytes off a (suc m) f g k l h = elim (Bool-cases (k == off)) [
  | inl e ↦ rw e (ap g (ground (arith, e)))
  | inr e ↦
      let next : suc off ≤ k = ground (arith, e, l) in
      rw e
        (store_bytes-fetch_bytes (suc off) (suc a) m f g k next (omega arith) ∙ ap g (omega arith))
]
