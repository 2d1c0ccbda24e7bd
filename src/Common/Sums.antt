-- ===== src/Common/Sums.antt =====
-- Sums of a weight over a list, and reading an entry of a changed list.
use Prim.Native.Nat.{ℕ, zero, suc, ◌+◌, ◌≤◌, ◌<◌}
use mathlib.Core.Path.{◌≡◌, refl, ap}
use mathlib.Core.Logic.{◌≢◌}
use mathlib.Core.Option.{some}
use mathlib.Core.List.{List, [], ◌∷◌}
use native.Mathlib.Omega.{arith}
use osn_mp.Common.Tests.{◌==◌, if◌then◌else◌}
use osn_mp.Common.Lists.{length, get_elem?, get_or, set, modify}

module _ {ℓ} {A : Type ℓ} where
  abbrev pub total : (A → ℕ) → List A → ℕ
  total w [] = 0
  total w (x ∷ xs) = w x + total w xs

  -- A changed entry changes the sum by its weight.
  pub total-set :
      (w : A → ℕ) (xs : List A) (i : ℕ) (x y : A)
      → get_elem? xs i ≡ some x
      → total w (set xs i y) + w x ≡ total w xs + w y
  total-set w [] i x y h = cc
  total-set w (z ∷ xs) zero x y h = ground (arith, h)
  total-set w (z ∷ xs) (suc i) x y h = omega (arith, total-set w xs i x y h)

  pub total-ge :
      (w : A → ℕ) (xs : List A) (i : ℕ) (x : A) → get_elem? xs i ≡ some x → w x ≤ total w xs
  total-ge w [] i x h = cc
  total-ge w (z ∷ xs) zero x h = ground (arith, h)
  total-ge w (z ∷ xs) (suc i) x h = omega (arith, total-ge w xs i x h)

  -- Two entries.
  pub total-two :
      (w : A → ℕ) (xs : List A) (i j : ℕ) (x y : A)
      → i ≢ j
      → get_elem? xs i ≡ some x
      → get_elem? xs j ≡ some y
      → w x + w y ≤ total w xs
  total-two w [] i j x y n h k = cc
  total-two w (z ∷ xs) zero zero x y n h k = absurd (n refl)
  total-two w (z ∷ xs) zero (suc j) x y n h k = ground (arith, total-ge w xs j y k, h)
  total-two w (z ∷ xs) (suc i) zero x y n h k = ground (arith, total-ge w xs i x h, k)
  total-two w (z ∷ xs) (suc i) (suc j) x y n h k =
      let apart : i ≢ j = ground arith in omega (arith, total-two w xs i j x y apart h k)

  pub get_or-modify_self :
      (xs : List A) (i : ℕ) (f : A → A) (d : A)
      → i < length xs
      → get_or (modify xs i f) i d ≡ f (get_or xs i d)
  get_or-modify_self [] i f d h = absurd (omega arith)
  get_or-modify_self (x ∷ xs) zero f d h = refl
  get_or-modify_self (x ∷ xs) (suc i) f d h = get_or-modify_self xs i f d (omega arith)

  pub get_or-modify_ne :
      (xs : List A) (i j : ℕ) (f : A → A) (d : A)
      → i ≢ j
      → get_or (modify xs i f) j d ≡ get_or xs j d
  get_or-modify_ne [] i j f d h = refl
  get_or-modify_ne (x ∷ xs) zero zero f d h = absurd (h refl)
  get_or-modify_ne (x ∷ xs) zero (suc j) f d h = refl
  get_or-modify_ne (x ∷ xs) (suc i) zero f d h = refl
  get_or-modify_ne (x ∷ xs) (suc i) (suc j) f d h = get_or-modify_ne xs i j f d (λ e. h (ap suc e))

  pub get_or-get_elem? :
      (xs : List A) (i : ℕ) (x d : A)
      → get_elem? xs i ≡ some x
      → (get_or xs i d ≡ x) × (i < length xs)
  get_or-get_elem? [] i x d h = cc
  get_or-get_elem? (z ∷ xs) zero x d h = (ground (arith, h), omega arith)
  get_or-get_elem? (z ∷ xs) (suc i) x d h =
      let (e, l) = get_or-get_elem? xs i x d h in (e, omega arith)

  pub get_or-set :
      (xs : List A) (i j : ℕ) (v d : A)
      → j < length xs
      → get_or (set xs i v) j d ≡ (if i == j then v else get_or xs j d)
  get_or-set [] i j v d h = absurd (omega arith)
  get_or-set (x ∷ xs) zero zero v d h = ground arith
  get_or-set (x ∷ xs) zero (suc j) v d h = ground arith
  get_or-set (x ∷ xs) (suc i) zero v d h = ground arith
  get_or-set (x ∷ xs) (suc i) (suc j) v d h = ground (arith, get_or-set xs i j v d (omega arith))

  pub get_or-modify :
      (xs : List A) (i j : ℕ) (f : A → A) (d : A)
      → j < length xs
      → get_or (modify xs i f) j d ≡ (if i == j then f (get_or xs j d) else get_or xs j d)
  get_or-modify [] i j f d h = absurd (omega arith)
  get_or-modify (x ∷ xs) zero zero f d h = ground arith
  get_or-modify (x ∷ xs) zero (suc j) f d h = ground arith
  get_or-modify (x ∷ xs) (suc i) zero f d h = ground arith
  get_or-modify (x ∷ xs) (suc i) (suc j) f d h =
      ground (arith, get_or-modify xs i j f d (omega arith))
