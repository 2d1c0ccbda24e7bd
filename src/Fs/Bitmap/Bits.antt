-- ===== src/Fs/Bitmap/Bits.antt =====
-- The bits of a byte after `|=` and `&=`.
use osn_mp.Common.{
  ℕ, zero, suc, ◌+◌, ◌-◌, ◌/◌, ◌%◌, ◌^◌, ◌≤◌, ◌≡◌, refl, sym, ap, ◌∙◌, ◌≢◌, ◌⊎◌, arith,
}
use native.Mathlib.Nat.{pow-succ', div-div-eq-div-mul}
use osn_mp.Fs.Bitmap.{bit, raise_bit, clear_bit}

bit-suc : (x k : ℕ) → bit x (suc k) ≡ bit (x / 2) k
bit-suc x k = rw (pow-succ' 2 k) (ap (λ q. q % 2) (sym (div-div-eq-div-mul x 2 (2 ^ k))))

half_raised : (x k : ℕ) → (x + 2 ^ suc k) / 2 ≡ x / 2 + 2 ^ k
half_raised x k = let e = pow-succ' 2 k in omega (arith, e)

half_cleared : (x k : ℕ) → (x - 2 ^ suc k) / 2 ≡ x / 2 - 2 ^ k
half_cleared x k = let e = pow-succ' 2 k in omega (arith, e)

pub bit-raise_bit : (k x : ℕ) → bit x k ≡ 0 → bit (raise_bit x k) k ≡ 1
bit-raise_bit zero x h = omega (arith, h)
bit-raise_bit (suc k) x h =
    bit-suc (raise_bit x (suc k)) k
    ∙ ap (λ y. bit y k) (half_raised x k)
    ∙ bit-raise_bit k (x / 2) (sym (bit-suc x k) ∙ h)

pub bit-raise_bit_ne : (k j x : ℕ) → bit x k ≡ 0 → j ≢ k → bit (raise_bit x k) j ≡ bit x j
bit-raise_bit_ne zero zero x h n = absurd (n refl)
bit-raise_bit_ne zero (suc j) x h n =
    let e : (x + 1) / 2 ≡ x / 2 = omega (arith, h) in
    bit-suc (raise_bit x 0) j ∙ ap (λ y. bit y j) e ∙ sym (bit-suc x j)
bit-raise_bit_ne (suc k) zero x h n = let e = pow-succ' 2 k in omega (arith, e)
bit-raise_bit_ne (suc k) (suc j) x h n =
    bit-suc (raise_bit x (suc k)) j
    ∙ ap (λ y. bit y j) (half_raised x k)
    ∙ bit-raise_bit_ne k j (x / 2) (sym (bit-suc x k) ∙ h) (λ e. n (ap suc e))
    ∙ sym (bit-suc x j)

-- A set bit is worth its power.
pub bit-le : (k x : ℕ) → bit x k ≡ 1 → 2 ^ k ≤ x
bit-le zero x h = omega (arith, h)
bit-le (suc k) x h =
    let e = pow-succ' 2 k in let l = bit-le k (x / 2) (sym (bit-suc x k) ∙ h) in omega (arith, e, l)

pub bit-clear_bit : (k x : ℕ) → bit x k ≡ 1 → bit (clear_bit x k) k ≡ 0
bit-clear_bit zero x h = omega (arith, h)
bit-clear_bit (suc k) x h =
    bit-suc (clear_bit x (suc k)) k
    ∙ ap (λ y. bit y k) (half_cleared x k)
    ∙ bit-clear_bit k (x / 2) (sym (bit-suc x k) ∙ h)

pub bit-clear_bit_ne : (k j x : ℕ) → bit x k ≡ 1 → j ≢ k → bit (clear_bit x k) j ≡ bit x j
bit-clear_bit_ne zero zero x h n = absurd (n refl)
bit-clear_bit_ne zero (suc j) x h n =
    let e : (x - 1) / 2 ≡ x / 2 = omega (arith, h) in
    bit-suc (clear_bit x 0) j ∙ ap (λ y. bit y j) e ∙ sym (bit-suc x j)
bit-clear_bit_ne (suc k) zero x h n =
    let e = pow-succ' 2 k in let l = bit-le (suc k) x h in omega (arith, e, l)
bit-clear_bit_ne (suc k) (suc j) x h n =
    bit-suc (clear_bit x (suc k)) j
    ∙ ap (λ y. bit y j) (half_cleared x k)
    ∙ bit-clear_bit_ne k j (x / 2) (sym (bit-suc x k) ∙ h) (λ e. n (ap suc e))
    ∙ sym (bit-suc x j)

pub bit-cases : (x k : ℕ) → (bit x k ≡ 0) ⊎ (bit x k ≡ 1)
bit-cases x k = of_two (x / 2 ^ k)
  where
    of_two : (q : ℕ) → (q % 2 ≡ 0) ⊎ (q % 2 ≡ 1)
    of_two q = ground arith
