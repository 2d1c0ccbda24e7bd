-- ===== src/User/Number/Decimal.antt =====
-- Printing a number and reading it back.
use osn_mp.Common.{
  ℕ, zero, suc, ◌+◌, ◌-◌, ◌*◌, ◌/◌, ◌^◌, ◌≤◌, ◌<◌, ◌≡◌, refl, ap, ◌∙◌, inl, inr, true, false, ◌&&◌,
  List, [], ◌∷◌, ◌++◌, arith, leb, ◌==◌, Bool-cases, All,
}
use osn_mp.Common.Words.{word}
use native.Mathlib.Nat.{pow-succ'}
use mathlib.Core.List.{append-nil}
use osn_mp.User.Number.{digits_of, emit, print_int, atoi_from, atoi}

-- The number that a list of digits stands for, the last digit first.
abbrev value : List ℕ → ℕ
value [] = 0
value (c ∷ cs) = value cs * 10 + (c - 48)

abbrev IsDigits : List ℕ → Type 0
IsDigits cs = All (λ c. (48 ≤ c) × (c ≤ 57)) cs

digits_of-value :
    (fuel x : ℕ)
    → x < 10 ^ fuel
    → (value (digits_of fuel 10 x) ≡ x) × IsDigits (digits_of fuel 10 x)
unfolding digits_of
digits_of-value zero x h = (ground arith, tt)
digits_of-value (suc fuel) x h =
    let p : 10 ^ suc fuel ≡ 10 * 10 ^ fuel = pow-succ' 10 fuel in
    let (e, d) = digits_of-value fuel (x / 10) (omega (arith, p, h)) in
    elim (Bool-cases (x / 10 == 0)) [
      | inl z ↦ rw z (ground (arith, z), ((ground arith, ground arith), tt))
      | inr z ↦ rw z (ground (arith, e), ((ground arith, ground arith), d))
    ]

-- The digits are read from the other end.
atoi_from-emit :
    (cs out : List ℕ)
    → IsDigits cs
    → value cs < word
    → atoi_from 0 (emit cs out) ≡ atoi_from (value cs) out
unfolding atoi_from
atoi_from-emit [] out d h = refl
atoi_from-emit (c ∷ cs) out ((lo, hi), d) h =
    atoi_from-emit cs (c ∷ out) d (omega arith) ∙ ground arith

emit-append : (cs out rest : List ℕ) → emit cs out ++ rest ≡ emit cs (out ++ rest)
emit-append [] out rest = refl
emit-append (c ∷ cs) out rest = emit-append cs (c ∷ out) rest

-- What `atoi` stops at.
abbrev pub NoDigitFirst : List ℕ → Type 0
NoDigitFirst [] = Unit
NoDigitFirst (c ∷ s) = (leb 48 c && leb c 57) ≡ false

atoi_from-stop : (n : ℕ) (s : List ℕ) → NoDigitFirst s → atoi_from n s ≡ n
unfolding atoi_from
atoi_from-stop n [] h = refl
atoi_from-stop n (c ∷ s) h = rw h refl

-- A word that is not negative as an `int` is printed in decimal such that `atoi` reads the number back,
-- whatever follows that does not begin with a digit.
pub atoi-print_int :
    (x : ℕ) (rest : List ℕ)
    → x < 2 ^ 31
    → NoDigitFirst rest
    → atoi (print_int x 10 true ++ rest) ≡ x
unfolding atoi print_int
atoi-print_int x rest h r =
    let positive : leb (2 ^ 31) x ≡ false = ground (arith, h) in
    let (e, d) = digits_of-value 32 x (omega (arith, h)) in
    rw (positive, append-nil (digits_of 32 10 x), emit-append (digits_of 32 10 x) [] rest)
      (atoi_from-emit (digits_of 32 10 x) rest d (omega (arith, e, h))
        ∙ ap (λ n. atoi_from n rest) e
        ∙ atoi_from-stop x rest r)
