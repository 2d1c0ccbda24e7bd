-- ===== src/User/Shell/Tokens.antt =====
-- A token takes something of the text, unless the text has ended.
use osn_mp.Common.{
  ℕ, suc, ◌≤◌, ◌<◌, ◌≡◌, refl, ◌≢◌, ◌⊎◌, inl, inr, Bool, true, false, ◌||◌, List, [], ◌∷◌, arith,
  ◌==◌, Bool-cases, length,
}
use osn_mp.User.Shell.{
  symbol_at, token_from, is_one_of, whitespace, symbols, skip_white, take_word, token_at, gettoken,
  starts_with, end,
}

pub length-skip_white : (s : List ℕ) → length (skip_white s) ≤ length s
unfolding skip_white
length-skip_white [] = omega arith
length-skip_white (c ∷ s) = elim (Bool-cases (is_one_of whitespace c)) [
  | inl e ↦ rw e (let l = length-skip_white s in omega (arith, l))
  | inr e ↦ rw e (omega arith)
]

-- A text that does not begin with white space.
abbrev pub IsTrimmed : List ℕ → Type 0
IsTrimmed [] = Unit
IsTrimmed (c ∷ s) = is_one_of whitespace c ≡ false

pub skip_white-IsTrimmed : (s : List ℕ) → IsTrimmed (skip_white s)
unfolding skip_white
skip_white-IsTrimmed [] = tt
skip_white-IsTrimmed (c ∷ s) = elim (Bool-cases (is_one_of whitespace c)) [
  | inl e ↦ rw e (skip_white-IsTrimmed s)
  | inr e ↦ rw e e
]

pub skip_white_trimmed : (s : List ℕ) → IsTrimmed s → skip_white s ≡ s
unfolding skip_white
skip_white_trimmed [] h = refl
skip_white_trimmed (c ∷ s) h = rw h refl

length-take_word : (s : List ℕ) → length (take_word s).1 ≤ length s
unfolding take_word
length-take_word [] = omega arith
length-take_word (c ∷ s) = elim (Bool-cases (is_one_of whitespace c || is_one_of symbols c)) [
  | inl e ↦ rw e (omega arith)
  | inr e ↦ rw e (let l = length-take_word s in omega (arith, l))
]

take_word_shorter :
    (c : ℕ) (s : List ℕ)
    → is_one_of whitespace c ≡ false
    → is_one_of symbols c ≡ false
    → length (take_word (c ∷ s)).1 < suc (length s)
unfolding take_word
take_word_shorter c s w y = let l = length-take_word s in rw (w, y) (omega (arith, l))

length-symbol_at : (c : ℕ) (s : List ℕ) → length (symbol_at c s).1 ≤ length s
length-symbol_at c [] = ground arith
length-symbol_at c (d ∷ s) = ground arith

symbol_at_some : (c : ℕ) (s : List ℕ) → (symbol_at c s).0 ≢ end
symbol_at_some c [] = elim (Bool-cases (c == b'>')) [
  | inl e ↦ rw e (λ h. cc h)
  | inr e ↦ rw e (λ h. cc h)
]
symbol_at_some c (d ∷ s) = elim (Bool-cases (c == b'>')) [
  | inr e ↦ rw e (λ h. cc h)
  | inl e ↦ elim (Bool-cases (d == b'>')) [
    | inl f ↦ rw (e, f) (λ h. cc h)
    | inr f ↦ rw (e, f) (λ h. cc h)
  ]
]

token_from_shorter :
    (b : Bool) (c : ℕ) (s : List ℕ)
    → is_one_of whitespace c ≡ false
    → (b ≡ false → is_one_of symbols c ≡ false)
    → (length (token_from b c s).1 < suc (length s)) × ((token_from b c s).0 ≢ end)
unfolding token_from
token_from_shorter true c s t f =
    (let l = length-symbol_at c s in omega (arith, l), symbol_at_some c s)
token_from_shorter false c s t f = (take_word_shorter c s t (f refl), λ h. cc h)

-- A token of a text that is not empty.
pub token_at_shorter :
    (c : ℕ) (s : List ℕ)
    → IsTrimmed (c ∷ s)
    → (length (token_at (c ∷ s)).1 < suc (length s)) × ((token_at (c ∷ s)).0 ≢ end)
unfolding token_at
token_at_shorter c s t = token_from_shorter (is_one_of symbols c) c s t (λ e. e)

trimmed-gettoken :
    (u : List ℕ)
    → IsTrimmed u
    → (length (skip_white (token_at u).1) ≤ length u)
      × (((token_at u).0 ≡ end) ⊎ (length (skip_white (token_at u).1) < length u))
unfolding token_at skip_white
trimmed-gettoken [] t = (omega arith, inl refl)
trimmed-gettoken (c ∷ s) t =
    let l = (token_at_shorter c s t).0 in
    let m = length-skip_white (token_at (c ∷ s)).1 in
    (omega (arith, l, m), inr (omega (arith, l, m)))

-- `gettoken` takes something, or the text has ended.
pub length-gettoken :
    (s : List ℕ)
    → (length (gettoken s).1 ≤ length s)
      × (((gettoken s).0 ≡ end) ⊎ (length (gettoken s).1 < length s))
unfolding gettoken
length-gettoken s =
    let l = length-skip_white s in
    let (m, o) = trimmed-gettoken (skip_white s) (skip_white-IsTrimmed s) in
    (omega (arith, l, m), elim o [ inl e ↦ inl e | inr k ↦ inr (omega (arith, l, k)) ])

-- A token that `peek` has found takes something.
pub gettoken_found :
    (toks s : List ℕ)
    → starts_with toks (skip_white s) ≡ true
    → length (gettoken (skip_white s)).1 < length (skip_white s)
unfolding gettoken
gettoken_found toks s h = found (skip_white s) (skip_white-IsTrimmed s) h
  where
    found :
        (u : List ℕ)
        → IsTrimmed u
        → starts_with toks u ≡ true
        → length (skip_white (token_at (skip_white u)).1) < length u
    found [] t h = cc h
    found (c ∷ u) t h =
        let m = length-skip_white (token_at (c ∷ u)).1 in
        let l = (token_at_shorter c u t).0 in
        rw (skip_white_trimmed (c ∷ u) t) (omega (arith, l, m))
