-- ===== src/User/Number.antt =====
-- Numbers as text: `printint` of kernel/printf.c, which user/printf.c has as well, and `atoi` of user/ulib.c.
pub mod Decimal
use osn_mp.Common.{
  ℕ, zero, suc, ◌+◌, ◌-◌, ◌*◌, ◌/◌, ◌%◌, ◌^◌, ◌≤◌, ◌<◌, min, ◌≡◌, refl, sym, ap, ◌∙◌, ◌≢◌, ◌↔◌, ◌⊎◌,
  inl, inr, Bool, true, false, not, ◌&&◌, ◌||◌, Option, none, some, List, [], ◌∷◌, ◌++◌, map, arith,
  ltb, leb, ◌==◌, if◌then◌else◌, points_to, ltb→lt, lt→ltb, ==_iff, Bool-cases, Option-cases,
  some_inj, of_some, length, get_elem?, get_or, set, modify, map_idx, take, drop, replicate, All,
  length-append, length-set, length-modify, length-map_idx, length-replicate, get_elem?-eq-get_or,
  get_or-set_self, get_or-set_ne, get_elem?-modify_self, get_elem?-modify_ne, get_elem?-map_idx,
  get_elem?-modify, get_elem?-set, get_elem?-set_self, get_elem?-set_ne, take-append_le,
  take-append_add, take-map, take_all, length-map,
}
use osn_mp.Common.Words.{word, add32, sub32, mul32}

-- An entry of `digits`.
abbrev pub digit : ℕ → ℕ
digit d = if ltb d 10 then 48 + d else 87 + d

-- The loop that fills `buf`, the last digit first, with `fuel` rounds at most.
unfoldable pub digits_of : ℕ → ℕ → ℕ → List ℕ
digits_of zero base x = []
digits_of (suc fuel) base x =
    let rest = digits_of fuel base (x / base) in
    digit (x % base) ∷ (if x / base == 0 then [] else rest)

-- The last loop: `buf` from its end.
abbrev pub emit : List ℕ → List ℕ → List ℕ
emit [] out = out
emit (c ∷ buf) out = emit buf (c ∷ out)

-- What `printint` prints of the word `xx`; a word has at most 32 digits.
unfoldable pub print_int : ℕ → ℕ → Bool → List ℕ
unfolding digits_of
print_int xx base sign =
    let negative = sign && leb (2 ^ 31) xx in
    let x = if negative then sub32 0 xx else xx in
    emit (digits_of 32 base x ++ (if negative then b'-' ∷ [] else [])) []

-- The loop of `atoi` with the sum so far.
unfoldable pub atoi_from : ℕ → List ℕ → ℕ
atoi_from n [] = n
atoi_from n (c ∷ s) =
    let rest = atoi_from (sub32 (add32 (mul32 n 10) c) 48) s in
    if leb 48 c && leb c 57 then rest else n

unfoldable pub atoi : List ℕ → ℕ
unfolding atoi_from
atoi s = atoi_from 0 s
