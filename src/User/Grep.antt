-- ===== src/User/Grep.antt =====
-- user/grep.c: the matcher. A string is the list of its characters up to the null.
pub mod Meaning
pub mod Correct
use osn_mp.Common.{
  ℕ, zero, suc, ◌+◌, ◌-◌, ◌*◌, ◌/◌, ◌%◌, ◌^◌, ◌≤◌, ◌<◌, min, ◌≡◌, refl, sym, ap, ◌∙◌, ◌≢◌, ◌↔◌, ◌⊎◌,
  inl, inr, Bool, true, false, not, ◌&&◌, ◌||◌, Option, none, some, List, [], ◌∷◌, ◌++◌, map, arith,
  ltb, leb, ◌==◌, if◌then◌else◌, points_to, ltb→lt, lt→ltb, ==_iff, Bool-cases, Option-cases,
  some_inj, of_some, length, get_elem?, get_or, set, modify, map_idx, take, drop, replicate, All,
  length-append, length-set, length-modify, length-map_idx, length-replicate, get_elem?-eq-get_or,
  get_or-set_self, get_or-set_ne, get_elem?-modify_self, get_elem?-modify_ne, get_elem?-map_idx,
  get_elem?-modify, get_elem?-set, get_elem?-set_self, get_elem?-set_ne, take-append_le,
  take-append_add, take-map, take_all, length-map,
}

-- The loop of `matchstar`; `here` is `matchhere` of the pattern behind the star.
unfoldable pub match_star : (List ℕ → Bool) → ℕ → List ℕ → Bool
match_star here c [] = here []
match_star here c (t ∷ text) =
    let rest = match_star here c text in
    if here (t ∷ text) then true else if t == c || c == b'.' then rest else false

-- `matchhere`; the second clause is a pattern of one character.
unfoldable pub match_here : List ℕ → List ℕ → Bool
unfolding match_star
match_here [] text = true
match_here (c ∷ []) [] = c == b'$'
match_here (c ∷ []) (t ∷ text) = not (c == b'$') && (c == b'.' || c == t)
match_here (c ∷ d ∷ re) [] = if d == b'*' then match_star (match_here re) c [] else false
match_here (c ∷ d ∷ re) (t ∷ text) =
    let rest = match_here (d ∷ re) text in
    if d == b'*'
    then match_star (match_here re) c (t ∷ text)
    else (if c == b'.' || c == t then rest else false)

-- The loop of `match` over the places where a match may begin.
unfoldable pub match_from : List ℕ → List ℕ → Bool
match_from re [] = match_here re []
match_from re (t ∷ text) =
    let rest = match_from re text in if match_here re (t ∷ text) then true else rest

unfoldable pub match : List ℕ → List ℕ → Bool
unfolding match_from
match [] text = match_from [] text
match (c ∷ re) text = if c == b'^' then match_here re text else match_from (c ∷ re) text
