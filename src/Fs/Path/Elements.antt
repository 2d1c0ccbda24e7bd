-- ===== src/Fs/Path/Elements.antt =====
-- The elements of a path.
use osn_mp.Common.{
  ℕ, zero, suc, ◌+◌, ◌-◌, ◌≤◌, ◌<◌, ◌≡◌, refl, sym, ap, ◌∙◌, ◌≢◌, inl, inr, false, Option, none,
  some, List, [], ◌∷◌, ◌++◌, arith, leb, ◌==◌, ==_iff, Bool-cases, length, get_elem?, take, drop,
  All, length-append,
}
use mathlib.Core.List.{append-nil}
use mathlib.Core.Path.{subst}
use osn_mp.Fs.Path.{elem_end, fill_name, skipelem, slash, skip_slashes, take_elem}

abbrev pub NoSlash : List ℕ → Type 0
NoSlash cs = All (λ c. c ≢ slash) cs

abbrev pub Slashes : List ℕ → Type 0
Slashes cs = All (λ c. c ≡ slash) cs

-- A text that does not begin with a slash; one that begins with a slash or is empty.
abbrev pub Clear : List ℕ → Type 0
Clear [] = Unit
Clear (c ∷ cs) = c ≢ slash

abbrev pub Closed : List ℕ → Type 0
Closed [] = Unit
Closed (c ∷ cs) = c ≡ slash

skip_slashes-splits :
    (path : List ℕ)
    → (a : List ℕ) × (path ≡ a ++ skip_slashes path) × Slashes a × Clear (skip_slashes path)
unfolding skip_slashes
skip_slashes-splits [] = ([], refl, tt, tt)
skip_slashes-splits (c ∷ path) = elim (Bool-cases (c == slash)) [
  | inl e ↦
      let (a, q, s, f) = skip_slashes-splits path in
      rw e (c ∷ a, ap (λ l. c ∷ l) q, ((==_iff _ _).0 e, s), f)
  | inr e ↦ rw e ([], refl, tt, λ z. cc ((==_iff _ _).1 z, e))
]

take_elem-splits :
    (path : List ℕ)
    → (path ≡ (take_elem path).0 ++ (take_elem path).1)
      × NoSlash (take_elem path).0
      × Closed (take_elem path).1
unfolding take_elem
take_elem-splits [] = (refl, tt, tt)
take_elem-splits (c ∷ path) = elim (Bool-cases (c == slash)) [
  | inl e ↦ rw e (refl, tt, (==_iff _ _).0 e)
  | inr e ↦
      let (q, n, f) = take_elem-splits path in
      rw e (ap (λ l. c ∷ l) q, ((λ z. cc ((==_iff _ _).1 z, e)), n), f)
]

-- A path taken apart: slashes, an element, slashes again unless the path ends, and the rest.
abbrev Cut : List ℕ → List ℕ → Option (List ℕ × List ℕ) → Type 0
Cut path name none = Slashes path
Cut path name (some (rest, name')) =
    (a e b : List ℕ) × (path ≡ a ++ (e ++ (b ++ rest)))
    × Slashes a
    × NoSlash e
    × (0 < length e)
    × Slashes b
    × Clear rest
    × Closed (b ++ rest)
    × (name' ≡ fill_name e name)

take_elem-some : (c : ℕ) (path : List ℕ) → c ≢ slash → 0 < length (take_elem (c ∷ path)).0
unfolding take_elem
take_elem-some c path n = let e : (c == slash) ≡ false = ground (arith, n) in rw e (omega arith)

elem_end-Cut :
    (path a q name : List ℕ) → path ≡ a ++ q → Slashes a → Clear q → Cut path name (elem_end q name)
elem_end-Cut path a [] name e s f = subst Slashes (sym (e ∙ append-nil a)) s
elem_end-Cut path a (c ∷ q) name e s f =
    let (p, n, z) = take_elem-splits (c ∷ q) in
    let rest : List ℕ = (take_elem (c ∷ q)).1 in
    let (b, r, t, w) = skip_slashes-splits rest in
    (
      a,
      (take_elem (c ∷ q)).0,
      b,
      e ∙ ap (λ l. a ++ l) (p ∙ ap (λ l. (take_elem (c ∷ q)).0 ++ l) r),
      s,
      n,
      take_elem-some c q f,
      t,
      w,
      subst Closed r z,
      refl,
    )

skipelem-Cut : (path name : List ℕ) → Cut path name (skipelem path name)
unfolding skipelem
skipelem-Cut path name =
    let (a, q, s, f) = skip_slashes-splits path in
    elem_end-Cut path a (skip_slashes path) name q s f

-- The rest is shorter than the path.
pub skipelem-shorter :
    (path name rest name' : List ℕ)
    → skipelem path name ≡ some (rest, name')
    → length rest < length path
skipelem-shorter path name rest name' h =
    let (a, e, b, q, _, _, l, _, _, _, _) = subst (Cut path name) h (skipelem-Cut path name) in
    let la = length-append a (e ++ (b ++ rest)) in
    let le = length-append e (b ++ rest) in
    let lb = length-append b rest in let lp = ap length q in omega (arith, la, le, lb, lp, l)

-- The buffer `name'` of 14 bytes after the element `e` has been moved into `name`: the element, a null byte
-- behind it if there is room, and what was there before.
abbrev pub IsName : List ℕ → List ℕ → List ℕ → Type 0
IsName e name name' =
    (length name' ≡ 14)
    × ((j : ℕ) → j < 14 → j < length e → get_elem? name' j ≡ get_elem? e j)
    × ((j : ℕ) → j < 14 → j ≡ length e → get_elem? name' j ≡ some 0)
    × ((j : ℕ) → j < 14 → length e < j → get_elem? name' j ≡ get_elem? name j)

-- A path taken apart: slashes, an element, slashes again unless the path ends, and the rest.
abbrev pub Splits : List ℕ → List ℕ → Option (List ℕ × List ℕ) → Type 0
Splits path name none = Slashes path
Splits path name (some (rest, name')) =
    (a e b : List ℕ) × (path ≡ a ++ (e ++ (b ++ rest)))
    × Slashes a
    × NoSlash e
    × (0 < length e)
    × Slashes b
    × Clear rest
    × Closed (b ++ rest)
    × IsName e name name'

get_elem?-append_lt : (e xs : List ℕ) (j : ℕ) → j < length e → get_elem? (e ++ xs) j ≡ get_elem? e j
get_elem?-append_lt [] xs j l = absurd (omega arith)
get_elem?-append_lt (x ∷ e) xs zero l = refl
get_elem?-append_lt (x ∷ e) xs (suc j) l = get_elem?-append_lt e xs j (omega arith)

get_elem?-append_at :
    (e : List ℕ) (x : ℕ) (xs : List ℕ) → get_elem? (e ++ (x ∷ xs)) (length e) ≡ some x
get_elem?-append_at [] x xs = refl
get_elem?-append_at (y ∷ e) x xs = get_elem?-append_at e x xs

get_elem?-append_gt :
    (e : List ℕ) (x : ℕ) (name : List ℕ) (j : ℕ)
    → length e < j
    → get_elem? (e ++ (x ∷ drop (suc (length e)) name)) j ≡ get_elem? name j
get_elem?-append_gt e x name zero l = absurd (omega arith)
get_elem?-append_gt [] x [] (suc j) l = refl
get_elem?-append_gt [] x (y ∷ name) (suc j) l = refl
get_elem?-append_gt (z ∷ e) x [] (suc j) l = get_elem?-append_gt e x [] j (omega arith)
get_elem?-append_gt (z ∷ e) x (y ∷ name) (suc j) l = get_elem?-append_gt e x name j (omega arith)

get_elem?-take : (n : ℕ) (e : List ℕ) (j : ℕ) → j < n → get_elem? (take n e) j ≡ get_elem? e j
get_elem?-take zero e j l = absurd (omega arith)
get_elem?-take (suc n) [] j l = refl
get_elem?-take (suc n) (x ∷ e) zero l = refl
get_elem?-take (suc n) (x ∷ e) (suc j) l = get_elem?-take n e j (omega arith)

length-take_le : (n : ℕ) (e : List ℕ) → n ≤ length e → length (take n e) ≡ n
length-take_le zero e l = refl
length-take_le (suc n) [] l = absurd (omega arith)
length-take_le (suc n) (x ∷ e) l = ap suc (length-take_le n e (omega arith))

length-drop_le : (n : ℕ) (e : List ℕ) → length (drop n e) ≡ length e - n
length-drop_le zero e = omega arith
length-drop_le (suc n) [] = omega arith
length-drop_le (suc n) (x ∷ e) = let h = length-drop_le n e in omega (arith, h)

long-IsName : (e name : List ℕ) → 14 ≤ length e → IsName e name (take 14 e)
long-IsName e name l = (
  length-take_le 14 e l,
  λ j a b. get_elem?-take 14 e j a,
  λ j a b. absurd (omega (arith, l, b)),
  λ j a b. absurd (omega (arith, l, b)),
)

short-IsName :
    (e name : List ℕ)
    → length name ≡ 14
    → length e < 14
    → IsName e name (e ++ (0 ∷ drop (suc (length e)) name))
short-IsName e name l s =
    let la = length-append e (0 ∷ drop (suc (length e)) name) in
    let ld = length-drop_le (suc (length e)) name in
    (
      omega (arith, la, ld, l, s),
      λ j a b. get_elem?-append_lt e (0 ∷ drop (suc (length e)) name) j b,
      λ j a b.
          ap (get_elem? (e ++ (0 ∷ drop (suc (length e)) name))) b
          ∙ get_elem?-append_at e 0 (drop (suc (length e)) name),
      λ j a b. get_elem?-append_gt e 0 name j b,
    )

fill_name-IsName : (e name : List ℕ) → length name ≡ 14 → IsName e name (fill_name e name)
unfolding fill_name
fill_name-IsName e name l = elim (Bool-cases (leb 14 (length e))) [
  | inl h ↦ rw h (long-IsName e name (ground (arith, h)))
  | inr h ↦
      let more : length e + 1 ≡ suc (length e) = omega arith in
      rw (h, more) (short-IsName e name l (ground (arith, h)))
]

Cut-Splits :
    (path name : List ℕ) (r : Option (List ℕ × List ℕ))
    → length name ≡ 14
    → Cut path name r
    → Splits path name r
Cut-Splits path name none l h = h
Cut-Splits path name (some (rest, name')) l (a, e, b, q, s, n, p, t, f, c, z) =
    (a, e, b, q, s, n, p, t, f, c, subst (IsName e name) (sym z) (fill_name-IsName e name l))

-- `skipelem` returns 0 exactly where a path has slashes only; else it takes the path apart into slashes, the
-- first element, the slashes behind it and a rest that does not begin with a slash. The buffer `name` of 14
-- bytes then holds the element, or its first 14 bytes; a shorter one has a null byte behind it, and the bytes
-- behind that are as they were.
pub skipelem-Splits :
    (path name : List ℕ) → length name ≡ 14 → Splits path name (skipelem path name)
skipelem-Splits path name l = Cut-Splits path name (skipelem path name) l (skipelem-Cut path name)
