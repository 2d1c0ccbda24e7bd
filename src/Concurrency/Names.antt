-- ===== src/Concurrency/Names.antt =====
-- concurrency/1.c and 2.c: names, as the lists of their characters.
use osn_mp.Common.{ℕ, ◌≡◌, refl, Bool, true, false, ◌&&◌, List, [], ◌∷◌, arith, ◌==◌}
use mathlib.Core.Path.{ap₂}

-- `strcmp(s, t) == 0`
unfoldable pub same_name : List ℕ → List ℕ → Bool
same_name [] [] = true
same_name [] (c ∷ t) = false
same_name (b ∷ s) [] = false
same_name (b ∷ s) (c ∷ t) = b == c && same_name s t

pub same_name-eq : (s t : List ℕ) → same_name s t ≡ true → s ≡ t
unfolding same_name
same_name-eq [] [] h = refl
same_name-eq [] (c ∷ t) h = cc
same_name-eq (b ∷ s) [] h = cc
same_name-eq (b ∷ s) (c ∷ t) h = ap₂ ◌∷◌ (ground arith) (same_name-eq s t (ground arith))

pub same_name_refl : (s : List ℕ) → same_name s s ≡ true
unfolding same_name
same_name_refl [] = refl
same_name_refl (b ∷ s) = ground (arith, same_name_refl s)
