-- ===== src/Str.antt =====
-- kernel/string.c. A buffer is the list of its bytes from the pointer on, a source is the list of
-- the bytes that may be read. A read or write past the end of a list does nothing.
use osn_mp.Common.{
  ℕ, zero, suc, ◌%◌, not, ◌&&◌, Option, none, some, List, [], ◌∷◌, ◌==◌, if◌then◌else◌, set,
}

unfoldable pub memset : List ℕ → ℕ → ℕ → List ℕ
memset dst c zero = dst
memset [] c (suc n) = []
memset (x ∷ dst) c (suc n) = (c % 256) ∷ memset dst c n

-- `*s1 - *s2` at the first difference, as the pair of the two bytes; `none` for 0.
unfoldable pub memcmp : List ℕ → List ℕ → ℕ → Option (ℕ × ℕ)
memcmp s1 s2 zero = none
memcmp [] s2 (suc n) = none
memcmp (a ∷ s1) [] (suc n) = none
memcmp (a ∷ s1) (b ∷ s2) (suc n) = if a == b then memcmp s1 s2 n else some (a, b)

unfoldable pub strncmp : List ℕ → List ℕ → ℕ → Option (ℕ × ℕ)
strncmp p q zero = none
strncmp [] q (suc n) = none
strncmp (a ∷ p) [] (suc n) = none
strncmp (a ∷ p) (b ∷ q) (suc n) =
    if not (a == 0) && a == b then strncmp p q n else (if a == b then none else some (a, b))

-- The first loop of `strncpy` copies up to the null byte, the second pads with null bytes.
unfoldable pub strncpy : List ℕ → List ℕ → ℕ → List ℕ
unfolding memset
strncpy s t zero = s
strncpy [] t (suc n) = []
strncpy (x ∷ s) [] (suc n) = x ∷ s
strncpy (x ∷ s) (c ∷ t) (suc n) = c ∷ (if c == 0 then memset s 0 n else strncpy s t n)

-- The loop of `safestrcpy` with `n` more rounds at most, and the last `*s = 0`.
unfoldable pub safe_copy : List ℕ → List ℕ → ℕ → List ℕ
safe_copy s t zero = set s 0 0
safe_copy [] t (suc n) = []
safe_copy (x ∷ s) [] (suc n) = x ∷ s
safe_copy (x ∷ s) (c ∷ t) (suc n) = c ∷ (if c == 0 then set s 0 0 else safe_copy s t n)

unfoldable pub safestrcpy : List ℕ → List ℕ → ℕ → List ℕ
unfolding safe_copy
safestrcpy s t zero = s
safestrcpy s t (suc n) = safe_copy s t n

unfoldable pub strlen : List ℕ → ℕ
strlen [] = 0
strlen (c ∷ s) = if c == 0 then 0 else suc (strlen s)
