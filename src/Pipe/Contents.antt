-- ===== src/Pipe/Contents.antt =====
-- What a pipe holds: the bytes between `nread` and `nwrite`, though both wrap at 2 ^ 32.
use osn_mp.Common.{
  ℕ, zero, suc, ◌+◌, ◌-◌, ◌%◌, ◌≤◌, ◌<◌, ◌≡◌, refl, ap, List, [], ◌∷◌, ◌++◌, arith, length, get_or,
  set, get_or-set_self, get_or-set_ne,
}
use mathlib.Core.Path.{ap₂, subst}
use osn_mp.Common.Words.{add32, sub32, word}
use osn_mp.Pipe.{Pipe, pipesize}

abbrev pub size : Pipe → ℕ
size pi = sub32 pi.nwrite pi.nread

pub record IsValid (pi : Pipe) : Type 0 where
  pub storage : length pi.buf ≡ pipesize
  pub read_word : pi.nread < word
  pub write_word : pi.nwrite < word
  pub bounded : size pi ≤ pipesize

-- The `n` bytes from the counter `r` on.
abbrev pub window : List ℕ → ℕ → ℕ → List ℕ
window buf r zero = []
window buf r (suc n) = get_or buf (r % pipesize) 0 ∷ window buf (add32 r 1) n

abbrev pub contents : Pipe → List ℕ
contents pi = window pi.buf pi.nread (size pi)

-- `window` matches on `suc`.
pub window-pos :
    (buf : List ℕ) (r n : ℕ)
    → 0 < n
    → window buf r n ≡ get_or buf (r % pipesize) 0 ∷ window buf (add32 r 1) (n - 1)
window-pos buf r zero h = absurd (omega arith)
window-pos buf r (suc n) h =
    ap (λ k. get_or buf (r % pipesize) 0 ∷ window buf (add32 r 1) k) (omega arith)

pub length-window : (buf : List ℕ) (r n : ℕ) → length (window buf r n) ≡ n
length-window buf r zero = refl
length-window buf r (suc n) = ap suc (length-window buf (add32 r 1) n)

-- A write just past a window extends it.
pub window-set :
    (buf : List ℕ) (r n i ch : ℕ)
    → length buf ≡ pipesize
    → n < pipesize
    → i ≡ (r + n) % word % pipesize
    → window (set buf i ch) r (suc n) ≡ window buf r n ++ (ch ∷ [])
window-set buf r zero i ch s h e =
    ap₂ ◌∷◌
      (subst (λ k. get_or (set buf i ch) k 0 ≡ ch) (same)
        (get_or-set_self buf i ch 0 (omega arith)))
      refl
  where
    same : i ≡ r % pipesize
    same = omega arith
window-set buf r (suc n) i ch s h e =
    ap₂ ◌∷◌ (get_or-set_ne buf i (r % pipesize) ch 0 (omega arith))
      (window-set buf (add32 r 1) n i ch s (omega arith) (omega arith))
