-- ===== src/User/Shell/Levels.antt =====
-- The redirections behind a block, and the loops of `parsepipe` and `parseline` in user/sh.c.
use osn_mp.User.Shell.Blocks.{block_end, redirs_one, redir_symbol}
use osn_mp.User.Shell.Tokens.{skip_white_trimmed}
use osn_mp.User.Shell.Words.{gettoken-word, IsCalm, IsWord}
use osn_mp.User.Shell.{
  redirection, Cmd, with_redirs, redir_cmd, word, pipe_cmd, parsed, append, starts_with, symbol,
  parse_redirs, parse_exec, token_from, token_at, and_then, greater_at, Token, gettoken, parse_pipe,
  Parsed, skip_white,
}
use osn_mp.Common.{
  ℕ, zero, suc, ◌<◌, ◌≡◌, refl, ap, ◌∙◌, ◌⊎◌, inl, inr, true, false, List, [], ◌∷◌, ◌++◌, arith,
  ◌==◌, if◌then◌else◌, Bool-cases, length,
}

word_text-trimmed :
    (w rest : List ℕ) → IsWord w → skip_white (w ++ (b' ' ∷ rest)) ≡ w ++ (b' ' ∷ rest)
word_text-trimmed [] rest h = elim h [ ]
word_text-trimmed (c ∷ w) rest ((a, b), h) = skip_white_trimmed (c ∷ (w ++ (b' ' ∷ rest))) a

word_text-greater :
    (w rest : List ℕ)
    → IsWord w
    → greater_at (w ++ (b' ' ∷ rest)) ≡ (symbol b'>', w ++ (b' ' ∷ rest))
word_text-greater [] rest h = elim h [ ]
word_text-greater (c ∷ w) rest ((a, b), h) =
    let e : (c == b'>') ≡ false = ground (arith, b) in rw e refl

gettoken_in :
    (w rest : List ℕ)
    → IsWord w
    → gettoken (b'<' ∷ (w ++ (b' ' ∷ rest))) ≡ (symbol b'<', w ++ (b' ' ∷ rest))
unfolding gettoken token_at token_from skip_white
gettoken_in w rest h = ap (λ s. (symbol b'<', s)) (word_text-trimmed w rest h)

abbrev behind : Token × List ℕ → Token × List ℕ
behind r = (r.0, skip_white r.1)

gettoken_out :
    (w rest : List ℕ)
    → IsWord w
    → gettoken (b'>' ∷ (w ++ (b' ' ∷ rest))) ≡ (symbol b'>', w ++ (b' ' ∷ rest))
unfolding gettoken token_at token_from skip_white
gettoken_out w rest h =
    ap behind (word_text-greater w rest h) ∙ ap (λ s. (symbol b'>', s)) (word_text-trimmed w rest h)

gettoken_append :
    (w rest : List ℕ)
    → IsWord w
    → gettoken (b'>' ∷ b'>' ∷ (w ++ (b' ' ∷ rest))) ≡ (append, w ++ (b' ' ∷ rest))
unfolding gettoken token_at token_from skip_white
gettoken_append w rest h = ap (λ s. (append, s)) (word_text-trimmed w rest h)

abbrev IsMode : ℕ → ℕ → Type 0
IsMode mode fd = ((mode ≡ 0) × (fd ≡ 0)) ⊎ (((mode ≡ 0x201) ⊎ (mode ≡ 0x601)) × (fd ≡ 1))

redirs_symbol :
    (n : ℕ) (t : Token) (v w rest : List ℕ)
    → skip_white v ≡ v
    → starts_with (b'<' ∷ b'>' ∷ []) v ≡ true
    → gettoken v ≡ (t, w ++ (b' ' ∷ rest))
    → IsWord w
    → IsCalm rest
    → parse_redirs (suc (suc n)) v ≡ parsed (redirection t w ∷ []) rest
redirs_symbol n t v w rest a b g h k =
    redirs_one n t v (w ++ (b' ' ∷ rest)) w rest a b g
      (gettoken-word w rest h ∙ ap (λ r. (word w, r)) k.0) k

-- The text of one redirection is read as that redirection.
redirs_text :
    (n : ℕ) (mode fd : ℕ) (w rest : List ℕ)
    → IsMode mode fd
    → IsWord w
    → IsCalm rest
    → parse_redirs (suc (suc n)) (redir_symbol mode (w ++ (b' ' ∷ rest)))
      ≡ parsed ((w, mode, fd) ∷ []) rest
unfolding skip_white
redirs_text n mode fd w rest (inl (m, f)) h k =
    rw (m, f)
      (redirs_symbol n (symbol b'<') (b'<' ∷ (w ++ (b' ' ∷ rest))) w rest refl refl
        (gettoken_in w rest h) h k)
redirs_text n mode fd w rest (inr (inl m, f)) h k =
    rw (m, f)
      (redirs_symbol n append (b'>' ∷ b'>' ∷ (w ++ (b' ' ∷ rest))) w rest refl refl
        (gettoken_append w rest h) h k)
redirs_text n mode fd w rest (inr (inr m, f)) h k =
    rw (m, f)
      (redirs_symbol n (symbol b'>') (b'>' ∷ (w ++ (b' ' ∷ rest))) w rest refl refl
        (gettoken_out w rest h) h k)

-- Some text stands behind the symbol, enough for both rounds of `parse_redirs`.
pub length-redir_symbol : (mode : ℕ) (s : List ℕ) → length s < length (redir_symbol mode s)
length-redir_symbol mode s = elim (Bool-cases (mode == 0)) [
  | inl e ↦ rw e (omega arith)
  | inr e ↦ elim (Bool-cases (mode == 0x201)) [
    | inl f ↦ rw (e, f) (omega arith)
    | inr f ↦ rw (e, f) (omega arith)
  ]
]

redirs_enough :
    (fuel : ℕ) (mode fd : ℕ) (w rest : List ℕ)
    → 1 < fuel
    → IsMode mode fd
    → IsWord w
    → IsCalm rest
    → parse_redirs fuel (redir_symbol mode (w ++ (b' ' ∷ rest))) ≡ parsed ((w, mode, fd) ∷ []) rest
redirs_enough zero mode fd w rest l m h k = absurd (omega arith)
redirs_enough (suc zero) mode fd w rest l m h k = absurd (omega arith)
redirs_enough (suc (suc n)) mode fd w rest l m h k = redirs_text n mode fd w rest m h k

redir_symbol-trimmed :
    (mode : ℕ) (s : List ℕ) → skip_white (redir_symbol mode s) ≡ redir_symbol mode s
unfolding skip_white
redir_symbol-trimmed mode s = elim (Bool-cases (mode == 0)) [
  | inl e ↦ rw e refl
  | inr e ↦ elim (Bool-cases (mode == 0x201)) [ inl f ↦ rw (e, f) refl | inr f ↦ rw (e, f) refl ]
]

-- A block with a redirection behind it.
pub block_redir :
    (c : Cmd) (mode fd : ℕ) (w rest : List ℕ)
    → IsMode mode fd
    → IsWord w
    → IsCalm rest
    → block_end c (skip_white (redir_symbol mode (w ++ (b' ' ∷ rest))))
      ≡ parsed (redir_cmd c w mode fd) rest
unfolding with_redirs and_then
block_redir c mode fd w rest m h k =
    let v : List ℕ = redir_symbol mode (w ++ (b' ' ∷ rest)) in
    let l = length-redir_symbol mode (w ++ (b' ' ∷ rest)) in
    ap (block_end c) (redir_symbol-trimmed mode (w ++ (b' ' ∷ rest)))
    ∙ ap (λ r. and_then r (λ rs s. parsed (with_redirs c rs) s))
        (redirs_enough (suc (length v)) mode fd w rest (omega (arith, l)) m h k)

-- The loop of `parsepipe`.
abbrev pipe_at : (List ℕ → Parsed Cmd) → ℕ → Cmd → List ℕ → Parsed Cmd
pipe_at line fuel c s =
    if starts_with (b'|' ∷ []) s
    then and_then (parse_pipe line fuel (gettoken s).1) (λ r s4. parsed (pipe_cmd c r) s4)
    else parsed c s

pub pipe_plain :
    (line : List ℕ → Parsed Cmd) (fuel : ℕ) (c : Cmd) (s rest : List ℕ)
    → 0 < fuel
    → parse_exec line s ≡ parsed c rest
    → skip_white rest ≡ rest
    → starts_with (b'|' ∷ []) rest ≡ false
    → parse_pipe line fuel s ≡ parsed c rest
unfolding parse_pipe and_then
pipe_plain line zero c s rest l h t b = absurd (omega arith)
pipe_plain line (suc fuel) c s rest l h t b =
    ap (λ r. and_then r (λ c s2. pipe_at line fuel c (skip_white s2))) h
    ∙ ap (pipe_at line fuel c) t
    ∙ rw b refl

pub pipe_two :
    (line : List ℕ → Parsed Cmd) (fuel : ℕ) (c r : Cmd) (s u rest : List ℕ)
    → parse_exec line s ≡ parsed c (b'|' ∷ u)
    → skip_white u ≡ u
    → parse_pipe line fuel u ≡ parsed r rest
    → parse_pipe line (suc fuel) s ≡ parsed (pipe_cmd c r) rest
unfolding parse_pipe and_then gettoken token_at token_from skip_white
pipe_two line fuel c r s u rest h t p =
    ap (λ r. and_then r (λ c s2. pipe_at line fuel c (skip_white s2))) h
    ∙ ap (λ v. and_then (parse_pipe line fuel v) (λ r s4. parsed (pipe_cmd c r) s4)) t
    ∙ ap (λ x. and_then x (λ r s4. parsed (pipe_cmd c r) s4)) p
