-- ===== src/User/Shell/Blocks.antt =====
-- Commands of user/sh.c written as text, with a block around each part, and how each level of the parser reads them.
use osn_mp.Common.{
  ℕ, suc, ◌<◌, ◌≡◌, refl, ap, ◌∙◌, ◌⊎◌, true, false, List, [], ◌∷◌, ◌++◌, arith, ◌==◌,
  if◌then◌else◌, length, All,
}
use osn_mp.User.Shell.{
  redirection, word, Token, parse_args, Redirection, redirect, skip_white, token_at, token_from,
  gettoken, starts_with, Cmd, exec_cmd, redir_cmd, pipe_cmd, list_cmd, back_cmd, Parsed, parsed,
  panics, and_then, parse_redirs, with_redirs, max_args, parse_block, parse_exec,
}
use osn_mp.User.Shell.Words.{
  parse_args-words, length-words_text, IsWord, words_text, IsStop, IsCalm, words-IsCalm,
  parse_redirs-calm,
}

-- The symbol of a redirection, by its mode.
abbrev pub redir_symbol : ℕ → List ℕ → List ℕ
redir_symbol mode s =
    if mode == 0 then b'<' ∷ s else if mode == 0x201 then b'>' ∷ b'>' ∷ s else b'>' ∷ s

-- The text of a command, before other text.
unfoldable pub text : Cmd → List ℕ → List ℕ
unfolding words_text
text (exec_cmd ws) rest = words_text ws rest
text (redir_cmd c file mode fd) rest =
    b'(' ∷ text c (b')' ∷ redir_symbol mode (file ++ (b' ' ∷ rest)))
text (pipe_cmd l r) rest = b'(' ∷ text l (b')' ∷ b'|' ∷ b'(' ∷ text r (b')' ∷ rest))
text (list_cmd l r) rest = b'(' ∷ text l (b')' ∷ b';' ∷ b'(' ∷ text r (b')' ∷ rest))
text (back_cmd c) rest = b'(' ∷ text c (b')' ∷ b'&' ∷ rest)

-- The commands that the parser makes: of words, not too many, and of the three redirections.
abbrev pub IsCommand : Cmd → Type 0
IsCommand (exec_cmd ws) = All IsWord ws × (length ws < max_args)
IsCommand (redir_cmd c file mode fd) =
    IsCommand c
    × IsWord file
    × (((mode ≡ 0) × (fd ≡ 0)) ⊎ (((mode ≡ 0x201) ⊎ (mode ≡ 0x601)) × (fd ≡ 1)))
IsCommand (pipe_cmd l r) = IsCommand l × IsCommand r
IsCommand (list_cmd l r) = IsCommand l × IsCommand r
IsCommand (back_cmd c) = IsCommand c

abbrev pub IsEnd : List ℕ → Type 0
IsEnd [] = Unit
IsEnd (c ∷ s) = c ≡ b')'

pub end-IsStop : (s : List ℕ) → IsEnd s → IsStop s
end-IsStop [] h = tt
end-IsStop (c ∷ s) h = ground (arith, h)

pub text_trimmed :
    (c : Cmd) (rest : List ℕ) → IsCommand c → IsEnd rest → skip_white (text c rest) ≡ text c rest
unfolding text skip_white
text_trimmed (exec_cmd ws) rest (h, _) e = (words-IsCalm ws rest h (end-IsStop rest e)).0
text_trimmed (redir_cmd c file mode fd) rest h e = refl
text_trimmed (pipe_cmd l r) rest h e = refl
text_trimmed (list_cmd l r) rest h e = refl
text_trimmed (back_cmd c) rest h e = refl

-- Behind the ")" of a block.
abbrev pub block_end : Cmd → List ℕ → Parsed Cmd
block_end c v = and_then (parse_redirs (suc (length v)) v) (λ rs s. parsed (with_redirs c rs) s)

abbrev pub block_rest : Cmd → List ℕ → Parsed Cmd
block_rest c s2 =
    if starts_with (b')' ∷ []) (skip_white s2)
    then block_end c (gettoken (skip_white s2)).1
    else panics

pub block_exec :
    (line : List ℕ → Parsed Cmd) (c : Cmd) (u v : List ℕ)
    → skip_white u ≡ u
    → line u ≡ parsed c (b')' ∷ v)
    → parse_exec line (b'(' ∷ u) ≡ block_end c (skip_white v)
unfolding parse_exec parse_block gettoken token_at token_from skip_white and_then
block_exec line c u v t h = ap (parse_block line) t ∙ ap (λ r. and_then r block_rest) h

pub block_calm : (c : Cmd) (v : List ℕ) → IsCalm v → block_end c (skip_white v) ≡ parsed c v
unfolding with_redirs and_then
block_calm c v h =
    ap (block_end c) h.0
    ∙ ap (λ r. and_then r (λ rs s. parsed (with_redirs c rs) s)) (parse_redirs-calm (length v) v h)

-- A text of words at the level of `parseexec`.
words-no_block :
    (ws : List (List ℕ)) (rest : List ℕ)
    → All IsWord ws
    → IsEnd rest
    → starts_with (b'(' ∷ []) (words_text ws rest) ≡ false
unfolding words_text
words-no_block [] [] h e = refl
words-no_block [] (c ∷ rest) h e = ground (arith, e)
words-no_block ([] ∷ ws) rest (h, hs) e = elim h [ ]
words-no_block ((c ∷ w) ∷ ws) rest (((a, b), _), hs) e = ground (arith, b)

abbrev exec_at : (List ℕ → Parsed Cmd) → List ℕ → Parsed Cmd
exec_at line s =
    if starts_with (b'(' ∷ []) s
    then parse_block line (gettoken s).1
    else and_then (parse_redirs (suc (length s)) s) (λ rs s2. parse_args (suc (length s2)) [] rs s2)

exec_round :
    (line : List ℕ → Parsed Cmd) (s : List ℕ)
    → IsCalm s
    → starts_with (b'(' ∷ []) s ≡ false
    → parse_exec line s ≡ parse_args (suc (length s)) [] [] s
unfolding parse_exec and_then
exec_round line s h b =
    ap (exec_at line) h.0
    ∙ ap
        (λ q.
          if q
          then parse_block line (gettoken s).1
          else and_then (parse_redirs (suc (length s)) s)
              (λ rs s2. parse_args (suc (length s2)) [] rs s2))
        b
    ∙ ap (λ r. and_then r (λ rs s2. parse_args (suc (length s2)) [] rs s2))
        (parse_redirs-calm (length s) s h)

pub exec_words :
    (line : List ℕ → Parsed Cmd) (ws : List (List ℕ)) (rest : List ℕ)
    → IsCommand (exec_cmd ws)
    → IsEnd rest
    → parse_exec line (words_text ws rest) ≡ parsed (exec_cmd ws) rest
exec_words line ws rest (h, l) e =
    let k = length-words_text ws rest in
    exec_round line (words_text ws rest) (words-IsCalm ws rest h (end-IsStop rest e))
      (words-no_block ws rest h e)
    ∙ parse_args-words (suc (length (words_text ws rest))) [] ws rest h (end-IsStop rest e)
        (omega (arith, l)) (omega (arith, k))

-- One redirection.
abbrev redirs_at : ℕ → List ℕ → Parsed (List Redirection)
redirs_at fuel s =
    if starts_with (b'<' ∷ b'>' ∷ []) s
    then and_then (redirect (gettoken s).0 (gettoken (gettoken s).1))
        (λ r s2. and_then (parse_redirs fuel s2) (λ rs s3. parsed (r ∷ rs) s3))
    else parsed [] s

pub redirs_one :
    (n : ℕ) (t : Token) (v s file rest : List ℕ)
    → skip_white v ≡ v
    → starts_with (b'<' ∷ b'>' ∷ []) v ≡ true
    → gettoken v ≡ (t, s)
    → gettoken s ≡ (word file, rest)
    → IsCalm rest
    → parse_redirs (suc (suc n)) v ≡ parsed (redirection t file ∷ []) rest
unfolding parse_redirs redirect and_then
redirs_one n t v s file rest a b g g' h =
    let k : List Redirection → List ℕ → Parsed (List Redirection) =
      λ rs s3. parsed (redirection t file ∷ rs) s3 in
    ap (redirs_at (suc n)) a
    ∙ ap
        (λ q.
          if q
          then and_then (redirect (gettoken v).0 (gettoken (gettoken v).1))
              (λ r s2. and_then (parse_redirs (suc n) s2) (λ rs s3. parsed (r ∷ rs) s3))
          else parsed [] v)
        b
    ∙ ap
        (λ x.
          and_then (redirect x.0 (gettoken x.1))
            (λ r s2. and_then (parse_redirs (suc n) s2) (λ rs s3. parsed (r ∷ rs) s3)))
        g
    ∙ ap
        (λ x.
          and_then (redirect t x)
            (λ r s2. and_then (parse_redirs (suc n) s2) (λ rs s3. parsed (r ∷ rs) s3)))
        g'
    ∙ ap (λ x. and_then x k) (parse_redirs-calm n rest h)
