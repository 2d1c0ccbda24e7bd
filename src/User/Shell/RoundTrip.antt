-- ===== src/User/Shell/RoundTrip.antt =====
-- A command of user/sh.c written as text is parsed as the command.
use osn_mp.Common.{
  ℕ, zero, suc, ◌+◌, ◌≤◌, ◌<◌, ◌≡◌, refl, ap, ◌∙◌, false, List, [], ◌∷◌, ◌++◌, arith, ◌==◌,
  if◌then◌else◌, length, length-append,
}
use osn_mp.User.Shell.{
  skip_white, starts_with, Cmd, exec_cmd, redir_cmd, pipe_cmd, list_cmd, back_cmd, parsed, panics,
  and_then, parse_line, parse_pipe, parse_exec, parse_cmd,
}
use osn_mp.User.Shell.Words.{IsCalm, stop-IsCalm, length-words_text, words_text}
use osn_mp.User.Shell.Blocks.{
  text, IsCommand, IsEnd, text_trimmed, block_exec, block_calm, exec_words, redir_symbol,
}
use osn_mp.User.Shell.Levels.{block_redir, pipe_plain, pipe_two, length-redir_symbol}
use osn_mp.User.Shell.Lines.{end-IsCalm, end-no_symbol, line_plain, line_back, line_two}

length-text : (c : Cmd) (rest : List ℕ) → length rest ≤ length (text c rest)
unfolding text
length-text (exec_cmd ws) rest = let l = length-words_text ws rest in omega (arith, l)
length-text (redir_cmd c file mode fd) rest =
    let s : List ℕ = file ++ (b' ' ∷ rest) in
    let a = length-text c (b')' ∷ redir_symbol mode s) in
    let b = length-redir_symbol mode s in
    let k = length-append file (b' ' ∷ rest) in omega (arith, a, b, k)
length-text (pipe_cmd l r) rest =
    let a = length-text l (b')' ∷ b'|' ∷ b'(' ∷ text r (b')' ∷ rest)) in
    let b = length-text r (b')' ∷ rest) in omega (arith, a, b)
length-text (list_cmd l r) rest =
    let a = length-text l (b')' ∷ b';' ∷ b'(' ∷ text r (b')' ∷ rest)) in
    let b = length-text r (b')' ∷ rest) in omega (arith, a, b)
length-text (back_cmd c) rest = let a = length-text c (b')' ∷ b'&' ∷ rest) in omega (arith, a)

-- The command is read from its text before an end.
abbrev Reads : Cmd → Type 0
Reads c =
    (rest : List ℕ) (g : ℕ)
    → IsEnd rest
    → length (text c rest) < g
    → parse_line g (text c rest) ≡ parsed c rest

block-Reads :
    (c : Cmd) (g : ℕ) (v : List ℕ)
    → IsCommand c
    → Reads c
    → length (text c (b')' ∷ v)) < g
    → IsCalm v
    → parse_exec (parse_line g) (b'(' ∷ text c (b')' ∷ v)) ≡ parsed c v
block-Reads c g v h ih l k =
    block_exec (parse_line g) c (text c (b')' ∷ v)) v (text_trimmed c (b')' ∷ v) h refl)
      (ih (b')' ∷ v) g refl l)
    ∙ block_calm c v k

-- A block that is a pipe by itself.
pipe-Reads :
    (c : Cmd) (g n : ℕ) (v : List ℕ)
    → IsCommand c
    → Reads c
    → length (text c (b')' ∷ v)) < g
    → IsCalm v
    → starts_with (b'|' ∷ []) v ≡ false
    → 0 < n
    → parse_pipe (parse_line g) n (b'(' ∷ text c (b')' ∷ v)) ≡ parsed c v
pipe-Reads c g n v h ih l k b z =
    pipe_plain (parse_line g) n c (b'(' ∷ text c (b')' ∷ v)) v z (block-Reads c g v h ih l k) k.0 b

-- A block that is a line by itself.
line-Reads :
    (c : Cmd) (g : ℕ) (rest : List ℕ)
    → IsCommand c
    → Reads c
    → length (text c (b')' ∷ rest)) + 1 < g
    → IsEnd rest
    → parse_line g (b'(' ∷ text c (b')' ∷ rest)) ≡ parsed c rest
line-Reads c zero rest h ih l e = absurd (omega arith)
line-Reads c (suc g) rest h ih l e = line_plain g c (b'(' ∷ text c (b')' ∷ rest)) rest e (
    pipe-Reads c g (suc (length (b'(' ∷ text c (b')' ∷ rest)))) rest h ih (omega (arith, l))
      (end-IsCalm rest e) (end-no_symbol b'|' rest refl refl e) (omega arith))

Reads-from :
    (c : Cmd)
    → ((rest : List ℕ) (g : ℕ)
        → IsEnd rest
        → length (text c rest) < suc g
        → parse_line (suc g) (text c rest) ≡ parsed c rest)
    → Reads c
Reads-from c f rest zero e l = absurd (omega arith)
Reads-from c f rest (suc g) e l = f rest g e l

parse_line-text : (c : Cmd) → IsCommand c → Reads c
unfolding text skip_white
parse_line-text (exec_cmd ws) h = Reads-from (exec_cmd ws) (λ rest g e l.
    let s : List ℕ = words_text ws rest in
    line_plain g (exec_cmd ws) s rest e (
      pipe_plain (parse_line g) (suc (length s)) (exec_cmd ws) s rest (omega arith)
        (exec_words (parse_line g) ws rest h e) (end-IsCalm rest e).0
        (end-no_symbol b'|' rest refl refl e)))
parse_line-text (redir_cmd c file mode fd) (h, w, m) =
    Reads-from (redir_cmd c file mode fd) (λ rest g e l.
      let v : List ℕ = redir_symbol mode (file ++ (b' ' ∷ rest)) in
      let s : List ℕ = b'(' ∷ text c (b')' ∷ v) in
      let r =
        block_exec (parse_line g) c (text c (b')' ∷ v)) v (text_trimmed c (b')' ∷ v) h refl)
          (parse_line-text c h (b')' ∷ v) g refl (omega (arith, l)))
        ∙ block_redir c mode fd file rest m w (end-IsCalm rest e) in
      line_plain g (redir_cmd c file mode fd) s rest e (
        pipe_plain (parse_line g) (suc (length s)) (redir_cmd c file mode fd) s rest (omega arith) r
          (end-IsCalm rest e).0 (end-no_symbol b'|' rest refl refl e)))
parse_line-text (pipe_cmd a b) (ha, hb) = Reads-from (pipe_cmd a b) (λ rest g e l.
    let u : List ℕ = b'(' ∷ text b (b')' ∷ rest) in
    let s : List ℕ = b'(' ∷ text a (b')' ∷ b'|' ∷ u) in
    let k = length-text a (b')' ∷ b'|' ∷ u) in
    line_plain g (pipe_cmd a b) s rest e (
      pipe_two (parse_line g) (length s) a b s u rest
        (block-Reads a g (b'|' ∷ u) ha (parse_line-text a ha) (omega (arith, l))
          (stop-IsCalm (b'|' ∷ u) refl))
        refl
        (pipe-Reads b g (length s) rest hb (parse_line-text b hb) (omega (arith, l, k))
          (end-IsCalm rest e) (end-no_symbol b'|' rest refl refl e) (omega arith))))
parse_line-text (list_cmd a b) (ha, hb) = Reads-from (list_cmd a b) (λ rest g e l.
    let u : List ℕ = b'(' ∷ text b (b')' ∷ rest) in
    let s : List ℕ = b'(' ∷ text a (b')' ∷ b';' ∷ u) in
    let k = length-text a (b')' ∷ b';' ∷ u) in
    line_two g a b s u rest
      (pipe-Reads a g (suc (length s)) (b';' ∷ u) ha (parse_line-text a ha) (omega (arith, l))
        (stop-IsCalm (b';' ∷ u) refl) refl (omega arith))
      refl (line-Reads b g rest hb (parse_line-text b hb) (omega (arith, l, k)) e))
parse_line-text (back_cmd c) h = Reads-from (back_cmd c) (λ rest g e l.
    let s : List ℕ = b'(' ∷ text c (b')' ∷ b'&' ∷ rest) in
    line_back g c s rest e (
      pipe-Reads c g (suc (length s)) (b'&' ∷ rest) h (parse_line-text c h) (omega (arith, l))
        (stop-IsCalm (b'&' ∷ rest) refl) refl (omega arith)))

-- A command made of words, of the three redirections, pipes, lists and background commands, written as text
-- with a block around each part, is parsed as that command, when no part has ten words or more and no word
-- is empty or has white space or a symbol in it.
pub parse_cmd-text : (c : Cmd) → IsCommand c → parse_cmd (text c []) ≡ parsed c []
unfolding parse_cmd and_then skip_white
parse_cmd-text c h =
    ap (λ r. and_then r (λ c s2. if length (skip_white s2) == 0 then parsed c [] else panics))
      (parse_line-text c h [] (suc (length (text c []))) tt (omega arith))
