-- ===== src/User/Shell/Words.antt =====
-- Words and redirections written as text, and how the parser reads them.
use osn_mp.Common.{
  ℕ, zero, suc, ◌+◌, ◌≤◌, ◌<◌, ◌≡◌, refl, sym, ap, ◌∙◌, true, false, List, [], ◌∷◌, ◌++◌, arith,
  leb, if◌then◌else◌, length, All, length-append,
}
use mathlib.Core.List.{append-nil, append_assoc}
use osn_mp.User.Shell.Tokens.{skip_white_trimmed}
use osn_mp.User.Shell.{
  is_one_of, whitespace, symbols, skip_white, take_word, Token, word, token_at, token_from,
  gettoken, starts_with, Cmd, exec_cmd, Parsed, parsed, and_then, Redirection, parse_redirs,
  with_redirs, max_args, parse_arg, parse_args,
}

-- A character of a word, and a word.
abbrev pub IsPlain : ℕ → Type 0
IsPlain c = (is_one_of whitespace c ≡ false) × (is_one_of symbols c ≡ false)

abbrev pub IsWord : List ℕ → Type 0
IsWord [] = ⊥
IsWord (c ∷ w) = IsPlain c × All IsPlain w

take_word-append :
    (w rest : List ℕ) → All IsPlain w → take_word (w ++ (b' ' ∷ rest)) ≡ (w, b' ' ∷ rest)
unfolding take_word
take_word-append [] rest h = refl
take_word-append (c ∷ w) rest ((a, b), h) =
    rw (a, b) (ap (λ r. (c ∷ r.0, r.1)) (take_word-append w rest h))

abbrev behind : Token × List ℕ → Token × List ℕ
behind r = (r.0, skip_white r.1)

pub gettoken-word :
    (w rest : List ℕ) → IsWord w → gettoken (w ++ (b' ' ∷ rest)) ≡ (word w, skip_white rest)
unfolding gettoken token_at token_from skip_white
gettoken-word [] rest h = elim h [ ]
gettoken-word (c ∷ w) rest ((a, b), h) =
    let s : List ℕ = w ++ (b' ' ∷ rest) in
    ap (λ v. behind (token_at v)) (skip_white_trimmed (c ∷ s) a)
    ∙ ap (λ t. behind (token_from t c s)) b
    ∙ ap (λ r. behind (word r.0, r.1)) (take_word-append (c ∷ w) rest ((a, b), h))

-- The words of a command, each with a space behind it.
unfoldable pub words_text : List (List ℕ) → List ℕ → List ℕ
words_text [] rest = rest
words_text (w ∷ ws) rest = w ++ (b' ' ∷ words_text ws rest)

-- What may stand behind a command: nothing, or a symbol that ends it.
abbrev pub IsStop : List ℕ → Type 0
IsStop [] = Unit
IsStop (c ∷ s) = is_one_of (b'|' ∷ b')' ∷ b'&' ∷ b';' ∷ []) c ≡ true

-- No white space and no redirection in front.
abbrev pub IsCalm : List ℕ → Type 0
IsCalm s = (skip_white s ≡ s) × (starts_with (b'<' ∷ b'>' ∷ []) s ≡ false)

pub stop-IsCalm : (s : List ℕ) → IsStop s → IsCalm s
unfolding skip_white
stop-IsCalm [] h = (refl, refl)
stop-IsCalm (c ∷ s) h =
    let a : is_one_of whitespace c ≡ false = ground (arith, h) in
    let b : is_one_of (b'<' ∷ b'>' ∷ []) c ≡ false = ground (arith, h) in (rw a refl, b)

plain-calm : (c : ℕ) → IsPlain c → is_one_of (b'<' ∷ b'>' ∷ []) c ≡ false
plain-calm c (a, b) = ground (arith, b)

plain-goes_on : (c : ℕ) → IsPlain c → is_one_of (b'|' ∷ b')' ∷ b'&' ∷ b';' ∷ []) c ≡ false
plain-goes_on c (a, b) = ground (arith, b)

pub words-IsCalm :
    (ws : List (List ℕ)) (rest : List ℕ) → All IsWord ws → IsStop rest → IsCalm (words_text ws rest)
unfolding words_text skip_white
words-IsCalm [] rest h s = stop-IsCalm rest s
words-IsCalm ([] ∷ ws) rest (h, hs) s = elim h [ ]
words-IsCalm ((c ∷ w) ∷ ws) rest ((p, _), hs) s =
    (skip_white_trimmed (c ∷ (w ++ (b' ' ∷ words_text ws rest))) p.0, plain-calm c p)

-- A text without a redirection in front.
pub parse_redirs-calm : (fuel : ℕ) (s : List ℕ) → IsCalm s → parse_redirs (suc fuel) s ≡ parsed [] s
unfolding parse_redirs
parse_redirs-calm fuel s (a, b) = rw (a, b) refl

-- A round of the loop of `parseexec` on a text without white space in front.
abbrev more_args : ℕ → List (List ℕ) → List Redirection → List ℕ → List ℕ → Parsed Cmd
more_args fuel argv rs w s1 =
    and_then (parse_redirs (suc (length s1)) s1)
      (λ rs' s2. parse_args fuel (argv ++ w ∷ []) (rs ++ rs') s2)

abbrev args_at : ℕ → List (List ℕ) → List Redirection → List ℕ → Parsed Cmd
args_at fuel argv rs s =
    if starts_with (b'|' ∷ b')' ∷ b'&' ∷ b';' ∷ []) s
    then parsed (with_redirs (exec_cmd argv) rs) s
    else parse_arg (more_args fuel argv rs) argv rs (gettoken s)

args_round :
    (fuel : ℕ) (argv : List (List ℕ)) (rs : List Redirection) (s u : List ℕ)
    → skip_white s ≡ u
    → parse_args (suc fuel) argv rs s ≡ args_at fuel argv rs u
unfolding parse_args
args_round fuel argv rs s u e = ap (args_at fuel argv rs) e

arg_word :
    (more : List ℕ → List ℕ → Parsed Cmd) (argv : List (List ℕ)) (rs : List Redirection)
    (w s : List ℕ)
    → length argv + 1 < max_args
    → parse_arg more argv rs (word w, s) ≡ more w s
unfolding parse_arg
arg_word more argv rs w s l =
    let e : leb max_args (length argv + 1) ≡ false = ground (arith, l) in rw e refl

more_args-calm :
    (fuel : ℕ) (argv : List (List ℕ)) (w s : List ℕ)
    → IsCalm s
    → more_args fuel argv [] w s ≡ parse_args fuel (argv ++ w ∷ []) [] s
unfolding and_then
more_args-calm fuel argv w s h =
    ap (λ r. and_then r (λ rs' s2. parse_args fuel (argv ++ w ∷ []) rs' s2))
      (parse_redirs-calm (length s) s h)

args_end : (fuel : ℕ) (argv : List (List ℕ)) → args_at fuel argv [] [] ≡ parsed (exec_cmd argv) []
unfolding parse_arg gettoken token_at with_redirs skip_white
args_end fuel argv = refl

at_word :
    (fuel : ℕ) (argv : List (List ℕ)) (rs : List Redirection) (c : ℕ) (s : List ℕ)
    → IsPlain c
    → args_at fuel argv rs (c ∷ s) ≡ parse_arg (more_args fuel argv rs) argv rs (gettoken (c ∷ s))
at_word fuel argv rs c s p = let e = plain-goes_on c p in rw e refl

-- The words are read one by one.
pub parse_args-words :
    (fuel : ℕ) (argv ws : List (List ℕ)) (rest : List ℕ)
    → All IsWord ws
    → IsStop rest
    → length argv + length ws < max_args
    → length ws < fuel
    → parse_args fuel argv [] (words_text ws rest) ≡ parsed (exec_cmd (argv ++ ws)) rest
unfolding words_text with_redirs
parse_args-words zero argv ws rest h s l f = absurd (omega arith)
parse_args-words (suc fuel) argv [] [] h s l f =
    args_round fuel argv [] [] [] (stop-IsCalm [] s).0
    ∙ args_end fuel argv
    ∙ ap (λ a. parsed (exec_cmd a) []) (sym (append-nil argv))
parse_args-words (suc fuel) argv [] (c ∷ rest) h s l f =
    args_round fuel argv [] (c ∷ rest) (c ∷ rest) (stop-IsCalm (c ∷ rest) s).0
    ∙ rw s (ap (λ a. parsed (exec_cmd a) (c ∷ rest)) (sym (append-nil argv)))
parse_args-words (suc fuel) argv ([] ∷ ws) rest (h, hs) s l f = elim h [ ]
parse_args-words (suc fuel) argv ((c ∷ w) ∷ ws) rest ((p, h), hs) s l f =
    let t : List ℕ = words_text ws rest in
    let u : List ℕ = c ∷ (w ++ (b' ' ∷ t)) in
    let calm : IsCalm t = words-IsCalm ws rest hs s in
    args_round fuel argv [] u u (skip_white_trimmed u p.0)
    ∙ at_word fuel argv [] c (w ++ (b' ' ∷ t)) p
    ∙ ap (parse_arg (more_args fuel argv []) argv []) (gettoken-word (c ∷ w) t (p, h))
    ∙ arg_word (more_args fuel argv []) argv [] (c ∷ w) (skip_white t) (omega (arith, l))
    ∙ ap (more_args fuel argv [] (c ∷ w)) calm.0
    ∙ more_args-calm fuel argv (c ∷ w) t calm
    ∙ parse_args-words fuel (argv ++ (c ∷ w) ∷ []) ws rest hs s
        (let k = length-append argv ((c ∷ w) ∷ []) in omega (arith, k, l)) (omega (arith, f))
    ∙ ap (λ a. parsed (exec_cmd a) rest) (append_assoc argv ((c ∷ w) ∷ []) ws)

pub length-words_text :
    (ws : List (List ℕ)) (rest : List ℕ) → length ws + length rest ≤ length (words_text ws rest)
unfolding words_text
length-words_text [] rest = omega arith
length-words_text (w ∷ ws) rest =
    let l = length-words_text ws rest in
    let a = length-append w (b' ' ∷ words_text ws rest) in omega (arith, l, a)
