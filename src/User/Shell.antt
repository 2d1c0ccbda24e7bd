-- ===== src/User/Shell.antt =====
-- user/sh.c: the parser of the shell. A text is the list of its bytes up to `es`, without null bytes. A word
-- is the list of its bytes, which nulterminate makes it in place.
pub mod Tokens
pub mod Ends
pub mod Words
pub mod Blocks
pub mod Levels
pub mod Lines
pub mod RoundTrip
use osn_mp.Common.{
  ℕ, zero, suc, ◌+◌, ◌-◌, ◌*◌, ◌/◌, ◌%◌, ◌^◌, ◌≤◌, ◌<◌, min, ◌≡◌, refl, sym, ap, ◌∙◌, ◌≢◌, ◌↔◌, ◌⊎◌,
  inl, inr, Bool, true, false, not, ◌&&◌, ◌||◌, Option, none, some, List, [], ◌∷◌, ◌++◌, map, arith,
  ltb, leb, ◌==◌, if◌then◌else◌, points_to, ltb→lt, lt→ltb, ==_iff, Bool-cases, Option-cases,
  some_inj, of_some, length, get_elem?, get_or, set, modify, map_idx, take, drop, replicate, All,
  length-append, length-set, length-modify, length-map_idx, length-replicate, get_elem?-eq-get_or,
  get_or-set_self, get_or-set_ne, get_elem?-modify_self, get_elem?-modify_ne, get_elem?-map_idx,
  get_elem?-modify, get_elem?-set, get_elem?-set_self, get_elem?-set_ne, take-append_le,
  take-append_add, take-map, take_all, length-map, All-get,
}

abbrev pub is_one_of : List ℕ → ℕ → Bool
is_one_of [] c = false
is_one_of (t ∷ ts) c = t == c || is_one_of ts c

-- `whitespace` and `symbols`.
abbrev pub whitespace : List ℕ
whitespace = b' ' ∷ 9 ∷ 13 ∷ 10 ∷ 11 ∷ []

abbrev pub symbols : List ℕ
symbols = b'<' ∷ b'|' ∷ b'>' ∷ b'&' ∷ b';' ∷ b'(' ∷ b')' ∷ []

unfoldable pub skip_white : List ℕ → List ℕ
skip_white [] = []
skip_white (c ∷ s) = if is_one_of whitespace c then skip_white s else c ∷ s

-- The word at the start of a text, and the rest.
unfoldable pub take_word : List ℕ → List ℕ × List ℕ
take_word [] = ([], [])
take_word (c ∷ s) =
    let rest = take_word s in
    if is_one_of whitespace c || is_one_of symbols c then ([], c ∷ s) else (c ∷ rest.0, rest.1)

-- What `gettoken` returns: 0, the symbol, '+' for ">>", or 'a' with the word.
pub data Token : Type 0 where
  end : Token
  symbol : ℕ → Token
  append : Token
  word : List ℕ → Token

-- The cases of a symbol, behind it.
abbrev pub greater_at : List ℕ → Token × List ℕ
greater_at [] = (symbol b'>', [])
greater_at (d ∷ s) = if d == b'>' then (append, s) else (symbol b'>', d ∷ s)

abbrev pub symbol_at : ℕ → List ℕ → Token × List ℕ
symbol_at c s = if c == b'>' then greater_at s else (symbol c, s)

-- The switch of `gettoken` on a text without white space in front, by whether a symbol is first.
unfoldable pub token_from : Bool → ℕ → List ℕ → Token × List ℕ
unfolding take_word
token_from true c s = symbol_at c s
token_from false c s = (word (take_word (c ∷ s)).0, (take_word (c ∷ s)).1)

unfoldable pub token_at : List ℕ → Token × List ℕ
unfolding token_from
token_at [] = (end, [])
token_at (c ∷ s) = token_from (is_one_of symbols c) c s

unfoldable pub gettoken : List ℕ → Token × List ℕ
unfolding skip_white token_at
gettoken s = let r = token_at (skip_white s) in (r.0, skip_white r.1)

-- `peek` skips white space in the text itself.
abbrev pub starts_with : List ℕ → List ℕ → Bool
starts_with toks [] = false
starts_with toks (c ∷ s) = is_one_of toks c

-- `struct cmd`: the modes of a redirection are those of its symbol.
pub data Cmd : Type 0 where
  exec_cmd : List (List ℕ) → Cmd
  redir_cmd : Cmd → List ℕ → ℕ → ℕ → Cmd
  pipe_cmd : Cmd → Cmd → Cmd
  list_cmd : Cmd → Cmd → Cmd
  back_cmd : Cmd → Cmd

-- A result: a value and the rest of the text, a panic of the shell, or a loop that has not ended.
pub data Parsed {ℓ} (A : Type ℓ) : Type ℓ where
  parsed : A → List ℕ → Parsed A
  panics : Parsed A
  unfinished : Parsed A

unfoldable pub and_then {ℓ κ} :
    {A : Type ℓ} {B : Type κ} → Parsed A → (A → List ℕ → Parsed B) → Parsed B
and_then (parsed a s) f = f a s
and_then panics f = panics
and_then unfinished f = unfinished

-- A redirection: its file, its mode and its descriptor.
abbrev pub Redirection : Type 0
Redirection = List ℕ × ℕ × ℕ

-- O_RDONLY, O_WRONLY|O_CREATE|O_TRUNC and O_WRONLY|O_CREATE of kernel/fcntl.h.
abbrev pub redirection : Token → List ℕ → Redirection
redirection (symbol c) file = if c == b'<' then (file, 0, 0) else (file, 0x601, 1)
redirection append file = (file, 0x201, 1)
redirection end file = (file, 0, 0)
redirection (word w) file = (file, 0, 0)

abbrev pub is_word : Token → Option (List ℕ)
is_word (word w) = some w
is_word _ = none

-- The file of a redirection: the word that follows.
unfoldable pub redirect : Token → Token × List ℕ → Parsed Redirection
redirect t (file, s) = elim (is_word file) [ none ↦ panics | some w ↦ parsed (redirection t w) s ]

-- The loop of `parseredirs`: the redirections, the first one first.
unfoldable pub parse_redirs : ℕ → List ℕ → Parsed (List Redirection)
unfolding gettoken redirect and_then skip_white
parse_redirs zero s = unfinished
parse_redirs (suc fuel) s =
    let s' = skip_white s in
    let t = gettoken s' in
    if starts_with (b'<' ∷ b'>' ∷ []) s'
    then and_then (redirect t.0 (gettoken t.1))
        (λ r s2. and_then (parse_redirs fuel s2) (λ rs s3. parsed (r ∷ rs) s3))
    else parsed [] s'

-- `redircmd` for each redirection, from the inside out.
unfoldable pub with_redirs : Cmd → List Redirection → Cmd
with_redirs c [] = c
with_redirs c ((file, mode, fd) ∷ rs) = with_redirs (redir_cmd c file mode fd) rs

abbrev pub max_args : ℕ
max_args = 10

-- A token in the loop of `parseexec`; `more` goes on with a word and the text behind it.
unfoldable pub parse_arg :
    (List ℕ → List ℕ → Parsed Cmd) → List (List ℕ) → List Redirection → Token × List ℕ → Parsed Cmd
unfolding with_redirs
parse_arg more argv rs (end, s) = parsed (with_redirs (exec_cmd argv) rs) s
parse_arg more argv rs (symbol c, s) = panics
parse_arg more argv rs (append, s) = panics
parse_arg more argv rs (word w, s) = if leb max_args (length argv + 1) then panics else more w s

-- The loop of `parseexec`: the arguments and redirections so far.
unfoldable pub parse_args : ℕ → List (List ℕ) → List Redirection → List ℕ → Parsed Cmd
unfolding gettoken parse_redirs and_then with_redirs skip_white parse_arg
parse_args zero argv rs s = unfinished
parse_args (suc fuel) argv rs s =
    let s' = skip_white s in
    if starts_with (b'|' ∷ b')' ∷ b'&' ∷ b';' ∷ []) s'
    then parsed (with_redirs (exec_cmd argv) rs) s'
    else parse_arg
        (λ w s1.
          and_then (parse_redirs (suc (length s1)) s1)
            (λ rs' s2. parse_args fuel (argv ++ w ∷ []) (rs ++ rs') s2))
        argv rs (gettoken s')

-- `parseblock` behind its "(", where `line` is `parseline`.
unfoldable pub parse_block : (List ℕ → Parsed Cmd) → List ℕ → Parsed Cmd
unfolding gettoken parse_redirs and_then with_redirs skip_white
parse_block line s = and_then (line s) (λ c s2.
    let s3 = skip_white s2 in
    let t = gettoken s3 in
    if starts_with (b')' ∷ []) s3
    then and_then (parse_redirs (suc (length t.1)) t.1) (λ rs s4. parsed (with_redirs c rs) s4)
    else panics)

unfoldable pub parse_exec : (List ℕ → Parsed Cmd) → List ℕ → Parsed Cmd
unfolding gettoken parse_block parse_args parse_redirs and_then skip_white
parse_exec line s =
    let s' = skip_white s in
    let t = gettoken s' in
    if starts_with (b'(' ∷ []) s'
    then parse_block line t.1
    else and_then (parse_redirs (suc (length s')) s')
        (λ rs s2. parse_args (suc (length s2)) [] rs s2)

unfoldable pub parse_pipe : (List ℕ → Parsed Cmd) → ℕ → List ℕ → Parsed Cmd
unfolding gettoken parse_exec and_then skip_white
parse_pipe line zero s = unfinished
parse_pipe line (suc fuel) s = and_then (parse_exec line s) (λ c s2.
    let s3 = skip_white s2 in
    let t = gettoken s3 in
    if starts_with (b'|' ∷ []) s3
    then and_then (parse_pipe line fuel t.1) (λ r s4. parsed (pipe_cmd c r) s4)
    else parsed c s3)

-- The loop of `parseline` over "&".
unfoldable pub parse_backs : ℕ → Cmd → List ℕ → Parsed Cmd
unfolding gettoken skip_white
parse_backs zero c s = unfinished
parse_backs (suc fuel) c s =
    let s' = skip_white s in
    let t = gettoken s' in
    if starts_with (b'&' ∷ []) s' then parse_backs fuel (back_cmd c) t.1 else parsed c s'

unfoldable pub parse_line : ℕ → List ℕ → Parsed Cmd
unfolding gettoken parse_pipe parse_backs and_then skip_white
parse_line zero s = unfinished
parse_line (suc fuel) s = and_then (parse_pipe (parse_line fuel) (suc (length s)) s) (λ c s2.
    and_then (parse_backs (suc (length s2)) c s2) (λ c' s3.
      let s4 = skip_white s3 in
      let t = gettoken s4 in
      if starts_with (b';' ∷ []) s4
      then and_then (parse_line fuel t.1) (λ r s5. parsed (list_cmd c' r) s5)
      else parsed c' s4))

-- `parsecmd`, with the panic on leftovers.
unfoldable pub parse_cmd : List ℕ → Parsed Cmd
unfolding parse_line and_then skip_white
parse_cmd s =
    and_then (parse_line (suc (length s)) s)
      (λ c s2. let s3 = skip_white s2 in if length s3 == 0 then parsed c [] else panics)
