-- ===== src/Console.antt =====
-- kernel/console.c: the input line of the console, under `cons.lock`. A character is a number below 256.
pub mod Line
pub mod Reading
use osn_mp.Common.{
  ℕ, zero, suc, ◌+◌, ◌-◌, ◌*◌, ◌/◌, ◌%◌, ◌^◌, ◌≤◌, ◌<◌, min, ◌≡◌, refl, sym, ap, ◌∙◌, ◌≢◌, ◌↔◌, ◌⊎◌,
  inl, inr, Bool, true, false, not, ◌&&◌, ◌||◌, Option, none, some, List, [], ◌∷◌, ◌++◌, map, arith,
  ltb, leb, ◌==◌, if◌then◌else◌, points_to, ltb→lt, lt→ltb, ==_iff, Bool-cases, Option-cases,
  some_inj, of_some, length, get_elem?, get_or, set, modify, map_idx, take, drop, replicate, All,
  length-append, length-set, length-modify, length-map_idx, length-replicate, get_elem?-eq-get_or,
  get_or-set_self, get_or-set_ne, get_elem?-modify_self, get_elem?-modify_ne, get_elem?-map_idx,
  get_elem?-modify, get_elem?-set, get_elem?-set_self, get_elem?-set_ne, take-append_le,
  take-append_add, take-map, take_all, length-map,
}
use osn_mp.Common.Words.{add32, sub32}

-- INPUT_BUF_SIZE, and the control characters that the code names.
abbrev pub input_buf_size : ℕ
input_buf_size = 128

abbrev pub ctrl_d : ℕ
ctrl_d = 4

abbrev pub newline : ℕ
newline = 10

-- `cons`; the indices are `uint`.
pub record Console : Type 0 where
  pub buf : List ℕ
  pub r : ℕ
  pub w : ℕ
  pub e : ℕ

abbrev pub at : Console → ℕ → ℕ
at k i = get_or k.buf (i % input_buf_size) 0

-- The loop of "Kill line", with `fuel` rounds at most.
unfoldable pub kill_line : ℕ → Console → Console
kill_line zero k = k
kill_line (suc fuel) k =
    let rest = kill_line fuel (record k { e = sub32 k.e 1 }) in
    if not (k.e == k.w) && not (at k (sub32 k.e 1) == newline) then rest else k

unfoldable pub backspace : Console → Console
backspace k = if not (k.e == k.w) then record k { e = sub32 k.e 1 } else k

-- Whether a character ends the line: `consoleread` is woken.
abbrev pub ends_line : ℕ → Console → Bool
ends_line c k = c == newline || c == ctrl_d || sub32 k.e k.r == input_buf_size

-- `cons.buf[cons.e++ % INPUT_BUF_SIZE] = c`, and `cons.w = cons.e` at the end of a line.
unfoldable pub store : ℕ → Console → Console × Bool
store c k =
    let k' = record k { buf = set k.buf (k.e % input_buf_size) (c % 256); e = add32 k.e 1 } in
    if ends_line c k' then (record k' { w = k'.e }, true) else (k', false)

-- The default case: a carriage return becomes a newline.
unfoldable pub insert : ℕ → Console → Console × Bool
unfolding store
insert c k =
    if not (c == 0) && ltb (sub32 k.e k.r) input_buf_size
    then store (if c == 13 then newline else c) k
    else (k, false)

-- `consoleintr`, with true if it calls `wakeup`; the echo and `procdump` change nothing here. No line
-- has more than `input_buf_size` characters to kill.
unfoldable pub consoleintr : ℕ → Console → Console × Bool
unfolding kill_line backspace insert
consoleintr c k =
    if c == 16
    then (k, false)
    else if c == 21
    then (kill_line input_buf_size k, false)
    else if c == 8 || c == 127
    then (backspace k, false)
    else insert c k

-- How `consoleread` goes on: it returns a count, it fails, or it sleeps with `n` bytes to go.
pub data Outcome : Type 0 where
  returns : ℕ → Outcome
  fails : Outcome
  sleeps : ℕ → Outcome

-- The outer loop, from one sleep to the next or to the return, with `n` bytes of `target` to go; `ok`
-- tells whether `either_copyout` succeeds. The bytes that reach the user come beside it.
unfoldable pub read_from : Bool → Bool → ℕ → ℕ → Console → Console × List ℕ × Outcome
read_from killed ok target zero k = (k, [], returns target)
read_from killed ok target (suc n) k =
    let c = at k k.r in
    let k' = record k { r = add32 k.r 1 } in
    let (rest, out, o) = read_from killed ok target n k' in
    if k.r == k.w
    then (k, [], if killed then fails else sleeps (suc n))
    else if c == ctrl_d
    then (if ltb (suc n) target then k else k', [], returns (target - suc n))
    else if not ok
    then (k', [], returns (target - suc n))
    else if c == newline
    then (k', c ∷ [], returns (target - n))
    else (rest, c ∷ out, o)

unfoldable pub consoleread : Bool → Bool → ℕ → Console → Console × List ℕ × Outcome
unfolding read_from
consoleread killed ok target k = read_from killed ok target target k
