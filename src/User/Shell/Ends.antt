-- ===== src/User/Shell/Ends.antt =====
-- The parser ends: the fuel that `parse_cmd` gives is enough.
use osn_mp.Common.{
  ℕ, zero, suc, ◌+◌, ◌≤◌, ◌<◌, ◌≡◌, ◌≢◌, ◌⊎◌, inl, inr, List, [], ◌∷◌, ◌++◌, arith, leb, ◌==◌,
  Bool-cases, length,
}
use osn_mp.User.Shell.{
  back_cmd, parse_cmd, parse_exec, parse_pipe, parse_line, parse_block, parse_backs, max_args,
  Redirection, Cmd, parse_arg, parse_args, Token, end, append, symbol, word, skip_white, gettoken,
  starts_with, Parsed, parsed, panics, unfinished, and_then, redirect, parse_redirs,
}
use osn_mp.User.Shell.Tokens.{length-skip_white, length-gettoken, gettoken_found}

-- A result, with at most `n` bytes of the text left; a panic is one.
abbrev pub Ends {ℓ} : {A : Type ℓ} → ℕ → Parsed A → Type 0
Ends n (parsed a s) = length s ≤ n
Ends n panics = Unit
Ends n unfinished = ⊥

weaker {ℓ} : {A : Type ℓ} (n m : ℕ) → n ≤ m → (r : Parsed A) → Ends n r → Ends m r
weaker n m l (parsed a s) e = omega (arith, l, e)
weaker n m l panics e = tt
weaker n m l unfinished e = elim e [ ]

and_then-Ends {ℓ κ} :
    {A : Type ℓ} {B : Type κ} (r : Parsed A) (f : A → List ℕ → Parsed B) (n m : ℕ)
    → Ends n r
    → ((a : A) (s : List ℕ) → length s ≤ n → Ends m (f a s))
    → Ends m (and_then r f)
unfolding and_then
and_then-Ends (parsed a s) f n m e h = h a s e
and_then-Ends panics f n m e h = tt
and_then-Ends unfinished f n m e h = elim e [ ]

redirect-Ends : (t : Token) (r : Token × List ℕ) → Ends (length r.1) (redirect t r)
unfolding redirect
redirect-Ends t (end, s) = tt
redirect-Ends t (symbol c, s) = tt
redirect-Ends t (append, s) = tt
redirect-Ends t (word w, s) = omega arith

parse_redirs-Ends :
    (fuel : ℕ) (s : List ℕ) (n : ℕ) → length s < fuel → length s ≤ n → Ends n (parse_redirs fuel s)
unfolding parse_redirs
parse_redirs-Ends zero s n h l = absurd (omega arith)
parse_redirs-Ends (suc fuel) s n h l =
    let w = length-skip_white s in
    elim (Bool-cases (starts_with (b'<' ∷ b'>' ∷ []) (skip_white s))) [
      | inr e ↦ rw e (omega (arith, w, l))
      | inl e ↦
          let t = gettoken (skip_white s) in
          let k = gettoken_found (b'<' ∷ b'>' ∷ []) s e in
          let g = (length-gettoken t.1).0 in
          rw e (
            and_then-Ends (redirect t.0 (gettoken t.1)) _ (length (gettoken t.1).1) n
              (redirect-Ends t.0 (gettoken t.1))
              (λ r s2 m.
                and_then-Ends (parse_redirs fuel s2) _ n n
                  (parse_redirs-Ends fuel s2 n (omega (arith, w, k, g, m, h))
                    (omega (arith, w, k, g, m, l)))
                  (λ rs s3 q. q)))
    ]

-- A token that takes something, unless it is the end.
arg-Ends :
    (more : List ℕ → List ℕ → Parsed Cmd) (argv : List (List ℕ)) (rs : List Redirection)
    (t : Token × List ℕ) (n : ℕ)
    → length t.1 ≤ n
    → ((t.0 ≡ end) ⊎ (length t.1 < n))
    → ((w s : List ℕ) → length s < n → Ends n (more w s))
    → Ends n (parse_arg more argv rs t)
unfolding parse_arg
arg-Ends more argv rs (end, s) n l o h = l
arg-Ends more argv rs (symbol c, s) n l o h = tt
arg-Ends more argv rs (append, s) n l o h = tt
arg-Ends more argv rs (word w, s) n l o h = elim (Bool-cases (leb max_args (length argv + 1))) [
  | inl e ↦ rw e tt
  | inr e ↦ rw e (elim o [ inl q ↦ cc q | inr k ↦ h w s k ])
]

parse_args-Ends :
    (fuel : ℕ) (argv : List (List ℕ)) (rs : List Redirection) (s : List ℕ)
    → length s < fuel
    → Ends (length s) (parse_args fuel argv rs s)
unfolding parse_args
parse_args-Ends zero argv rs s h = absurd (omega arith)
parse_args-Ends (suc fuel) argv rs s h =
    let w = length-skip_white s in
    elim (Bool-cases (starts_with (b'|' ∷ b')' ∷ b'&' ∷ b';' ∷ []) (skip_white s))) [
      | inl e ↦ rw e w
      | inr e ↦
          let (l, o) = length-gettoken (skip_white s) in
          rw e (
            arg-Ends _ argv rs (gettoken (skip_white s)) (length s) (omega (arith, l, w))
              (elim o [ inl q ↦ inl q | inr k ↦ inr (omega (arith, k, w)) ])
              (λ v s1 k.
                and_then-Ends (parse_redirs (suc (length s1)) s1) _ (length s1) (length s)
                  (parse_redirs-Ends (suc (length s1)) s1 (length s1) (omega arith) (omega arith))
                  (λ rs' s2 m. weaker (length s2) (length s) (omega (arith, m, k)) _ (
                    parse_args-Ends fuel (argv ++ v ∷ []) (rs ++ rs') s2
                      (omega (arith, m, k, h))))))
    ]

-- `line` ends on each text shorter than `n`.
abbrev LineEnds : (List ℕ → Parsed Cmd) → ℕ → Type 0
LineEnds line n = (u : List ℕ) → length u < n → Ends (length u) (line u)

parse_block-Ends :
    (line : List ℕ → Parsed Cmd) (s : List ℕ) (n : ℕ)
    → length s < n
    → LineEnds line n
    → Ends (length s) (parse_block line s)
unfolding parse_block
parse_block-Ends line s n l h = and_then-Ends (line s) _ (length s) (length s) (h s l) (λ c s2 m.
    let w = length-skip_white s2 in
    elim (Bool-cases (starts_with (b')' ∷ []) (skip_white s2))) [
      | inr e ↦ rw e tt
      | inl e ↦
          let k = gettoken_found (b')' ∷ []) s2 e in
          let t = gettoken (skip_white s2) in
          rw e (
            and_then-Ends (parse_redirs (suc (length t.1)) t.1) _ (length t.1) (length s)
              (parse_redirs-Ends (suc (length t.1)) t.1 (length t.1) (omega arith) (omega arith))
              (λ rs s4 q. omega (arith, q, k, w, m)))
    ])

parse_exec-Ends :
    (line : List ℕ → Parsed Cmd) (s : List ℕ)
    → LineEnds line (length s)
    → Ends (length s) (parse_exec line s)
unfolding parse_exec
parse_exec-Ends line s h =
    let w = length-skip_white s in
    elim (Bool-cases (starts_with (b'(' ∷ []) (skip_white s))) [
      | inl e ↦
          let k = gettoken_found (b'(' ∷ []) s e in
          let t = gettoken (skip_white s) in
          rw e (
            weaker (length t.1) (length s) (omega (arith, k, w)) (parse_block line t.1)
              (parse_block-Ends line t.1 (length s) (omega (arith, k, w)) h))
      | inr e ↦ rw e (
          and_then-Ends (parse_redirs (suc (length (skip_white s))) (skip_white s)) _
            (length (skip_white s)) (length s)
            (parse_redirs-Ends (suc (length (skip_white s))) (skip_white s) (length (skip_white s))
              (omega arith) (omega arith))
            (λ rs s2 m.
              weaker (length s2) (length s) (omega (arith, m, w)) _
                (parse_args-Ends (suc (length s2)) [] rs s2 (omega arith))))
    ]

parse_pipe-Ends :
    (line : List ℕ → Parsed Cmd) (fuel : ℕ) (s : List ℕ)
    → length s < fuel
    → LineEnds line (length s)
    → Ends (length s) (parse_pipe line fuel s)
unfolding parse_pipe
parse_pipe-Ends line zero s h l = absurd (omega arith)
parse_pipe-Ends line (suc fuel) s h l =
    and_then-Ends (parse_exec line s) _ (length s) (length s) (parse_exec-Ends line s l) (λ c s2 m.
      let w = length-skip_white s2 in
      elim (Bool-cases (starts_with (b'|' ∷ []) (skip_white s2))) [
        | inr e ↦ rw e (omega (arith, w, m))
        | inl e ↦
            let k = gettoken_found (b'|' ∷ []) s2 e in
            let t = gettoken (skip_white s2) in
            rw e (
              and_then-Ends (parse_pipe line fuel t.1) _ (length t.1) (length s)
                (parse_pipe-Ends line fuel t.1 (omega (arith, k, w, m, h))
                  (λ u q. l u (omega (arith, q, k, w, m))))
                (λ r s4 q. omega (arith, q, k, w, m)))
      ])

parse_backs-Ends :
    (fuel : ℕ) (c : Cmd) (s : List ℕ) → length s < fuel → Ends (length s) (parse_backs fuel c s)
unfolding parse_backs
parse_backs-Ends zero c s h = absurd (omega arith)
parse_backs-Ends (suc fuel) c s h =
    let w = length-skip_white s in
    elim (Bool-cases (starts_with (b'&' ∷ []) (skip_white s))) [
      | inr e ↦ rw e w
      | inl e ↦
          let k = gettoken_found (b'&' ∷ []) s e in
          let t = gettoken (skip_white s) in
          rw e (
            weaker (length t.1) (length s) (omega (arith, k, w)) _
              (parse_backs-Ends fuel (back_cmd c) t.1 (omega (arith, k, w, h))))
    ]

parse_line-Ends : (fuel : ℕ) (s : List ℕ) → length s < fuel → Ends (length s) (parse_line fuel s)
unfolding parse_line
parse_line-Ends zero s h = absurd (omega arith)
parse_line-Ends (suc fuel) s h =
    and_then-Ends (parse_pipe (parse_line fuel) (suc (length s)) s) _ (length s) (length s)
      (parse_pipe-Ends (parse_line fuel) (suc (length s)) s (omega arith)
        (λ u q. parse_line-Ends fuel u (omega (arith, q, h))))
      (λ c s2 m.
        and_then-Ends (parse_backs (suc (length s2)) c s2) _ (length s2) (length s)
          (parse_backs-Ends (suc (length s2)) c s2 (omega arith))
          (λ c' s3 n.
            let w = length-skip_white s3 in
            elim (Bool-cases (starts_with (b';' ∷ []) (skip_white s3))) [
              | inr e ↦ rw e (omega (arith, w, n, m))
              | inl e ↦
                  let k = gettoken_found (b';' ∷ []) s3 e in
                  let t = gettoken (skip_white s3) in
                  rw e (
                    and_then-Ends (parse_line fuel t.1) _ (length t.1) (length s)
                      (parse_line-Ends fuel t.1 (omega (arith, k, w, n, m, h)))
                      (λ r s5 q. omega (arith, q, k, w, n, m)))
            ]))

Ends-finished {ℓ} : {A : Type ℓ} (n : ℕ) (r : Parsed A) → Ends n r → r ≢ unfinished
Ends-finished n (parsed a s) e = λ h. cc h
Ends-finished n panics e = λ h. cc h
Ends-finished n unfinished e = elim e [ ]

-- On each text the parser of the shell ends, with a command or a panic: no loop of it runs out of
-- fuel.
pub parse_cmd-ends : (s : List ℕ) → parse_cmd s ≢ unfinished
unfolding parse_cmd
parse_cmd-ends s = Ends-finished (length s) (parse_cmd s) (
    and_then-Ends (parse_line (suc (length s)) s) _ (length s) (length s)
      (parse_line-Ends (suc (length s)) s (omega arith))
      (λ c s2 m. elim (Bool-cases (length (skip_white s2) == 0)) [
        | inl e ↦ rw e (omega arith)
        | inr e ↦ rw e tt
      ]))
