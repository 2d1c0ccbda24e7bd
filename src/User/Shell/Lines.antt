-- ===== src/User/Shell/Lines.antt =====
-- The loop of `parseline` in user/sh.c on a pipe that has been read.
use osn_mp.Common.{ℕ, suc, ◌≡◌, refl, ap, ◌∙◌, false, List, [], ◌∷◌, ◌==◌, if◌then◌else◌, length}
use osn_mp.User.Shell.{
  skip_white, token_at, token_from, gettoken, starts_with, Cmd, list_cmd, back_cmd, Parsed, parsed,
  and_then, parse_backs, parse_line, parse_pipe,
}
use osn_mp.User.Shell.Words.{IsCalm, stop-IsCalm}
use osn_mp.User.Shell.Blocks.{IsEnd, end-IsStop}

pub end-IsCalm : (rest : List ℕ) → IsEnd rest → IsCalm rest
end-IsCalm rest e = stop-IsCalm rest (end-IsStop rest e)

-- The symbol of a loop does not stand at an end.
pub end-no_symbol :
    (t : ℕ) (rest : List ℕ)
    → (b')' == t) ≡ false
    → (t == b')') ≡ false
    → IsEnd rest
    → starts_with (t ∷ []) rest ≡ false
end-no_symbol t [] h h' e = refl
end-no_symbol t (c ∷ rest) h h' e = rw (e, h') refl

-- The loop over "&".
backs_none :
    (n : ℕ) (c : Cmd) (s : List ℕ)
    → skip_white s ≡ s
    → starts_with (b'&' ∷ []) s ≡ false
    → parse_backs (suc n) c s ≡ parsed c s
unfolding parse_backs
backs_none n c s t b =
    ap
      (λ v.
        if starts_with (b'&' ∷ []) v then parse_backs n (back_cmd c) (gettoken v).1 else parsed c v)
      t
    ∙ rw b refl

backs_one :
    (n : ℕ) (c : Cmd) (rest : List ℕ)
    → IsEnd rest
    → parse_backs (suc (suc n)) c (b'&' ∷ rest) ≡ parsed (back_cmd c) rest
unfolding parse_backs gettoken token_at token_from skip_white
backs_one n c rest e =
    ap (parse_backs (suc n) (back_cmd c)) (end-IsCalm rest e).0
    ∙ backs_none n (back_cmd c) rest (end-IsCalm rest e).0 (end-no_symbol b'&' rest refl refl e)

abbrev list_at : ℕ → Cmd → List ℕ → Parsed Cmd
list_at fuel c s =
    if starts_with (b';' ∷ []) s
    then and_then (parse_line fuel (gettoken s).1) (λ r s5. parsed (list_cmd c r) s5)
    else parsed c s

abbrev line_rest : ℕ → Parsed Cmd → Parsed Cmd
line_rest fuel r = and_then r (λ c s3. list_at fuel c (skip_white s3))

-- A round of `parseline`: what the pipe and the loop over "&" give.
line_round :
    (fuel : ℕ) (c c' : Cmd) (s u v : List ℕ)
    → parse_pipe (parse_line fuel) (suc (length s)) s ≡ parsed c u
    → parse_backs (suc (length u)) c u ≡ parsed c' v
    → skip_white v ≡ v
    → parse_line (suc fuel) s ≡ list_at fuel c' v
unfolding parse_line and_then
line_round fuel c c' s u v p b t =
    ap (λ r. and_then r (λ c s2. line_rest fuel (parse_backs (suc (length s2)) c s2))) p
    ∙ ap (line_rest fuel) b
    ∙ ap (list_at fuel c') t

list_none : (fuel : ℕ) (c : Cmd) (rest : List ℕ) → IsEnd rest → list_at fuel c rest ≡ parsed c rest
list_none fuel c rest e = let n = end-no_symbol b';' rest refl refl e in rw n refl

pub line_plain :
    (fuel : ℕ) (c : Cmd) (s rest : List ℕ)
    → IsEnd rest
    → parse_pipe (parse_line fuel) (suc (length s)) s ≡ parsed c rest
    → parse_line (suc fuel) s ≡ parsed c rest
line_plain fuel c s rest e p =
    let t = (end-IsCalm rest e).0 in
    line_round fuel c c s rest rest p
      (backs_none (length rest) c rest t (end-no_symbol b'&' rest refl refl e)) t
    ∙ list_none fuel c rest e

pub line_back :
    (fuel : ℕ) (c : Cmd) (s rest : List ℕ)
    → IsEnd rest
    → parse_pipe (parse_line fuel) (suc (length s)) s ≡ parsed c (b'&' ∷ rest)
    → parse_line (suc fuel) s ≡ parsed (back_cmd c) rest
line_back fuel c s rest e p =
    line_round fuel c (back_cmd c) s (b'&' ∷ rest) rest p (backs_one (length rest) c rest e)
      (end-IsCalm rest e).0
    ∙ list_none fuel (back_cmd c) rest e

pub line_two :
    (fuel : ℕ) (c r : Cmd) (s u rest : List ℕ)
    → parse_pipe (parse_line fuel) (suc (length s)) s ≡ parsed c (b';' ∷ u)
    → skip_white u ≡ u
    → parse_line fuel u ≡ parsed r rest
    → parse_line (suc fuel) s ≡ parsed (list_cmd c r) rest
unfolding gettoken token_at token_from skip_white and_then
line_two fuel c r s u rest p t h =
    line_round fuel c c s (b';' ∷ u) (b';' ∷ u) p
      (backs_none (length (b';' ∷ u)) c (b';' ∷ u) refl refl) refl
    ∙ ap (λ v. and_then (parse_line fuel v) (λ r s5. parsed (list_cmd c r) s5)) t
    ∙ ap (λ x. and_then x (λ r s5. parsed (list_cmd c r) s5)) h
