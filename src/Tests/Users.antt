-- ===== src/Tests/Users.antt =====
-- The parser of the shell, the matcher of grep and the numbers of printf at concrete inputs.
use osn_mp.Common.{ℕ, ◌≡◌, refl, ◌≢◌, ◌↔◌, inl, true, List, [], ◌∷◌, ◌++◌, arith}
use osn_mp.User.Grep.{match}
use osn_mp.User.Grep.Meaning.{Matches}
use osn_mp.User.Grep.Correct.{match_iff}
use osn_mp.User.Shell.{Cmd, exec_cmd, redir_cmd, pipe_cmd, parsed, unfinished, parse_cmd}
use osn_mp.User.Shell.Blocks.{text}
use osn_mp.User.Shell.RoundTrip.{parse_cmd-text}
use osn_mp.User.Shell.Ends.{parse_cmd-ends}
use osn_mp.User.Number.{print_int, atoi}
use osn_mp.User.Number.Decimal.{atoi-print_int}

-- "^a*b" and "aab".
abbrev regex : List ℕ
regex = b'^' ∷ b'a' ∷ b'*' ∷ b'b' ∷ []

abbrev line : List ℕ
line = b'a' ∷ b'a' ∷ b'b' ∷ []

match_iff_example : (match regex line ≡ true) ↔ Matches regex line
match_iff_example = match_iff regex line

atoi-print_int_example : atoi (print_int 1024 10 true ++ (b' ' ∷ [])) ≡ 1024
atoi-print_int_example = atoi-print_int 1024 (b' ' ∷ []) (omega arith) refl

-- "((cat )<a )|(sort )".
abbrev sorted : Cmd
sorted =
    pipe_cmd (redir_cmd (exec_cmd ((b'c' ∷ b'a' ∷ b't' ∷ []) ∷ [])) (b'a' ∷ []) 0 0)
      (exec_cmd ((b's' ∷ b'o' ∷ b'r' ∷ b't' ∷ []) ∷ []))

parse_cmd-text_example : parse_cmd (text sorted []) ≡ parsed sorted []
parse_cmd-text_example = parse_cmd-text sorted (
    (
      (
        ((((refl, refl), ((refl, refl), ((refl, refl), tt))), tt), omega arith),
        ((refl, refl), tt),
        inl (refl, refl),
      ),
      ((((refl, refl), ((refl, refl), ((refl, refl), ((refl, refl), tt)))), tt), omega arith),
    ))

parse_cmd-ends_example : parse_cmd (b'l' ∷ b's' ∷ b'>' ∷ b'a' ∷ b'&' ∷ []) ≢ unfinished
parse_cmd-ends_example = parse_cmd-ends (b'l' ∷ b's' ∷ b'>' ∷ b'a' ∷ b'&' ∷ [])
