-- ===== src/User/Grep/Meaning.antt =====
-- What a pattern means, apart from how user/grep.c looks for it.
use osn_mp.Common.{ℕ, ◌≡◌, Bool, true, List, [], ◌∷◌, ◌++◌, ◌==◌, if◌then◌else◌}

-- One character of the text: a given one, or any.
pub data Atom : Type 0 where
  this : ℕ → Atom
  any : Atom

pub data Piece : Type 0 where
  one : Atom → Piece
  star : Atom → Piece
  end : Piece  -- `$` at the end of the pattern

abbrev pub atom : ℕ → Atom
atom c = if c == b'.' then any else this c

abbrev pub accepts : Atom → ℕ → Bool
accepts (this c) t = c == t
accepts any t = true

abbrev pub last_piece : ℕ → Piece
last_piece c = if c == b'$' then end else one (atom c)

-- The pieces of a pattern without its `^`.
abbrev pub pieces : List ℕ → List Piece
pieces [] = []
pieces (c ∷ []) = last_piece c ∷ []
pieces (c ∷ d ∷ re) =
    let rest = pieces (d ∷ re) in
    if d == b'*' then star (atom c) ∷ pieces re else one (atom c) ∷ rest

-- A text that begins with a match of the pieces.
pub data Begins : List Piece → List ℕ → Type 0 where
  done : {text : List ℕ} → Begins [] text
  at_end : {ps : List Piece} → Begins ps [] → Begins (end ∷ ps) []
  step :
      {a : Atom} {ps : List Piece} {t : ℕ} {text : List ℕ}
      → accepts a t ≡ true
      → Begins ps text
      → Begins (one a ∷ ps) (t ∷ text)
  leave : {a : Atom} {ps : List Piece} {text : List ℕ} → Begins ps text → Begins (star a ∷ ps) text
  more :
      {a : Atom} {ps : List Piece} {t : ℕ} {text : List ℕ}
      → accepts a t ≡ true
      → Begins (star a ∷ ps) text
      → Begins (star a ∷ ps) (t ∷ text)

-- A match somewhere in the text.
abbrev pub Contains : List Piece → List ℕ → Type 0
Contains ps text = (before : List ℕ) × (after : List ℕ) × (text ≡ before ++ after) × Begins ps after

-- What the whole pattern asks of a text.
abbrev pub Matches : List ℕ → List ℕ → Type 0
Matches [] text = Contains [] text
Matches (c ∷ re) text =
    if c == b'^' then Begins (pieces re) text else Contains (pieces (c ∷ re)) text
