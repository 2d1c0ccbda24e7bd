-- ===== src/User/Grep/Correct.antt =====
-- The matcher finds what the pattern means, and nothing else.
use osn_mp.Common.{
  ℕ, ◌≡◌, refl, sym, ap, ◌↔◌, ◌⊎◌, inl, inr, Bool, true, ◌||◌, List, [], ◌∷◌, arith, ◌==◌,
  Bool-cases,
}
use mathlib.Core.Path.{subst}
use osn_mp.User.Grep.{match_star, match_here, match_from, match}
use osn_mp.User.Grep.Meaning.{
  Atom, Piece, one, star, end, atom, accepts, last_piece, pieces, Begins, done, at_end, step, leave,
  more, Contains, Matches,
}

-- The tests of the two loops on a character.
accepts-star : (c t : ℕ) → (t == c || c == b'.') ≡ accepts (atom c) t
accepts-star c t = elim (Bool-cases (c == b'.')) [
  | inl e ↦ rw e (ground (arith, e))
  | inr e ↦ rw e (ground (arith, e))
]

accepts-one : (c t : ℕ) → (c == b'.' || c == t) ≡ accepts (atom c) t
accepts-one c t = elim (Bool-cases (c == b'.')) [ inl e ↦ rw e refl | inr e ↦ rw e refl ]

-- Inversions.
one-inv :
    (a : Atom) (ps : List Piece) (t : ℕ) (text : List ℕ)
    → Begins (one a ∷ ps) (t ∷ text)
    → (accepts a t ≡ true) × Begins ps text
one-inv a ps t text (step h b) = (h, b)

one-nil : (a : Atom) (ps : List Piece) → Begins (one a ∷ ps) [] → ⊥
one-nil a ps h = elim h [ ]

star-inv :
    (a : Atom) (ps : List Piece) (t : ℕ) (text : List ℕ)
    → Begins (star a ∷ ps) (t ∷ text)
    → Begins ps (t ∷ text) ⊎ ((accepts a t ≡ true) × Begins (star a ∷ ps) text)
star-inv a ps t text (leave b) = inl b
star-inv a ps t text (more h b) = inr (h, b)

star-nil : (a : Atom) (ps : List Piece) → Begins (star a ∷ ps) [] → Begins ps []
star-nil a ps (leave b) = b

abbrev Decides : (List ℕ → Bool) → List Piece → Type 0
Decides here ps = (text : List ℕ) → (here text ≡ true) ↔ Begins ps text

match_star-Decides :
    (here : List ℕ → Bool) (c : ℕ) (ps : List Piece)
    → Decides here ps
    → Decides (match_star here c) (star (atom c) ∷ ps)
unfolding match_star
match_star-Decides here c ps h [] =
    (λ e. leave ((h []).0 e), λ b. (h []).1 (star-nil (atom c) ps b))
match_star-Decides here c ps h (t ∷ text) =
    rw (accepts-star c t) (elim (Bool-cases (here (t ∷ text))) [
      | inl e ↦ rw e (λ _. leave ((h (t ∷ text)).0 e), λ _. refl)
      | inr e ↦ elim (Bool-cases (accepts (atom c) t)) [
        | inl a ↦
            rw (e, a)
              (
                λ m. more a ((match_star-Decides here c ps h text).0 m),
                λ s. elim (star-inv (atom c) ps t text s) [
                  | inl b ↦ cc ((h (t ∷ text)).1 b)
                  | inr (_, b) ↦ (match_star-Decides here c ps h text).1 b
                ],
              )
        | inr a ↦
            rw (e, a)
              (
                λ m. cc,
                λ s. elim (star-inv (atom c) ps t text s) [
                  | inl b ↦ cc ((h (t ∷ text)).1 b)
                  | inr (y, _) ↦ cc y
                ],
              )
      ]
    ])

end-nil : (t : ℕ) (text : List ℕ) → Begins (end ∷ []) (t ∷ text) → ⊥
end-nil t text h = elim h [ ]

last-Decides : (c : ℕ) → Decides (match_here (c ∷ [])) (last_piece c ∷ [])
unfolding match_here
last-Decides c [] = elim (Bool-cases (c == b'$')) [
  | inl e ↦ rw e (λ _. at_end done, λ _. refl)
  | inr e ↦ rw e (λ f. cc f, λ b. absurd (one-nil (atom c) [] b))
]
last-Decides c (t ∷ text) = rw (accepts-one c t) (elim (Bool-cases (c == b'$')) [
  | inl e ↦ rw e (λ f. cc f, λ b. absurd (end-nil t text b))
  | inr e ↦ rw e (λ f. step f done, λ b. (one-inv (atom c) [] t text b).0)
])

-- `matchhere` decides whether the text begins with a match.
match_here-Decides : (re : List ℕ) → Decides (match_here re) (pieces re)
unfolding match_here
match_here-Decides [] text = (λ _. done, λ _. refl)
match_here-Decides (c ∷ []) text = last-Decides c text
match_here-Decides (c ∷ d ∷ re) [] = elim (Bool-cases (d == b'*')) [
  | inl e ↦ rw e (match_star-Decides (match_here re) c (pieces re) (match_here-Decides re) [])
  | inr e ↦ rw e (λ f. cc f, λ b. absurd (one-nil (atom c) (pieces (d ∷ re)) b))
]
match_here-Decides (c ∷ d ∷ re) (t ∷ text) = rw (accepts-one c t) (elim (Bool-cases (d == b'*')) [
  | inl e ↦
      rw e (match_star-Decides (match_here re) c (pieces re) (match_here-Decides re) (t ∷ text))
  | inr e ↦ elim (Bool-cases (accepts (atom c) t)) [
    | inl a ↦
        rw (e, a)
          (
            λ m. step a ((match_here-Decides (d ∷ re) text).0 m),
            λ b.
                (match_here-Decides (d ∷ re) text).1
                  (one-inv (atom c) (pieces (d ∷ re)) t text b).1,
          )
    | inr a ↦ rw (e, a) (λ f. cc f, λ b. cc (one-inv (atom c) (pieces (d ∷ re)) t text b).0)
  ]
])

Contains-later :
    (ps : List Piece) (t : ℕ) (text : List ℕ) → Contains ps text → Contains ps (t ∷ text)
Contains-later ps t text (before, after, e, b) = (t ∷ before, after, ap (λ l. t ∷ l) e, b)

Contains-inv :
    (ps : List Piece) (t : ℕ) (text : List ℕ)
    → Contains ps (t ∷ text)
    → Begins ps (t ∷ text) ⊎ Contains ps text
Contains-inv ps t text ([], after, e, b) = inl (subst (Begins ps) (sym e) b)
Contains-inv ps t text (x ∷ before, after, e, b) = inr (before, after, cc e, b)

Contains-nil : (ps : List Piece) → Contains ps [] → Begins ps []
Contains-nil ps ([], after, e, b) = subst (Begins ps) (sym e) b
Contains-nil ps (x ∷ before, after, e, b) = cc e

match_from_iff : (re text : List ℕ) → (match_from re text ≡ true) ↔ Contains (pieces re) text
unfolding match_from
match_from_iff re [] = (
  λ m. ([], [], refl, (match_here-Decides re []).0 m),
  λ c. (match_here-Decides re []).1 (Contains-nil (pieces re) c),
)
match_from_iff re (t ∷ text) = elim (Bool-cases (match_here re (t ∷ text))) [
  | inl e ↦ rw e (λ _. ([], t ∷ text, refl, (match_here-Decides re (t ∷ text)).0 e), λ _. refl)
  | inr e ↦ rw e (
    λ m. Contains-later (pieces re) t text ((match_from_iff re text).0 m),
    λ c. elim (Contains-inv (pieces re) t text c) [
      | inl b ↦ cc ((match_here-Decides re (t ∷ text)).1 b)
      | inr r ↦ (match_from_iff re text).1 r
    ],
  )
]

-- `match` answers 1 exactly on the texts that the pattern matches: at the start of the text after `^`, else
-- anywhere in it.
pub match_iff : (re text : List ℕ) → (match re text ≡ true) ↔ Matches re text
unfolding match
match_iff [] text = match_from_iff [] text
match_iff (c ∷ re) text = elim (Bool-cases (c == b'^')) [
  | inl e ↦ rw e (match_here-Decides re text)
  | inr e ↦ rw e (match_from_iff (c ∷ re) text)
]
