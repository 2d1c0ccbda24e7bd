-- ===== src/Fs/Inode/Table.antt =====
-- The table of inodes: `iget` and `idup` keep at most one entry in use for each inode.
use osn_mp.Common.{
  ℕ, suc, ◌-◌, ◌≤◌, ◌<◌, ◌≡◌, refl, sym, ap, ◌∙◌, ◌≢◌, ◌↔◌, ◌⊎◌, inl, inr, true, ◌&&◌, Option, none,
  some, List, [], ◌∷◌, arith, ltb, ◌==◌, ==_iff, Bool-cases, some_inj, get_elem?, modify, All,
  get_elem?-modify_self, get_elem?-modify_ne,
}
use mathlib.Core.Option
use mathlib.Core.Path.{subst}
use osn_mp.Fs.Inode.{recycled, iget_found, iget, one_more, Inode, iget_from, remember}

abbrev pub Holds : ℕ → ℕ → Inode → Type 0
Holds dev inum x = (0 < x.ref) × (x.dev ≡ dev) × (x.inum ≡ inum)

abbrev pub NoEntry : ℕ → ℕ → List Inode → Type 0
NoEntry dev inum table = All (λ x. ¬ Holds dev inum x) table

-- What the loop of `iget` has found in the entries from index `i` on.
abbrev Looked : ℕ → ℕ → ℕ → Option ℕ → List Inode → Option ℕ × Option ℕ → Type 0
Looked dev inum i empty table (some k, _) =
    (x : Inode) × (get_elem? table (k - i) ≡ some x) × (i ≤ k) × Holds dev inum x
Looked dev inum i empty table (none, some k) =
    NoEntry dev inum table
    × ((empty ≡ some k)
        ⊎ ((x : Inode) × (get_elem? table (k - i) ≡ some x) × (i ≤ k) × (x.ref ≡ 0)))
Looked dev inum i empty table (none, none) =
    NoEntry dev inum table × (empty ≡ none) × All (λ x. x.ref ≢ 0) table

get_elem?-later :
    (x y : Inode) (table : List Inode) (i k : ℕ)
    → suc i ≤ k
    → get_elem? table (k - suc i) ≡ some y
    → get_elem? (x ∷ table) (k - i) ≡ some y
get_elem?-later x y table i k l h = let e : k - i ≡ suc (k - suc i) = omega arith in rw e h

remember-none : (o : Option ℕ) (i ref : ℕ) → remember o i ref ≡ none → (o ≡ none) × (ref ≢ 0)
remember-none (some e) i ref = λ h. cc h
remember-none none i ref = elim (Bool-cases (ref == 0)) [
  | inl e ↦ rw e (λ h. cc h)
  | inr e ↦ rw e (λ h. (refl, λ z. cc ((==_iff _ _).1 z, e)))
]

remember-some :
    (o : Option ℕ) (i ref k : ℕ) → remember o i ref ≡ some k → (o ≡ some k) ⊎ ((k ≡ i) × (ref ≡ 0))
remember-some (some e) i ref k = λ h. inl h
remember-some none i ref k = elim (Bool-cases (ref == 0)) [
  | inl e ↦ rw e (λ h. inr (sym (some_inj h), (==_iff _ _).0 e))
  | inr e ↦ rw e (λ h. cc h)
]

Looked-later :
    (dev inum i : ℕ) (empty : Option ℕ) (x : Inode) (table : List Inode) (r : Option ℕ × Option ℕ)
    → ¬ Holds dev inum x
    → Looked dev inum (suc i) (remember empty i x.ref) table r
    → Looked dev inum i empty (x ∷ table) r
Looked-later dev inum i empty x table (some k, _) n (y, g, l, h) =
    (y, get_elem?-later x y table i k l g, omega arith, h)
Looked-later dev inum i empty x table (none, some k) n (a, c) = (
  (n, a),
  elim c [
    | inl m ↦ elim (remember-some empty i x.ref k m) [
      | inl e ↦ inl e
      | inr (e, z) ↦
          let first : k - i ≡ 0 = omega (arith, e) in inr (x, rw first refl, omega (arith, e), z)
    ]
    | inr (y, g, l, z) ↦ inr (y, get_elem?-later x y table i k l g, omega arith, z)
  ],
)
Looked-later dev inum i empty x table (none, none) n (a, m, z) =
    let (e, nz) = remember-none empty i x.ref m in ((n, a), e, (nz, z))

test-Holds :
    (dev inum : ℕ) (x : Inode)
    → ((ltb 0 x.ref && (x.dev == dev && x.inum == inum)) ≡ true) ↔ Holds dev inum x
test-Holds dev inum x = ground arith

iget_from-Looked :
    (dev inum i : ℕ) (empty : Option ℕ) (table : List Inode)
    → Looked dev inum i empty table (iget_from dev inum i empty table)
unfolding iget_from
iget_from-Looked dev inum i none [] = (tt, refl, tt)
iget_from-Looked dev inum i (some e) [] = (tt, inl refl)
iget_from-Looked dev inum i empty (x ∷ table) =
    elim (Bool-cases (ltb 0 x.ref && (x.dev == dev && x.inum == inum))) [
      | inl e ↦
          let first : i - i ≡ 0 = omega arith in
          rw e (x, rw first refl, omega arith, (test-Holds dev inum x).0 e)
      | inr e ↦ rw e (
          Looked-later dev inum i empty x table
            (iget_from dev inum (suc i) (remember empty i x.ref) table)
            (λ h. cc ((test-Holds dev inum x).1 h, e))
            (iget_from-Looked dev inum (suc i) (remember empty i x.ref) table))
    ]

-- No two entries in use are of one inode.
abbrev pub IsUnique : List Inode → Type 0
IsUnique table =
    (i j : ℕ) (x y : Inode)
    → get_elem? table i ≡ some x
    → get_elem? table j ≡ some y
    → Holds x.dev x.inum y
    → 0 < x.ref
    → i ≡ j

-- An entry of the inode, in a table that is otherwise as before.
abbrev pub Got : ℕ → ℕ → List Inode → Option (List Inode × ℕ) → Type 0
Got dev inum table none = NoEntry dev inum table × All (λ x. x.ref ≢ 0) table
Got dev inum table (some (table', k)) =
    ((x : Inode) × (get_elem? table k ≡ some x)
      × ((Holds dev inum x × (get_elem? table' k ≡ some (one_more x)))
          ⊎ ((x.ref ≡ 0)
              × NoEntry dev inum table
              × (get_elem? table' k ≡ some (recycled dev inum x)))))
    × ((j : ℕ) → j ≢ k → get_elem? table' j ≡ get_elem? table j)

changed :
    (table : List Inode) (k : ℕ) (x : Inode) (f : Inode → Inode)
    → get_elem? table k ≡ some x
    → get_elem? (modify table k f) k ≡ some (f x)
changed table k x f h = get_elem?-modify_self table k f ∙ ap (Option.map f) h

-- `iget` returns the entry in use for the inode, with one reference more, or where there is none an entry
-- without references made over to the inode; no other entry changes. It panics where no entry is of the
-- inode and every entry has references.
pub iget-Got : (dev inum : ℕ) (table : List Inode) → Got dev inum table (iget dev inum table)
unfolding iget iget_found
iget-Got dev inum table =
    from_loop (iget_from dev inum 0 none table) (iget_from-Looked dev inum 0 none table)
  where
    from_loop :
        (r : Option ℕ × Option ℕ)
        → Looked dev inum 0 none table r
        → Got dev inum table (iget_found dev inum r table)
    from_loop (some k, e) (x, g', _, h) =
        let g = subst (λ q. get_elem? table q ≡ some x) (omega arith) g' in
        (
          (x, g, inl (h, changed table k x one_more g)),
          λ j n. get_elem?-modify_ne table k j one_more (λ q. n (sym q)),
        )
    from_loop (none, some k) (a, c) = elim c [
      | inl q ↦ cc q
      | inr (x, g', _, z) ↦
          let g = subst (λ q. get_elem? table q ≡ some x) (omega arith) g' in
          (
            (x, g, inr (z, a, changed table k x (recycled dev inum) g)),
            λ j n. get_elem?-modify_ne table k j (recycled dev inum) (λ q. n (sym q)),
          )
    ]
    from_loop (none, none) (a, _, z) = (a, z)
