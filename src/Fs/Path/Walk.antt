-- ===== src/Fs/Path/Walk.antt =====
-- The loop of `namex` ends.
use osn_mp.Common.{
  ℕ, zero, suc, ◌≤◌, ◌≡◌, refl, sym, inl, inr, Bool, ◌&&◌, none, some, List, arith, ◌==◌,
  Bool-cases, Option-cases, length,
}
use osn_mp.Fs.Layout.{Superblock}
use osn_mp.Fs.Content.{iput}
use osn_mp.Fs.Directory.{Files, t_dir, dirlookup}
use osn_mp.Fs.Path.{skipelem, lock_at, walk_end, walk_from}
use osn_mp.Fs.Path.Elements.{skipelem-shorter}

skipelem_empty : (path name : List ℕ) → length path ≤ 0 → skipelem path name ≡ none
skipelem_empty path name h = elim (Option-cases (skipelem path name)) [
  | inl e ↦ e
  | inr ((rest, name'), e) ↦ let l = skipelem-shorter path name rest name' e in absurd (omega arith)
]

walk_from_end :
    (sb : Superblock) (parent : Bool) (f : ℕ) (path : List ℕ) (i : ℕ) (name : List ℕ) (st : Files)
    → skipelem path name ≡ none
    → walk_from sb parent f path i name st ≡ walk_end sb parent i name st
unfolding walk_from
walk_from_end sb parent zero path i name st e = refl
walk_from_end sb parent (suc f) path i name st e = rw (e, walk_from) refl

-- Fuel for each byte of the path is enough: with more the walk returns the same.
pub walk_from-enough :
    (sb : Superblock) (parent : Bool) (f g : ℕ) (path : List ℕ) (i : ℕ) (name : List ℕ) (st : Files)
    → length path ≤ f
    → length path ≤ g
    → walk_from sb parent f path i name st ≡ walk_from sb parent g path i name st
unfolding walk_from
walk_from-enough sb parent zero g path i name st hf hg =
    sym (walk_from_end sb parent g path i name st (skipelem_empty path name hf))
walk_from-enough sb parent (suc f) zero path i name st hf hg =
    walk_from_end sb parent (suc f) path i name st (skipelem_empty path name hg)
walk_from-enough sb parent (suc f) (suc g) path i name st hf hg =
    elim (Option-cases (skipelem path name)) [
      | inl e ↦ rw (e, walk_from) refl
      | inr ((path', name'), e) ↦
          let shorter = skipelem-shorter path name path' name' e in
          elim (Option-cases (lock_at sb i st)) [
            | inl l ↦ rw (e, walk_from, l) refl
            | inr ((st1, ip), l) ↦ elim (Bool-cases (ip.node.type == t_dir)) [
              | inr t ↦ rw (e, walk_from, l, t) refl
              | inl t ↦ elim (Bool-cases (parent && length path' == 0)) [
                | inl p ↦ rw (e, walk_from, l, t, p) refl
                | inr p ↦ elim (Option-cases (dirlookup sb name' i st1)) [
                  | inl d ↦ rw (e, walk_from, l, t, p, d) refl
                  | inr ((st2, none), d) ↦ rw (e, walk_from, l, t, p, d) refl
                  | inr ((st2, some (next, off)), d) ↦ elim (Option-cases (iput sb i st2)) [
                    | inl q ↦ rw (e, walk_from, l, t, p, d, q) refl
                    | inr (st3, q) ↦
                        rw (e, walk_from, l, t, p, d, q)
                          (walk_from-enough sb parent f g path' next name' st3 (omega arith)
                            (omega arith))
                  ]
                ]
              ]
            ]
          ]
    ]
