-- ===== src/Fs/Inode/Unique.antt =====
-- The table of inodes has at most one entry in use for each inode.
use osn_mp.Common.{
  ℕ, ◌<◌, ◌≡◌, sym, ap, ◌∙◌, ◌≢◌, inl, inr, some, List, ◌==◌, ==_iff, Bool-cases, Option-cases,
  some_inj, get_elem?, modify, get_elem?-modify_self, get_elem?-modify_ne, All-get,
}
use mathlib.Core.Option
use mathlib.Core.Path.{subst}
use osn_mp.Fs.Inode.{Inode, iget, one_more, recycled}
use osn_mp.Fs.Inode.Table.{Holds, IsUnique, Got, iget-Got}

-- A change of the entry `k` alone, to an inode that no other entry in use is of.
IsUnique-change :
    (table table' : List Inode) (k : ℕ)
    → ((j : ℕ) → j ≢ k → get_elem? table' j ≡ get_elem? table j)
    → ((x : Inode)
        → get_elem? table' k ≡ some x
        → 0 < x.ref
        → (j : ℕ) (y : Inode) → j ≢ k
        → get_elem? table j ≡ some y
        → ¬ Holds x.dev x.inum y)
    → IsUnique table
    → IsUnique table'
IsUnique-change table table' k same new u i j x y gx gy h r = elim (Bool-cases (i == k)) [
  | inl ei ↦
      let qi : i ≡ k = (==_iff _ _).0 ei in
      elim (Bool-cases (j == k)) [
        | inl ej ↦ qi ∙ sym ((==_iff _ _).0 ej)
        | inr ej ↦
            let nj : j ≢ k = λ q. cc ((==_iff _ _).1 q, ej) in
            absurd (new x (ap (get_elem? table') (sym qi) ∙ gx) r j y nj (sym (same j nj) ∙ gy) h)
      ]
  | inr ei ↦
      let ni : i ≢ k = λ q. cc ((==_iff _ _).1 q, ei) in
      elim (Bool-cases (j == k)) [
        | inl ej ↦ absurd (
            new y (ap (get_elem? table') (sym ((==_iff _ _).0 ej)) ∙ gy) h.0 i x ni
              (sym (same i ni) ∙ gx) (r, sym h.1, sym h.2))
        | inr ej ↦
            let nj : j ≢ k = λ q. cc ((==_iff _ _).1 q, ej) in
            u i j x y (sym (same i ni) ∙ gx) (sym (same j nj) ∙ gy) h r
      ]
]

-- A change of an entry that keeps its inode, and that does not put an entry without references to use.
pub modify-IsUnique :
    (table : List Inode) (k : ℕ) (f : Inode → Inode)
    → ((x : Inode)
        → get_elem? table k ≡ some x
        → ((f x).dev ≡ x.dev) × ((f x).inum ≡ x.inum) × (0 < (f x).ref → 0 < x.ref))
    → IsUnique table
    → IsUnique (modify table k f)
modify-IsUnique table k f keep u =
    IsUnique-change table (modify table k f) k
      (λ j n. get_elem?-modify_ne table k j f (λ q. n (sym q)))
      (λ x gx r j y n gy h. elim (Option-cases (get_elem? table k)) [
        | inl e ↦ cc (get_elem?-modify_self table k f ∙ ap (Option.map f) e, gx)
        | inr (x0, e) ↦
            let q : f x0 ≡ x =
              some_inj (sym (ap (Option.map f) e) ∙ (sym (get_elem?-modify_self table k f) ∙ gx)) in
            let (kd, ki, kr) = keep x0 e in
            n (
              sym (
                u k j x0 y e gy
                  (h.0, h.1 ∙ (ap (λ z. z.dev) (sym q) ∙ kd), h.2 ∙ (ap (λ z. z.inum) (sym q) ∙ ki))
                  (kr (subst (λ z. 0 < z.ref) (sym q) r))))
      ])
      u

-- `iget` keeps one entry for each inode in use.
pub iget-IsUnique :
    (dev inum k : ℕ) (table table' : List Inode)
    → IsUnique table
    → iget dev inum table ≡ some (table', k)
    → IsUnique table'
iget-IsUnique dev inum k table table' u h =
    let ((x, g, c), same) = subst (Got dev inum table) h (iget-Got dev inum table) in
    IsUnique-change table table' k same
      (λ z gz r j y n gy hy. elim c [
        | inl (hx, gx) ↦
            let q : one_more x ≡ z = some_inj (sym gx ∙ gz) in
            n (
              sym (
                u k j x y g gy
                  (hy.0, hy.1 ∙ ap (λ t. t.dev) (sym q), hy.2 ∙ ap (λ t. t.inum) (sym q)) hx.0))
        | inr (_, a, gx) ↦
            let q : recycled dev inum x ≡ z = some_inj (sym gx ∙ gz) in
            All-get (λ t. ¬ Holds dev inum t) table j y a gy
              (hy.0, hy.1 ∙ ap (λ t. t.dev) (sym q), hy.2 ∙ ap (λ t. t.inum) (sym q))
      ])
      u
