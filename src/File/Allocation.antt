-- ===== src/File/Allocation.antt =====
-- Which entries `filealloc` and `fdalloc` take.
use osn_mp.Common.{
  ℕ, suc, ◌+◌, ◌≡◌, refl, sym, ap, ◌∙◌, inl, inr, none, some, List, [], ◌∷◌, arith, ◌==◌, ==_iff,
  Bool-cases, Option-cases, of_some, get_elem?, set,
}
use osn_mp.File.{File, with_ref, alloc_from, filealloc, Descriptors, fdalloc_from, fdalloc}

-- The first free entry of the table of files, from the one with index `b` on.
abbrev Taken : ℕ → List File → List File × ℕ → Type 0
Taken b files r =
    (d : ℕ) × (r.1 ≡ b + d)
    × ((f : File) × (get_elem? files d ≡ some f) × (f.ref ≡ 0) × (r.0 ≡ set files d (with_ref 1 f)))

alloc_from-Taken :
    (b : ℕ) (files : List File) (r : List File × ℕ) → alloc_from b files ≡ some r → Taken b files r
unfolding alloc_from
alloc_from-Taken b [] r = λ h. cc h
alloc_from-Taken b (f ∷ files) r = elim (Bool-cases (f.ref == 0)) [
  | inl e ↦
      rw e
        (λ h. of_some (Taken b (f ∷ files)) h (0, omega arith, (f, refl, (==_iff _ _).0 e, refl)))
  | inr e ↦ elim (Option-cases (alloc_from (suc b) files)) [
    | inl n ↦ rw (e, n) (λ h. cc h)
    | inr (s, n) ↦
        rw (e, n)
          (λ h.
            let (d, k, (g, p, z, q)) = alloc_from-Taken (suc b) files s n in
            of_some (Taken b (f ∷ files)) h (suc d, k ∙ omega arith, (g, p, z, ap (λ l. f ∷ l) q)))
  ]
]

-- `filealloc` takes an entry without references and gives it one.
pub filealloc-takes :
    (files files' : List File) (k : ℕ)
    → filealloc files ≡ some (files', k)
    → (f : File) × (get_elem? files k ≡ some f)
      × (f.ref ≡ 0)
      × (files' ≡ set files k (with_ref 1 f))
unfolding filealloc
filealloc-takes files files' k h =
    let (d, e, (f, p, z, q)) = alloc_from-Taken 0 files (files', k) h in
    let same : d ≡ k = omega (arith, e) in
    (f, ap (get_elem? files) (sym same) ∙ p, z, q ∙ ap (λ j. set files j (with_ref 1 f)) same)

abbrev Given : ℕ → ℕ → Descriptors → Descriptors × ℕ → Type 0
Given f b ofile r =
    (d : ℕ) × (r.1 ≡ b + d) × (get_elem? ofile d ≡ some none) × (r.0 ≡ set ofile d (some f))

fdalloc_from-Given :
    (f b : ℕ) (ofile : Descriptors) (r : Descriptors × ℕ)
    → fdalloc_from f b ofile ≡ some r
    → Given f b ofile r
unfolding fdalloc_from
fdalloc_from-Given f b [] r = λ h. cc h
fdalloc_from-Given f b (none ∷ ofile) r =
    λ h. of_some (Given f b (none ∷ ofile)) h (0, omega arith, refl, refl)
fdalloc_from-Given f b (some g ∷ ofile) r = elim (Option-cases (fdalloc_from f (suc b) ofile)) [
  | inl n ↦ rw n (λ h. cc h)
  | inr (s, n) ↦ rw n (λ h.
      let (d, k, p, q) = fdalloc_from-Given f (suc b) ofile s n in
      of_some (Given f b (some g ∷ ofile)) h (suc d, k ∙ omega arith, p, ap (λ l. some g ∷ l) q))
]

-- `fdalloc` takes a descriptor that is not in use.
pub fdalloc-takes :
    (f k : ℕ) (ofile ofile' : Descriptors)
    → fdalloc f ofile ≡ some (ofile', k)
    → (get_elem? ofile k ≡ some none) × (ofile' ≡ set ofile k (some f))
unfolding fdalloc
fdalloc-takes f k ofile ofile' h =
    let (d, e, p, q) = fdalloc_from-Given f 0 ofile (ofile', k) h in
    let same : d ≡ k = omega (arith, e) in
    (ap (get_elem? ofile) (sym same) ∙ p, q ∙ ap (λ j. set ofile j (some f)) same)
