-- ===== src/File/Counts.antt =====
-- A file has as many references as there are descriptors of it.
use osn_mp.Common.{
  ℕ, zero, suc, ◌+◌, ◌≤◌, ◌<◌, ◌≡◌, refl, sym, ap, ◌∙◌, ◌≢◌, inl, inr, Option, some, List, [], ◌∷◌,
  arith, leb, ◌==◌, if◌then◌else◌, points_to, ==_iff, Bool-cases, Option-cases, some_inj, length,
  get_elem?, set, length-set, get_elem?-set_self, get_elem?-set_ne,
}
use mathlib.Core.Path.{subst}
use osn_mp.Common.Sums.{total, total-set, total-ge}
use osn_mp.File.{File, Descriptors, argfd, nofile}

abbrev pub weight : ℕ → Option ℕ → ℕ
weight i o = if points_to o i then 1 else 0

-- The number of descriptors of a file.
abbrev pub count : ℕ → Descriptors → ℕ
count i ofile = total (weight i) ofile

-- `others` are the references of other processes.
pub record IsBalanced (others : ℕ → ℕ) (ofile : Descriptors) (files : List File) : Type 0 where
  pub refs : (i : ℕ) (f : File) → get_elem? files i ≡ some f → f.ref ≡ others i + count i ofile
  pub opened : (fd i : ℕ) → get_elem? ofile fd ≡ some (some i) → i < length files

pub weight_self : (f : ℕ) → weight f (some f) ≡ 1
weight_self f = ground arith

pub weight_ne : (i f : ℕ) → i ≢ f → weight i (some f) ≡ 0
weight_ne i f n = ground (arith, n)

-- A descriptor set to another file, or cleared.
pub count-set :
    (i fd : ℕ) (ofile : Descriptors) (o p : Option ℕ)
    → get_elem? ofile fd ≡ some o
    → count i (set ofile fd p) + weight i o ≡ count i ofile + weight i p
count-set i fd ofile o p h = total-set (weight i) ofile fd o p h

pub argfd-get :
    (fd f : ℕ) (ofile : Descriptors) → argfd fd ofile ≡ some f → get_elem? ofile fd ≡ some (some f)
unfolding argfd
argfd-get fd f ofile = elim (Bool-cases (leb nofile fd)) [
  | inl e ↦ rw e (λ h. cc h)
  | inr e ↦ elim (Option-cases (get_elem? ofile fd)) [
    | inl n ↦ rw (e, n) (λ h. cc h)
    | inr (o, n) ↦ rw (e, n) (λ h. ap some h)
  ]
]

pub entry_of {ℓ} :
    {A : Type ℓ} (xs : List A) (i : ℕ) → i < length xs → (x : A) × (get_elem? xs i ≡ some x)
entry_of [] i h = absurd (omega arith)
entry_of (x ∷ xs) zero h = (x, refl)
entry_of (x ∷ xs) (suc i) h = entry_of xs i (omega arith)

-- The file of a descriptor has a reference.
pub opened-file :
    (others : ℕ → ℕ) (ofile : Descriptors) (files : List File) (fd f : ℕ)
    → IsBalanced others ofile files
    → get_elem? ofile fd ≡ some (some f)
    → (x : File) × (get_elem? files f ≡ some x) × (1 ≤ x.ref) × (x.ref ≡ others f + count f ofile)
opened-file others ofile files fd f v h =
    let (x, g) = entry_of files f (v.opened fd f h) in
    let r = v.refs f x g in
    let w = total-ge (weight f) ofile fd (some f) h in
    let s = weight_self f in (x, g, omega (arith, r, w, s), r)

-- A change of one file and of the descriptors of it.
pub IsBalanced-change :
    (others : ℕ → ℕ) (ofile ofile' : Descriptors) (files : List File) (f : ℕ) (x y : File)
    → IsBalanced others ofile files
    → get_elem? files f ≡ some x
    → ((i : ℕ) → i ≢ f → count i ofile' ≡ count i ofile)
    → y.ref ≡ others f + count f ofile'
    → ((fd i : ℕ) → get_elem? ofile' fd ≡ some (some i) → i < length files)
    → IsBalanced others ofile' (set files f y)
IsBalanced-change others ofile ofile' files f x y v g c r o = record {
  refs = λ i z h. elim (Bool-cases (i == f)) [
    | inl e ↦
        let q : i ≡ f = (==_iff _ _).0 e in
        let same : y ≡ z =
          some_inj (
            sym (get_elem?-set_self files f x y g)
            ∙ (ap (get_elem? (set files f y)) (sym q) ∙ h)) in
        ap (λ t. t.ref) (sym same) ∙ (r ∙ ap (λ j. others j + count j ofile') (sym q))
    | inr e ↦
        let n : i ≢ f = λ q. cc ((==_iff _ _).1 q, e) in
        v.refs i z (sym (get_elem?-set_ne files f i y (λ q. n (sym q))) ∙ h)
        ∙ ap (λ k. others i + k) (sym (c i n))
  ];
  opened = λ fd i h. subst (λ k. i < k) (sym (length-set files f y)) (o fd i h);
}
