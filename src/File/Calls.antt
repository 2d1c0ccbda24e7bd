-- ===== src/File/Calls.antt =====
-- `sys_dup` and `sys_close` keep the counts of references, and do not panic.
use osn_mp.Common.{
  ℕ, ◌+◌, ◌-◌, ◌≤◌, ◌<◌, ◌≡◌, refl, sym, ap, ◌∙◌, ◌≢◌, inl, inr, true, false, Option, none, some,
  List, arith, ltb, ◌==◌, if◌then◌else◌, ==_iff, Bool-cases, Option-cases, some_inj, length,
  get_elem?, set, get_elem?-set_self, get_elem?-set_ne,
}
use mathlib.Core.Path.{subst}
use osn_mp.File.{
  File, with_ref, filedup, closing, Closing, nothing, fileclose, fd_none, Descriptors, argfd,
  fdalloc, State, dup_end, sys_dup, sys_close,
}
use osn_mp.File.Allocation.{fdalloc-takes}
use osn_mp.File.Counts.{
  weight_self, weight_ne, count, count-set, IsBalanced, argfd-get, opened-file, IsBalanced-change,
}

-- What `sys_dup` returns: -1 and nothing changed, or a new descriptor of the same file.
abbrev pub Dup : ℕ → State → State → Option ℕ → Type 0
Dup fd (ofile, files) st' none = st' ≡ (ofile, files)
Dup fd (ofile, files) (ofile', files') (some k) =
    (f : ℕ) × (argfd fd ofile ≡ some f)
    × (get_elem? ofile k ≡ some none)
    × (get_elem? ofile' k ≡ some (some f))

-- A state that a call returns.
abbrev Duplicates : (ℕ → ℕ) → ℕ → State → Option (State × Option ℕ) → Type 0
Duplicates others fd st o =
    (r : State × Option ℕ) × (o ≡ some r) × IsBalanced others r.0.0 r.0.1 × Dup fd st r.0 r.1

-- The new descriptor refers to a file of the table.
pub opened-set :
    (ofile : Descriptors) (files : List File) (k f : ℕ)
    → get_elem? ofile k ≡ some none
    → f < length files
    → ((fd i : ℕ) → get_elem? ofile fd ≡ some (some i) → i < length files)
    → (fd i : ℕ) → get_elem? (set ofile k (some f)) fd ≡ some (some i)
    → i < length files
opened-set ofile files k f free l o fd i h = elim (Bool-cases (k == fd)) [
  | inr e ↦ o fd i (sym (get_elem?-set_ne ofile k fd (some f) (λ q. cc ((==_iff _ _).1 q, e))) ∙ h)
  | inl e ↦
      let here : some f ≡ some i = some_inj (
        sym (get_elem?-set_self ofile k none (some f) free)
        ∙ (ap (get_elem? (set ofile k (some f))) ((==_iff _ _).0 e) ∙ h)) in
      subst (λ j. j < length files) (some_inj here) l
]

filedup-referred :
    (f : ℕ) (x : File) (files : List File)
    → get_elem? files f ≡ some x
    → 1 ≤ x.ref
    → filedup f files ≡ some (set files f (with_ref (x.ref + 1) x))
unfolding filedup
filedup-referred f x files g l =
    let e : ltb x.ref 1 ≡ false = ground (arith, l) in rw (g, filedup, e) refl

-- One descriptor more.
pub counts_more :
    (i k f : ℕ) (ofile : Descriptors)
    → get_elem? ofile k ≡ some none
    → (count f (set ofile k (some f)) ≡ count f ofile + 1)
      × (i ≢ f → count i (set ofile k (some f)) ≡ count i ofile)
counts_more i k f ofile free = (
  (let c = count-set f k ofile none (some f) free in let w = weight_self f in omega (arith, c, w)),
  λ n.
      let c = count-set i k ofile none (some f) free in
      let w = weight_ne i f n in omega (arith, c, w),
)

dup_end-Duplicates :
    (others : ℕ → ℕ) (fd f : ℕ) (ofile : Descriptors) (files : List File)
    → IsBalanced others ofile files
    → argfd fd ofile ≡ some f
    → Duplicates others fd (ofile, files) (dup_end files f (fdalloc f ofile) ofile)
dup_end-Duplicates others fd f ofile files v a = elim (Option-cases (fdalloc f ofile)) [
  | inl n ↦ rw n (((ofile, files), none), refl, v, refl)
  | inr ((ofile', k), n) ↦
      let (free, q) = fdalloc-takes f k ofile ofile' n in
      let (x, g, one, r) = opened-file others ofile files fd f v (argfd-get fd f ofile a) in
      let y : File = with_ref (x.ref + 1) x in
      let put : get_elem? ofile' k ≡ some (some f) =
        ap (λ l. get_elem? l k) q ∙ get_elem?-set_self ofile k none (some f) free in
      let more = (counts_more f k f ofile free).0 in
      let add_one : others f + count f ofile + 1 ≡ others f + count f (set ofile k (some f)) =
        omega (arith, more) in
      rw (n, dup_end, filedup-referred f x files g one)
        (
          ((ofile', set files f y), some k),
          refl,
          IsBalanced-change others ofile ofile' files f x y v g
              (λ i m. ap (count i) q ∙ (counts_more i k f ofile free).1 m)
              (ap (λ c. c + 1) r ∙ (add_one ∙ ap (λ l. others f + count f l) (sym q)))
              (subst (λ l. (c i : ℕ) → get_elem? l c ≡ some (some i) → i < length files) (sym q)
                (opened-set ofile files k f free (v.opened fd f (argfd-get fd f ofile a))
                  v.opened)),
          (f, a, free, put),
        )
]

-- Where each file has as many references as there are descriptors of it, `sys_dup` does not panic and keeps
-- this; it returns -1 and changes nothing, or it puts the file of the descriptor in one that was not in use.
sys_dup-Duplicates :
    (others : ℕ → ℕ) (fd : ℕ) (ofile : Descriptors) (files : List File)
    → IsBalanced others ofile files
    → (r : State × Option ℕ) × (sys_dup fd (ofile, files) ≡ some r)
      × IsBalanced others r.0.0 r.0.1
      × Dup fd (ofile, files) r.0 r.1
unfolding sys_dup
sys_dup-Duplicates others fd ofile files v = elim (Option-cases (argfd fd ofile)) [
  | inl n ↦ rw (n, sys_dup) (((ofile, files), none), refl, v, refl)
  | inr (f, n) ↦ rw (n, sys_dup) (dup_end-Duplicates others fd f ofile files v n)
]

-- One descriptor less.
pub counts_less :
    (i fd f : ℕ) (ofile : Descriptors)
    → get_elem? ofile fd ≡ some (some f)
    → (count f (set ofile fd none) + 1 ≡ count f ofile)
      × (i ≢ f → count i (set ofile fd none) ≡ count i ofile)
counts_less i fd f ofile h = (
  (let c = count-set f fd ofile (some f) none h in let w = weight_self f in omega (arith, c, w)),
  λ n.
      let c = count-set i fd ofile (some f) none h in
      let w = weight_ne i f n in omega (arith, c, w),
)

pub opened-cleared :
    (ofile : Descriptors) (files : List File) (fd f : ℕ)
    → get_elem? ofile fd ≡ some (some f)
    → ((c i : ℕ) → get_elem? ofile c ≡ some (some i) → i < length files)
    → (c i : ℕ) → get_elem? (set ofile fd none) c ≡ some (some i)
    → i < length files
opened-cleared ofile files fd f g o c i h = elim (Bool-cases (fd == c)) [
  | inr e ↦ o c i (sym (get_elem?-set_ne ofile fd c none (λ q. cc ((==_iff _ _).1 q, e))) ∙ h)
  | inl e ↦ cc (
      some_inj (
        sym (get_elem?-set_self ofile fd (some f) none g)
        ∙ (ap (get_elem? (set ofile fd none)) ((==_iff _ _).0 e) ∙ h)))
]

-- What `sys_close` returns: -1 and nothing changed, or the descriptor cleared, and the file closed if that
-- was its last reference.
abbrev pub Closed : ℕ → State → State → Option Closing → Type 0
Closed fd (ofile, files) st' none = (argfd fd ofile ≡ none) × (st' ≡ (ofile, files))
Closed fd (ofile, files) (ofile', files') (some c) =
    (f : ℕ) × (x : File) × (argfd fd ofile ≡ some f)
    × (get_elem? files f ≡ some x)
    × (get_elem? ofile' fd ≡ some none)
    × (c ≡ (if x.ref == 1 then closing x else nothing))

fileclose-referred :
    (f : ℕ) (x : File) (files : List File)
    → get_elem? files f ≡ some x
    → 1 ≤ x.ref
    → (y : File) × (fileclose f files
        ≡ some (set files f y, if x.ref == 1 then closing x else nothing))
      × (y.ref ≡ x.ref - 1)
unfolding fileclose
fileclose-referred f x files g l =
    let e : ltb x.ref 1 ≡ false = ground (arith, l) in
    elim (Bool-cases (ltb 0 (x.ref - 1))) [
      | inl m ↦
          let one : (x.ref == 1) ≡ false = ground (arith, m) in
          (with_ref (x.ref - 1) x, rw (g, fileclose, e, m, one) refl, refl)
      | inr m ↦
          let one : (x.ref == 1) ≡ true = ground (arith, m, l) in
          (
            record x { ref = 0; type = fd_none },
            rw (g, fileclose, e, m, one) refl,
            ground (arith, m),
          )
    ]

-- Where each file has as many references as there are descriptors of it, `sys_close` does not panic and
-- keeps this; it returns -1 and changes nothing exactly if the descriptor is not in use, and closes the
-- file exactly if this was the last descriptor of it.
pub sys_close-Closed :
    (others : ℕ → ℕ) (fd : ℕ) (ofile : Descriptors) (files : List File)
    → IsBalanced others ofile files
    → (r : State × Option Closing) × (sys_close fd (ofile, files) ≡ some r)
      × IsBalanced others r.0.0 r.0.1
      × Closed fd (ofile, files) r.0 r.1
unfolding sys_close
sys_close-Closed others fd ofile files v = elim (Option-cases (argfd fd ofile)) [
  | inl n ↦ rw (n, sys_close) (((ofile, files), none), refl, v, (n, refl))
  | inr (f, n) ↦
      let h = argfd-get fd f ofile n in
      let (x, g, one, r) = opened-file others ofile files fd f v h in
      let (y, eq, ref) = fileclose-referred f x files g one in
      rw (n, sys_close, eq)
        (
          ((set ofile fd none, set files f y), some (if x.ref == 1 then closing x else nothing)),
          refl,
          IsBalanced-change others ofile (set ofile fd none) files f x y v g
              (λ i m. (counts_less i fd f ofile h).1 m)
              (let c = (counts_less f fd f ofile h).0 in omega (arith, ref, r, c, one))
              (opened-cleared ofile files fd f h v.opened),
          (f, x, n, g, get_elem?-set_self ofile fd (some f) none h, refl),
        )
]
