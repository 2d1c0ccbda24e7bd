-- ===== src/Pipe/Fifo.antt =====
-- A pipe is a first-in first-out queue: `pipewrite` appends, `piperead` takes from the front.
use osn_mp.Common.{
  ℕ, suc, ◌+◌, ◌%◌, ◌<◌, min, ◌≡◌, refl, sym, ap, ◌∙◌, ◌≢◌, ◌⊎◌, inl, inr, Bool, true, false, not,
  ◌&&◌, ◌||◌, Option, none, some, List, [], ◌∷◌, ◌++◌, map, arith, ◌==◌, ==_iff, Bool-cases, length,
  get_or, take, All, length-set,
}
use native.Mathlib.Nat.{add-zero}
use mathlib.Core.List.{append_assoc, append-nil}
use osn_mp.Pipe.{
  Pipe, pipesize, Outcome, returns, fails, sleeps, is_full, put, advance, pipewrite, pipewrite_from,
  copy_from, piperead,
}
use osn_mp.Pipe.Contents.{size, IsValid, window, contents, window-set}

-- `put` at a pipe that is not full appends one byte.
put-contents :
    (pi : Pipe) (ch : ℕ)
    → IsValid pi
    → is_full pi ≡ false
    → (contents (put ch pi) ≡ contents pi ++ (ch ∷ [])) × IsValid (put ch pi)
unfolding put is_full
put-contents pi ch v h =
    let room : size pi < pipesize = ground (arith, v.bounded) in
    let grown : size (put ch pi) ≡ suc (size pi) = omega arith in
    (
      ap (window (put ch pi).buf pi.nread) grown
          ∙ window-set pi.buf pi.nread (size pi) (pi.nwrite % pipesize) ch v.storage room
              (omega arith),
      record {
        storage = length-set pi.buf (pi.nwrite % pipesize) ch ∙ v.storage;
        read_word = v.read_word;
        write_word = omega arith;
        bounded = omega arith;
      },
    )

-- What a call of `pipewrite` at `i` did: the bytes `ws` are moved, in order, and then it returns or
-- sleeps with their number, or fails.
pub record Wrote (pi : Pipe) (src : List (Option ℕ)) (i : ℕ) (out : Pipe × Outcome) (ws : List ℕ)
    : Type 0 where
  pub front : take (length ws) src ≡ map some ws
  pub appended : contents out.0 ≡ contents pi ++ ws
  pub valid : IsValid out.0
  pub outcome :
      (out.1 ≡ returns (i + length ws))
      ⊎ (((out.1 ≡ sleeps (i + length ws)) × (is_full out.0 ≡ true)) ⊎ (out.1 ≡ fails))

Wrote-none :
    (pi : Pipe) (src : List (Option ℕ)) (i : ℕ) (o : Outcome)
    → IsValid pi
    → (o ≡ returns i) ⊎ (((o ≡ sleeps i) × (is_full pi ≡ true)) ⊎ (o ≡ fails))
    → Wrote pi src i (pi, o) []
Wrote-none pi src i o v h = record {
  front = refl;
  appended = sym (append-nil (contents pi));
  valid = v;
  outcome = rw add-zero h;
}

pipewrite_from-Wrote :
    (killed : Bool) (i : ℕ) (src : List (Option ℕ)) (pi : Pipe)
    → IsValid pi
    → (ws : List ℕ) × Wrote pi src i (pipewrite_from killed i src pi) ws
unfolding pipewrite_from
pipewrite_from-Wrote killed i [] pi v = ([], Wrote-none pi [] i (returns i) v (inl refl))
pipewrite_from-Wrote killed i (none ∷ cs) pi v = (
  [],
  elim (Bool-cases (not pi.readopen || killed)) [
    | inl e ↦ rw e (Wrote-none pi (none ∷ cs) i fails v (inr (inr refl)))
    | inr e ↦ elim (Bool-cases (is_full pi)) [
      | inl f ↦ rw (e, f) (Wrote-none pi (none ∷ cs) i (sleeps i) v (inr (inl (refl, f))))
      | inr f ↦ rw (e, f) (Wrote-none pi (none ∷ cs) i (returns i) v (inl refl))
    ]
  ],
)
pipewrite_from-Wrote killed i (some ch ∷ cs) pi v = elim (Bool-cases (not pi.readopen || killed)) [
  | inl e ↦ ([], rw e (Wrote-none pi (some ch ∷ cs) i fails v (inr (inr refl))))
  | inr e ↦ elim (Bool-cases (is_full pi)) [
    | inl f ↦ ([], rw (e, f) (Wrote-none pi (some ch ∷ cs) i (sleeps i) v (inr (inl (refl, f)))))
    | inr f ↦
        let (grown, valid) = put-contents pi ch v f in
        let (ws, w) = pipewrite_from-Wrote killed (i + 1) cs (put ch pi) valid in
        (
          ch ∷ ws,
          rw (e, f)
              (record {
                front = ap (λ t. some ch ∷ t) w.front;
                appended =
                    w.appended ∙ ap (λ l. l ++ ws) grown ∙ append_assoc (contents pi) (ch ∷ []) ws;
                valid = w.valid;
                outcome =
                    let shift : (i + 1) + length ws ≡ i + suc (length ws) = omega arith in
                    rw shift at w.outcome;
              }),
        )
  ]
]

-- `pipewrite` appends to the contents the first bytes of its source, in order; it returns their number
-- or sleeps on a full pipe with it, or returns -1. The pipe stays valid.
pipewrite-Wrote :
    (killed : Bool) (src : List (Option ℕ)) (pi : Pipe)
    → IsValid pi
    → (ws : List ℕ) × Wrote pi src 0 (pipewrite killed src pi) ws
unfolding pipewrite
pipewrite-Wrote killed src pi v = pipewrite_from-Wrote killed 0 src pi v

advance-contents :
    (pi : Pipe)
    → IsValid pi
    → pi.nread ≢ pi.nwrite
    → (contents pi ≡ get_or pi.buf (pi.nread % pipesize) 0 ∷ contents (advance pi))
      × IsValid (advance pi)
      × (size pi ≡ suc (size (advance pi)))
unfolding advance
advance-contents pi v ne =
    let shrunk : size pi ≡ suc (size (advance pi)) = omega arith in
    (
      ap (window pi.buf pi.nread) shrunk,
      record {
        storage = v.storage;
        read_word = omega arith;
        write_word = v.write_word;
        bounded = omega arith;
      },
      shrunk,
    )

-- What the copying loop leaves of the contents, and hands out.
pub record Took (pi : Pipe) (n : ℕ) (out : Pipe × List ℕ) : Type 0 where
  pub front : contents pi ≡ out.1 ++ contents out.0
  pub count : length out.1 ≡ min n (size pi)
  pub valid : IsValid out.0

copy_from-Took :
    (oks : List Bool) (pi : Pipe)
    → IsValid pi
    → All (λ b. b ≡ true) oks
    → Took pi (length oks) (copy_from oks pi)
unfolding copy_from
copy_from-Took [] pi v a = record { front = refl; count = omega arith; valid = v }
copy_from-Took (false ∷ oks) pi v (a, as') = cc
copy_from-Took (true ∷ oks) pi v (a, as') = elim (Bool-cases (pi.nread == pi.nwrite)) [
  | inl e ↦
      let same : pi.nread ≡ pi.nwrite = (==_iff pi.nread pi.nwrite).0 e in
      rw e (record { front = refl; count = omega arith; valid = v })
  | inr e ↦
      let (c, v', s) = advance-contents pi v (ground arith) in
      let t = copy_from-Took oks (advance pi) v' as' in
      rw e (record {
        front = c ∙ ap (λ l. get_or pi.buf (pi.nread % pipesize) 0 ∷ l) t.front;
        count = omega (arith, t.count, s);
        valid = t.valid;
      })
]

-- `piperead` with data in the pipe or no writer left, where `copyout` does not fail: it hands out the
-- front of the contents, as many bytes as are asked for and there, and leaves the rest.
piperead-Took :
    (killed : Bool) (oks : List Bool) (pi : Pipe)
    → IsValid pi
    → All (λ b. b ≡ true) oks
    → pi.nread == pi.nwrite && pi.writeopen ≡ false
    → let (pi', out, o) = piperead killed oks pi in
      Took pi (length oks) (pi', out) × (o ≡ returns (length out))
unfolding piperead
piperead-Took killed oks pi v a h = rw h (copy_from-Took oks pi v a, refl)

-- First in, first out: a `piperead` after a `pipewrite` on a valid pipe, with data or no writer left and
-- where `copyout` does not fail, hands out first what was in the pipe, then what was written, and
-- what it does not hand out stays, in order.
pub piperead-pipewrite :
    (killed : Bool) (src : List (Option ℕ)) (oks : List Bool) (pi : Pipe)
    → IsValid pi
    → All (λ b. b ≡ true) oks
    → (let p = (pipewrite killed src pi).0 in (p.nread == p.nwrite && p.writeopen) ≡ false)
    → (ws : List ℕ) × Wrote pi src 0 (pipewrite killed src pi) ws
      × (let (p', out, o) = piperead killed oks (pipewrite killed src pi).0 in
          contents pi ++ ws ≡ out ++ contents p')
piperead-pipewrite killed src oks pi v a h =
    let (ws, w) = pipewrite-Wrote killed src pi v in
    let (t, o) = piperead-Took killed oks (pipewrite killed src pi).0 w.valid a h in
    (ws, w, sym w.appended ∙ t.front)

-- Where `copyout` fails at once on a pipe that is not empty, the first byte of the contents is gone, though
-- 0 is returned.
pub piperead-lost :
    (killed : Bool) (oks : List Bool) (pi : Pipe)
    → IsValid pi
    → pi.nread ≢ pi.nwrite
    → let (pi', out, o) = piperead killed (false ∷ oks) pi in
      (o ≡ returns 0) × (contents pi ≡ get_or pi.buf (pi.nread % pipesize) 0 ∷ contents pi')
unfolding piperead copy_from
piperead-lost killed oks pi v ne =
    let apart : (pi.nread == pi.nwrite) ≡ false = ground arith in
    rw apart (refl, (advance-contents pi v ne).0)
