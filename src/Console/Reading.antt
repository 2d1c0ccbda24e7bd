-- ===== src/Console/Reading.antt =====
-- What `consoleread` hands to the user.
use osn_mp.Common.{
  ℕ, zero, suc, ◌+◌, ◌-◌, ◌≤◌, ◌<◌, ◌≡◌, ◌≢◌, inl, inr, Bool, true, false, List, [], ◌∷◌, arith,
  ltb, ◌==◌, if◌then◌else◌, ==_iff, Bool-cases, length,
}
use osn_mp.Common.Words.{add32}
use osn_mp.Console.{
  ctrl_d, newline, Console, at, Outcome, returns, fails, sleeps, read_from, consoleread,
}
use osn_mp.Console.Line.{IsValid}

-- How a call from `target - n` bytes on ends: by its return it has handed out what it returns, and it
-- sleeps only with an empty buffer and something still to read. None of the bytes is past a line.
abbrev pub IsRead : ℕ → ℕ → Console × List ℕ × Outcome → Type 0
IsRead target n (k, out, returns m) = m + n ≡ target + length out
IsRead target n (k, out, fails) = k.r ≡ k.w
IsRead target n (k, out, sleeps left) = (k.r ≡ k.w) × (left + length out ≡ n) × (0 < left)

advance-IsValid : (k : Console) → IsValid k → k.r ≢ k.w → IsValid (record k { r = add32 k.r 1 })
advance-IsValid k v ne = record {
  storage = v.storage;
  read_word = omega arith;
  write_word = v.write_word;
  edit_word = v.edit_word;
  ordered = omega (arith, v.ordered, v.bounded, v.read_word, v.write_word, v.edit_word);
  bounded = omega (arith, v.ordered, v.bounded, v.read_word, v.write_word, v.edit_word);
}

IsRead-cons :
    (target n c : ℕ) (r : Console × List ℕ × Outcome)
    → IsRead target n r
    → IsRead target (suc n) (r.0, c ∷ r.1, r.2)
IsRead-cons target n c (k, out, returns m) h = omega (arith, h)
IsRead-cons target n c (k, out, fails) h = h
IsRead-cons target n c (k, out, sleeps left) (e, l, p) = (e, omega (arith, l), p)

-- An empty buffer, and the end of a file.
empty-IsRead :
    (killed : Bool) (target n : ℕ) (k : Console)
    → k.r ≡ k.w
    → IsValid k
    → IsRead target (suc n) (k, [], if killed then fails else sleeps (suc n)) × IsValid k
empty-IsRead true target n k e v = (e, v)
empty-IsRead false target n k e v = ((e, omega arith, omega arith), v)

end-IsRead :
    (target n : ℕ) (k : Console)
    → suc n ≤ target
    → IsValid k
    → IsValid (record k { r = add32 k.r 1 })
    → IsRead target (suc n) (
      if ltb (suc n) target then k else record k { r = add32 k.r 1 },
      [],
      returns (target - suc n),
    )
      × IsValid (if ltb (suc n) target then k else record k { r = add32 k.r 1 })
end-IsRead target n k le v v' = elim (Bool-cases (ltb (suc n) target)) [
  | inl g ↦ rw g (omega arith, v)
  | inr g ↦ rw g (omega arith, v')
]

read_from-IsRead :
    (killed ok : Bool) (target n : ℕ) (k : Console)
    → n ≤ target
    → IsValid k
    → IsRead target n (read_from killed ok target n k) × IsValid (read_from killed ok target n k).0
unfolding read_from
read_from-IsRead killed ok target zero k le v = (omega arith, v)
read_from-IsRead killed false target (suc n) k le v = elim (Bool-cases (k.r == k.w)) [
  | inl e ↦ rw e (empty-IsRead killed target n k ((==_iff k.r k.w).0 e) v)
  | inr e ↦
      let v' = advance-IsValid k v (ground (arith, e)) in
      elim (Bool-cases (at k k.r == ctrl_d)) [
        | inl f ↦ rw (e, f) (end-IsRead target n k le v v')
        | inr f ↦ rw (e, f) (omega arith, v')
      ]
]
read_from-IsRead killed true target (suc n) k le v = elim (Bool-cases (k.r == k.w)) [
  | inl e ↦ rw e (empty-IsRead killed target n k ((==_iff k.r k.w).0 e) v)
  | inr e ↦
      let v' = advance-IsValid k v (ground (arith, e)) in
      elim (Bool-cases (at k k.r == ctrl_d)) [
        | inl f ↦ rw (e, f) (end-IsRead target n k le v v')
        | inr f ↦ elim (Bool-cases (at k k.r == newline)) [
          | inl nl ↦ rw (e, f, nl) (omega arith, v')
          | inr nl ↦
              let (h, w) =
                read_from-IsRead killed true target n (record k { r = add32 k.r 1 }) (omega arith)
                  v' in
              rw (e, f, nl)
                (
                  IsRead-cons target n (at k k.r)
                      (read_from killed true target n (record k { r = add32 k.r 1 })) h,
                  w,
                )
        ]
      ]
]

-- `consoleread` of `target` bytes: where it returns, it returns the number of the bytes that it has handed to the user; it sleeps or fails only on an empty buffer, and the indices stay in order.
consoleread-IsRead :
    (killed ok : Bool) (target : ℕ) (k : Console)
    → IsValid k
    → IsRead target target (consoleread killed ok target k)
      × IsValid (consoleread killed ok target k).0
unfolding consoleread
consoleread-IsRead killed ok target k v = read_from-IsRead killed ok target target k (omega arith) v
