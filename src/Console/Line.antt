-- ===== src/Console/Line.antt =====
-- The line that is typed: the indices stay in order, and what has been handed to the reader is not
-- taken back.
use osn_mp.Common.{
  ℕ, zero, suc, ◌%◌, ◌≤◌, ◌<◌, ◌≡◌, refl, ◌∙◌, ◌≢◌, ◌⊎◌, inl, inr, not, ◌&&◌, ◌||◌, arith, ltb,
  ◌==◌, if◌then◌else◌, ==_iff, Bool-cases, length, set, length-set, get_or-set_ne,
}
use osn_mp.Common.Words.{word, add32, sub32}
use osn_mp.Console.{
  input_buf_size, newline, Console, at, kill_line, backspace, ends_line, store, insert, consoleintr,
}

-- `r`, `w` and `e` in this order round the words, at most a buffer apart.
pub record IsValid (k : Console) : Type 0 where
  pub storage : length k.buf ≡ input_buf_size
  pub read_word : k.r < word
  pub write_word : k.w < word
  pub edit_word : k.e < word
  pub ordered : sub32 k.w k.r ≤ sub32 k.e k.r
  pub bounded : sub32 k.e k.r ≤ input_buf_size

erase-IsValid : (k : Console) → IsValid k → k.e ≢ k.w → IsValid (record k { e = sub32 k.e 1 })
erase-IsValid k v ne = record {
  storage = v.storage;
  read_word = v.read_word;
  write_word = v.write_word;
  edit_word = omega arith;
  ordered = omega (arith, v.ordered, v.bounded, v.read_word, v.write_word, v.edit_word);
  bounded = omega (arith, v.ordered, v.bounded, v.read_word, v.write_word, v.edit_word);
}

kill_line-IsValid : (fuel : ℕ) (k : Console) → IsValid k → IsValid (kill_line fuel k)
unfolding kill_line
kill_line-IsValid zero k v = v
kill_line-IsValid (suc fuel) k v =
    elim (Bool-cases (not (k.e == k.w) && not (at k (sub32 k.e 1) == newline))) [
      | inl h ↦
          rw h (
            kill_line-IsValid fuel (record k { e = sub32 k.e 1 })
              (erase-IsValid k v (ground arith)))
      | inr h ↦ rw h v
    ]

backspace-IsValid : (k : Console) → IsValid k → IsValid (backspace k)
unfolding backspace
backspace-IsValid k v = elim (Bool-cases (k.e == k.w)) [
  | inl h ↦ rw h v
  | inr h ↦ rw h (erase-IsValid k v (ground arith))
]

store-IsValid :
    (c : ℕ) (k : Console) → IsValid k → sub32 k.e k.r < input_buf_size → IsValid (store c k).0
unfolding store
store-IsValid c k v lt =
    let k' = record k { buf = set k.buf (k.e % input_buf_size) (c % 256); e = add32 k.e 1 } in
    let size : length (set k.buf (k.e % input_buf_size) (c % 256)) ≡ input_buf_size =
      length-set k.buf (k.e % input_buf_size) (c % 256) ∙ v.storage in
    elim (Bool-cases (ends_line c k')) [
      | inl h ↦ rw h (record {
        storage = size;
        read_word = v.read_word;
        write_word = omega arith;
        edit_word = omega arith;
        ordered = omega arith;
        bounded = omega (arith, lt, v.read_word, v.edit_word);
      })
      | inr h ↦ rw h (record {
        storage = size;
        read_word = v.read_word;
        write_word = v.write_word;
        edit_word = omega arith;
        ordered = omega (arith, lt, v.ordered, v.read_word, v.edit_word, v.write_word);
        bounded = omega (arith, lt, v.read_word, v.edit_word);
      })
    ]

insert-IsValid : (c : ℕ) (k : Console) → IsValid k → IsValid (insert c k).0
unfolding insert
insert-IsValid c k v = elim (Bool-cases (not (c == 0) && ltb (sub32 k.e k.r) input_buf_size)) [
  | inl h ↦ rw h (store-IsValid (if c == 13 then newline else c) k v (ground arith))
  | inr h ↦ rw h v
]

-- Every character that comes in leaves the indices in order and the line within the buffer.
pub consoleintr-IsValid : (c : ℕ) (k : Console) → IsValid k → IsValid (consoleintr c k).0
unfolding consoleintr
consoleintr-IsValid c k v = elim (Bool-cases (c == 16)) [
  | inl h ↦ rw h v
  | inr h ↦ elim (Bool-cases (c == 21)) [
    | inl g ↦ rw (h, g) (kill_line-IsValid input_buf_size k v)
    | inr g ↦ elim (Bool-cases (c == 8 || c == 127)) [
      | inl f ↦ rw (h, g, f) (backspace-IsValid k v)
      | inr f ↦ rw (h, g, f) (insert-IsValid c k v)
    ]
  ]
]

-- "Kill line" goes on until the line is empty or a newline is in front: the fuel is enough.
kill_line_done :
    (fuel : ℕ) (k : Console)
    → IsValid k
    → sub32 k.e k.w ≤ fuel
    → ((kill_line fuel k).e ≡ k.w) ⊎ (at k (sub32 (kill_line fuel k).e 1) ≡ newline)
unfolding kill_line
kill_line_done zero k v h = inl (omega (arith, h, v.edit_word, v.write_word))
kill_line_done (suc fuel) k v h = elim (Bool-cases (k.e == k.w)) [
  | inl same ↦ inl (rw same ((==_iff k.e k.w).0 same))
  | inr other ↦ elim (Bool-cases (at k (sub32 k.e 1) == newline)) [
    | inl nl ↦ inr (rw (other, nl) ((==_iff (at k (sub32 k.e 1)) newline).0 nl))
    | inr gap ↦
        rw (other, gap)
          (kill_line_done fuel (record k { e = sub32 k.e 1 })
            (erase-IsValid k v (ground (arith, other)))
            (ground (arith, other, h, v.edit_word, v.write_word)))
  ]
]

kill_line-keeps :
    (fuel : ℕ) (k : Console)
    → ((kill_line fuel k).buf ≡ k.buf) × ((kill_line fuel k).w ≡ k.w) × ((kill_line fuel k).r ≡ k.r)
unfolding kill_line
kill_line-keeps zero k = (refl, refl, refl)
kill_line-keeps (suc fuel) k =
    elim (Bool-cases (not (k.e == k.w) && not (at k (sub32 k.e 1) == newline))) [
      | inl h ↦ rw h (kill_line-keeps fuel (record k { e = sub32 k.e 1 }))
      | inr h ↦ rw h (refl, refl, refl)
    ]

-- Control-U erases what has been typed since the last end of line, or since the newline before it, and
-- leaves the buffer and the other two indices.
consoleintr_kill :
    (k : Console)
    → IsValid k
    → let k' = (consoleintr 21 k).0 in
      ((k'.e ≡ k.w) ⊎ (at k (sub32 k'.e 1) ≡ newline))
      × (k'.buf ≡ k.buf)
      × (k'.w ≡ k.w)
      × (k'.r ≡ k.r)
unfolding consoleintr
consoleintr_kill k v =
    let (a, b, c) = kill_line-keeps input_buf_size k in
    (
      kill_line_done input_buf_size k v
          (omega (arith, v.ordered, v.bounded, v.read_word, v.edit_word, v.write_word)),
      a,
      b,
      c,
    )

store-committed :
    (c n : ℕ) (k : Console)
    → IsValid k
    → sub32 k.e k.r < input_buf_size
    → n < sub32 k.w k.r
    → at (store c k).0 (add32 k.r n) ≡ at k (add32 k.r n)
unfolding store
store-committed c n k v lt h =
    let ne : k.e % input_buf_size ≢ add32 k.r n % input_buf_size =
      (λ eq. omega (arith, eq, h, lt, v.ordered, v.read_word, v.edit_word, v.write_word)) in
    let k' = record k { buf = set k.buf (k.e % input_buf_size) (c % 256); e = add32 k.e 1 } in
    let kept =
      get_or-set_ne k.buf (k.e % input_buf_size) (add32 k.r n % input_buf_size) (c % 256) 0 ne in
    elim (Bool-cases (ends_line c k')) [ inl f ↦ rw f kept | inr f ↦ rw f kept ]

insert-committed :
    (c n : ℕ) (k : Console)
    → IsValid k
    → n < sub32 k.w k.r
    → at (insert c k).0 (add32 k.r n) ≡ at k (add32 k.r n)
unfolding insert
insert-committed c n k v h =
    elim (Bool-cases (not (c == 0) && ltb (sub32 k.e k.r) input_buf_size)) [
      | inl f ↦ rw f (store-committed (if c == 13 then newline else c) n k v (ground arith) h)
      | inr f ↦ rw f refl
    ]

-- No character that comes in changes a character between the indices `r` and `w`, which the reader may take.
consoleintr-committed :
    (c n : ℕ) (k : Console)
    → IsValid k
    → n < sub32 k.w k.r
    → at (consoleintr c k).0 (add32 k.r n) ≡ at k (add32 k.r n)
unfolding consoleintr backspace
consoleintr-committed c n k v h = elim (Bool-cases (c == 16)) [
  | inl a ↦ rw a refl
  | inr a ↦ elim (Bool-cases (c == 21)) [
    | inl b ↦ rw (a, b, (kill_line-keeps input_buf_size k).0) refl
    | inr b ↦ elim (Bool-cases (c == 8 || c == 127)) [
      | inl d ↦
          rw (a, b, d) (elim (Bool-cases (k.e == k.w)) [ inl e ↦ rw e refl | inr e ↦ rw e refl ])
      | inr d ↦ rw (a, b, d) (insert-committed c n k v h)
    ]
  ]
]
