-- ===== src/Log/Space.antt =====
-- The space of the log: `begin_op` reserves, `log_write` stays within what is reserved.
use osn_mp.Common.{
  ℕ, ◌+◌, ◌*◌, ◌≤◌, ◌<◌, ◌≡◌, refl, ◌≢◌, inl, inr, false, some, List, [], ◌∷◌, arith, ◌==◌, ==_iff,
  Bool-cases, length, All,
}
use osn_mp.Log.{Log, log_size, max_op_blocks, begin_op, absorb, log_write}

-- `begin_op` goes on only where the blocks in the log and ten for each call in progress, the new one
-- included, fit into the log; and never while a commit is going on.
begin_op-fits :
    (l l' : Log)
    → begin_op l ≡ some l'
    → (length l'.blocks + l'.outstanding * max_op_blocks ≤ log_size)
      × (l.committing ≡ false)
      × (l'.outstanding ≡ l.outstanding + 1)
      × (l'.blocks ≡ l.blocks)
unfolding begin_op
begin_op-fits l l' h = ground arith

abbrev pub Absent : ℕ → List ℕ → Type 0
Absent b xs = All (λ x. x ≢ b) xs

abbrev pub Distinct : List ℕ → Type 0
Distinct [] = Unit
Distinct (x ∷ xs) = Absent x xs × Distinct xs

absorb-Absent : (b c : ℕ) (xs : List ℕ) → b ≢ c → Absent c xs → Absent c (absorb b xs)
unfolding absorb
absorb-Absent b c [] n a = (n, tt)
absorb-Absent b c (x ∷ xs) n (m, a) = elim (Bool-cases (x == b)) [
  | inl e ↦ rw e (n, a)
  | inr e ↦ rw e (m, absorb-Absent b c xs n a)
]

absorb-Distinct : (b : ℕ) (xs : List ℕ) → Distinct xs → Distinct (absorb b xs)
unfolding absorb
absorb-Distinct b [] d = (tt, tt)
absorb-Distinct b (x ∷ xs) (a, d) = elim (Bool-cases (x == b)) [
  | inl e ↦ let same : x ≡ b = (==_iff x b).0 e in rw e (rw same at a, d)
  | inr e ↦ rw e (absorb-Absent b x xs (ground arith) a, absorb-Distinct b xs d)
]

length-absorb : (b : ℕ) (xs : List ℕ) → length (absorb b xs) ≤ length xs + 1
unfolding absorb
length-absorb b [] = omega arith
length-absorb b (x ∷ xs) = ground (arith, length-absorb b xs)

-- `log_write` inside a call, with room left in the log and each block there once, never panics; it adds
-- at most one block, and no block twice.
log_write-absorb :
    (b : ℕ) (l : Log)
    → 0 < l.outstanding
    → length l.blocks < log_size
    → length l.blocks + 1 < l.size
    → Distinct l.blocks
    → (l' : Log) × (log_write b l ≡ some l')
      × Distinct l'.blocks
      × (length l'.blocks ≤ length l.blocks + 1)
      × (l'.outstanding ≡ l.outstanding)
unfolding log_write
log_write-absorb b l o r s d = (
  record l { blocks = absorb b l.blocks },
  ground arith,
  absorb-Distinct b l.blocks d,
  length-absorb b l.blocks,
  refl,
)
