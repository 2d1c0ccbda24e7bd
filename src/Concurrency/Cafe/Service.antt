-- ===== src/Concurrency/Cafe/Service.antt =====
-- No barista serves two customers at once.
use osn_mp.Common.{
  ℕ, zero, suc, ◌+◌, ◌-◌, ◌<◌, ◌≡◌, refl, ◌∙◌, ◌≢◌, inl, inr, some, List, [], ◌∷◌, map, arith, ◌==◌,
  if◌then◌else◌, ==_iff, Bool-cases, length, get_elem?, get_or, set, modify, replicate, length-set,
  length-modify, length-replicate, get_or-set_self, get_or-set_ne,
}
use osn_mp.Common.Sums.{
  total, total-set, total-two, get_or-modify_self, get_or-modify_ne, get_or-get_elem?,
}
use osn_mp.Concurrency.Cafe.{
  Customer, Work, preparing, prepared, left, completed, Stage, waiting, with_barista, gone, Cafe,
  Step, seize, read_time, leaves, in_time, late, finish, Reach, here, next, opening, leave,
  complete, post,
}

abbrev pub at_barista : ℕ → Stage → ℕ
at_barista j waiting = 0
at_barista j (with_barista k w) = if k == j then 1 else 0
at_barista j (gone w t) = 0

-- The semaphore of a barista and the customers with that barista make one.
abbrev pub IsBalanced : ℕ → Cafe → Type 0
IsBalanced num_baristas c =
    (length c.semaphores ≡ num_baristas)
    × ((j : ℕ) → j < num_baristas → get_or c.semaphores j 0 + total (at_barista j) c.stages ≡ 1)

none_served :
    (j : ℕ) (customers : List Customer) → total (at_barista j) (map (λ c. waiting) customers) ≡ 0
none_served j [] = refl
none_served j (c ∷ cs) = omega (arith, none_served j cs)

abbrev one : ℕ
one = 1

get_or-replicate : (n j : ℕ) → j < n → get_or (replicate n one) j 0 ≡ one
get_or-replicate zero j h = absurd (omega arith)
get_or-replicate (suc n) zero h = refl
get_or-replicate (suc n) (suc j) h = get_or-replicate n j (omega arith)

opening-IsBalanced : (n : ℕ) (customers : List Customer) → IsBalanced n (opening n customers)
opening-IsBalanced n customers =
    (length-replicate n 1, λ j h. omega (arith, get_or-replicate n j h, none_served j customers))

-- A customer who stays with the barista.
move-IsBalanced :
    (n : ℕ) (c : Cafe) (i k : ℕ) (x y : Work)
    → IsBalanced n c
    → get_elem? c.stages i ≡ some (with_barista k x)
    → IsBalanced n (record c { stages = set c.stages i (with_barista k y) })
move-IsBalanced n c i k x y (l, b) w = (
  l,
  λ j h.
      let t = total-set (at_barista j) c.stages i (with_barista k x) (with_barista k y) w in
      omega (arith, b j h, t),
)

step-IsBalanced :
    (n : ℕ) (customers : List Customer) (c c' : Cafe)
    → IsBalanced n c
    → Step customers c c'
    → IsBalanced n c'
unfolding leave complete post
step-IsBalanced n customers c c' (l, b) (seize i barista v w f) =
    let (e, lt) = get_or-get_elem? c.semaphores barista (suc v) 0 f in
    (
      length-set c.semaphores barista v ∙ l,
      λ j h.
          let t = total-set (at_barista j) c.stages i waiting (with_barista barista preparing) w in
          elim (Bool-cases (barista == j)) [
            | inl same ↦
                let at : barista ≡ j = (==_iff barista j).0 same in
                let now : get_or (set c.semaphores barista v) j 0 ≡ v =
                  rw (← at) (get_or-set_self c.semaphores barista v 0 lt) in
                let before : get_or c.semaphores j 0 ≡ suc v = rw (← at) e in
                ground (arith, b j h, t, now, before, same)
            | inr other ↦
                let now : get_or (set c.semaphores barista v) j 0 ≡ get_or c.semaphores j 0 =
                  get_or-set_ne c.semaphores barista j v 0 (ground arith) in
                ground (arith, b j h, t, now, other)
          ],
    )
step-IsBalanced n customers c c' h (read_time i k now customer w f e) =
    move-IsBalanced n c i k preparing (prepared (now - customer.arrival_time) customer.tolerance) h
      w
step-IsBalanced n customers c c' h (leaves i k p q w e) =
    move-IsBalanced n c i k (prepared p q) (left p q) h w
step-IsBalanced n customers c c' h (in_time i k p q w e) =
    move-IsBalanced n c i k (prepared p q) (completed p q) h w
step-IsBalanced n customers c c' h (late i k p q w) =
    move-IsBalanced n c i k (left p q) (completed p q) h w
step-IsBalanced n customers c c' (l, b) (finish i barista p q w) =
    let end = gone p q in
    (
      length-modify c.semaphores barista suc ∙ l,
      λ j h.
          let t =
            total-set (at_barista j) c.stages i (with_barista barista (completed p q)) end w in
          elim (Bool-cases (barista == j)) [
            | inl same ↦
                let at : barista ≡ j = (==_iff barista j).0 same in
                let now : get_or (modify c.semaphores barista suc) j 0
                    ≡ suc (get_or c.semaphores j 0) =
                  rw at (get_or-modify_self c.semaphores j suc 0 (omega arith)) in
                ground (arith, b j h, t, now, same)
            | inr other ↦
                let now : get_or (modify c.semaphores barista suc) j 0 ≡ get_or c.semaphores j 0 =
                  get_or-modify_ne c.semaphores barista j suc 0 (ground arith) in
                ground (arith, b j h, t, now, other)
          ],
    )

Reach-IsBalanced :
    (n : ℕ) (customers : List Customer) (c : Cafe)
    → Reach customers (opening n customers) c
    → IsBalanced n c
Reach-IsBalanced n customers c here = opening-IsBalanced n customers
Reach-IsBalanced n customers c (next {t} r s) =
    step-IsBalanced n customers t c (Reach-IsBalanced n customers t r) s

-- At no time do two customers have the same barista, from the time that one is found until the barista is
-- given back.
pub barista_serves_one :
    (num_baristas : ℕ) (customers : List Customer) (c : Cafe) (a b j : ℕ) (x y : Work)
    → Reach customers (opening num_baristas customers) c
    → j < num_baristas
    → get_elem? c.stages a ≡ some (with_barista j x)
    → get_elem? c.stages b ≡ some (with_barista j y)
    → a ≡ b
barista_serves_one n customers c a b j x y r h wa wb = elim (Bool-cases (a == b)) [
  | inl e ↦ (==_iff a b).0 e
  | inr e ↦
      let bal = (Reach-IsBalanced n customers c r).1 j h in
      let ne : a ≢ b = ground arith in
      let two =
        total-two (at_barista j) c.stages a b (with_barista j x) (with_barista j y) ne wa wb in
      absurd (ground (arith, bal, two))
]
