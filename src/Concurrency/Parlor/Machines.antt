-- ===== src/Concurrency/Parlor/Machines.antt =====
-- concurrency/2.c: `machine_thread` and `single_order_thread`, one atomic step at a time, and what a
-- machine serves at once.
use osn_mp.Common.{
  ℕ, zero, suc, ◌+◌, ◌≤◌, ◌<◌, ◌≡◌, refl, ◌∙◌, inl, inr, Bool, true, false, some, List, arith, ◌==◌,
  if◌then◌else◌, ==_iff, Bool-cases, length, get_elem?, get_or, set, modify, replicate, length-set,
  length-modify, length-replicate,
}
use osn_mp.Common.Sums.{total, total-set, get_or-set, get_or-modify, get_or-get_elem?}

-- Where the thread of an order stands.
pub data Order : Type 0 where
  unassigned : Order
  on_machine : ℕ → Order  -- `selected_machine`
  prepared : Order

-- Where the thread of a machine stands.
pub data Shift : Type 0 where
  before_start posted_once working stopped : Shift

-- `machine_sem`, `isAvailable`, and the threads.
pub record Parlor : Type 0 where
  pub machine_sem : List ℕ
  pub is_available : List Bool
  pub shifts : List Shift
  pub orders : List Order

-- One step of a thread. A machine's thread posts its semaphore as it starts and, behind a
-- message, a second time.
pub data Step (c : Parlor) : Parlor → Type 0 where
  start :
      (j : ℕ)
      → get_elem? c.shifts j ≡ some before_start
      → Step c (record c {
        machine_sem = modify c.machine_sem j suc;
        shifts = set c.shifts j posted_once;
      })
  announce :
      (j : ℕ)
      → get_elem? c.shifts j ≡ some posted_once
      → Step c
          (record c { machine_sem = modify c.machine_sem j suc; shifts = set c.shifts j working })
  stop :
      (j : ℕ)
      → get_elem? c.shifts j ≡ some working
      → Step c
          (record c { is_available = set c.is_available j false; shifts = set c.shifts j stopped })
  assign :
      (i j v : ℕ)
      → get_elem? c.orders i ≡ some unassigned
      → get_elem? c.is_available j ≡ some true
      → get_elem? c.machine_sem j ≡ some (suc v)
      → Step c
          (record c { machine_sem = set c.machine_sem j v; orders = set c.orders i (on_machine j) })
  complete :
      (i j : ℕ)
      → get_elem? c.orders i ≡ some (on_machine j)
      → Step c
          (record c { machine_sem = modify c.machine_sem j suc; orders = set c.orders i prepared })

pub data Reach (s : Parlor) : Parlor → Type 0 where
  here : Reach s s
  next : {t u : Parlor} → Reach s t → Step t u → Reach s u

-- `n` machines, whose semaphores start at 0, and `k` orders.
abbrev pub opening : ℕ → ℕ → Parlor
opening n k = record {
  machine_sem = replicate n 0;
  is_available = replicate n true;
  shifts = replicate n before_start;
  orders = replicate k unassigned;
}

abbrev pub on : ℕ → Order → ℕ
on j unassigned = 0
on j (on_machine k) = if k == j then 1 else 0
on j prepared = 0

-- How often the thread of a machine has posted its semaphore.
abbrev pub posts : Shift → ℕ
posts before_start = 0
posts posted_once = 1
posts working = 2
posts stopped = 2

abbrev pub IsBalanced : ℕ → Parlor → Type 0
IsBalanced n c =
    (length c.machine_sem ≡ n)
    × (length c.shifts ≡ n)
    × ((j : ℕ)
        → j < n
        → get_or c.machine_sem j 0 + total (on j) c.orders ≡ posts (get_or c.shifts j before_start))

none_on : (j k : ℕ) → total (on j) (replicate k unassigned) ≡ 0
none_on j zero = refl
none_on j (suc k) = omega (arith, none_on j k)

get_or-replicate {ℓ} : {A : Type ℓ} → (n j : ℕ) (a : A) → j < n → get_or (replicate n a) j a ≡ a
get_or-replicate zero j a h = refl
get_or-replicate (suc n) zero a h = refl
get_or-replicate (suc n) (suc j) a h = get_or-replicate n j a (omega arith)

opening-IsBalanced : (n k : ℕ) → IsBalanced n (opening n k)
opening-IsBalanced n k = (
  length-replicate n 0,
  length-replicate n before_start,
  λ j h.
      ground
        (arith, get_or-replicate {A = ℕ} n j 0 h, get_or-replicate n j before_start h, none_on j k),
)

-- A machine's thread goes on, with `more` posts of its semaphore.
shift-IsBalanced :
    (n j : ℕ) (c : Parlor) (x y : Shift) (sem : List ℕ)
    → IsBalanced n c
    → get_elem? c.shifts j ≡ some x
    → length sem ≡ n
    → ((k : ℕ)
        → k < n
        → get_or sem k 0 + (if j == k then posts x else 0)
          ≡ get_or c.machine_sem k 0 + (if j == k then posts y else 0))
    → IsBalanced n (record c { machine_sem = sem; shifts = set c.shifts j y })
shift-IsBalanced n j c x y sem (l, m, b) g e f = (
  e,
  length-set c.shifts j y ∙ m,
  λ k h.
      let now = get_or-set c.shifts j k y before_start (omega arith) in
      elim (Bool-cases (j == k)) [
        | inl same ↦
            let at : j ≡ k = (==_iff j k).0 same in
            let old : get_or c.shifts k before_start ≡ x =
              rw (← at) ((get_or-get_elem? c.shifts j x before_start g).0) in
            ground (arith, b k h, f k h, now, old, same)
        | inr other ↦ ground (arith, b k h, f k h, now, other)
      ],
)

step-IsBalanced : (n : ℕ) (c c' : Parlor) → IsBalanced n c → Step c c' → IsBalanced n c'
step-IsBalanced n c c' (l, m, b) (start j g) =
    shift-IsBalanced n j c before_start posted_once (modify c.machine_sem j suc) (l, m, b) g
      (length-modify c.machine_sem j suc ∙ l)
      (λ k h. ground (arith, get_or-modify c.machine_sem j k suc 0 (omega arith)))
step-IsBalanced n c c' (l, m, b) (announce j g) =
    shift-IsBalanced n j c posted_once working (modify c.machine_sem j suc) (l, m, b) g
      (length-modify c.machine_sem j suc ∙ l)
      (λ k h. ground (arith, get_or-modify c.machine_sem j k suc 0 (omega arith)))
step-IsBalanced n c c' (l, m, b) (stop j g) =
    shift-IsBalanced n j c working stopped c.machine_sem (l, m, b) g l (λ k h. refl)
step-IsBalanced n c c' (l, m, b) (assign i j v g a f) = (
  length-set c.machine_sem j v ∙ l,
  m,
  λ k h.
      let t = total-set (on k) c.orders i unassigned (on_machine j) g in
      let now = get_or-set c.machine_sem j k v 0 (omega arith) in
      elim (Bool-cases (j == k)) [
        | inl same ↦
            let at : j ≡ k = (==_iff j k).0 same in
            let old : get_or c.machine_sem k 0 ≡ suc v =
              rw (← at) ((get_or-get_elem? c.machine_sem j (suc v) 0 f).0) in
            ground (arith, b k h, t, now, old, same)
        | inr other ↦ ground (arith, b k h, t, now, other)
      ],
)
step-IsBalanced n c c' (l, m, b) (complete i j g) = (
  length-modify c.machine_sem j suc ∙ l,
  m,
  λ k h.
      let t = total-set (on k) c.orders i (on_machine j) prepared g in
      let now = get_or-modify c.machine_sem j k suc 0 (omega arith) in
      ground (arith, b k h, t, now),
)

Reach-IsBalanced : (n k : ℕ) (c : Parlor) → Reach (opening n k) c → IsBalanced n c
Reach-IsBalanced n k c here = opening-IsBalanced n k
Reach-IsBalanced n k c (next {t} r s) = step-IsBalanced n t c (Reach-IsBalanced n k t r) s

posts_le : (x : Shift) → posts x ≤ 2
posts_le before_start = omega arith
posts_le posted_once = omega arith
posts_le working = omega arith
posts_le stopped = omega arith

-- A machine never prepares more than two orders at once, and none before its thread has started.
machine_load :
    (n k : ℕ) (c : Parlor) (j : ℕ)
    → Reach (opening n k) c
    → j < n
    → (total (on j) c.orders ≤ 2) × (total (on j) c.orders ≤ posts (get_or c.shifts j before_start))
machine_load n k c j r h =
    let b = (Reach-IsBalanced n k c r).2 j h in
    let le = posts_le (get_or c.shifts j before_start) in (omega (arith, b, le), omega (arith, b))

-- The bound is met: as the thread of a machine posts twice, a machine can prepare two orders at once.
pub machine_serves_two :
    (n k : ℕ)
    → (c : Parlor) × Reach (opening (suc n) (suc (suc k))) c
      × (get_elem? c.orders 0 ≡ some (on_machine 0))
      × (get_elem? c.orders 1 ≡ some (on_machine 0))
machine_serves_two n k = (
  _,
  next (next (next (next here (start 0 refl)) (announce 0 refl)) (assign 0 0 1 refl refl refl))
      (assign 1 0 0 refl refl refl),
  refl,
  refl,
)
