-- ===== src/Concurrency/Cafe/Accounts.antt =====
-- What the two counters of the cafe hold.
use osn_mp.Common.{
  ℕ, ◌+◌, ◌-◌, ◌%◌, ◌^◌, ◌≤◌, ◌<◌, ◌≡◌, refl, ap, some, List, [], ◌∷◌, map, arith, ltb,
  if◌then◌else◌, get_elem?, set,
}
use osn_mp.Common.Sums.{total, total-set}
use osn_mp.Concurrency.Cafe.{
  Customer, preparing, prepared, left, completed, Stage, waiting, with_barista, gone, Cafe, Step,
  seize, read_time, leaves, in_time, late, finish, Reach, here, next, opening, leave, complete,
  post,
}

-- The tolerance of who is late.
abbrev extra : ℕ → ℕ → ℕ
extra waited tolerance = if ltb tolerance waited then tolerance else 0

abbrev one_late : ℕ → ℕ → ℕ
one_late waited tolerance = if ltb tolerance waited then 1 else 0

-- What a customer has added to `waiting_time` so far: who is late adds the tolerance, and later the whole time
-- as well.
abbrev pub time_of : Stage → ℕ
time_of waiting = 0
time_of (with_barista k preparing) = 0
time_of (with_barista k (prepared waited tolerance)) = 0
time_of (with_barista k (left waited tolerance)) = extra waited tolerance
time_of (with_barista k (completed waited tolerance)) = extra waited tolerance + waited
time_of (gone waited tolerance) = extra waited tolerance + waited

abbrev pub waste_of : Stage → ℕ
waste_of waiting = 0
waste_of (with_barista k preparing) = 0
waste_of (with_barista k (prepared waited tolerance)) = 0
waste_of (with_barista k (left waited tolerance)) = one_late waited tolerance
waste_of (with_barista k (completed waited tolerance)) = one_late waited tolerance
waste_of (gone waited tolerance) = one_late waited tolerance

abbrev pub IsSettled : Cafe → Type 0
IsSettled c =
    (c.waiting_time ≡ total time_of c.stages % 2 ^ 32)
    × (c.coffee_waste ≡ total waste_of c.stages % 2 ^ 32)

opening-IsSettled :
    (customers : List Customer)
    → (total time_of (map (λ c. waiting) customers) ≡ 0)
      × (total waste_of (map (λ c. waiting) customers) ≡ 0)
opening-IsSettled [] = (refl, refl)
opening-IsSettled (c ∷ cs) =
    let (a, b) = opening-IsSettled cs in (omega (arith, a), omega (arith, b))

-- A stage that adds `n` to a sum adds `n` to the counter.
counter-set :
    (w : Stage → ℕ) (stages : List Stage) (i n v : ℕ) (x y : Stage)
    → get_elem? stages i ≡ some x
    → w y ≡ w x + n
    → v ≡ total w stages % 2 ^ 32
    → (v + n) % 2 ^ 32 ≡ total w (set stages i y) % 2 ^ 32
counter-set w stages i n v x y g e h = let t = total-set w stages i x y g in omega (arith, t, e, h)

-- A stage that adds nothing.
counter-keep :
    (w : Stage → ℕ) (stages : List Stage) (i v : ℕ) (x y : Stage)
    → get_elem? stages i ≡ some x
    → w y ≡ w x
    → v ≡ total w stages % 2 ^ 32
    → v ≡ total w (set stages i y) % 2 ^ 32
counter-keep w stages i v x y g e h = let t = total-set w stages i x y g in omega (arith, t, e, h)

late-extra :
    (waited tolerance : ℕ)
    → tolerance < waited
    → (extra waited tolerance ≡ 0 + tolerance) × (one_late waited tolerance ≡ 0 + 1)
late-extra waited tolerance l = ground (arith, l)

in_time-extra :
    (waited tolerance : ℕ)
    → waited ≤ tolerance
    → (extra waited tolerance ≡ 0) × (one_late waited tolerance ≡ 0)
in_time-extra waited tolerance l = ground (arith, l)

step-IsSettled :
    (customers : List Customer) (c c' : Cafe) → IsSettled c → Step customers c c' → IsSettled c'
unfolding leave complete post
step-IsSettled customers c c' (t, w) (seize i b v g f) = (
  counter-keep time_of c.stages i c.waiting_time waiting (with_barista b preparing) g refl t,
  counter-keep waste_of c.stages i c.coffee_waste waiting (with_barista b preparing) g refl w,
)
step-IsSettled customers c c' (t, w) (read_time i b now customer g f l) =
    let y = with_barista b (prepared (now - customer.arrival_time) customer.tolerance) in
    (
      counter-keep time_of c.stages i c.waiting_time (with_barista b preparing) y g refl t,
      counter-keep waste_of c.stages i c.coffee_waste (with_barista b preparing) y g refl w,
    )
step-IsSettled customers c c' (t, w) (leaves i b m n g l) =
    let x = with_barista b (prepared m n) in
    let y = with_barista b (left m n) in
    (
      counter-set time_of c.stages i n c.waiting_time x y g (late-extra m n l).0 t,
      counter-set waste_of c.stages i 1 c.coffee_waste x y g (late-extra m n l).1 w,
    )
step-IsSettled customers c c' (t, w) (in_time i b m n g l) =
    let x = with_barista b (prepared m n) in
    let y = with_barista b (completed m n) in
    let (p, q) = in_time-extra m n l in
    (
      counter-set time_of c.stages i m c.waiting_time x y g (ap (λ k. k + m) p) t,
      counter-keep waste_of c.stages i c.coffee_waste x y g q w,
    )
step-IsSettled customers c c' (t, w) (late i b m n g) =
    let x = with_barista b (left m n) in
    let y = with_barista b (completed m n) in
    (
      counter-set time_of c.stages i m c.waiting_time x y g refl t,
      counter-keep waste_of c.stages i c.coffee_waste x y g refl w,
    )
step-IsSettled customers c c' (t, w) (finish i b m n g) =
    let x = with_barista b (completed m n) in
    (
      counter-keep time_of c.stages i c.waiting_time x (gone m n) g refl t,
      counter-keep waste_of c.stages i c.coffee_waste x (gone m n) g refl w,
    )

-- In every state that the threads reach, `coffee_waste` is the number of customers who have been found late,
-- and `waiting_time` the sum of what each has added: the tolerance for one found late, and, when the coffee is
-- said to be complete, the time from arrival until it was ready, for late customers too; both modulo
-- 2 ^ 32. A thread reads no time before the arrival of its customer.
pub counters_total :
    (num_baristas : ℕ) (customers : List Customer) (c : Cafe)
    → Reach customers (opening num_baristas customers) c
    → (c.waiting_time ≡ total time_of c.stages % 2 ^ 32)
      × (c.coffee_waste ≡ total waste_of c.stages % 2 ^ 32)
counters_total n customers c here =
    let (a, b) = opening-IsSettled customers in (omega (arith, a), omega (arith, b))
counters_total n customers c (next {t} r s) =
    step-IsSettled customers t c (counters_total n customers t r) s
