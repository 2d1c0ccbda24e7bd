-- ===== src/Concurrency/Cafe.antt =====
-- concurrency/1.c: the cafe, with one thread for each customer. Times are in seconds.
pub mod Service
pub mod Accounts
use osn_mp.Common.{
  ℕ, zero, suc, ◌+◌, ◌-◌, ◌*◌, ◌/◌, ◌%◌, ◌^◌, ◌≤◌, ◌<◌, min, ◌≡◌, refl, sym, ap, ◌∙◌, ◌≢◌, ◌↔◌, ◌⊎◌,
  inl, inr, Bool, true, false, not, ◌&&◌, ◌||◌, Option, none, some, List, [], ◌∷◌, ◌++◌, map, arith,
  ltb, leb, ◌==◌, if◌then◌else◌, points_to, ltb→lt, lt→ltb, ==_iff, Bool-cases, Option-cases,
  some_inj, of_some, length, get_elem?, get_or, set, modify, map_idx, take, drop, replicate, All,
  length-append, length-set, length-modify, length-map_idx, length-replicate, get_elem?-eq-get_or,
  get_or-set_self, get_or-set_ne, get_elem?-modify_self, get_elem?-modify_ne, get_elem?-map_idx,
  get_elem?-modify, get_elem?-set, get_elem?-set_self, get_elem?-set_ne, take-append_le,
  take-append_add, take-map, take_all, length-map, All-get,
}
use osn_mp.Concurrency.Names.{same_name}

-- `Customer`. A thread sleeps for `arrival_time` first, so the time that it reads later is not below.
pub record Customer : Type 0 where
  pub id : ℕ
  pub coffee_type_index : ℕ
  pub arrival_time : ℕ
  pub tolerance : ℕ

-- How far a customer's thread has come with its barista. A number is `current_time` less the arrival time, and
-- the second one the tolerance.
pub data Work : Type 0 where
  preparing : Work
  prepared : ℕ → ℕ → Work  -- `current_time` has been read
  left : ℕ → ℕ → Work  -- behind the `if` of who is late
  completed : ℕ → ℕ → Work  -- before `sem_post`

-- Where a customer's thread stands.
pub data Stage : Type 0 where
  waiting : Stage
  with_barista : ℕ → Work → Stage  -- `selected_barista`
  gone : ℕ → ℕ → Stage

-- The semaphores and the two counters, and the stages of the threads. A counter is an `int`, kept as its 32 bits.
pub record Cafe : Type 0 where
  pub semaphores : List ℕ
  pub coffee_waste : ℕ
  pub waiting_time : ℕ
  pub stages : List Stage

-- `sem_trywait` of a semaphore by its value: none where it does not return 0.
abbrev pub trywait : ℕ → Option ℕ
trywait zero = none
trywait (suc v) = some v

-- One pass of the loop that looks for a barista: `selected_barista`, and the semaphores.
unfoldable pub select_barista : ℕ → List ℕ → Option ℕ × List ℕ
select_barista i [] = (none, [])
select_barista i (v ∷ vs) =
    let (found, vs') = select_barista (suc i) vs in
    elim (trywait v) [ some v' ↦ (some i, v' ∷ vs) | none ↦ (found, v ∷ vs') ]

-- The section of `print_mutex` of a customer who is late, with that of `coffeeWasteMutex` in it.
unfoldable pub leave : ℕ → ℕ → ℕ → ℕ → Cafe → Cafe
leave i barista waited tolerance c = record c {
  waiting_time = (c.waiting_time + tolerance) % 2 ^ 32;
  coffee_waste = (c.coffee_waste + 1) % 2 ^ 32;
  stages = set c.stages i (with_barista barista (left waited tolerance));
}

-- The last section of `print_mutex`. The statement that adds to `waiting_time` is not under the `if` above it.
unfoldable pub complete : ℕ → ℕ → ℕ → ℕ → Cafe → Cafe
complete i barista waited tolerance c = record c {
  waiting_time = (c.waiting_time + waited) % 2 ^ 32;
  stages = set c.stages i (with_barista barista (completed waited tolerance));
}

-- `sem_post` at the end of the thread.
unfoldable pub post : ℕ → ℕ → ℕ → ℕ → Cafe → Cafe
post i barista waited tolerance c = record c {
  semaphores = modify c.semaphores barista suc;
  stages = set c.stages i (gone waited tolerance);
}

-- The threads of `customers`, one section at a time.
pub data Step (customers : List Customer) (c : Cafe) : Cafe → Type 0 where
  seize :
      (i barista v : ℕ)
      → get_elem? c.stages i ≡ some waiting
      → get_elem? c.semaphores barista ≡ some (suc v)
      → Step customers c (record c {
        semaphores = set c.semaphores barista v;
        stages = set c.stages i (with_barista barista preparing);
      })
  read_time :
      (i barista current_time : ℕ) (customer : Customer)
      → get_elem? c.stages i ≡ some (with_barista barista preparing)
      → get_elem? customers i ≡ some customer
      → customer.arrival_time ≤ current_time
      → Step customers c (record c {
        stages = set c.stages i (
            with_barista barista
              (prepared (current_time - customer.arrival_time) customer.tolerance));
      })
  leaves :
      (i barista waited tolerance : ℕ)
      → get_elem? c.stages i ≡ some (with_barista barista (prepared waited tolerance))
      → tolerance < waited
      → Step customers c (leave i barista waited tolerance c)
  in_time :
      (i barista waited tolerance : ℕ)
      → get_elem? c.stages i ≡ some (with_barista barista (prepared waited tolerance))
      → waited ≤ tolerance
      → Step customers c (complete i barista waited tolerance c)
  late :
      (i barista waited tolerance : ℕ)
      → get_elem? c.stages i ≡ some (with_barista barista (left waited tolerance))
      → Step customers c (complete i barista waited tolerance c)
  finish :
      (i barista waited tolerance : ℕ)
      → get_elem? c.stages i ≡ some (with_barista barista (completed waited tolerance))
      → Step customers c (post i barista waited tolerance c)

pub data Reach (customers : List Customer) (s : Cafe) : Cafe → Type 0 where
  here : Reach customers s s
  next : {t u : Cafe} → Reach customers s t → Step customers t u → Reach customers s u

-- What `main` sets up: a semaphore with the value 1 for each barista.
abbrev pub opening : ℕ → List Customer → Cafe
opening num_baristas customers = record {
  semaphores = replicate num_baristas 1;
  coffee_waste = 0;
  waiting_time = 0;
  stages = map (λ c. waiting) customers;
}

-- The limits that `main` tests.
unfoldable pub input_is_valid : ℕ → ℕ → ℕ → Bool
input_is_valid num_baristas num_coffee_types num_customers =
    not (num_baristas == 0 || num_coffee_types == 0 || num_customers == 0)
    && not (ltb 100 num_baristas || ltb 10 num_coffee_types || ltb 100 num_customers)

-- The index of the coffee type with a name, the first one.
unfoldable pub find_coffee : List ℕ → List (List ℕ) → ℕ → Option ℕ
find_coffee name [] j = none
find_coffee name (t ∷ types) j =
    let rest = find_coffee name types (suc j) in if same_name name t then some j else rest
