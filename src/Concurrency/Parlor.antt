-- ===== src/Concurrency/Parlor.antt =====
-- concurrency/2.c: the ice cream parlor. A name is a list of characters, times are in seconds.
pub mod Admission
pub mod Machines
use osn_mp.Common.{
  ℕ, zero, suc, ◌+◌, ◌-◌, ◌*◌, ◌/◌, ◌%◌, ◌^◌, ◌≤◌, ◌<◌, min, ◌≡◌, refl, sym, ap, ◌∙◌, ◌≢◌, ◌↔◌, ◌⊎◌,
  inl, inr, Bool, true, false, not, ◌&&◌, ◌||◌, Option, none, some, List, [], ◌∷◌, ◌++◌, map, arith,
  ltb, leb, ◌==◌, if◌then◌else◌, points_to, ltb→lt, lt→ltb, ==_iff, Bool-cases, Option-cases,
  some_inj, of_some, length, get_elem?, get_or, set, modify, map_idx, take, drop, replicate, All,
  length-append, length-set, length-modify, length-map_idx, length-replicate, get_elem?-eq-get_or,
  get_or-set_self, get_or-set_ne, get_elem?-modify_self, get_elem?-modify_ne, get_elem?-map_idx,
  get_elem?-modify, get_elem?-set, get_elem?-set_self, get_elem?-set_ne, take-append_le,
  take-append_add, take-map, take_all, length-map,
}
use mathlib.Core.Option
use osn_mp.Concurrency.Names.{same_name}

-- `Machine` and the fields of `IceCream` that the threads read.
pub record Machine : Type 0 where
  pub start_time : ℕ
  pub end_time : ℕ
  pub is_available : Bool

pub record IceCream : Type 0 where
  pub flavor : List ℕ
  pub preparation_time : ℕ

-- `findFlavorId` and `findToppingId`, from index `i` on; none for -1.
unfoldable pub find_flavor_id : List ℕ → List IceCream → ℕ → Option ℕ
find_flavor_id flavor [] i = none
find_flavor_id flavor (f ∷ fs) i =
    let rest = find_flavor_id flavor fs (suc i) in
    if same_name flavor f.flavor then some i else rest

unfoldable pub find_topping_id : List ℕ → List (List ℕ) → ℕ → Option ℕ
find_topping_id topping [] i = none
find_topping_id topping (t ∷ ts) i =
    let rest = find_topping_id topping ts (suc i) in if same_name topping t then some i else rest

-- The toppings of an order that `parseCustomerOrder` keeps: it drops the unknown ones, so that the test of
-- the toppings in `customer_thread` always succeeds.
unfoldable pub parse_toppings : List (List ℕ) → List (List ℕ) → List ℕ
parse_toppings [] known = []
parse_toppings (t ∷ ts) known = elim (find_topping_id t known 0) [
  | some j ↦ j ∷ parse_toppings ts known
  | none ↦ parse_toppings ts known
]

-- The flavors of the orders by their ids, in order; none where the flavor of one is not known.
unfoldable pub flavor_ids : List (List ℕ) → List IceCream → Option (List ℕ)
unfolding find_flavor_id
flavor_ids [] flavors = some []
flavor_ids (o ∷ os) flavors = elim (find_flavor_id o flavors 0) [
  | none ↦ none
  | some i ↦ Option.map (λ is. i ∷ is) (flavor_ids os flavors)
]

-- `flavors[id].preparation_time`
abbrev pub time_at : List IceCream → ℕ → ℕ
time_at [] i = 0
time_at (f ∷ fs) zero = f.preparation_time
time_at (f ∷ fs) (suc i) = time_at fs i

abbrev pub time_required : List ℕ → ℕ
time_required [] = 0
time_required (t ∷ ts) = t + time_required ts

-- A machine that runs long enough for an order.
abbrev pub runs_through : ℕ → ℕ → Machine → Bool
runs_through arrival time m =
    m.is_available && leb m.start_time arrival && leb (arrival + time) m.end_time

abbrev pub some_machine : ℕ → ℕ → List Machine → Bool
some_machine arrival time [] = false
some_machine arrival time (m ∷ ms) = runs_through arrival time m || some_machine arrival time ms

-- The loop over the orders with `flag`, which is set to 0 before the loop alone. False is the exit
-- "the machine is not available within its running times".
unfoldable pub machines_fit : Bool → ℕ → List Machine → List ℕ → Bool
machines_fit flag arrival ms [] = true
machines_fit flag arrival ms (t ∷ ts) =
    let flag' = flag || some_machine arrival t ms in
    let rest = machines_fit flag' arrival ms ts in if not flag' then false else rest

-- How the checks of `customer_thread` end; `serviced` holds the preparation times of its orders.
pub data Verdict : Type 0 where
  no_flavor no_time no_machine : Verdict
  serviced : List ℕ → Verdict

-- With the times of the orders: the verdict, and `machineTimeAvailable`.
unfoldable pub admit_times : ℕ → List ℕ → List Machine → ℕ → Verdict × ℕ
unfolding machines_fit
admit_times arrival times ms available =
    if ltb available (time_required times)
    then (no_time, available)
    else if not (machines_fit false arrival ms times)
    then (no_machine, available)
    else (serviced times, available - time_required times)

unfoldable pub admit_ids : ℕ → Option (List ℕ) → List IceCream → List Machine → ℕ → Verdict × ℕ
unfolding admit_times
admit_ids arrival none flavors ms available = (no_flavor, available)
admit_ids arrival (some is) flavors ms available =
    admit_times arrival (map (time_at flavors) is) ms available

-- The checks of `customer_thread` for an order at time `arrival`.
unfoldable pub admit : ℕ → List (List ℕ) → List IceCream → List Machine → ℕ → Verdict × ℕ
unfolding admit_ids flavor_ids
admit arrival orders flavors ms available =
    admit_ids arrival (flavor_ids orders flavors) flavors ms available
