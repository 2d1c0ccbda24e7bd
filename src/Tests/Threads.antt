-- ===== src/Tests/Threads.antt =====
-- The cafe and the ice cream parlor at concrete inputs.
use osn_mp.Common.{ℕ, suc, ◌%◌, ◌^◌, ◌≡◌, refl, true, some, List, [], ◌∷◌, arith, get_elem?}
use osn_mp.Common.Sums.{total}
use osn_mp.Concurrency.Cafe
use osn_mp.Concurrency.Cafe.{
  Customer, with_barista, preparing, seize, read_time, leaves, late, finish, leave, complete, post,
}
use osn_mp.Concurrency.Cafe.Service.{barista_serves_one}
use osn_mp.Concurrency.Cafe.Accounts.{time_of, waste_of, counters_total}
use osn_mp.Concurrency.Parlor.{Machine, IceCream}
use osn_mp.Concurrency.Parlor.Machines
use osn_mp.Concurrency.Parlor.Machines.{
  on, posts, on_machine, start, announce, assign, machine_serves_two,
}

abbrev first : Customer
first = record { id = 1; coffee_type_index = 0; arrival_time = 0; tolerance = 6 }

abbrev second : Customer
second = record { id = 2; coffee_type_index = 0; arrival_time = 3; tolerance = 5 }

abbrev customers : List Customer
customers = first ∷ second ∷ []

-- One barista has served the first customer, who was late, and now serves the second.
abbrev cafe : Cafe.Cafe
cafe = record {
  semaphores = 0 ∷ [];
  coffee_waste = 1;
  waiting_time = 14;
  stages = Cafe.gone 8 6 ∷ with_barista 0 preparing ∷ [];
}

cafe-Reach : Cafe.Reach customers (Cafe.opening 1 customers) cafe
unfolding leave complete post
cafe-Reach =
    Cafe.next
      (Cafe.next
        (Cafe.next
          (Cafe.next
            (Cafe.next (Cafe.next Cafe.here (seize 0 0 0 refl refl))
              (read_time 0 0 8 first refl refl (omega arith)))
            (leaves 0 0 8 6 refl (omega arith)))
          (late 0 0 8 6 refl))
        (finish 0 0 8 6 refl))
      (seize 1 0 0 refl refl)

abbrev index : ℕ
index = 1

barista_serves_one_example : index ≡ index
barista_serves_one_example =
    barista_serves_one 1 customers cafe 1 1 0 preparing preparing cafe-Reach (omega arith) refl refl

counters_total_example :
    (14 ≡ total time_of cafe.stages % 2 ^ 32) × (1 ≡ total waste_of cafe.stages % 2 ^ 32)
counters_total_example = counters_total 1 customers cafe cafe-Reach

abbrev machine : Machine
machine = record { start_time = 0; end_time = 10; is_available = true }

abbrev vanilla : IceCream
vanilla = record { flavor = 118 ∷ []; preparation_time = 4 }

-- One machine has started and been given the first of two orders.
abbrev parlor : Machines.Parlor
parlor = record {
  machine_sem = 0 ∷ [];
  is_available = true ∷ [];
  shifts = Machines.posted_once ∷ [];
  orders = on_machine 0 ∷ Machines.unassigned ∷ [];
}

parlor-Reach : Machines.Reach (Machines.opening 1 2) parlor
parlor-Reach =
    Machines.next (Machines.next Machines.here (start 0 refl)) (assign 0 0 0 refl refl refl)

machine_serves_two_example :
    (c : Machines.Parlor) × Machines.Reach (Machines.opening (suc 0) (suc (suc 0))) c
    × (get_elem? c.orders 0 ≡ some (on_machine 0))
    × (get_elem? c.orders 1 ≡ some (on_machine 0))
machine_serves_two_example = machine_serves_two 0 0
