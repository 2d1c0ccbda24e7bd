-- ===== src/Tests/Processes.antt =====
-- The life of a process on a small table.
use osn_mp.Common.{ℕ, ◌≡◌, refl, true, false, none, some, [], ◌∷◌, arith, get_elem?}
use osn_mp.Proc.Types.{runnable, zombie, unused, Proc, is}
use osn_mp.Proc.Env.{Kernel}
use osn_mp.Proc.Sleep.{kill, kill_one, wakeup, wake_one}
use osn_mp.Proc.Life.{
  allocproc, find_unused, alloc_found, alloc_at, alloc_framed, alloc_mapped, allocpid, initialised,
  cleared, freeproc,
}
use osn_mp.Proc.Life.Marked.{kill_zero-allocproc}
use osn_mp.Proc.Fork.{fork, fork_into, fork_at, fork_copy, child}
use osn_mp.Proc.Fork.Child.{IsChild, fork-IsChild}
use osn_mp.Proc.Exit.{
  exit, close_files, put_cwd, chan_of, ended, reparent, reparent_from, reparent_one,
}
use osn_mp.Proc.Exit.Orphans.{is_child, exit-no_child}
use osn_mp.Proc.Wait.{reaped, asleep, wait_round, wait_found, find_zombie, reap}
use osn_mp.Proc.Wait.Reaping.{IsZombieChild, wait_round-reaped}
use osn_mp.Tests.Samples.{blank, init, shell, ended_child, env, kernel}

allocated : (allocproc env kernel).1 ≡ some 3
unfolding allocproc alloc_found find_unused alloc_at alloc_framed alloc_mapped allocpid
allocated = refl

abbrev killed_zero : Kernel ℕ
killed_zero = record kernel { table = (kill 0 kernel.table).0 }

kill_zero-allocproc_example :
    (kill 0 kernel.table ≡ (init ∷ shell ∷ ended_child ∷ record blank { killed = 1 } ∷ [], true))
    × ((j : ℕ)
        → (allocproc env killed_zero).1 ≡ some j
        → (j ≡ 3)
          × (q : Proc) × (get_elem? (allocproc env killed_zero).0.table j ≡ some q)
          × (q.killed ≡ 1))
kill_zero-allocproc_example =
    kill_zero-allocproc env kernel (init ∷ shell ∷ ended_child ∷ []) [] blank refl
      (
        ((λ e. absurd (omega arith)), refl),
        (((λ e. absurd (omega arith)), refl), (((λ e. absurd (omega arith)), refl), tt)),
      )
      refl refl

-- `allocproc` returns the marked slot.
marked : (allocproc env killed_zero).1 ≡ some 3
unfolding kill kill_one allocproc alloc_found find_unused alloc_at alloc_framed alloc_mapped
    allocpid
marked = refl

forked : (fork env 1 shell kernel).1 ≡ some 4
unfolding fork fork_into fork_at fork_copy child allocproc alloc_found find_unused alloc_at
    alloc_framed alloc_mapped allocpid initialised
forked = refl

fork-IsChild_example :
    (4 ≡ kernel.nextpid)
    × (j : ℕ) × (x : Proc) × (c : Proc) × (get_elem? kernel.table j ≡ some x)
    × (is unused x ≡ true)
    × (get_elem? (fork env 1 shell kernel).0.table j ≡ some c)
    × IsChild 1 shell 4 c
fork-IsChild_example = fork-IsChild env 1 shell kernel 4 forked

abbrev after_exit : Kernel ℕ
after_exit = record kernel {
  table =
      record init { state = runnable }
      ∷ record shell {
        state = zombie;
        xstate = 5;
        etime = 20;
        ofile = none ∷ none ∷ [];
        cwd = none;
      }
      ∷ record ended_child { parent = some 0 }
      ∷ blank
      ∷ [];
}

exited : exit env 1 shell 5 kernel ≡ some after_exit
unfolding exit close_files put_cwd chan_of ended reparent reparent_from reparent_one wakeup wake_one
exited = refl

exit-no_child_example : is_child 1 (get_elem? after_exit.table 2) ≡ false
exit-no_child_example = exit-no_child env 1 shell 5 kernel after_exit 2 exited

shell_reaps : (wait_round env 1 shell 0 kernel).1 ≡ reaped 3
unfolding wait_round wait_found find_zombie reap freeproc
shell_reaps = refl

wait_round-reaped_example :
    (j : ℕ) × (pp : Proc) × (get_elem? kernel.table j ≡ some pp)
    × IsZombieChild 1 pp
    × (pp.pid ≡ 3)
    × (get_elem? (wait_round env 1 shell 0 kernel).0.table j ≡ some (cleared pp))
wait_round-reaped_example = wait_round-reaped env 1 shell 0 3 kernel shell_reaps

init_sleeps : (wait_round env 0 init 0 kernel).1 ≡ asleep
unfolding wait_round wait_found find_zombie reap
init_sleeps = refl
