-- ===== src/Proc/Sleep/Wakeups.antt =====
-- What waking, killing and the clock do to the table.
use osn_mp.Common.{
  ℕ, ◌+◌, ◌<◌, ◌≡◌, refl, ap, ◌∙◌, ◌≢◌, Bool, true, false, ◌||◌, Option, some, List, [], ◌∷◌, ◌++◌,
  arith, if◌then◌else◌, points_to, get_elem?, All, get_elem?-map_idx,
}
use mathlib.Core.Option
use osn_mp.Common.Words.{word}
use osn_mp.Proc.Types.{Proc, runnable, running, sleeping, is}
use osn_mp.Proc.Sleep.{wake_one, wakeup, kill, kill_one, fall_asleep, tick}

-- Process `j` after `wakeup`: made runnable exactly if it sleeps on the channel and is not the
-- caller; all else stays.
pub get_elem?-wakeup :
    (self : Option ℕ) (chan : ℕ) (ps : List Proc) (j : ℕ)
    → get_elem? (wakeup self chan ps) j ≡ Option.map (wake_one self chan j) (get_elem? ps j)
unfolding wakeup
get_elem?-wakeup self chan ps j =
    get_elem?-map_idx (wake_one self chan) 0 ps j
    ∙ ap (λ k. Option.map (wake_one self chan k) (get_elem? ps j)) (omega arith)

-- No lost wakeup: process `i`, fallen asleep on a channel, is runnable after a `wakeup` of that
-- channel by another process, and sleeps on after a `wakeup` of another channel.
wakeup-fall_asleep :
    (self : Option ℕ) (chan other i : ℕ) (ps : List Proc) (p : Proc)
    → points_to self i ≡ false
    → other ≢ chan
    → get_elem? ps i ≡ some (fall_asleep chan p)
    → (get_elem? (wakeup self chan ps) i ≡ some (record p { chan = chan; state = runnable }))
      × (get_elem? (wakeup self other ps) i ≡ some (fall_asleep chan p))
unfolding wake_one fall_asleep
wakeup-fall_asleep self chan other i ps p h ne g = (
  get_elem?-wakeup self chan ps i ∙ rw g (rw h (ground arith)),
  get_elem?-wakeup self other ps i ∙ rw g (rw h (ground arith)),
)

-- `kill` marks the first process with the pid, makes it runnable if it sleeps, and returns 0; the
-- processes round it stay.
pub kill_first :
    (pid : ℕ) (before after : List Proc) (p : Proc)
    → All (λ q. q.pid ≢ pid) before
    → p.pid ≡ pid
    → kill pid (before ++ p ∷ after) ≡ (before ++ kill_one p ∷ after, true)
unfolding kill
kill_first pid [] after p a e = ground arith
kill_first pid (q ∷ before) after p (ne, a) e =
    rw (kill_first pid before after p a e) (ground arith)

-- Without such a process it returns -1 and changes nothing.
kill_none : (pid : ℕ) (ps : List Proc) → All (λ q. q.pid ≢ pid) ps → kill pid ps ≡ (ps, false)
unfolding kill
kill_none pid [] a = refl
kill_none pid (q ∷ ps) (ne, a) = rw (kill_none pid ps a) (ground arith)

abbrev total_time : Proc → ℕ
total_time p = p.rtime + p.stime + p.wtime

-- The states that the clock counts.
abbrev is_counted : Proc → Bool
is_counted p = is running p || is sleeping p || is runnable p

-- While none of the three counters of a process is about to wrap, a tick adds one to their sum if the
-- process is running, sleeping or runnable, and leaves the sum otherwise.
tick_total :
    (p : Proc)
    → p.rtime + 1 < word
    → p.stime + 1 < word
    → p.wtime + 1 < word
    → total_time (tick p) ≡ (if is_counted p then total_time p + 1 else total_time p)
unfolding tick
tick_total p h k l = ground arith
