-- ===== src/Proc/SetPriority/Results.antt =====
-- What `set_priority` does to the table, and what becomes of its `yield`.
use osn_mp.Common.{
  ℕ, suc, ◌+◌, ◌≤◌, ◌<◌, ◌≡◌, refl, ◌≢◌, ◌⊎◌, inl, inr, true, false, List, [], ◌∷◌, ◌++◌, map,
  arith, ltb, ◌==◌, if◌then◌else◌, lt→ltb, Bool-cases, length, All,
}
use osn_mp.Common.Words.{minus_one}
use osn_mp.Spinlock.{Lock, Cpu, holding, got, acquire, push_off}
use osn_mp.Spinlock.Pairs.{IsFree, held_by}
use osn_mp.Proc.Types.{Proc}
use osn_mp.Proc.Priority.{refresh}
use osn_mp.Proc.SetPriority.{
  Search, search_from, returns, halts, yield, dynamic_at, after_loop, set_priority,
}
use native.Mathlib.Nat.{zero-add}

-- The dynamic priority of the last entry of a list, or what was there before.
abbrev pub last_dynamic : ℕ → List Proc → ℕ
last_dynamic d [] = d
last_dynamic d (p ∷ ps) = last_dynamic p.dynamic_prio ps

search_from-append :
    (new pid i d : ℕ) (before after : List Proc) (p : Proc)
    → All (λ q. q.pid ≢ pid) before
    → p.pid ≡ pid
    → search_from new pid i d (before ++ p ∷ after) ≡ record {
      table = map refresh before ++ record p { static_prio = new } ∷ after;
      index = i + length before;
      old_static = p.static_prio;
      old_dynamic = last_dynamic d before;
    }
unfolding search_from
search_from-append new pid i d [] after p a e = ground arith
search_from-append new pid i d (q ∷ before) after p (h, a) e =
    rw (search_from-append new pid (suc i) q.dynamic_prio before after p a e) (ground arith)

search_from-none :
    (new pid i d : ℕ) (ps : List Proc)
    → All (λ q. q.pid ≢ pid) ps
    → search_from new pid i d ps ≡ record {
      table = map refresh ps;
      index = i + length ps;
      old_static = minus_one;
      old_dynamic = last_dynamic d ps;
    }
unfolding search_from
search_from-none new pid i d [] a = ground arith
search_from-none new pid i d (q ∷ ps) (h, a) =
    rw (search_from-none new pid (suc i) q.dynamic_prio ps a) (ground arith)

dynamic_at-middle :
    (before after : List Proc) (p : Proc) (beyond : ℕ)
    → dynamic_at (map refresh before ++ p ∷ after) (length before) beyond ≡ p.dynamic_prio
unfolding dynamic_at
dynamic_at-middle [] after p b = refl
dynamic_at-middle (q ∷ before) after p b = dynamic_at-middle before after p b

dynamic_at-past :
    (ps : List Proc) (beyond : ℕ) → dynamic_at (map refresh ps) (length ps) beyond ≡ beyond
unfolding dynamic_at
dynamic_at-past [] b = refl
dynamic_at-past (q ∷ ps) b = dynamic_at-past ps b

not_ltb : (a b : ℕ) → b ≤ a → ltb a b ≡ false
not_ltb a b h = ground arith

yield-halts :
    (lk : Lock) (c : Cpu) (self : ℕ) (p : Proc) (ps : List Proc)
    → 0 < c.noff
    → (IsFree lk) ⊎ (holding lk c ≡ true)
    → yield lk c self p ps ≡ halts
unfolding yield acquire
yield-halts lk c self p ps h (inl (a, b)) = ground arith
yield-halts lk c self p ps h (inr a) = ground arith

acquire-free : (lk : Lock) (c : Cpu) → IsFree lk → acquire lk c ≡ got (held_by c) (push_off c)
unfolding acquire
acquire-free lk c (a, b) = ground arith

holding-held_by : (c : Cpu) → holding (held_by c) (push_off c) ≡ true
unfolding holding push_off
holding-held_by c = ground arith

noff-push_off : (c : Cpu) → 0 < (push_off c).noff
unfolding push_off
noff-push_off c = omega arith

module _ (new pid : ℕ) (c : Cpu) (self : ℕ) (me : Proc) (locks : ℕ → Lock) (beyond : ℕ) where
  lock_seen :
      (free : (j : ℕ) → IsFree (locks j)) (index : ℕ)
      → (IsFree (if index == self then held_by c else locks self))
        ⊎ (holding (if index == self then held_by c else locks self) (push_off c) ≡ true)
  lock_seen free index = elim (Bool-cases (index == self)) [
    | inl e ↦ inr (rw e (holding-held_by c))
    | inr e ↦ inl (rw e (free self))
  ]

  after_loop-halts :
      (s : Search)
      → ((j : ℕ) → IsFree (locks j))
      → ltb (dynamic_at s.table s.index beyond) s.old_dynamic ≡ true
      → after_loop c self me locks beyond s ≡ halts
  unfolding after_loop
  after_loop-halts s free t =
      rw (t, acquire-free (locks s.index) c (free s.index))
        (yield-halts (if s.index == self then held_by c else locks self) (push_off c) self me
          s.table (noff-push_off c) (lock_seen free s.index))

  -- With all locks of the table free: if the process before the target in the table had a larger
  -- dynamic priority than the target has, `set_priority` ends in a panic, because `yield` is called
  -- with a lock held. For a target in the first entry the word compared is that of -1.
  pub set_priority-halts :
      (before after : List Proc) (p : Proc)
      → ((j : ℕ) → IsFree (locks j))
      → All (λ q. q.pid ≢ pid) before
      → p.pid ≡ pid
      → p.dynamic_prio < last_dynamic minus_one before
      → set_priority new pid c self me locks beyond (before ++ p ∷ after) ≡ halts
  unfolding set_priority
  set_priority-halts before after p free a e lt =
      after_loop-halts (search_from new pid 0 minus_one (before ++ p ∷ after)) free (
        rw (search_from-append new pid 0 minus_one before after p a e, zero-add)
          (rw (dynamic_at-middle before after (record p { static_prio = new }) beyond)
            (lt→ltb _ _ lt)))

  -- If the process before the target in the table had no larger dynamic priority than the target has,
  -- `set_priority` gives the target, the first process with the pid, the new static priority, refreshes the
  -- priorities of the entries before it, leaves those behind it, and returns the old static priority.
  set_priority-returns :
      (before after : List Proc) (p : Proc)
      → All (λ q. q.pid ≢ pid) before
      → p.pid ≡ pid
      → last_dynamic minus_one before ≤ p.dynamic_prio
      → set_priority new pid c self me locks beyond (before ++ p ∷ after)
        ≡ returns (map refresh before ++ record p { static_prio = new } ∷ after) p.static_prio
  unfolding set_priority after_loop
  set_priority-returns before after p a e le =
      rw (search_from-append new pid 0 minus_one before after p a e, zero-add)
        (rw (dynamic_at-middle before after (record p { static_prio = new }) beyond)
          (rw (not_ltb _ _ le) refl))

  -- For a pid that no process has, what is returned turns on the word behind the table: -1 if it is
  -- not below the last dynamic priority.
  set_priority-none :
      (ps : List Proc)
      → All (λ q. q.pid ≢ pid) ps
      → last_dynamic minus_one ps ≤ beyond
      → set_priority new pid c self me locks beyond ps ≡ returns (map refresh ps) minus_one
  unfolding set_priority after_loop
  set_priority-none ps a le =
      rw (search_from-none new pid 0 minus_one ps a, zero-add)
        (rw (dynamic_at-past ps beyond) (rw (not_ltb _ _ le) refl))
