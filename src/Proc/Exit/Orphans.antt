-- ===== src/Proc/Exit/Orphans.antt =====
-- What `exit` leaves: no child of the exited process, and a zombie.
use osn_mp.Common.{
  ℕ, zero, suc, ◌+◌, ◌≤◌, ◌<◌, ◌≡◌, refl, sym, ap, ◌∙◌, ◌≢◌, inl, inr, Bool, false, Option, none,
  some, List, [], ◌∷◌, arith, ◌==◌, points_to, Bool-cases, length, get_elem?, modify, length-modify,
  length-map_idx, get_elem?-modify_self, get_elem?-modify_ne, get_elem?-modify,
}
use mathlib.Core.Option
use native.Mathlib.Nat.{add-zero}
use native.Mathlib.Decide.{dec_lt, ℕ_discrete}
use osn_mp.Proc.Types.{Proc}
use osn_mp.Proc.Env.{Env, Kernel}
use osn_mp.Proc.Sleep.{wakeup, wake_one}
use osn_mp.Proc.Sleep.Wakeups.{get_elem?-wakeup}
use osn_mp.Proc.Exit.{
  reparent_one, reparent_from, reparent, exit, ended, close_files, chan_of, adopt, with_files,
}

abbrev pub is_child : ℕ → Option Proc → Bool
is_child i none = false
is_child i (some q) = points_to q.parent i

-- No entry below `j` is a child of `i`.
abbrev NoChild : ℕ → ℕ → List Proc → Type 0
NoChild i j ps = (m : ℕ) → m < j → is_child i (get_elem? ps m) ≡ false

parent-wake_one :
    (self : Option ℕ) (chan j : ℕ) (p : Proc) → (wake_one self chan j p).parent ≡ p.parent
unfolding wake_one
parent-wake_one self chan j p = ground arith

is_child-map :
    (i : ℕ) (f : Proc → Proc)
    → ((p : Proc) → (f p).parent ≡ p.parent)
    → (o : Option Proc) → is_child i (Option.map f o) ≡ is_child i o
is_child-map i f h none = refl
is_child-map i f h (some q) = rw (h q) refl

is_child-wakeup :
    (i : ℕ) (self : Option ℕ) (chan : ℕ) (ps : List Proc) (m : ℕ)
    → is_child i (get_elem? (wakeup self chan ps) m) ≡ is_child i (get_elem? ps m)
is_child-wakeup i self chan ps m =
    rw (get_elem?-wakeup self chan ps m)
      (is_child-map i (wake_one self chan m) (parent-wake_one self chan m) (get_elem? ps m))

is_child-modify :
    (i : ℕ) (f : Proc → Proc)
    → ((p : Proc) → (f p).parent ≡ p.parent)
    → (ps : List Proc) (j m : ℕ)
    → is_child i (get_elem? (modify ps j f) m) ≡ is_child i (get_elem? ps m)
is_child-modify i f h ps j m = elim (Bool-cases (j == m)) [
  | inl e ↦ rw (get_elem?-modify ps j m f, e) (is_child-map i f h (get_elem? ps m))
  | inr e ↦ rw (get_elem?-modify ps j m f, e) refl
]

is_child-adopted :
    (i init : ℕ) → init ≢ i → (o : Option Proc) → is_child i (Option.map (adopt init) o) ≡ false
is_child-adopted i init ne none = refl
is_child-adopted i init ne (some q) = ground arith

module _ {Rest : Type 0} (env : Env Rest) (i init : ℕ) (ne : init ≢ i) where
  length-reparent_one :
      (j : ℕ) (o : Option Proc) (ps : List Proc)
      → length (reparent_one env i init j o ps) ≡ length ps
  unfolding reparent_one wakeup
  length-reparent_one j none ps = refl
  length-reparent_one j (some pp) ps = ground (
    arith,
    length-map_idx (wake_one (some i) (env.proc_addr init)) 0 (modify ps j (adopt init)),
    length-modify ps j (adopt init),
  )

  is_child-given :
      (j m : ℕ) (ps : List Proc)
      → (m ≢ j → is_child i (get_elem? ps m) ≡ false)
      → is_child i (get_elem? (modify ps j (adopt init)) m) ≡ false
  is_child-given j m ps h = elim (ℕ_discrete j m) [
    | yes e ↦
        rw (← e, get_elem?-modify_self ps j (adopt init))
          (is_child-adopted i init ne (get_elem? ps j))
    | no n ↦ rw (get_elem?-modify_ne ps j m (adopt init) n) (h (λ e. n (sym e)))
  ]

  reparent_one-NoChild :
      (j : ℕ) (o : Option Proc) (ps : List Proc)
      → get_elem? ps j ≡ o
      → NoChild i j ps
      → NoChild i (suc j) (reparent_one env i init j o ps)
  unfolding reparent_one
  reparent_one-NoChild j none ps g h m lt = elim (dec_lt m j) [
    | yes l ↦ h m l
    | no l ↦ let e : m ≡ j = omega arith in rw (e, g) refl
  ]
  reparent_one-NoChild j (some pp) ps g h m lt = elim (Bool-cases (points_to pp.parent i)) [
    | inl c ↦
        rw (c, is_child-wakeup i (some i) (env.proc_addr init) (modify ps j (adopt init)) m)
          (is_child-given j m ps (λ n. h m (omega arith)))
    | inr c ↦
        rw c
          (elim (dec_lt m j) [ yes l ↦ h m l | no l ↦ let e : m ≡ j = omega arith in rw (e, g) c ])
  ]

  reparent_from-NoChild :
      (rounds j : ℕ) (ps : List Proc)
      → NoChild i j ps
      → NoChild i (j + rounds) (reparent_from env i init j rounds ps)
  unfolding reparent_from
  reparent_from-NoChild zero j ps h = rw add-zero h
  reparent_from-NoChild (suc rounds) j ps h =
      let e : suc j + rounds ≡ j + suc rounds = omega arith in
      rw e at (
        reparent_from-NoChild rounds (suc j) (reparent_one env i init j (get_elem? ps j) ps)
          (reparent_one-NoChild j (get_elem? ps j) ps refl h))

  length-reparent_from :
      (rounds j : ℕ) (ps : List Proc) → length (reparent_from env i init j rounds ps) ≡ length ps
  unfolding reparent_from
  length-reparent_from zero j ps = refl
  length-reparent_from (suc rounds) j ps =
      length-reparent_from rounds (suc j) (reparent_one env i init j (get_elem? ps j) ps)
      ∙ length-reparent_one j (get_elem? ps j) ps

get_elem?-past {ℓ} : {A : Type ℓ} (xs : List A) (m : ℕ) → length xs ≤ m → get_elem? xs m ≡ none
get_elem?-past [] m h = refl
get_elem?-past (x ∷ xs) zero h = absurd (omega arith)
get_elem?-past (x ∷ xs) (suc m) h = get_elem?-past xs m (omega arith)

reparent-no_child :
    {Rest : Type 0} (env : Env Rest) (i init : ℕ) (ps : List Proc) (m : ℕ)
    → init ≢ i
    → is_child i (get_elem? (reparent env i init ps) m) ≡ false
unfolding reparent
reparent-no_child env i init ps m ne = elim (dec_lt m (length ps)) [
  | yes l ↦
      reparent_from-NoChild env i init ne (length ps) 0 ps (λ k lt. absurd (omega arith)) m
        (omega arith)
  | no l ↦
      rw
        (get_elem?-past (reparent_from env i init 0 (length ps) ps) m
          (omega (arith, length-reparent_from env i init ne (length ps) 0 ps)))
        refl
]

abbrev table_of : {Rest : Type 0} → Option (Kernel Rest) → List Proc
table_of none = []
table_of (some k) = k.table

module _ {Rest : Type 0} (env : Env Rest) (i : ℕ) (p : Proc) (status : ℕ) (k : Kernel Rest) where
  -- The table before the last change of `exit`, that of process `i` itself.
  abbrev left : List Proc
  left =
      wakeup (some i) (chan_of env p.parent) (
        reparent env i k.initproc
          (modify k.table i (with_files (close_files env p.ofile k.rest).0)))

  exit_table :
      (k' : Kernel Rest)
      → exit env i p status k ≡ some k'
      → (k'.table ≡ modify left i (ended status k.ticks)) × (k.initproc ≢ i)
  unfolding exit
  exit_table k' h = elim (Bool-cases (i == k.initproc)) [
    | inl e ↦ cc (rw e at h)
    | inr e ↦ (sym (ap table_of (rw e at h)), ground arith)
  ]

  parent-ended : (q : Proc) → (ended status k.ticks q).parent ≡ q.parent
  unfolding ended
  parent-ended q = refl

  -- After `exit` of process `i` no entry of the table has it as its parent.
  pub exit-no_child :
      (k' : Kernel Rest) (m : ℕ)
      → exit env i p status k ≡ some k'
      → is_child i (get_elem? k'.table m) ≡ false
  exit-no_child k' m h =
      let (t, ne) = exit_table k' h in
      rw t (
        is_child-modify i (ended status k.ticks) parent-ended left i m
        ∙ is_child-wakeup i (some i) (chan_of env p.parent) _ m
        ∙ reparent-no_child env i k.initproc _ m ne)
