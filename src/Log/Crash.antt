-- ===== src/Log/Crash.antt =====
-- A crash at any write of a commit: recovery gives the old blocks or the new ones, never a mixture.
use osn_mp.Common.{
  ℕ, suc, ◌+◌, ◌-◌, ◌≡◌, refl, ap, ◌∙◌, ◌⊎◌, inl, inr, false, List, [], ◌∷◌, ◌++◌, map, arith,
  if◌then◌else◌, Bool-cases, length, take, take-append_le, take-append_add, take-map, take_all,
}
use osn_mp.Log.{Disk, Write, header, apply, apply_all, commit, recover}
use native.Mathlib.Decide.{dec_le}
use osn_mp.Log.Writes.{
  in_log, Outside, slot_writes, home_write, member, slot_writes-home, slot_writes-Slots,
  home_writes-block, home_writes-Slots, apply_all-append,
}
use osn_mp.Log.Recovery.{
  home, installed, home-eq, recover-clean, recover-committed, commit-writes, Outside-take, take-nil,
  member-take,
}

module _ (start : ℕ) (bs : List ℕ) (cache : ℕ → ℕ) (d : Disk) (clean : d.head ≡ [])
    (o : Outside start (length bs) bs) where
  abbrev logged : List Write
  logged = slot_writes start 0 bs cache

  abbrev homed : List Write
  homed = map (home_write cache) bs

  -- The disk once the transaction is in the log and its header is written.
  abbrev committed : Disk
  committed = apply (header bs) (apply_all logged d)

  -- A crash before the header is written.
  before_header :
      (k : ℕ)
      → home start (length bs) (recover start (apply_all (take k logged) d)).block
        ≡ home start (length bs) d.block
  before_header k = home-eq start (length bs) _ _ (λ x ox.
      let (e, h) = slot_writes-home start (length bs) 0 k bs cache d x (omega arith) ox in
      ap (λ f. f x) (recover-clean start (apply_all (take k logged) d) (h ∙ clean)).0 ∙ e)

  committed-home : (x : ℕ) → in_log start (length bs) x ≡ false → committed.block x ≡ d.block x
  unfolding apply
  committed-home x ox =
      rw (← take_all logged)
        (slot_writes-home start (length bs) 0 (length logged) bs cache d x (omega arith) ox).0

  -- A crash while the values are written home.
  after_header :
      (j : ℕ)
      → home start (length bs) (recover start (apply_all (take j homed) committed)).block
        ≡ home start (length bs) (installed bs cache d.block)
  unfolding apply
  after_header j = rw (take-map j (home_write cache) bs) (
      home-eq start (length bs) _ _ (λ x ox.
        let (e, h) = home_writes-block (take j bs) cache committed x in
        (recover-committed start bs cache _ x h o (
          home_writes-Slots start (length bs) 0 (take j bs) bs cache committed (omega arith)
            (Outside-take start (length bs) j bs o) (slot_writes-Slots start 0 bs cache d))).0
        ∙ same_installed x j (committed-home x ox) e))
    where
      same_installed :
          (x j : ℕ) {v : ℕ}
          → committed.block x ≡ d.block x
          → v ≡ (if member x (take j bs) then cache x else committed.block x)
          → (if member x bs then cache x else v) ≡ installed bs cache d.block x
      same_installed x j c e = elim (Bool-cases (member x bs)) [
        | inl m ↦ rw m refl
        | inr m ↦ rw m (e ∙ rw (member-take x j bs m) c)
      ]

  -- No crash.
  finished :
      home start (length bs) (recover start (apply_all (homed ++ (header [] ∷ [])) committed)).block
      ≡ home start (length bs) (installed bs cache d.block)
  unfolding apply apply_all
  finished = rw (apply_all-append homed (header [] ∷ []) committed) (
      home-eq start (length bs) _ _ (λ x ox.
        ap (λ f. f x) (recover-clean start (apply (header []) (apply_all homed committed)) refl).0
        ∙ (home_writes-block bs cache committed x).0
        ∙ ap (λ v. if member x bs then cache x else v) (committed-home x ox)))

  abbrev all_writes : List Write
  all_writes = logged ++ (header bs ∷ (homed ++ (header [] ∷ [])))

  -- The blocks outside the log after a crash behind the first `k` writes and a recovery.
  abbrev outcome : ℕ → ℕ → ℕ
  outcome k = home start (length bs) (recover start (apply_all (take k all_writes) d)).block

  take-committed :
      (j : ℕ) (rest : List Write)
      → apply_all (take (length logged + suc j) (logged ++ (header bs ∷ rest))) d
        ≡ apply_all (take j rest) committed
  unfolding apply_all
  take-committed j rest =
      rw (take-append_add (suc j) logged (header bs ∷ rest))
        (apply_all-append logged (header bs ∷ take j rest) d)

  past_header :
      (j : ℕ)
      → outcome (length logged + suc j) ≡ home start (length bs) (installed bs cache d.block)
  past_header j =
      rw (take-committed j (homed ++ (header [] ∷ []))) (elim (dec_le j (length homed)) [
        | yes le ↦ rw (take-append_le j homed (header [] ∷ []) le) (after_header j)
        | no gt ↦
            let e : j ≡ length homed + suc (j - length homed - 1) = omega arith in
            rw
              (
                e,
                take-append_add (suc (j - length homed - 1)) homed (header [] ∷ []),
                take-nil (j - length homed - 1),
              )
              finished
      ])

  atomic :
      (k : ℕ)
      → (outcome k ≡ home start (length bs) d.block)
        ⊎ (outcome k ≡ home start (length bs) (installed bs cache d.block))
  atomic k = elim (dec_le k (length logged)) [
    | yes le ↦ inl (rw (take-append_le k logged _ le) (before_header k))
    | no gt ↦
        let e : k ≡ length logged + suc (k - length logged - 1) = omega arith in
        inr (rw e (past_header (k - length logged - 1)))
  ]

-- A crash after any number of the writes of a commit, from a disk with an empty log header: recovery
-- leaves the blocks outside the log either all as they were before the commit, or all with the values
-- of the transaction. The blocks of the transaction lie outside the log.
pub commit_atomic :
    (start : ℕ) (bs : List ℕ) (cache : ℕ → ℕ) (d : Disk) (k : ℕ)
    → d.head ≡ []
    → Outside start (length bs) bs
    → (home start (length bs) (recover start (apply_all (take k (commit start bs cache).1) d)).block
        ≡ home start (length bs) d.block)
      ⊎ (home start
            (length bs)
            (recover start (apply_all (take k (commit start bs cache).1) d)).block
          ≡ home start (length bs) (installed bs cache d.block))
unfolding apply_all commit
commit_atomic start [] cache d k clean o =
    inl (rw (take-nil k) (ap (home start 0) (recover-clean start d clean).0))
commit_atomic start (b ∷ bs) cache d k clean o =
    rw (commit-writes start b bs cache o) (atomic start (b ∷ bs) cache d clean o k)

-- From a disk with an empty header, a commit of some blocks outside the log that is not interrupted
-- leaves outside the log the old blocks with the values of the transaction, and an empty header.
commit_complete :
    (start b : ℕ) (bs : List ℕ) (cache : ℕ → ℕ) (d : Disk)
    → d.head ≡ []
    → Outside start (length (b ∷ bs)) (b ∷ bs)
    → ((apply_all (commit start (b ∷ bs) cache).1 d).head ≡ [])
      × (home start (length (b ∷ bs)) (apply_all (commit start (b ∷ bs) cache).1 d).block
          ≡ home start (length (b ∷ bs)) (installed (b ∷ bs) cache d.block))
unfolding apply apply_all
commit_complete start b bs cache d clean o =
    let logged = slot_writes start 0 (b ∷ bs) cache in
    let homed = map (home_write cache) (b ∷ bs) in
    rw
      (
        commit-writes start b bs cache o,
        apply_all-append logged (header (b ∷ bs) ∷ (homed ++ (header [] ∷ []))) d,
        apply_all-append homed (header [] ∷ []) (committed start (b ∷ bs) cache d clean o),
      )
      (
        refl,
        home-eq start (length (b ∷ bs)) _ _ (λ x ox.
            (home_writes-block (b ∷ bs) cache (committed start (b ∷ bs) cache d clean o) x).0
            ∙ ap (λ v. if member x (b ∷ bs) then cache x else v)
                (committed-home start (b ∷ bs) cache d clean o x ox)),
      )
