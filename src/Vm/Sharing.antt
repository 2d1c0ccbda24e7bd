-- ===== src/Vm/Sharing.antt =====
-- What `uvmcopy` leaves in the two tables and in the counts.
use osn_mp.Common.{
  ℕ, zero, suc, ◌+◌, ◌-◌, ◌*◌, ◌/◌, ◌≤◌, ◌<◌, ◌≡◌, refl, sym, ◌∙◌, inl, inr, Bool, true, false,
  Option, none, some, arith, ◌==◌, if◌then◌else◌, ==_iff, Bool-cases, Option-cases, of_some,
}
use osn_mp.Kalloc.{Kmem, pgsize, increase_cnt}
use osn_mp.Vm.{
  unmap, Pte, PageTable, update, read_only, Copied, share_page, undo, uvmcopy_from, uvmcopy,
}

-- Both tables map page `k` as the old one did, but not writable.
abbrev pub IsShared : PageTable → Copied → ℕ → Type 0
IsShared old c k =
    (e : Pte) × (old k ≡ some e) × (c.old k ≡ some (read_only e)) × (c.new k ≡ some (read_only e))

share_page-some :
    (o : Option Pte) (m m' : Kmem) (e : Pte)
    → share_page o m ≡ some (e, m')
    → (x : Pte) × (o ≡ some x) × (e ≡ read_only x)
unfolding share_page
share_page-some none m m' e h = cc
share_page-some (some x) m m' e h = elim (Bool-cases x.v) [
  | inr v ↦ cc (rw v at h)
  | inl v ↦ elim (Option-cases (increase_cnt x.pa m)) [
    | inl i ↦ cc (rw (v, i) at h)
    | inr (m1, i) ↦ (x, refl, of_some (λ r. r.0 ≡ read_only x) (rw (v, i) at h) (rw v refl))
  ]
]

uvmcopy_from-suc :
    (end : ℕ) (maps : ℕ → Bool) (page n : ℕ) (old new : PageTable) (m m' : Kmem) (e : Pte)
    → share_page (old page) m ≡ some (e, m')
    → uvmcopy_from end maps page (suc n) old new m ≡ (
        if maps page
        then uvmcopy_from end maps
            (suc page)
            n
            (update old page (some e))
            (update new page (some e))
            m'
        else undo end page (update old page (some e)) new m')
unfolding uvmcopy_from
uvmcopy_from-suc end maps page n old new m m' e h = rw (h, uvmcopy_from) refl

uvmcopy_from-none :
    (end : ℕ) (maps : ℕ → Bool) (page n : ℕ) (old new : PageTable) (m : Kmem)
    → share_page (old page) m ≡ none
    → uvmcopy_from end maps page (suc n) old new m ≡ none
unfolding uvmcopy_from
uvmcopy_from-none end maps page n old new m h = rw (h, uvmcopy_from) refl

undo-fails :
    (end page : ℕ) (old new : PageTable) (m : Kmem) (c : Copied)
    → undo end page old new m ≡ some c
    → c.ok ≡ false
unfolding undo
undo-fails end page old new m c h = elim (Option-cases (unmap end 0 page new m)) [
  | inl e ↦ cc (rw (e, undo) at h)
  | inr ((n', m'), e) ↦ of_some (λ r. r.ok ≡ false) (rw (e, undo) at h) refl
]

uvmcopy_from-keeps :
    (end : ℕ) (maps : ℕ → Bool) (page n : ℕ) (old new : PageTable) (m : Kmem) (c : Copied) (k : ℕ)
    → uvmcopy_from end maps page n old new m ≡ some c
    → c.ok ≡ true
    → k < page
    → (c.old k ≡ old k) × (c.new k ≡ new k)
unfolding uvmcopy_from
uvmcopy_from-keeps end maps page zero old new m c k h ok lt =
    of_some (λ r. (r.old k ≡ old k) × (r.new k ≡ new k)) h (refl, refl)
uvmcopy_from-keeps end maps page (suc n) old new m c k h ok lt =
    elim (Option-cases (share_page (old page) m)) [
      | inl e ↦ cc (sym (uvmcopy_from-none end maps page n old new m e) ∙ h)
      | inr ((e, m'), s) ↦
          let g = sym (uvmcopy_from-suc end maps page n old new m m' e s) ∙ h in
          elim (Bool-cases (maps page)) [
            | inr f ↦ absurd (
                ground
                  (arith, ok, undo-fails end page (update old page (some e)) new m' c (rw f at g)))
            | inl t ↦
                let (a, b) =
                  uvmcopy_from-keeps end maps (suc page) n (update old page (some e))
                    (update new page (some e)) m' c k (rw t at g) ok (omega arith) in
                let ne : page == k ≡ false = ground (arith, lt) in (a ∙ rw ne refl, b ∙ rw ne refl)
          ]
    ]

uvmcopy_from-shares :
    (end : ℕ) (maps : ℕ → Bool) (page n : ℕ) (old new : PageTable) (m : Kmem) (c : Copied) (k : ℕ)
    → uvmcopy_from end maps page n old new m ≡ some c
    → c.ok ≡ true
    → page ≤ k
    → k < page + n
    → IsShared old c k
unfolding uvmcopy_from
uvmcopy_from-shares end maps page zero old new m c k h ok le lt = absurd (omega arith)
uvmcopy_from-shares end maps page (suc n) old new m c k h ok le lt =
    elim (Option-cases (share_page (old page) m)) [
      | inl e ↦ cc (sym (uvmcopy_from-none end maps page n old new m e) ∙ h)
      | inr ((e, m'), s) ↦
          let g = sym (uvmcopy_from-suc end maps page n old new m m' e s) ∙ h in
          let old' = update old page (some e) in
          let new' = update new page (some e) in
          elim (Bool-cases (maps page)) [
            | inr f ↦ absurd (ground (arith, ok, undo-fails end page old' new m' c (rw f at g)))
            | inl t ↦ elim (Bool-cases (page == k)) [
              | inl same ↦
                  let at : page ≡ k = (==_iff page k).0 same in
                  let (x, o, r) = share_page-some (old page) m m' e s in
                  let (a, b) =
                    uvmcopy_from-keeps end maps (suc page) n old' new' m' c page (rw t at g) ok
                      (omega arith) in
                  let here : page == page ≡ true = ground arith in
                  rw (← at) (x, o, a ∙ rw (here, r) refl, b ∙ rw (here, r) refl)
              | inr other ↦
                  let (x, o, a, b) =
                    uvmcopy_from-shares end maps (suc page) n old' new' m' c k (rw t at g) ok
                      (ground (arith, other, le)) (omega arith) in
                  (x, rw other at o, a, b)
            ]
          ]
    ]

-- Where `uvmcopy` returns 0, parent and child map every page of the parent to the same memory, and
-- neither can write to it.
pub uvmcopy-shares :
    (end : ℕ) (maps : ℕ → Bool) (old new : PageTable) (sz : ℕ) (m : Kmem) (c : Copied) (k : ℕ)
    → uvmcopy end maps old new sz m ≡ some c
    → c.ok ≡ true
    → k * pgsize < sz
    → IsShared old c k
unfolding uvmcopy
uvmcopy-shares end maps old new sz m c k h ok lt =
    uvmcopy_from-shares end maps 0 ((sz + (pgsize - 1)) / pgsize) old new m c k h ok (omega arith)
      (omega (arith, lt))
