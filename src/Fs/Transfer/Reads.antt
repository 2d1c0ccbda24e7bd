-- ===== src/Fs/Transfer/Reads.antt =====
-- What `readi` copies out.
use osn_mp.Common.{
  ℕ, zero, suc, ◌+◌, ◌-◌, ◌/◌, ◌%◌, ◌≤◌, ◌<◌, min, ◌≡◌, refl, sym, ap, ◌∙◌, ◌≢◌, ◌⊎◌, inl, inr,
  true, false, ◌||◌, Option, some, List, [], ◌++◌, arith, ltb, ◌==◌, ltb→lt, lt→ltb, Bool-cases,
}
use mathlib.Core.Path.{ap₂, subst}
use osn_mp.Common.Words.{word, add32}
use osn_mp.Fs.Layout.{bsize, maxfile, Superblock, Block, Disk}
use osn_mp.Fs.Bytes.{fetch_bytes, fetch_bytes-append, fetch_bytes-shift}
use osn_mp.Fs.Inode.{Inode}
use osn_mp.Fs.Content.{State}
use osn_mp.Fs.Content.Mapping.{file_block, bmap-mapped}
use osn_mp.Fs.Transfer.{Copied, piece, copied_first, readi_from, clipped, readi}

-- Byte `k` of a file.
abbrev pub file_byte : Disk → Inode → ℕ → ℕ
file_byte disk ip k = disk (file_block disk ip (k / bsize)) (k % bsize)

-- The bytes from `off` on up to `off + n` have blocks.
abbrev pub IsMapped : Disk → Inode → ℕ → ℕ → Type 0
IsMapped disk ip off n =
    (k : ℕ) → off ≤ k → k < off + n → (k / bsize < maxfile) × (file_block disk ip (k / bsize) ≢ 0)

-- A piece of the file in its block.
piece-bytes :
    (disk : Disk) (ip : Inode) (off m : ℕ)
    → m ≤ bsize - off % bsize
    → fetch_bytes (off % bsize) m (disk (file_block disk ip (off / bsize)))
      ≡ fetch_bytes off m (file_byte disk ip)
piece-bytes disk ip off m l =
    fetch_bytes-shift (off % bsize) off m (disk (file_block disk ip (off / bsize)))
      (file_byte disk ip)
      (λ j h.
        let q : off / bsize ≡ (off + j) / bsize = omega (arith, l, h) in
        let r : off % bsize + j ≡ (off + j) % bsize = omega (arith, l, h) in
        ap₂ (λ x y. disk (file_block disk ip x) y) q r)

pub piece-bounds :
    (tot off n : ℕ)
    → tot < n
    → (1 ≤ piece tot off n) × (piece tot off n ≤ n - tot) × (piece tot off n ≤ bsize - off % bsize)
piece-bounds tot off n l = (omega arith, omega arith, omega arith)

-- A transfer that ends well.
abbrev pub moved : State → List ℕ → ℕ → Option (State × List ℕ × Option ℕ)
moved s out n = some (s, out, some n)

at_end :
    (s : State) (f : Block) (tot off n : ℕ)
    → tot ≤ n
    → n ≤ tot
    → moved s [] tot ≡ moved s (fetch_bytes off (n - tot) f) n
unfolding fetch_bytes
at_end s f tot off n l m =
    let t : tot ≡ n = omega arith in let e : n - n ≡ 0 = omega arith in rw (t, e) refl

readi_from-reads :
    (sb : Superblock) (copied : Copied) (fuel tot off n : ℕ) (disk : Disk) (ip : Inode)
    → ((t m : ℕ) → copied t m ≡ m)
    → tot ≤ n
    → n - tot ≤ fuel
    → IsMapped disk ip off (n - tot)
    → readi_from sb copied fuel tot off n (disk, ip)
      ≡ moved (disk, ip) (fetch_bytes off (n - tot) (file_byte disk ip)) n
unfolding readi_from
readi_from-reads sb copied zero tot off n disk ip full l f h =
    at_end (disk, ip) (file_byte disk ip) tot off n l (omega arith)
readi_from-reads sb copied (suc fuel) tot off n disk ip full l f h = elim (Bool-cases (ltb tot n)) [
  | inr e ↦ rw e (at_end (disk, ip) (file_byte disk ip) tot off n l (ground (arith, e)))
  | inl e ↦
      let m : ℕ = piece tot off n in
      let (positive, in_range, in_block) = piece-bounds tot off n (ltb→lt tot n e) in
      let (in_file, has) = h off (omega arith) (omega arith) in
      let held : (file_block disk ip (off / bsize) == 0) ≡ false = ground (arith, has) in
      let all : ltb (copied tot m) m ≡ false = let q = full tot m in ground (arith, q) in
      let count : m + (n - (tot + m)) ≡ n - tot = omega arith in
      rw (e, bmap-mapped sb (off / bsize) disk ip in_file has, held, all)
        (ap (copied_first (fetch_bytes (off % bsize) m (disk (file_block disk ip (off / bsize))))) (
            readi_from-reads sb copied fuel (tot + m) (off + m) n disk ip full (omega arith)
              (omega arith) (λ k p q. h k (omega arith) (omega arith)))
          ∙ ap (λ r. moved (disk, ip) r n)
              (ap (λ r. r ++ fetch_bytes (off + m) (n - (tot + m)) (file_byte disk ip))
                  (piece-bytes disk ip off m in_block)
                ∙ (sym (fetch_bytes-append off m (n - (tot + m)) (file_byte disk ip))
                    ∙ ap (λ k. fetch_bytes off k (file_byte disk ip)) count)))
]

clipped-min :
    (off n size : ℕ) → off + n < word → off ≤ size → clipped off n size ≡ min n (size - off)
clipped-min off n size b l =
    let sum : add32 off n ≡ off + n = omega (arith, b) in
    rw sum (elim (Bool-cases (ltb size (off + n))) [
      | inl e ↦ rw e (ground (arith, e))
      | inr e ↦ rw e (ground (arith, e))
    ])

outside :
    (off n size : ℕ)
    → off < word
    → n < word
    → (size < off) ⊎ (word ≤ off + n)
    → (ltb size off || ltb (add32 off n) off) ≡ true
outside off n size lo ln (inl l) = rw (lt→ltb size off l) refl
outside off n size lo ln (inr w) =
    let wraps : add32 off n < off = omega (arith, w, lo, ln) in
    elim (Bool-cases (ltb size off)) [
      | inl e ↦ rw e refl
      | inr e ↦ rw (e, lt→ltb (add32 off n) off wraps) refl
    ]

-- Where every copy succeeds and the bytes that the file has from `off` on, `n` at most, have blocks, `readi`
-- copies these bytes and returns their number, and changes nothing; from behind the end of the file, or
-- where `off + n` wraps around, it copies none and returns 0.
pub readi-reads :
    (sb : Superblock) (copied : Copied) (off n : ℕ) (disk : Disk) (ip : Inode)
    → ((t m : ℕ) → copied t m ≡ m)
    → off < word
    → n < word
    → (off ≤ ip.node.size
        → off + n < word
        → IsMapped disk ip off (min n (ip.node.size - off))
        → readi sb copied off n (disk, ip)
          ≡ moved
              (disk, ip)
              (fetch_bytes off (min n (ip.node.size - off)) (file_byte disk ip))
              (min n (ip.node.size - off)))
      × ((ip.node.size < off) ⊎ (word ≤ off + n)
          → readi sb copied off n (disk, ip) ≡ moved (disk, ip) [] 0)
unfolding readi
readi-reads sb copied off n disk ip full lo ln = (
  λ l b h.
      let sum : add32 off n ≡ off + n = omega (arith, b) in
      let inside : ltb ip.node.size off ≡ false = ground (arith, l) in
      let forward : ltb (add32 off n) off ≡ false = ground (arith, sum) in
      let count : clipped off n ip.node.size ≡ min n (ip.node.size - off) =
        clipped-min off n ip.node.size b l in
      let none_yet : min n (ip.node.size - off) - 0 ≡ min n (ip.node.size - off) = omega arith in
      rw (inside, forward, count)
        (readi_from-reads sb copied (min n (ip.node.size - off)) 0 off (min n (ip.node.size - off))
            disk ip full (omega arith) (omega arith) (subst (IsMapped disk ip off) (sym none_yet) h)
          ∙ ap
              (λ k.
                moved (disk, ip) (fetch_bytes off k (file_byte disk ip))
                  (min n (ip.node.size - off)))
              none_yet),
  λ o.
      let e : (ltb ip.node.size off || ltb (add32 off n) off) ≡ true =
        outside off n ip.node.size lo ln o in
      rw e refl,
)
