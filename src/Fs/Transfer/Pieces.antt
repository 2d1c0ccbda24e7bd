-- ===== src/Fs/Transfer/Pieces.antt =====
-- One piece of a write, and one write after another.
use osn_mp.Common.{
  ℕ, ◌+◌, ◌-◌, ◌/◌, ◌%◌, ◌≤◌, ◌<◌, ◌≡◌, sym, ap, ◌∙◌, ◌≢◌, ◌⊎◌, inl, inr, arith, ltb, ◌==◌,
  if◌then◌else◌, ltb→lt, ==_iff, Bool-cases, get_or,
}
use mathlib.Core.Path.{subst}
use osn_mp.Fs.Layout.{bsize, ndirect, maxfile, Block, Disk, log_block, log_block_self, log_block-ne}
use osn_mp.Fs.Bytes.{
  store_bytes, fetch_bytes, store_bytes-fetch_bytes, store_bytes-outside, length-fetch_bytes,
}
use osn_mp.Fs.Inode.{Inode}
use osn_mp.Fs.Content.{word_at}
use osn_mp.Fs.Content.Mapping.{file_block}
use osn_mp.Fs.Transfer.Reads.{file_byte, IsMapped}

-- No block is in a file twice, as the index of its indirect blocks included.
pub record IsSeparate (disk : Disk) (ip : Inode) : Type 0 where
  pub distinct :
      (b c : ℕ)
      → b < maxfile
      → c < maxfile
      → file_block disk ip b ≢ 0
      → file_block disk ip b ≡ file_block disk ip c
      → b ≡ c
  pub no_index :
      (b : ℕ)
      → b < maxfile
      → file_block disk ip b ≢ 0
      → get_or ip.node.addrs ndirect 0 ≢ file_block disk ip b

-- The bytes of a source from `tot` on, written to `n` bytes of a file from `off` on.
pub record Wrote (src : Block) (ip : Inode) (tot off n : ℕ) (disk disk' : Disk) : Type 0 where
  pub blocks : (b : ℕ) → file_block disk' ip b ≡ file_block disk ip b
  pub written : (k : ℕ) → off ≤ k → k < off + n → file_byte disk' ip k ≡ src (tot + (k - off))
  pub kept :
      (k : ℕ)
      → k / bsize < maxfile
      → file_block disk ip (k / bsize) ≢ 0
      → (k < off) ⊎ (off + n ≤ k)
      → file_byte disk' ip k ≡ file_byte disk ip k
  pub others : (c : ℕ) → ((b : ℕ) → b < maxfile → c ≢ file_block disk ip b) → disk' c ≡ disk c

-- The blocks of a file where its index does not change.
pub file_block-index :
    (disk disk' : Disk) (ip : Inode) (b : ℕ)
    → disk' (get_or ip.node.addrs ndirect 0) ≡ disk (get_or ip.node.addrs ndirect 0)
    → file_block disk' ip b ≡ file_block disk ip b
file_block-index disk disk' ip b h =
    ap
      (λ f.
        if ltb b ndirect
        then get_or ip.node.addrs b 0
        else if get_or ip.node.addrs ndirect 0 == 0
        then 0
        else word_at f (b - ndirect))
      h

-- A byte of the same block, before or behind the piece.
around :
    (k off m : ℕ)
    → k / bsize ≡ off / bsize
    → (k < off) ⊎ (off + m ≤ k)
    → (k % bsize < off % bsize) ⊎ (off % bsize + m ≤ k % bsize)
around k off m e (inl l) = inl (omega (arith, e, l))
around k off m e (inr l) = inr (omega (arith, e, l))

-- The block that a piece goes to, and the disk after it.
abbrev old : Inode → ℕ → Disk → Block
old ip off disk = disk (file_block disk ip (off / bsize))

abbrev pub stored : Block → Inode → ℕ → ℕ → ℕ → Disk → Disk
stored src ip tot off m disk =
    log_block (file_block disk ip (off / bsize))
      (store_bytes (off % bsize) (fetch_bytes tot m src) (old ip off disk)) disk

module _ (src : Block) (ip : Inode) (tot off m : ℕ) (disk : Disk) (in_file : off / bsize < maxfile)
    (has : file_block disk ip (off / bsize) ≢ 0) (in_block : m ≤ bsize - off % bsize)
    (sep : IsSeparate disk ip) where
  stored-blocks : (b : ℕ) → file_block (stored src ip tot off m disk) ip b ≡ file_block disk ip b
  stored-blocks b = file_block-index disk (stored src ip tot off m disk) ip b (
      log_block-ne (file_block disk ip (off / bsize)) (get_or ip.node.addrs ndirect 0) _ disk
        (sep.no_index (off / bsize) in_file has))

  -- A byte of the block that is written to.
  stored-here :
      (k : ℕ)
      → k / bsize ≡ off / bsize
      → file_byte (stored src ip tot off m disk) ip k
        ≡ store_bytes (off % bsize) (fetch_bytes tot m src) (old ip off disk) (k % bsize)
  stored-here k e =
      ap (λ a. (stored src ip tot off m disk) a (k % bsize))
        (stored-blocks (k / bsize) ∙ ap (file_block disk ip) e)
      ∙ ap (λ f. f (k % bsize))
          (log_block_self (file_block disk ip (off / bsize))
            (store_bytes (off % bsize) (fetch_bytes tot m src) (old ip off disk)) disk)

  stored-away :
      (k : ℕ)
      → k / bsize < maxfile
      → file_block disk ip (k / bsize) ≢ 0
      → k / bsize ≢ off / bsize
      → file_byte (stored src ip tot off m disk) ip k ≡ file_byte disk ip k
  stored-away k l h n =
      ap (λ a. (stored src ip tot off m disk) a (k % bsize)) (stored-blocks (k / bsize))
      ∙ ap (λ f. f (k % bsize))
          (log_block-ne (file_block disk ip (off / bsize)) (file_block disk ip (k / bsize)) _ disk
            (λ e. n (sep.distinct (k / bsize) (off / bsize) l in_file h e)))

  pub stored-Wrote : Wrote src ip tot off m disk (stored src ip tot off m disk)
  stored-Wrote = record {
    blocks = stored-blocks;
    written = λ k l h.
        let place : k / bsize ≡ off / bsize = omega (arith, l, h, in_block) in
        let dist : k % bsize - off % bsize ≡ k - off = omega (arith, l, h, in_block) in
        stored-here k place
        ∙ store_bytes-fetch_bytes (off % bsize) tot m (old ip off disk) src (k % bsize)
            (omega (arith, l, h, in_block)) (omega (arith, l, h, in_block))
        ∙ ap (λ d. src (tot + d)) dist;
    kept = λ k l h o. elim (Bool-cases (k / bsize == off / bsize)) [
      | inr e ↦ stored-away k l h (λ q. cc ((==_iff _ _).1 q, e))
      | inl e ↦
          let place : k / bsize ≡ off / bsize = (==_iff _ _).0 e in
          stored-here k place
          ∙ store_bytes-outside (off % bsize) (fetch_bytes tot m src) (old ip off disk) (k % bsize)
              (subst (λ c. (k % bsize < off % bsize) ⊎ (off % bsize + c ≤ k % bsize))
                (sym (length-fetch_bytes tot m src)) (around k off m place o))
          ∙ ap (λ b. disk (file_block disk ip b) (k % bsize)) (sym place)
    ];
    others =
        λ c h. log_block-ne (file_block disk ip (off / bsize)) c _ disk (h (off / bsize) in_file);
  }

pub IsSeparate-blocks :
    (disk disk' : Disk) (ip : Inode)
    → ((b : ℕ) → file_block disk' ip b ≡ file_block disk ip b)
    → IsSeparate disk ip
    → IsSeparate disk' ip
IsSeparate-blocks disk disk' ip e sep = record {
  distinct = λ b c l m n q. sep.distinct b c l m (λ z. n (e b ∙ z)) (sym (e b) ∙ (q ∙ e c));
  no_index = λ b l n q. sep.no_index b l (λ z. n (e b ∙ z)) (q ∙ e b);
}

pub IsMapped-blocks :
    (disk disk' : Disk) (ip : Inode) (off n : ℕ)
    → ((b : ℕ) → file_block disk' ip b ≡ file_block disk ip b)
    → IsMapped disk ip off n
    → IsMapped disk' ip off n
IsMapped-blocks disk disk' ip off n e h =
    λ k l m. let (i, z) = h k l m in (i, λ q. z (sym (e (k / bsize)) ∙ q))

-- One write after another that ends where it begins.
pub Wrote-then :
    (src : Block) (ip : Inode) (tot off m n : ℕ) (disk disk1 disk2 : Disk)
    → IsMapped disk ip off m
    → Wrote src ip tot off m disk disk1
    → Wrote src ip (tot + m) (off + m) n disk1 disk2
    → Wrote src ip tot off (m + n) disk disk2
Wrote-then src ip tot off m n disk disk1 disk2 h a b = record {
  blocks = λ c. b.blocks c ∙ a.blocks c;
  written = λ k l r. elim (Bool-cases (ltb k (off + m))) [
    | inl e ↦
        let (i, z) = h k l (ltb→lt k (off + m) e) in
        b.kept k i (λ q. z (sym (a.blocks (k / bsize)) ∙ q)) (inl (ltb→lt k (off + m) e))
        ∙ a.written k l (ltb→lt k (off + m) e)
    | inr e ↦
        let past : off + m ≤ k = ground (arith, e) in
        b.written k past (omega arith) ∙ ap src (omega arith)
  ];
  kept = λ k i z o.
      b.kept k i (λ q. z (sym (a.blocks (k / bsize)) ∙ q)) (before_all k o)
      ∙ a.kept k i z (after_first k o);
  others = λ c g. b.others c (λ d l q. g d l (q ∙ a.blocks d)) ∙ a.others c g;
}
  where
    before_all : (k : ℕ) → (k < off) ⊎ (off + (m + n) ≤ k) → (k < off + m) ⊎ (off + m + n ≤ k)
    before_all k o = ground (arith, o)

    after_first : (k : ℕ) → (k < off) ⊎ (off + (m + n) ≤ k) → (k < off) ⊎ (off + m ≤ k)
    after_first k o = ground (arith, o)
