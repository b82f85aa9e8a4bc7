-- ===== src/Log/Phases.antt =====
-- The disk before, while and after a transaction is committed, and what recovery makes of it.
use mathlib.Core.Bool.{true≢false}
use learn_os.Base.{
  ℕ, zero, suc, ◌+◌, ◌<◌, ◌≡◌, ◌≢◌, refl, ◌∙◌, sym, ap, arith, Bool, true, false, List, [], ◌∷◌,
  ◌++◌, ◌==◌, update, if◌then◌else◌, lt→ltb, eq→==, ne→==, Bool-cases, inl, inr,
}
use learn_os.Log.{
  Log, Block, Blocks, write_all, header, write_head, read_head, install_loop, install_trans,
  recover_from_log,
}
use learn_os.Log.Install.{All, in_log, logged, logged-ext, install_loop_lem}

-- The disk that recovery leaves after a crash that left the disk `d`.
unfoldable pub recovered : Log → Blocks → Blocks
recovered l d = write_all (recover_from_log l d).0.0 d

-- At every point of a series of writes.
abbrev pub Throughout : (Blocks → Type 0) → List (ℕ × Block) → Blocks → Type 0
Throughout P [] d = P d
Throughout P ((b, x) ∷ ws) d = P d × Throughout P ws (update d b x)

pub Throughout-All :
    (P : Blocks → Type 0) (Q : ℕ → Block → Type 0)
    → ((d : Blocks) (b : ℕ) (x : Block) → Q b x → P d → P (update d b x))
    → (ws : List (ℕ × Block)) (d : Blocks) → All Q ws
    → P d
    → Throughout P ws d
Throughout-All P Q keep [] d a p = p
Throughout-All P Q keep ((b, x) ∷ ws) d a p =
    (p, Throughout-All P Q keep ws (update d b x) a.1 (keep d b x a.0 p))

pub Throughout-mono :
    (P R : Blocks → Type 0)
    → ((d : Blocks) → P d → R d)
    → (ws : List (ℕ × Block)) (d : Blocks) → Throughout P ws d
    → Throughout R ws d
Throughout-mono P R sub [] d p = sub d p
Throughout-mono P R sub ((b, x) ∷ ws) d p =
    (sub d p.0, Throughout-mono P R sub ws (update d b x) p.1)

pub Throughout-append :
    (P : Blocks → Type 0) (ws vs : List (ℕ × Block)) (d : Blocks)
    → Throughout P ws d
    → Throughout P vs (write_all ws d)
    → Throughout P (ws ++ vs) d
Throughout-append P [] vs d p q = q
Throughout-append P ((b, x) ∷ ws) vs d p q = (p.0, Throughout-append P ws vs (update d b x) p.1 q)

pub write_all-append :
    (ws vs : List (ℕ × Block)) (d : Blocks) → write_all (ws ++ vs) d ≡ write_all vs (write_all ws d)
write_all-append [] vs d = refl
write_all-append ((b, x) ∷ ws) vs d = write_all-append ws vs (update d b x)

pub Throughout-last :
    (P : Blocks → Type 0) (ws : List (ℕ × Block)) (d : Blocks)
    → Throughout P ws d
    → P (write_all ws d)
Throughout-last P [] d p = p
Throughout-last P ((b, x) ∷ ws) d p = Throughout-last P ws (update d b x) p.1

-- What a list of writes may do to memory up to its `k`-th write.
abbrev pub take {ℓ} : {A : Type ℓ} → ℕ → List A → List A
take zero xs = []
take (suc n) [] = []
take (suc n) (x ∷ xs) = x ∷ take n xs

pub Throughout-take :
    (P : Blocks → Type 0) (ws : List (ℕ × Block)) (d : Blocks) (k : ℕ)
    → Throughout P ws d
    → P (write_all (take k ws) d)
Throughout-take P [] d zero p = p
Throughout-take P [] d (suc k) p = p
Throughout-take P ((b, x) ∷ ws) d zero p = p.0
Throughout-take P ((b, x) ∷ ws) d (suc k) p = Throughout-take P ws (update d b x) k p.1

-- The transaction of the log `l`: `old` is the disk before it, and `v` has the new contents of the logged
-- blocks.
module _ (l : Log) (old v : Blocks) where
  abbrev pub home : ℕ → Bool
  home b = if in_log l b then false else true

  -- The contents with the transaction.
  abbrev pub new : Blocks
  new b = if logged l l.n 0 b then v b else old b

  -- Nothing is committed.
  pub record Before (d : Blocks) : Type 0 where
    pub empty : d l.start 0 ≡ 0
    pub same : (b : ℕ) → in_log l b ≡ false → d b ≡ old b

  -- The log is committed, and some of its blocks may be installed.
  pub record During (d : Blocks) : Type 0 where
    pub count : d l.start 0 ≡ l.n
    pub numbers : (i : ℕ) → i < l.n → d l.start (suc i) ≡ l.block i
    pub contents : (i : ℕ) → i < l.n → d (l.start + i + 1) ≡ v (l.block i)
    pub others : (b : ℕ) → in_log l b ≡ false → logged l l.n 0 b ≡ false → d b ≡ old b

  -- The transaction is done.
  pub record After (d : Blocks) : Type 0 where
    pub empty : d l.start 0 ≡ 0
    pub done : (b : ℕ) → in_log l b ≡ false → d b ≡ new b

  pub Before-update :
      (d : Blocks) (b : ℕ) (x : Block)
      → (l.start < b) × (in_log l b ≡ true)
      → Before d
      → Before (update d b x)
  Before-update d b x q p = record {
    empty = rw (other b q.0) p.empty;
    same = λ a h. rw (outside a h) (p.same a h);
  }
    where
      other : (b : ℕ) → l.start < b → (l.start == b) ≡ false
      other b h = ground arith

      outside : (a : ℕ) → in_log l a ≡ false → (a == b) ≡ false
      outside a h = ground (arith, q)

  pub During-update :
      (d : Blocks) (b : ℕ) (x : Block)
      → l.n < l.size
      → (in_log l b ≡ false) × (logged l l.n 0 b ≡ true)
      → During d
      → During (update d b x)
  During-update d b x fits q p = record {
    count = rw at_start p.count;
    numbers = λ i h. rw at_start (p.numbers i h);
    contents = λ i h. rw (at_log i h) (p.contents i h);
    others = λ a h u. rw (ne→== a b (distinct a u)) (p.others a h u);
  }
    where
      at_start : (l.start == b) ≡ false
      at_start = ground (arith, q)

      at_log : (i : ℕ) → i < l.n → (l.start + i + 1 == b) ≡ false
      at_log i h = ground (arith, q)

      distinct : (a : ℕ) → logged l l.n 0 a ≡ false → a ≢ b
      distinct a u e = absurd (true≢false (sym q.1 ∙ sym (ap (logged l l.n 0) e) ∙ u))

  -- What the write of the header makes of the log.
  pub Before→During :
      (d : Blocks)
      → Before d
      → ((i : ℕ) → i < l.n → d (l.start + i + 1) ≡ v (l.block i))
      → l.n < l.size
      → (b : Block) → During (update d l.start (header l b))
  unfolding header
  Before→During d p copied fits b = record {
    count = rw (eq→== l.start l.start refl) refl;
    numbers = λ i h. rw (eq→== l.start l.start refl, lt→ltb i l.n h) refl;
    contents = λ i h. rw (above i) (copied i h);
    others = λ a h u. rw (outside a h) (p.same a h);
  }
    where
      above : (i : ℕ) → (l.start + i + 1 == l.start) ≡ false
      above i = ground arith

      outside : (a : ℕ) → in_log l a ≡ false → (a == l.start) ≡ false
      outside a h = ground arith

  -- What the write of an empty header makes of the disk.
  pub erase-After :
      (d : Blocks)
      → ((b : ℕ) → in_log l b ≡ false → d b ≡ new b)
      → 0 < l.size
      → (x : Block) → x 0 ≡ 0
      → After (update d l.start x)
  erase-After d done some_size x z = record {
    empty = rw (eq→== l.start l.start refl) z;
    done = λ a h. rw (outside a h) (done a h);
  }
    where
      outside : (a : ℕ) → in_log l a ≡ false → (a == l.start) ≡ false
      outside a h = ground arith

  pub outside_start : 0 < l.size → (a : ℕ) → in_log l a ≡ false → (a == l.start) ≡ false
  outside_start h a k = ground arith

  -- Without a committed log recovery changes only the header.
  pub recovered_empty :
      (d : Blocks) (b : ℕ)
      → 0 < l.size
      → d l.start 0 ≡ 0
      → in_log l b ≡ false
      → recovered l d b ≡ d b
  unfolding recovered recover_from_log read_head install_trans install_loop write_head
  recovered_empty d b h z a = rw z (rw (outside_start h b a) refl)

  -- The header that recovery reads is the log's.
  pub read_block : (d : Blocks) (i : ℕ) → During d → i < l.n → (read_head l d).block i ≡ l.block i
  unfolding read_head
  read_block d i p h = rw (lt→ltb i (d l.start 0) (omega (arith, p.count))) (p.numbers i h)

  pub read_installed :
      (d : Blocks) (b n : ℕ)
      → n ≡ l.n
      → l.n < l.size
      → ((i : ℕ) → i < l.n → in_log l (l.block i) ≡ false)
      → During d
      → write_all (install_loop (read_head l d) n d 0).0 d b
        ≡ (if logged l l.n 0 b then v b else d b)
  unfolding read_head
  read_installed d b n e fits away p = rw e (
      install_loop_lem (read_head l d) l.n fits (λ i h. rw (read_block d i p h) (away i h)) v l.n 0
        d d b (omega arith) (λ j _ h. rw (read_block d j p h) (p.contents j h))
      ∙ ap (λ t. if t then v b else d b)
          (logged-ext l (read_head l d) l.n 0 b (λ i _ h. read_block d i p (omega (arith, h)))))

  pub During-new :
      (d : Blocks) (b : ℕ)
      → in_log l b ≡ false
      → During d
      → (if logged l l.n 0 b then v b else d b) ≡ new b
  During-new d b a p = elim (Bool-cases (logged l l.n 0 b)) [
    | inl t ↦ rw t refl
    | inr u ↦ rw u (p.others b a u)
  ]

  -- With one it installs it.
  pub recovered-During :
      (d : Blocks) (b : ℕ)
      → l.n < l.size
      → ((i : ℕ) → i < l.n → in_log l (l.block i) ≡ false)
      → During d
      → in_log l b ≡ false
      → recovered l d b ≡ new b
  unfolding recovered recover_from_log install_trans write_head read_head
  recovered-During d b fits away p a =
      ap (λ w. w b) (write_all-append (install_trans (read_head l d) d).0 _ d)
      ∙ rw (outside_start (omega arith) b a) refl
      ∙ read_installed d b (d l.start 0) p.count fits away p
      ∙ During-new d b a p
