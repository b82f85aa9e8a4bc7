-- ===== src/Log/Install.antt =====
-- What the loops of kernel/log.c write, and what they leave in the cache.
use native.Mathlib.Decide.{ℕ_discrete}
use learn_os.Base.{
  ℕ, zero, suc, ◌+◌, ◌-◌, ◌<◌, ◌≤◌, ◌≡◌, refl, ◌∙◌, sym, ap, inl, inr, arith, Bool, true, false,
  List, [], ◌∷◌, ltb, leb, ◌==◌, ◌&&◌, update, if◌then◌else◌, Bool-cases, eq→==, ne→==, ==→eq,
}
use learn_os.Log.{Log, Block, Blocks, write_all, install_loop, write_log_loop}

-- Whether `b` is among the `left` block numbers of the log from `tail` on.
unfoldable pub logged : Log → (left tail b : ℕ) → Bool
logged l zero tail b = false
logged l (suc left) tail b =
    let rest = logged l left (tail + 1) b in if l.block tail == b then true else rest

-- The blocks of the log: the header and the `size - 1` behind it.
abbrev pub in_log : Log → ℕ → Bool
in_log l b = leb l.start b && ltb b (l.start + l.size)

swap_ne : (a b : ℕ) → (a == b) ≡ false → (b == a) ≡ false
swap_ne a b h = ground arith

either {ℓ} : {A : Type ℓ} (t : Bool) (x : A) → (if t then x else x) ≡ x
either true x = refl
either false x = refl

-- A property of each block number and contents written.
abbrev pub All : (ℕ → Block → Type 0) → List (ℕ × Block) → Type 0
All Q [] = Unit {0}
All Q ((b, x) ∷ ws) = Q b x × All Q ws

pub logged-ext :
    (l l' : Log) (left tail b : ℕ)
    → ((i : ℕ) → tail ≤ i → i < tail + left → l'.block i ≡ l.block i)
    → logged l' left tail b ≡ logged l left tail b
unfolding logged
logged-ext l l' zero tail b same = refl
logged-ext l l' (suc left) tail b same =
    rw
      (
        same tail (omega arith) (omega arith),
        logged-ext l l' left (tail + 1) b (λ i h k. same i (omega arith) (omega arith)),
      )
      refl

logged_at :
    (l : Log) (left tail i : ℕ) → tail ≤ i → i < tail + left → logged l left tail (l.block i) ≡ true
unfolding logged
logged_at l zero tail i h k = absurd (omega arith)
logged_at l (suc left) tail i h k = elim (ℕ_discrete i tail) [
  | yes here ↦ rw (eq→== (l.block tail) (l.block i) (ap l.block (sym here))) refl
  | no other ↦
      rw (logged_at l left (tail + 1) i (omega arith) (omega arith))
        (either (l.block tail == l.block i) true)
]

-- An operation leaves in the cache what it writes.
pub install_loop_cache :
    (l : Log) (left : ℕ) (c : Blocks) (tail : ℕ)
    → (install_loop l left c tail).1 ≡ write_all (install_loop l left c tail).0 c
unfolding install_loop
install_loop_cache l zero c tail = refl
install_loop_cache l (suc left) c tail =
    install_loop_cache l left (update c (l.block tail) (c (l.start + tail + 1))) (tail + 1)

pub write_log_loop_cache :
    (l : Log) (left : ℕ) (c : Blocks) (tail : ℕ)
    → (write_log_loop l left c tail).1 ≡ write_all (write_log_loop l left c tail).0 c
unfolding write_log_loop
write_log_loop_cache l zero c tail = refl
write_log_loop_cache l (suc left) c tail =
    write_log_loop_cache l left (update c (l.start + tail + 1) (c (l.block tail))) (tail + 1)

module _ (l : Log) (size : ℕ) (fits : size < l.size)
    (away : (i : ℕ) → i < size → in_log l (l.block i) ≡ false) where
  apart : (i j : ℕ) → i < size → j < size → (l.start + j + 1 == l.block i) ≡ false
  apart i j h k = ground (arith, away i, fits)

  -- The loop writes to each logged block the contents `v` that the log has for it.
  pub install_loop_lem :
      (v : Blocks) (left tail : ℕ) (c d : Blocks) (b : ℕ)
      → tail + left ≡ size
      → ((j : ℕ) → tail ≤ j → j < size → c (l.start + j + 1) ≡ v (l.block j))
      → write_all (install_loop l left c tail).0 d b ≡ (if logged l left tail b then v b else d b)
  unfolding install_loop logged
  install_loop_lem v zero tail c d b e h = refl
  install_loop_lem v (suc left) tail c d b e h =
      install_loop_lem v left (tail + 1) (update c (l.block tail) (c (l.start + tail + 1)))
        (update d (l.block tail) (c (l.start + tail + 1))) b (omega arith)
        (λ j p q. rw (apart tail j (omega arith) q) (h j (omega arith) q))
      ∙ first
    where
      first :
          (if logged l left (tail + 1) b
            then v b
            else update d (l.block tail) (c (l.start + tail + 1)) b)
          ≡ (if logged l (suc left) tail b then v b else d b)
      first = elim (Bool-cases (l.block tail == b)) [
        | inl same ↦
            let here : b ≡ l.block tail = sym (==→eq _ _ same) in
            let content : c (l.start + tail + 1) ≡ v b =
              h tail (omega arith) (omega arith) ∙ ap v (sym here) in
            rw (same, eq→== b (l.block tail) here, content)
              (either (logged l left (tail + 1) b) (v b))
        | inr other ↦ rw (other, swap_ne _ _ other) refl
      ]

  pub install_loop-All :
      (v : Blocks) (left tail : ℕ) (c : Blocks)
      → tail + left ≡ size
      → ((j : ℕ) → tail ≤ j → j < size → c (l.start + j + 1) ≡ v (l.block j))
      → All
          (λ b x. (in_log l b ≡ false) × (logged l size 0 b ≡ true))
          (install_loop l left c tail).0
  unfolding install_loop
  install_loop-All v zero tail c e h = tt
  install_loop-All v (suc left) tail c e h = (
    (away tail (omega arith), logged_at l size 0 tail (omega arith) (omega arith)),
    install_loop-All v left (tail + 1) (update c (l.block tail) (c (l.start + tail + 1)))
        (omega arith) (λ j p q. rw (apart tail j (omega arith) q) (h j (omega arith) q)),
  )

  -- The loop writes to the block of the log for `i` the cached contents of the logged block `i`.
  pub write_log_loop_lem :
      (left tail : ℕ) (c d : Blocks) (b : ℕ)
      → tail + left ≡ size
      → write_all (write_log_loop l left c tail).0 d b ≡ (
          if leb (l.start + tail + 1) b && leb b (l.start + size)
          then c (l.block (b - (l.start + 1)))
          else d b)
  unfolding write_log_loop
  write_log_loop_lem zero tail c d b e = ground arith
  write_log_loop_lem (suc left) tail c d b e =
      write_log_loop_lem left (tail + 1) (update c (l.start + tail + 1) (c (l.block tail)))
        (update d (l.start + tail + 1) (c (l.block tail))) b (omega arith)
      ∙ first
    where
      c' : Blocks
      c' = update c (l.start + tail + 1) (c (l.block tail))

      kept : (i : ℕ) → i < size → c' (l.block i) ≡ c (l.block i)
      kept i h = rw (swap_ne _ _ (apart i tail h (omega arith))) refl

      first :
          (if leb (l.start + (tail + 1) + 1) b && leb b (l.start + size)
            then c' (l.block (b - (l.start + 1)))
            else update d (l.start + tail + 1) (c (l.block tail)) b)
          ≡ (if leb (l.start + tail + 1) b && leb b (l.start + size)
              then c (l.block (b - (l.start + 1)))
              else d b)
      first = elim (ℕ_discrete b (l.start + tail + 1)) [
        | yes here ↦
            let index : b - (l.start + 1) ≡ tail = omega (arith, here) in
            rw index (ground (arith, here))
        | no other ↦
            elim (Bool-cases (leb (l.start + (tail + 1) + 1) b && leb b (l.start + size))) [
              | inl t ↦ rw (t, kept (b - (l.start + 1)) (ground (arith, t))) (ground (arith, t))
              | inr f ↦ rw (f, ne→== b (l.start + tail + 1) other) (ground (arith, f, other))
            ]
      ]

  pub write_log_loop-All :
      (left tail : ℕ) (c : Blocks)
      → tail + left ≡ size
      → All (λ b x. (l.start < b) × (in_log l b ≡ true)) (write_log_loop l left c tail).0
  unfolding write_log_loop
  write_log_loop-All zero tail c e = tt
  write_log_loop-All (suc left) tail c e =
      ((omega arith, ground (arith, fits)), write_log_loop-All left (tail + 1) _ (omega arith))
