-- ===== src/String/Compare.antt =====
-- Strings and buffers: what `safestrcpy` copies, and when `memcmp` returns 0.
use learn_os.Base.{
  ℕ, zero, suc, ◌+◌, ◌-◌, ◌<◌, ◌≤◌, ◌≡◌, ◌≢◌, ◌↔◌, inl, inr, refl, ◌∙◌, sym, ap, arith, ltb, leb,
  ◌||◌, true, ◌==◌, update, if◌then◌else◌, Bool-cases, some, ==→eq, eq→==, ne→==,
}
use learn_os.String.{ℤ, minus, memcmp, safe_loop, safestrcpy, strlen}

-- how far an `int` is from 0
abbrev distance : ℤ → ℕ
distance (ℤ.pos n) = n
distance (ℤ.negsuc n) = suc n

distance-minus : (a b : ℕ) → distance (minus a b) ≡ (if ltb a b then b - a else a - b)
unfolding minus
distance-minus a b = elim (Bool-cases (ltb a b)) [ inl t ↦ rw t (ground arith) | inr f ↦ rw f refl ]

minus_zero : (a b : ℕ) → minus a b ≡ ℤ.pos 0 → a ≡ b
minus_zero a b h = ground (arith, distance-minus a b, ap distance h)

-- A property of the bytes of a range, byte by byte.
first_or_later : (P : ℕ → Type 0) (i n : ℕ) → i < suc n → P 0 → ((j : ℕ) → j < n → P (suc j)) → P i
first_or_later P zero n h first later = first
first_or_later P (suc i) n h first later = later i (omega arith)

shift : (m : ℕ → ℕ) (x i : ℕ) → m (x + suc i) ≡ m (x + 1 + i)
shift m x i = ap m (omega arith)

start : (m : ℕ → ℕ) (x : ℕ) → m (x + 0) ≡ m x
start m x = ap m (omega arith)

memcmp_zero :
    (m : ℕ → ℕ) (s1 s2 n : ℕ)
    → memcmp m s1 s2 n ≡ ℤ.pos 0
    → (i : ℕ) → i < n
    → m (s1 + i) ≡ m (s2 + i)
unfolding memcmp
memcmp_zero m s1 s2 zero h i lt = absurd (omega arith)
memcmp_zero m s1 s2 (suc n) h i lt = elim (Bool-cases (m s1 == m s2)) [
  | inl same ↦
      let rest : memcmp m (s1 + 1) (s2 + 1) n ≡ ℤ.pos 0 = sym (rw same refl) ∙ h in
      first_or_later (λ k. m (s1 + k) ≡ m (s2 + k)) i n lt
        (start m s1 ∙ ==→eq _ _ same ∙ sym (start m s2))
        (λ j b. shift m s1 j ∙ memcmp_zero m (s1 + 1) (s2 + 1) n rest j b ∙ sym (shift m s2 j))
  | inr differ ↦
      let e : m s1 ≡ m s2 = minus_zero (m s1) (m s2) (sym (rw differ refl) ∙ h) in
      absurd (ground arith)
]

zero_memcmp :
    (m : ℕ → ℕ) (s1 s2 n : ℕ)
    → ((i : ℕ) → i < n → m (s1 + i) ≡ m (s2 + i))
    → memcmp m s1 s2 n ≡ ℤ.pos 0
unfolding memcmp
zero_memcmp m s1 s2 zero same = refl
zero_memcmp m s1 s2 (suc n) same =
    let first : m s1 ≡ m s2 = sym (start m s1) ∙ same 0 (omega arith) ∙ start m s2 in
    rw (eq→== (m s1) (m s2) first) (
      zero_memcmp m (s1 + 1) (s2 + 1) n
        (λ i lt. sym (shift m s1 i) ∙ same (suc i) (omega arith) ∙ shift m s2 i))

-- `memcmp` returns 0 exactly if the `n` bytes from `s1` on are the `n` bytes from `s2` on.
pub memcmp_lem :
    (m : ℕ → ℕ) (s1 s2 n : ℕ)
    → (memcmp m s1 s2 n ≡ ℤ.pos 0) ↔ ((i : ℕ) → i < n → m (s1 + i) ≡ m (s2 + i))
memcmp_lem m s1 s2 n = (memcmp_zero m s1 s2 n, zero_memcmp m s1 s2 n)

-- `r` holds the copy of the string at `t`, cut off at `k` of at most `n` bytes.
pub record Copied (m : ℕ → ℕ) (s t n : ℕ) (r : ℕ → ℕ) (k : ℕ) : Type 0 where
  bound : k ≤ n
  measured : strlen (suc n) r s ≡ some k
  bytes : (i : ℕ) → i < k → r (s + i) ≡ m (t + i)
  nonzero : (i : ℕ) → i < k → m (t + i) ≢ 0
  stops : k < n → m (t + k) ≡ 0

safe_loop-below : (m : ℕ → ℕ) (s t n a : ℕ) → a < s → safe_loop m s t n a ≡ m a
unfolding safe_loop
safe_loop-below m s t zero a h = ground arith
safe_loop-below m s t (suc n) a h = elim (Bool-cases (m t == 0)) [
  | inl z ↦ rw z (ground arith)
  | inr nz ↦
      rw nz (safe_loop-below (update m s (m t)) (s + 1) (t + 1) n a (omega arith) ∙ ground arith)
]

stops_at_start :
    (m : ℕ → ℕ) (s t n : ℕ) (r : ℕ → ℕ) → r s ≡ 0 → (0 < n → m t ≡ 0) → Copied m s t n r 0
unfolding strlen
stops_at_start m s t n r ended z = record {
  bound = omega arith;
  measured = rw (eq→== (r s) 0 ended) refl;
  bytes = λ i h. absurd (omega arith);
  nonzero = λ i h. absurd (omega arith);
  stops = λ h. start m t ∙ z h;
}

goes_on :
    (m : ℕ → ℕ) (s t n : ℕ) (r : ℕ → ℕ) (k : ℕ)
    → (leb (t + suc n) s || ltb (s + suc n) t) ≡ true
    → m t ≢ 0
    → r s ≡ m t
    → Copied (update m s (m t)) (s + 1) (t + 1) n r k
    → Copied m s t (suc n) r (suc k)
unfolding strlen
goes_on m s t n r k apart nz first c = record {
  bound = omega (arith, c.bound);
  measured = rw (ne→== (r s) 0 (λ z. nz (sym first ∙ z)), c.measured) (ap some (omega arith));
  bytes = λ i h.
      first_or_later (λ i. r (s + i) ≡ m (t + i)) i k h (start r s ∙ first ∙ sym (start m t))
        (λ j b. shift r s j ∙ c.bytes j b ∙ kept j (omega (arith, b, c.bound)) ∙ sym (shift m t j));
  nonzero = λ i h.
      first_or_later (λ i. m (t + i) ≢ 0) i k h (λ e. nz (sym (start m t) ∙ e))
        (λ j b e. c.nonzero j b (kept j (omega (arith, b, c.bound)) ∙ sym (shift m t j) ∙ e));
  stops = λ h. shift m t k ∙ sym (kept k (omega arith)) ∙ c.stops (omega arith);
}
  where
    kept : (j : ℕ) → j < n → update m s (m t) (t + 1 + j) ≡ m (t + 1 + j)
    kept j h = ground arith

safe_loop-Copied :
    (m : ℕ → ℕ) (s t n : ℕ)
    → (leb (t + n) s || ltb (s + n) t) ≡ true
    → (k : ℕ) × Copied m s t n (safe_loop m s t n) k
unfolding safe_loop
safe_loop-Copied m s t zero apart =
    (0, stops_at_start m s t 0 (update m s 0) (ground arith) (λ h. absurd (omega arith)))
safe_loop-Copied m s t (suc n) apart = elim (Bool-cases (m t == 0)) [
  | inl z ↦ (
    0,
    rw z (
        stops_at_start m s t (suc n) (update (update m s (m t)) (s + 1) 0) (ground arith)
          (λ h. ==→eq (m t) 0 z)),
  )
  | inr nz ↦
      let (k, c) = safe_loop-Copied (update m s (m t)) (s + 1) (t + 1) n (ground arith) in
      (
        suc k,
        rw nz (
            goes_on m s t n (safe_loop (update m s (m t)) (s + 1) (t + 1) n) k apart
              (λ z. ground arith)
              (safe_loop-below (update m s (m t)) (s + 1) (t + 1) n s (omega arith) ∙ ground arith)
              c),
      )
]

-- For a buffer of `n` bytes at `s`, not empty, that does not overlap the `n - 1` bytes from `t` on,
-- `safestrcpy` leaves a string in the buffer that ends within it: the bytes at `t` up to the first 0
-- byte, or the first `n - 1` of them if none is 0.
pub safestrcpy-Copied :
    (m : ℕ → ℕ) (s t n : ℕ)
    → (leb (t + n) s || ltb (s + n) t) ≡ true
    → (k : ℕ) × Copied m s t n (safestrcpy m s t (suc n)) k
unfolding safestrcpy
safestrcpy-Copied m s t n apart = safe_loop-Copied m s t n apart
