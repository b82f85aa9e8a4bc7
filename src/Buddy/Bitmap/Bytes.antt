-- ===== src/Buddy/Bitmap/Bytes.antt =====
-- The bit operations of the bitmap on one byte, by a table over all bytes and bits.
use learn_os.Base.{
  ℕ, ◌<◌, ◌^◌, ◌≡◌, refl, Bool, true, false, not, ◌&&◌, arith, ltb, ltb→lt, ==→eq, ◌==◌, bit_and,
  if◌then◌else◌, check_below, check_below-at,
}
use learn_os.Buddy.Bitmap.{set_bit, clear_bit}

-- "bit k of b is 0", as the code tests it
abbrev pub off : ℕ → ℕ → Bool
off b k = bit_and b (2 ^ k) == 0

abbrev same : Bool → Bool → Bool
same true c = c
same false c = not c

same_sound : (a b : Bool) → same a b ≡ true → a ≡ b
same_sound a b h = ground arith

abbrev row : ℕ → ℕ → ℕ → Bool
row b k j =
    same (off (set_bit b k) j) (if k == j then false else off b j)
    && same (off (clear_bit b k) j) (if k == j then true else off b j)

abbrev bounded : ℕ → ℕ → Bool
bounded b k = ltb (set_bit b k) 256 && ltb (clear_bit b k) 256

abbrev table : ℕ → Bool
table b = check_below 8 (λ k. bounded b k && check_below 8 (λ j. row b k j))

table_holds : check_below 256 table ≡ true
unfolding check_below
table_holds = refl

&&-left : (a b : Bool) → (a && b) ≡ true → a ≡ true
&&-left a b h = ground arith

&&-right : (a b : Bool) → (a && b) ≡ true → b ≡ true
&&-right a b h = ground arith

abbrev one_or_none : ℕ → ℕ → Bool
one_or_none b k = bit_and b (2 ^ k) == (if off b k then 0 else 2 ^ k)

ones_hold : check_below 256 (λ b. check_below 8 (λ k. one_or_none b k)) ≡ true
unfolding check_below
ones_hold = refl

module _ (b k : ℕ) (hb : b < 256) (hk : k < 8) where
  -- What is left of a byte under one bit.
  pub bit_and-off : bit_and b (2 ^ k) ≡ (if off b k then 0 else 2 ^ k)
  bit_and-off = ==→eq _ _ (
      check_below-at 8 (λ i. one_or_none b i) k
        (check_below-at 256 (λ a. check_below 8 (λ i. one_or_none a i)) b ones_hold hb) hk)

  at_bit : (bounded b k && check_below 8 (λ j. row b k j)) ≡ true
  at_bit =
      check_below-at 8 (λ i. bounded b i && check_below 8 (λ j. row b i j)) k
        (check_below-at 256 table b table_holds hb) hk

  pub set_bit-lt : set_bit b k < 256
  set_bit-lt = ltb→lt _ _ (&&-left _ (ltb (clear_bit b k) 256) (&&-left (bounded b k) _ at_bit))

  pub clear_bit-lt : clear_bit b k < 256
  clear_bit-lt = ltb→lt _ _ (&&-right (ltb (set_bit b k) 256) _ (&&-left (bounded b k) _ at_bit))

  at_row : (j : ℕ) → j < 8 → row b k j ≡ true
  at_row j hj = check_below-at 8 (λ i. row b k i) j (&&-right (bounded b k) _ at_bit) hj

  pub off-set_bit : (j : ℕ) → j < 8 → off (set_bit b k) j ≡ (if k == j then false else off b j)
  off-set_bit j hj =
      same_sound _ _
        (&&-left _ (same (off (clear_bit b k) j) (if k == j then true else off b j)) (at_row j hj))

  pub off-clear_bit : (j : ℕ) → j < 8 → off (clear_bit b k) j ≡ (if k == j then true else off b j)
  off-clear_bit j hj =
      same_sound _ _
        (&&-right (same (off (set_bit b k) j) (if k == j then false else off b j)) _ (at_row j hj))
