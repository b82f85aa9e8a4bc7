-- ===== src/Buddy/Bitmap/Places.antt =====
-- Where the bits of the orders lie: blocks that differ have bits that differ.
use learn_os.Base.{
  ℕ, ◌+◌, ◌-◌, ◌*◌, ◌/◌, ◌<◌, ◌≤◌, ◌^◌, ◌≡◌, refl, ap, Bool, true, ◌||◌, arith, ltb, ltb→lt, leb,
  leb→le, ==→eq, ◌==◌, check_below, check_below-at,
}
use native.Mathlib.Decide.{dec_lt}
use learn_os.Buddy.Bitmap.{bitmap_offset, byte_of, bit_of}

-- the number of a block's bit in the whole bitmap
abbrev place : ℕ → ℕ → ℕ
place x o = 8 * bitmap_offset o + x / 2 ^ o

-- The region of an order ends before that of any greater order begins.
abbrev apart : ℕ → ℕ → Bool
apart i j = leb j i || leb (8 * bitmap_offset i + 2 ^ (15 - i)) (8 * bitmap_offset j)

regions : check_below 12 (λ i. check_below 12 (apart i)) ≡ true
unfolding check_below bitmap_offset
regions = refl

abbrev fits : ℕ → Bool
fits o = leb (8 * bitmap_offset o + 2 ^ (15 - o)) (2 ^ 16)

halves : check_below 12 (λ o. 2 ^ (15 - o) * 2 ^ o == 2 ^ 15) ≡ true
unfolding check_below
halves = refl

all_fit : check_below 12 fits ≡ true
unfolding check_below bitmap_offset
all_fit = refl

powers : check_below 12 (λ o. ltb 0 (2 ^ o)) ≡ true
unfolding check_below
powers = refl

div-lt : (x a b : ℕ) → x < a * b → 0 < b → x / b < a
div-lt x a b h p = grind arith

offset_in : (o x : ℕ) → o < 12 → x < 2 ^ 15 → x / 2 ^ o < 2 ^ (15 - o)
offset_in o x ho hx =
    div-lt x (2 ^ (15 - o)) (2 ^ o)
      (omega
        (arith, ==→eq _ _ (check_below-at 12 (λ o. 2 ^ (15 - o) * 2 ^ o == 2 ^ 15) o halves ho)))
      (ltb→lt _ _ (check_below-at 12 (λ o. ltb 0 (2 ^ o)) o powers ho))

region_lt : (i j : ℕ) → i < j → j < 12 → 8 * bitmap_offset i + 2 ^ (15 - i) ≤ 8 * bitmap_offset j
region_lt i j h hj = ground (
  arith,
  check_below-at 12 (apart i) j
      (check_below-at 12 (λ i. check_below 12 (apart i)) i regions (omega arith)) hj,
)

pub byte_of-lt : (o x : ℕ) → o < 12 → x < 2 ^ 15 → byte_of x o < 2 * 4096
byte_of-lt o x ho hx =
    omega (arith, offset_in o x ho hx, leb→le _ _ (check_below-at 12 fits o all_fit ho))

pub place-injective :
    (o o' x x' : ℕ)
    → o < 12
    → o' < 12
    → x < 2 ^ 15
    → x' < 2 ^ 15
    → byte_of x o ≡ byte_of x' o'
    → bit_of x o ≡ bit_of x' o'
    → (o ≡ o') × (x / 2 ^ o ≡ x' / 2 ^ o')
place-injective o o' x x' ho ho' hx hx' e f = elim (dec_lt o o') [
  | yes lt ↦ absurd (omega (arith, region_lt o o' lt ho', offset_in o x ho hx))
  | no ge ↦ elim (dec_lt o' o) [
    | yes gt ↦ absurd (omega (arith, region_lt o' o gt ho, offset_in o' x' ho' hx'))
    | no le ↦ let same : o ≡ o' = omega arith in (same, place-order same)
  ]
]
  where
    place-order : o ≡ o' → x / 2 ^ o ≡ x' / 2 ^ o'
    place-order same = omega (arith, ap (λ k. 8 * bitmap_offset k) same)
