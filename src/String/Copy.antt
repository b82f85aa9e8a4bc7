-- ===== src/String/Copy.antt =====
-- What `memset` and `memmove` leave in memory.
use native.Mathlib.Decide.{ℕ_discrete}
use learn_os.Base.{
  ℕ, zero, suc, ◌+◌, ◌-◌, ◌%◌, ◌^◌, ◌<◌, ◌≡◌, inl, inr, ◌∙◌, ap, arith, ltb, leb, ◌&&◌, ◌||◌, ◌==◌,
  true, update, if◌then◌else◌, Bool, Bool-cases,
}
use learn_os.String.{memset, move_down, move_up, memmove}

abbrev pub inside : ℕ → ℕ → ℕ → Bool
inside start n a = leb start a && ltb a (start + n)

-- The memory with `n` bytes of the old memory from `src` on written from `dst` on.
abbrev pub moved : (ℕ → ℕ) → (dst src n : ℕ) → ℕ → ℕ
moved m dst src n a = if inside dst n a then m (src + (a - dst)) else m a

-- `memset` sets the `n` bytes from `dst` on, and no other, to the low byte of `c`.
pub memset_lem :
    (m : ℕ → ℕ) (dst c n a : ℕ) → memset m dst c n a ≡ (if inside dst n a then c % 2 ^ 8 else m a)
unfolding memset
memset_lem m dst c zero a = ground arith
memset_lem m dst c (suc n) a = memset_lem (update m dst (c % 2 ^ 8)) (dst + 1) c n a ∙ ground arith

move_up_lem :
    (m : ℕ → ℕ) (d s n a : ℕ)
    → (leb d s || leb (s + n) d) ≡ true
    → move_up m d s n a ≡ moved m d s n a
unfolding move_up
move_up_lem m d s zero a apart = ground arith
move_up_lem m d s (suc n) a apart =
    move_up_lem (update m d (m s)) (d + 1) (s + 1) n a (ground arith) ∙ up
  where
    up : moved (update m d (m s)) (d + 1) (s + 1) n a ≡ moved m d s (suc n) a
    up = elim (ℕ_discrete a d) [
      | yes here ↦ rw here (let z : m (s + (d - d)) ≡ m s = ap m (omega arith) in ground (arith, z))
      | no other ↦ elim (Bool-cases (inside (d + 1) n a)) [
        | inl t ↦
            let e : s + 1 + (a - (d + 1)) ≡ s + (a - d) = ground arith in
            rw (t, e) (ground (arith, Bool-cases (inside (d + 1) n a)))
        | inr f ↦ rw f (ground arith)
      ]
    ]

move_down_lem :
    (m : ℕ → ℕ) (d s n a : ℕ) → s < d → move_down m (d + n) (s + n) n a ≡ moved m d s n a
unfolding move_down
move_down_lem m d s zero a lt = ground arith
move_down_lem m d s (suc n) a lt =
    rw (low d, low s) (move_down_lem (update m (d + n) (m (s + n))) d s n a lt ∙ down)
  where
    low : (x : ℕ) → x + suc n - 1 ≡ x + n
    low x = omega arith

    down : moved (update m (d + n) (m (s + n))) d s n a ≡ moved m d s (suc n) a
    down = elim (ℕ_discrete a (d + n)) [
      | yes here ↦ let z : m (s + (a - d)) ≡ m (s + n) = ap m (omega arith) in ground (arith, z)
      | no other ↦ ground arith
    ]

-- Whatever the overlap of the two ranges is, `memmove` leaves at the `n` bytes from `dst` on what memory
-- held before at the `n` bytes from `src` on, and changes no other byte.
pub memmove_lem : (m : ℕ → ℕ) (dst src n a : ℕ) → memmove m dst src n a ≡ moved m dst src n a
unfolding memmove
memmove_lem m dst src n a = elim (Bool-cases (n == 0)) [
  | inl z ↦ rw z (ground arith)
  | inr nz ↦ elim (Bool-cases (ltb src dst && ltb dst (src + n))) [
    | inl down ↦ rw (nz, down) (move_down_lem m dst src n a (ground arith))
    | inr up ↦ rw (nz, up) (move_up_lem m dst src n a (ground arith))
  ]
]
