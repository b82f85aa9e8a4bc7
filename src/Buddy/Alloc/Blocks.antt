-- ===== src/Buddy/Alloc/Blocks.antt =====
-- A block of order `k + 1` is two blocks of order `k`, each the other's buddy.
use native.Mathlib.Nat.{pow-suc, mul_comm, div-add-mod, mul-mod_left, add-mod_right}
use learn_os.Base.{
  ℕ, zero, suc, ◌+◌, ◌-◌, ◌*◌, ◌/◌, ◌%◌, ◌≤◌, ◌^◌, ◌≡◌, ◌⊎◌, inl, inr, refl, ◌∙◌, Bool-cases, ap,
  true, arith, ==→eq, eq→==, ◌==◌,
}
use learn_os.Buddy.Bitmap.{aligned}
use learn_os.Buddy.FreeList.Represents.{holds}
use learn_os.Buddy.Alloc.{buddy_pnum, lower_pnum}

pub holds-halves : (x k p : ℕ) → holds x (suc k) p ≡ holds x k p + holds (x + 2 ^ k) k p
unfolding holds
holds-halves x k p = ground (arith, pow-suc 2 k)

pub mod-of_multiple : (x q d : ℕ) → x ≡ q * d → x % d ≡ 0
mod-of_multiple x q d e = rw e (mul-mod_left q d)

even-split : (x d : ℕ) → x % (2 * d) ≡ 0 → x % d ≡ 0
even-split x d h = mod-of_multiple x (x / (2 * d) * 2) d (omega (arith, div-add-mod x (2 * d)))

even-join : (x d : ℕ) → x % d ≡ 0 → x / d % 2 ≡ 0 → x % (2 * d) ≡ 0
even-join x d h e = mod-of_multiple x (x / d / 2) (2 * d) (omega (arith, div-add-mod x d, doubled))
  where
    doubled : d * (x / d) ≡ d * (2 * (x / d / 2))
    doubled = ap (λ t. d * t) (omega arith)

odd-join :
    (x d : ℕ) → x % d ≡ 0 → x / d % 2 ≡ 1 → (d ≤ x) × ((x - d) % (2 * d) ≡ 0) × ((x - d) % d ≡ 0)
odd-join x d h e = (
  omega (arith, div-add-mod x d, doubled),
  mod-of_multiple (x - d) (x / d / 2) (2 * d) (omega (arith, div-add-mod x d, doubled)),
  mod-of_multiple (x - d) (x / d / 2 * 2) d (omega (arith, div-add-mod x d, doubled)),
)
  where
    doubled : d * (x / d) ≡ d * (2 * (x / d / 2) + 1)
    doubled = ap (λ t. d * t) (omega arith)

module _ (x k : ℕ) where
  -- Both halves of a block are aligned.
  pub aligned-halves :
      aligned x (suc k) ≡ true → (aligned x k ≡ true) × (aligned (x + 2 ^ k) k ≡ true)
  aligned-halves a = (eq→== _ 0 low, eq→== _ 0 (add-mod_right x (2 ^ k) ∙ low))
    where
      low : x % 2 ^ k ≡ 0
      low = even-split x (2 ^ k) (rw (← mul_comm (2 ^ k) 2, ← pow-suc 2 k) (==→eq _ 0 a))

  -- A block and its buddy are aligned, and together are the block of the next order at the lower of
  -- the two.
  pub record AreBuddies : Type 0 where
    pub buddy_aligned : aligned (buddy_pnum x k) k ≡ true
    pub lower_aligned : aligned (lower_pnum x k) (suc k) ≡ true
    pub parts :
        (p : ℕ) → holds (lower_pnum x k) (suc k) p ≡ holds x k p + holds (buddy_pnum x k) k p
    pub least : (lower_pnum x k ≡ x) ⊎ (lower_pnum x k ≡ buddy_pnum x k)
    pub together :
        (m : ℕ) → x + 2 ^ k ≤ m → buddy_pnum x k + 2 ^ k ≤ m → lower_pnum x k + 2 ^ suc k ≤ m

  pub are_buddies : aligned x k ≡ true → AreBuddies
  unfolding buddy_pnum lower_pnum
  are_buddies a = elim (Bool-cases (x / 2 ^ k % 2 == 0)) [
    | inl even ↦ record {
      buddy_aligned = rw even (eq→== _ 0 (add-mod_right x (2 ^ k) ∙ whole));
      lower_aligned =
          rw (even, double)
            (eq→== (x % (2 * 2 ^ k)) 0 (even-join x (2 ^ k) whole (==→eq _ 0 even)));
      parts = λ p. rw even (holds-halves x k p);
      least = rw even (inl refl);
      together = λ m h j. ground (arith, double, even);
    }
    | inr odd ↦
        let (le, lower, buddy) = odd-join x (2 ^ k) whole (ground arith) in
        record {
          buddy_aligned = rw odd (eq→== _ 0 buddy);
          lower_aligned = rw (odd, double) (eq→== ((x - 2 ^ k) % (2 * 2 ^ k)) 0 lower);
          parts = λ p. rw odd (holds-halves (x - 2 ^ k) k p ∙ swap p le);
          least = rw odd (inr refl);
          together = λ m h j. ground (arith, double, odd);
        }
  ]
    where
      whole : x % 2 ^ k ≡ 0
      whole = ==→eq _ 0 a

      double : 2 ^ suc k ≡ 2 * 2 ^ k
      double = omega (arith, pow-suc 2 k)

      swap :
          (p : ℕ)
          → 2 ^ k ≤ x
          → holds (x - 2 ^ k) k p + holds (x - 2 ^ k + 2 ^ k) k p
            ≡ holds x k p + holds (x - 2 ^ k) k p
      swap p le = omega (arith, ap (λ y. holds y k p) (restore le))
        where
          restore : 2 ^ k ≤ x → x - 2 ^ k + 2 ^ k ≡ x
          restore le = omega arith

-- A block of a greater order is aligned as one of a smaller order, and longer.
pub block-below :
    (n x k o : ℕ) → k ≡ o + n → aligned x k ≡ true → (aligned x o ≡ true) × (2 ^ o ≤ 2 ^ k)
block-below zero x k o e a = let e' : k ≡ o = omega arith in (rw (← e') a, rw e' (omega arith))
block-below (suc n) x zero o e a = absurd (omega arith)
block-below (suc n) x (suc k) o e a =
    let (low, le) = block-below n x k o (omega arith) (aligned-halves x k a).0 in
    (low, omega (arith, le, pow-suc 2 k))
