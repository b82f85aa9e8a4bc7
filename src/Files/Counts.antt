-- ===== src/Files/Counts.antt =====
-- How often a file stands in a list of references.
use mathlib.Core.Bool.{true≢false}
use learn_os.Base.{
  ℕ, suc, ◌+◌, ◌≤◌, ◌<◌, ◌≡◌, ◌≢◌, refl, sym, ap, ◌∙◌, true, List, [], ◌∷◌, ◌==◌, if◌then◌else◌,
  has, erase, length, Bool-cases, inl, inr, ne→==, ==→eq, arith,
}

abbrev pub count : ℕ → List ℕ → ℕ
count f [] = 0
count f (x ∷ l) = if x == f then suc (count f l) else count f l

pub count_le : (f : ℕ) (l : List ℕ) → count f l ≤ length l
count_le f [] = omega arith
count_le f (x ∷ l) = elim (Bool-cases (x == f)) [
  | inl y ↦ rw y (omega (arith, count_le f l))
  | inr n ↦ rw n (omega (arith, count_le f l))
]

pub count-has : (f : ℕ) (l : List ℕ) → has f l ≡ true → 0 < count f l
count-has f [] h = absurd (true≢false (sym h))
count-has f (x ∷ l) h = elim (Bool-cases (x == f)) [
  | inl y ↦ rw y (omega arith)
  | inr n ↦ rw n (count-has f l (sym (rw n refl) ∙ h))
]

pub count-erase : (f : ℕ) (l : List ℕ) → has f l ≡ true → count f (erase f l) + 1 ≡ count f l
count-erase f [] h = absurd (true≢false (sym h))
count-erase f (x ∷ l) h = elim (Bool-cases (x == f)) [
  | inl y ↦ rw y (omega arith)
  | inr n ↦ rw (n, n) (count-erase f l (sym (rw n refl) ∙ h))
]

pub count-erase_other : (f g : ℕ) (l : List ℕ) → g ≢ f → count g (erase f l) ≡ count g l
count-erase_other f g [] ne = refl
count-erase_other f g (x ∷ l) ne = elim (Bool-cases (x == f)) [
  | inl y ↦ rw (y, ne→== x g (λ e. ne (sym e ∙ ==→eq x f y))) refl
  | inr n ↦ rw n (ap (λ k. if x == g then suc k else k) (count-erase_other f g l ne))
]

pub length-erase : (f : ℕ) (l : List ℕ) → length (erase f l) ≤ length l
length-erase f [] = omega arith
length-erase f (x ∷ l) = elim (Bool-cases (x == f)) [
  | inl y ↦ rw y (omega arith)
  | inr n ↦ rw n (omega (arith, length-erase f l))
]
