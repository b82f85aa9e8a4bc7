-- ===== src/Buddy/FreeList/Represents.antt =====
-- What the free lists and the bitmap of kernel/kalloc.c stand for: for each order the list of the
-- page numbers of its free blocks.
use native.Mathlib.Decide.{ℕ_discrete}
use native.Mathlib.Nat.{pow-suc}
use learn_os.Base.{
  ℕ, zero, suc, ◌+◌, ◌<◌, ◌≤◌, ◌^◌, ◌≡◌, refl, ap, true, List, [], ◌∷◌, arith, has, erase, update,
  ltb, leb, ◌&&◌, if◌then◌else◌, eq→==, ne→==,
}
use learn_os.Buddy.Layout.{Linker, page, head, pnum_max, max_order}
use learn_os.Buddy.Bitmap.{aligned, byte_of, bit_of}
use learn_os.Buddy.Bitmap.Bytes.{off}
use learn_os.Buddy.FreeList.{Buddy}
use learn_os.Buddy.FreeList.Chain.{Chain}

abbrev pub Lists : Type 0
Lists = ℕ → List ℕ

-- 1 if a block of `2 ^ o` pages at `x` holds page `p`, and 0 if it does not
unfoldable pub holds : ℕ → ℕ → ℕ → ℕ
holds x o p = if leb x p && ltb p (x + 2 ^ o) then 1 else 0

-- how many blocks of a list hold page `p`
unfoldable pub cover : List ℕ → ℕ → ℕ → ℕ
cover [] o p = 0
cover (x ∷ xs) o p = holds x o p + cover xs o p

-- how many free blocks of the orders below `k` hold page `p`
unfoldable pub covers : ℕ → Lists → ℕ → ℕ
covers zero L p = 0
covers (suc k) L p = covers k L p + cover (L k) k p

-- how many free blocks hold page `p`
abbrev pub free_count : Lists → ℕ → ℕ
free_count L p = covers (max_order + 1) L p

module _ (l : Linker) where
  abbrev pub pages : List ℕ → List ℕ
  pages [] = []
  pages (x ∷ xs) = page l x ∷ pages xs

  -- The blocks are aligned and lie in memory, and no page lies in two of them.
  pub record IsDisjoint (L : Lists) : Type 0 where
    pub block :
        (o x : ℕ) → o < 12 → has x (L o) ≡ true → (aligned x o ≡ true) × (x + 2 ^ o ≤ pnum_max l)
    pub once : (p : ℕ) → free_count L p ≤ 1

  -- The pointers link the blocks of each list in both directions, and a block's bit is 0 exactly if
  -- the block is in its list.
  pub record Represents (b : Buddy) (L : Lists) : Type 0 where
    pub chains : (o : ℕ) → o < 12 → Chain b.next b.prev (head l o) (pages (L o))
    pub bytes : (i : ℕ) → b.bitmap i < 256
    pub bits :
        (o x : ℕ)
        → o < 12
        → x < 2 ^ 15
        → aligned x o ≡ true
        → off (b.bitmap (byte_of x o)) (bit_of x o) ≡ has x (L o)

pub pow-pos : (o : ℕ) → 0 < 2 ^ o
pow-pos zero = omega arith
pow-pos (suc o) = omega (arith, pow-suc 2 o, pow-pos o)

pub holds_self : (x o : ℕ) → holds x o x ≡ 1
unfolding holds
holds_self x o = ground (arith, pow-pos o)

pub cover-has : (xs : List ℕ) (o x : ℕ) → has x xs ≡ true → 1 ≤ cover xs o x
unfolding cover
cover-has [] o x h = absurd (ground arith)
cover-has (y ∷ xs) o x h = ground (arith, cover-has xs o x, holds_self x o)

covers-update_above :
    (k o : ℕ) (L : Lists) (xs : List ℕ) (p : ℕ) → k ≤ o → covers k (update L o xs) p ≡ covers k L p
unfolding covers
covers-update_above zero o L xs p h = refl
covers-update_above (suc k) o L xs p h =
    rw (ne→== k o (omega arith)) (omega (arith, covers-update_above k o L xs p (omega arith)))

pub covers-update :
    (k o : ℕ) (L : Lists) (xs : List ℕ) (p : ℕ)
    → o < k
    → covers k (update L o xs) p + cover (L o) o p ≡ covers k L p + cover xs o p
unfolding covers
covers-update zero o L xs p h = absurd (omega arith)
covers-update (suc k) o L xs p h = elim (ℕ_discrete k o) [
  | yes e ↦ rw (eq→== k o e) (
      omega (
        arith,
        covers-update_above k o L xs p (omega arith),
        ap (λ j. cover xs j p) e,
        ap (λ j. cover (L j) j p) e,
      ))
  | no ne ↦ rw (ne→== k o ne) (omega (arith, covers-update k o L xs p (omega arith)))
]

pub cover-le-covers : (k o : ℕ) (L : Lists) (p : ℕ) → o < k → cover (L o) o p ≤ covers k L p
unfolding covers
cover-le-covers zero o L p h = absurd (omega arith)
cover-le-covers (suc k) o L p h = elim (ℕ_discrete k o) [
  | yes e ↦ omega (arith, ap (λ j. cover (L j) j p) e)
  | no ne ↦ omega (arith, cover-le-covers k o L p (omega arith))
]

pub two_covers :
    (k i j : ℕ) (L : Lists) (p : ℕ)
    → i < j
    → j < k
    → cover (L i) i p + cover (L j) j p ≤ covers k L p
unfolding covers
two_covers zero i j L p h hk = absurd (omega arith)
two_covers (suc k) i j L p h hk = elim (ℕ_discrete k j) [
  | yes e ↦ omega (arith, ap (λ o. cover (L o) o p) e, cover-le-covers k i L p (omega arith))
  | no ne ↦ omega (arith, two_covers k i j L p h (omega arith))
]

pub cover-erase :
    (xs : List ℕ) (o a p : ℕ)
    → has a xs ≡ true
    → cover xs o p ≡ holds a o p + cover (erase a xs) o p
unfolding cover
cover-erase [] o a p h = absurd (ground arith)
cover-erase (x ∷ xs) o a p h = ground (arith, cover-erase xs o a p)
