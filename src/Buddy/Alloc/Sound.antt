-- ===== src/Buddy/Alloc/Sound.antt =====
-- The invariant of the allocator, and the three list operations on it in terms of free pages.
use learn_os.Base.{
  ℕ, ◌+◌, ◌<◌, ◌≤◌, ◌^◌, ◌≡◌, inl, inr, true, false, some, List, [], ◌∷◌, arith, has, erase, update,
  eq→==, ne→==, Bool-cases,
}
use native.Mathlib.Decide.{ℕ_discrete}
use learn_os.Buddy.Layout.{Linker, IsLinked, page, pnum_max}
use learn_os.Buddy.Bitmap.{aligned}
use learn_os.Buddy.FreeList.{Buddy, insertfirst, erasefirst, erase_run}
use learn_os.Buddy.FreeList.Represents.{
  Lists, IsDisjoint, Represents, holds, holds_self, cover, cover-has, cover-le-covers, cover-erase,
  covers-update, free_count,
}
use learn_os.Buddy.FreeList.Ops.{insertfirst_lem, erasefirst_lem, erase_run_lem}

module _ (l : Linker) where
  -- The free lists are disjoint, and the pointers and the bitmap represent them.
  pub record IsSound (b : Buddy) (L : Lists) : Type 0 where
    pub disjoint : IsDisjoint l L
    pub represents : Represents l b L

  abbrev pub IsBlock : ℕ → ℕ → Type 0
  IsBlock x o = (aligned x o ≡ true) × (x + 2 ^ o ≤ pnum_max l)

  module _ {L : Lists} (d : IsDisjoint l L) (o : ℕ) (ho : o < 12) where
    -- Changing the list of one order keeps disjointness, if its blocks are blocks and no page
    -- comes to lie in two.
    update-IsDisjoint :
        (xs : List ℕ)
        → ((y : ℕ) → has y xs ≡ true → IsBlock y o)
        → ((p : ℕ) → free_count (update L o xs) p ≤ 1)
        → IsDisjoint l (update L o xs)
    update-IsDisjoint xs blocks once = record {
      block = λ k y hk h. elim (ℕ_discrete k o) [
        | yes e ↦ rw e (blocks y (rw (eq→== k o e) at h))
        | no ne ↦ d.block k y hk (rw (ne→== k o ne) at h)
      ];
      once = once;
    }

    pub free_count-insert :
        (x p : ℕ) → free_count (update L o (x ∷ L o)) p ≡ free_count L p + holds x o p
    unfolding cover
    free_count-insert x p = omega (arith, covers-update 12 o L (x ∷ L o) p ho)

    pub free_count-erase :
        (x p : ℕ)
        → has x (L o) ≡ true
        → free_count L p ≡ free_count (update L o (erase x (L o))) p + holds x o p
    free_count-erase x p h =
        omega (arith, covers-update 12 o L (erase x (L o)) p ho, cover-erase (L o) o x p h)

    -- A block that none of the free pages lies in is in no list.
    unlisted :
        (x : ℕ)
        → ((p : ℕ) → free_count L p + holds x o p ≤ 1)
        → (k : ℕ) → k < 12
        → has x (L k) ≡ false
    unlisted x free k hk = elim (Bool-cases (has x (L k))) [
      | inl t ↦ absurd (
          omega (arith, free x, holds_self x o, cover-le-covers 12 k L x hk, cover-has (L k) k x t))
      | inr n ↦ n
    ]

  has-erase : (x y : ℕ) (xs : List ℕ) → has y (erase x xs) ≡ true → has y xs ≡ true
  has-erase x y [] h = h
  has-erase x y (z ∷ xs) h = ground (arith, has-erase x y xs)

  module _ {L : Lists} {b : Buddy} (linked : IsLinked l) (s : IsSound b L) (o : ℕ)
      (ho : o < 12) where
    pub insertfirst-IsSound :
        (x : ℕ)
        → IsBlock x o
        → ((p : ℕ) → free_count L p + holds x o p ≤ 1)
        → (b' : Buddy) × (insertfirst l b (page l x) o ≡ some b')
          × IsSound b' (update L o (x ∷ L o))
    insertfirst-IsSound x bl free =
        let (b', e, r) =
          insertfirst_lem l linked s.disjoint s.represents o ho x bl.1 bl.0
            (unlisted s.disjoint o ho x free) in
        (
          b',
          e,
          record {
            disjoint =
                update-IsDisjoint s.disjoint o ho (x ∷ L o) blocks
                  (λ p. omega (arith, free_count-insert s.disjoint o ho x p, free p));
            represents = r;
          },
        )
      where
        blocks : (y : ℕ) → has y (x ∷ L o) ≡ true → IsBlock y o
        blocks y h = elim (ℕ_discrete x y) [
          | yes e ↦ rw (← e) bl
          | no ne ↦ s.disjoint.block o y ho (rw (ne→== x y ne) at h)
        ]

    erased-IsDisjoint : (x : ℕ) → has x (L o) ≡ true → IsDisjoint l (update L o (erase x (L o)))
    erased-IsDisjoint x h =
        update-IsDisjoint s.disjoint o ho (erase x (L o))
          (λ y m. s.disjoint.block o y ho (has-erase x y (L o) m))
          (λ p. omega (arith, free_count-erase s.disjoint o ho x p h, s.disjoint.once p))

    pub erase_run-IsSound :
        (x : ℕ)
        → has x (L o) ≡ true
        → (b' : Buddy) × (erase_run l b (page l x) o ≡ some b')
          × IsSound b' (update L o (erase x (L o)))
    erase_run-IsSound x h =
        let (b', e, r) = erase_run_lem l linked s.disjoint s.represents o ho x h in
        (b', e, record { disjoint = erased-IsDisjoint x h; represents = r })

    pub erasefirst-IsSound :
        (x : ℕ) (xs : List ℕ)
        → L o ≡ x ∷ xs
        → (b' : Buddy) × (erasefirst l b o ≡ some (page l x, b'))
          × IsSound b' (update L o (erase x (L o)))
    erasefirst-IsSound x xs first =
        let (b', e, r) = erasefirst_lem l linked s.disjoint s.represents o ho x xs first in
        (
          b',
          e,
          record {
            disjoint = erased-IsDisjoint x (rw first (ground arith));
            represents = rw shorter r;
          },
        )
      where
        shorter : erase x (L o) ≡ xs
        shorter = rw first (ground arith)
