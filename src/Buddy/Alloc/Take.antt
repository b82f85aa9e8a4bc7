-- ===== src/Buddy/Alloc/Take.antt =====
-- `buddy_alloc` returns, keeps the invariant, and accounts for every page.
use learn_os.Base.{
  ℕ, zero, suc, ◌+◌, ◌-◌, ◌*◌, ◌<◌, ◌≤◌, ◌^◌, ◌≡◌, ◌≢◌, ◌⊎◌, inl, inr, refl, true, false, some,
  List, [], ◌∷◌, arith, has, ltb, leb, update, eq→==, ne→==, Bool-cases,
}
use native.Mathlib.Nat.{pow-suc}
use native.Mathlib.Decide.{ℕ_discrete}
use learn_os.Buddy.Layout.{Linker, IsLinked, page, pgsize, max_order}
use learn_os.Buddy.FreeList.{Buddy, getfirst}
use learn_os.Buddy.FreeList.Chain.{Chain}
use learn_os.Buddy.FreeList.Represents.{pages, Lists, holds, free_count}
use learn_os.Buddy.Alloc.{find_order, split, buddy_alloc}
use learn_os.Buddy.Alloc.Blocks.{holds-halves, block-below, aligned-halves}
use learn_os.Buddy.Alloc.Sound.{
  IsSound, IsBlock, free_count-insert, free_count-erase, insertfirst-IsSound, erasefirst-IsSound,
}

list_cases :
    (l : Linker) (next prev : ℕ → ℕ) (q : ℕ) (xs : List ℕ)
    → Chain next prev q (pages l xs)
    → ((next q ≡ 0) × (xs ≡ [])) ⊎ ((next q ≢ 0) × ((y : ℕ) × (ys : List ℕ) × (xs ≡ y ∷ ys)))
list_cases l next prev q [] c = inl (c, refl)
list_cases l next prev q (y ∷ ys) c = inr ((λ e. ground arith), (y, ys, refl))

module _ (l : Linker) (linked : IsLinked l) where
  -- The second loop of `buddy_alloc` frees all of a block of order `k` but its lowest part, of order `o`.
  split-IsSound :
      (n : ℕ) {b : Buddy} {L : Lists} (x k o : ℕ)
      → IsSound l b L
      → k ≡ o + n
      → k < 12
      → IsBlock l x k
      → ((p : ℕ) → free_count L p + holds x k p ≤ 1)
      → (b' : Buddy) × (L' : Lists) × (split l n b (page l x) k ≡ some b')
        × IsSound l b' L'
        × ((p : ℕ) → free_count L' p + holds x o p ≡ free_count L p + holds x k p)
  unfolding split
  split-IsSound zero {b} {L} x k o s e hk bl free =
      let e' : k ≡ o = omega arith in (b, L, refl, s, λ p. rw e')
  split-IsSound (suc n) x zero o s e hk bl free = absurd (omega arith)
  split-IsSound (suc n) {b} {L} x (suc k) o s e hk bl free =
      let (low, high) = aligned-halves x k bl.0 in
      let (b1, e1, s1) =
        insertfirst-IsSound l linked s k (omega arith) (x + 2 ^ k)
          (high, omega (arith, double, bl.1)) (λ p. omega (arith, free p, holds-halves x k p)) in
      let (b2, L2, e2, s2, count) =
        split-IsSound n x k o s1 (omega arith) (omega arith) (low, omega (arith, double, bl.1))
          (λ p. omega (arith, free p, holds-halves x k p, inserted p)) in
      (
        b2,
        L2,
        rw (pred, place, e1) e2,
        s2,
        λ p. omega (arith, count p, holds-halves x k p, inserted p),
      )
    where
      double : 2 ^ suc k ≡ 2 * 2 ^ k
      double = omega (arith, pow-suc 2 k)

      pred : suc k - 1 ≡ k
      pred = omega arith

      place : page l x + 2 ^ k * pgsize ≡ page l (x + 2 ^ k)
      place = omega arith

      inserted :
          (p : ℕ)
          → free_count (update L k ((x + 2 ^ k) ∷ L k)) p ≡ free_count L p + holds (x + 2 ^ k) k p
      inserted p = free_count-insert l s.disjoint k (omega arith) (x + 2 ^ k) p

  -- The first loop of `buddy_alloc` finds the smallest order from `k` on that has a free block, or
  -- ends above `MAX_ORDER` when there is none.
  record Found (b : Buddy) (L : Lists) (k j : ℕ) : Type 0 where
    from : k ≤ j
    none_before : (i : ℕ) → k ≤ i → i < j → i < 12 → L i ≡ []
    some_at : j < 12 → (x : ℕ) × (xs : List ℕ) × (L j ≡ x ∷ xs)

  find_order-Found :
      (f : ℕ) {b : Buddy} {L : Lists} (k : ℕ)
      → IsSound l b L
      → 12 ≤ k + f
      → Found b L k (find_order l f b k)
  unfolding find_order getfirst
  find_order-Found zero k s e = record {
    from = omega arith;
    none_before = λ i a c h. absurd (omega arith);
    some_at = λ h. absurd (omega arith);
  }
  find_order-Found (suc f) {b} {L} k s e = elim (Bool-cases (leb k max_order)) [
    | inr above ↦ rw above (record {
      from = omega arith;
      none_before = λ i a c h. absurd (omega arith);
      some_at = λ h. absurd (ground arith);
    })
    | inl below ↦ elim (list_cases l b.next b.prev _ (L k) (s.represents.chains k (ground arith))) [
      | inl empty ↦
          rw (below, eq→== _ 0 empty.0) (skip empty.1 (find_order-Found f (k + 1) s (omega arith)))
      | inr full ↦
          rw (below, ne→== _ 0 full.0)
            (record {
              from = omega arith;
              none_before = λ i a c h. absurd (omega arith);
              some_at = λ h. full.1;
            })
    ]
  ]
    where
      skip : {j : ℕ} → L k ≡ [] → Found b L (k + 1) j → Found b L k j
      skip {j} empty found = record {
        from = omega (arith, found.from);
        none_before = λ i a c h. elim (ℕ_discrete i k) [
          | yes q ↦ rw q empty
          | no ne ↦ found.none_before i (omega arith) c h
        ];
        some_at = found.some_at;
      }

  -- What `buddy_alloc` may do: it finds no block of the order or a greater one, returns `NULL` and
  -- changes nothing; or it returns an aligned block inside memory whose pages were free, and these
  -- are the only pages that stop being free.
  pub data Allocated (b : Buddy) (L : Lists) (o : ℕ) : Type 0 where
    exhausted :
        buddy_alloc l b o ≡ some (0, b) → ((k : ℕ) → o ≤ k → k < 12 → L k ≡ []) → Allocated b L o
    taken :
        (x : ℕ) (b' : Buddy) (L' : Lists)
        → buddy_alloc l b o ≡ some (page l x, b')
        → IsSound l b' L'
        → IsBlock l x o
        → ((p : ℕ) → free_count L p ≡ free_count L' p + holds x o p)
        → Allocated b L o

  -- From a sound allocator and for every order up to `MAX_ORDER`, `buddy_alloc` returns, and in one of two
  -- ways: with `NULL` and nothing changed, only if no block of that order or a greater one is free; or with
  -- the address of an aligned block of that order inside memory, whose pages were free and of all pages
  -- are the only ones that are no longer, and with the allocator sound again.
  pub buddy_alloc-Allocated :
      {b : Buddy} {L : Lists} (o : ℕ) → IsSound l b L → o < 12 → Allocated b L o
  unfolding buddy_alloc
  buddy_alloc-Allocated {b} {L} o s ho = elim (Bool-cases (ltb max_order found_order)) [
    | inl none_left ↦
        exhausted (rw (in_range, none_left)) (λ k a c. found.none_before k a (ground arith) c)
    | inr some_left ↦
        let (x, xs, first) = found.some_at (ground arith) in
        let held : has x (L found_order) ≡ true = rw first (ground arith) in
        let (b1, e1, s1) = erasefirst-IsSound l linked s found_order (ground arith) x xs first in
        let bl = s.disjoint.block found_order x (ground arith) held in
        let erased = free_count-erase l s.disjoint found_order (ground arith) x in
        let (b2, L2, e2, s2, count) =
          split-IsSound (found_order - o) x found_order o s1 (omega (arith, found.from))
            (ground arith) bl (λ p. omega (arith, erased p held, s.disjoint.once p)) in
        let (low, le) =
          block-below (found_order - o) x found_order o (omega (arith, found.from)) bl.0 in
        taken x b2 L2 (rw (in_range, some_left, e1, e2)) s2 (low, omega (arith, le, bl.1))
          (λ p. omega (arith, count p, erased p held))
  ]
    where
      found_order : ℕ
      found_order = find_order l (max_order + 1) b o

      in_range : ltb max_order o ≡ false
      in_range = ground arith

      found : Found b L o found_order
      found = find_order-Found (max_order + 1) o s (omega arith)
