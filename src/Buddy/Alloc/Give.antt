-- ===== src/Buddy/Alloc/Give.antt =====
-- `buddy_free` returns, keeps the invariant, and accounts for every page.
use learn_os.Base.{
  ℕ, zero, suc, ◌+◌, ◌-◌, ◌<◌, ◌≤◌, ◌≡◌, inl, inr, true, false, Option, some, ◌∷◌, arith, has, ltb,
  ◌>>=◌, ◌&&◌, ltb→lt, update, Bool-cases,
}
use native.Mathlib.Numerals.{add-one}
use learn_os.Buddy.Layout.{
  Linker, IsLinked, page, pnum_max, max_order, pnum_to_pa, pnum_to_pa-eq, pa_to_pnum-page,
  pnum_max-le,
}
use learn_os.Buddy.Bitmap.{aligned}
use learn_os.Buddy.Bitmap.Laws.{getbitmap-eq}
use learn_os.Buddy.FreeList.{Buddy, insertfirst}
use learn_os.Buddy.FreeList.Represents.{Lists, holds, free_count, pow-pos}
use learn_os.Buddy.Alloc.{is_free, merge, buddy_free, buddy_pnum, lower_pnum}
use learn_os.Buddy.Alloc.Blocks.{are_buddies, AreBuddies}
use learn_os.Buddy.Alloc.Sound.{
  IsSound, IsBlock, free_count-insert, free_count-erase, insertfirst-IsSound, erase_run-IsSound,
}

module _ (l : Linker) (linked : IsLinked l) where
  -- The test of `buddy_free` on the block's buddy tells whether the buddy is in the list of its order.
  is_free-eq :
      {b : Buddy} {L : Lists} (y k : ℕ)
      → IsSound l b L
      → k < 12
      → aligned y k ≡ true
      → is_free l b y k ≡ some (ltb y (pnum_max l) && has y (L k))
  unfolding is_free
  is_free-eq {b} y k s hk a = elim (Bool-cases (ltb y (pnum_max l))) [
    | inl lt ↦ rw (
      lt,
      getbitmap-eq b.bitmap y k a,
      s.represents.bits k y hk (omega (arith, ltb→lt _ _ lt, pnum_max-le l linked)) a,
    )
    | inr ge ↦ rw ge
  ]

  -- A free list operation or a loop that frees a block of order `k` at `x`.
  abbrev Frees : Option Buddy → Lists → ℕ → ℕ → Type 0
  Frees r L x k =
      (b' : Buddy) × (L' : Lists) × (r ≡ some b')
      × IsSound l b' L'
      × ((p : ℕ) → free_count L' p ≡ free_count L p + holds x k p)

  -- The block is put into the list of its order, where the loop stops.
  stop-Frees :
      {b : Buddy} {L : Lists} (x k : ℕ)
      → IsSound l b L
      → k < 12
      → IsBlock l x k
      → ((p : ℕ) → free_count L p + holds x k p ≤ 1)
      → Frees (pnum_to_pa l x >>= λ pa. insertfirst l b pa k) L x k
  stop-Frees {L} x k s hk bl free =
      let (b1, e1, s1) = insertfirst-IsSound l linked s k hk x bl free in
      let small : x < pnum_max l = omega (arith, bl.1, pow-pos k) in
      (
        b1,
        update L k (x ∷ L k),
        rw (pnum_to_pa-eq l small) e1,
        s1,
        free_count-insert l s.disjoint k hk x,
      )

  merge-Frees :
      (n : ℕ) {b : Buddy} {L : Lists} (x k : ℕ)
      → IsSound l b L
      → k + n ≡ 11
      → IsBlock l x k
      → ((p : ℕ) → free_count L p + holds x k p ≤ 1)
      → Frees (merge l n b x k) L x k
  unfolding merge
  merge-Frees zero x k s e bl free = stop-Frees x k s (omega arith) bl free
  merge-Frees (suc n) {b} {L} x k s e bl free =
      elim (Bool-cases (ltb y (pnum_max l) && has y (L k))) [
        | inr apart ↦
            rw (is_free-eq y k s (omega arith) ab.buddy_aligned, apart)
              (stop-Frees x k s (omega arith) bl free)
        | inl both ↦
            let held : has y (L k) ≡ true = ground arith in
            let lt : y < pnum_max l = ground arith in
            let (b1, e1, s1) = erase_run-IsSound l linked s k (omega arith) y held in
            let erased = λ (p : ℕ). free_count-erase l s.disjoint k (omega arith) y p held in
            let (b2, L2, e2, s2, count) =
              merge-Frees n (lower_pnum x k) (suc k) s1 (omega arith)
                (
                  ab.lower_aligned,
                  ab.together (pnum_max l) bl.1 (s.disjoint.block k y (omega arith) held).1,
                )
                (λ p. omega (arith, ab.parts p, erased p, free p)) in
            (
              b2,
              L2,
              rw
                  (
                    is_free-eq y k s (omega arith) ab.buddy_aligned,
                    both,
                    pnum_to_pa-eq l lt,
                    e1,
                    add-one,
                  )
                  e2,
              s2,
              λ p. omega (arith, count p, ab.parts p, erased p),
            )
      ]
    where
      y : ℕ
      y = buddy_pnum x k

      ab : AreBuddies x k
      ab = are_buddies x k bl.0

  -- For an aligned block inside memory none of whose pages is free, `buddy_free` returns, keeps the
  -- invariant, and makes exactly the pages of the block free.
  pub buddy_free-Frees :
      {b : Buddy} {L : Lists} (x o : ℕ)
      → IsSound l b L
      → o < 12
      → IsBlock l x o
      → ((p : ℕ) → free_count L p + holds x o p ≤ 1)
      → (b' : Buddy) × (L' : Lists) × (buddy_free l b (page l x) o ≡ some b')
        × IsSound l b' L'
        × ((p : ℕ) → free_count L' p ≡ free_count L p + holds x o p)
  unfolding buddy_free
  buddy_free-Frees {b} x o s ho bl free =
      let small : x < pnum_max l = omega (arith, bl.1, pow-pos o) in
      let in_range : ltb max_order o ≡ false = ground arith in
      rw (pa_to_pnum-page l small, bl.0, in_range)
        (merge-Frees (max_order - o) x o s (omega arith) bl free)
