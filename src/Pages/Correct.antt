-- ===== src/Pages/Correct.antt =====
-- What `kalloc`, `kfree` and `kaddrefcnt` do to the reference counts and the free pages.
use native.Mathlib.Decide.{ℕ_discrete}
use learn_os.Base.{
  ℕ, zero, suc, ◌+◌, ◌-◌, ◌/◌, ◌%◌, ◌<◌, ◌≤◌, ◌^◌, ◌≡◌, ◌≢◌, inl, inr, refl, ◌∙◌, ap, true, false,
  none, some, [], arith, has, ◌==◌, update, if◌then◌else◌, eq→==, ne→==, Bool-cases,
}
use learn_os.Buddy.Layout.{Linker, IsLinked, page, head, pgsize, pnum_max}
use learn_os.Buddy.FreeList.{Buddy}
use learn_os.Buddy.FreeList.Chain.{Chain-agree, has-ne}
use learn_os.Buddy.FreeList.Represents.{
  Lists, holds, free_count, cover, covers, cover-has, cover-le-covers, pages, holds_self,
}
use learn_os.Buddy.FreeList.Separate.{has-pages}
use learn_os.Buddy.Alloc.Sound.{IsSound, IsBlock}
use learn_os.Buddy.Alloc.Take.{exhausted, taken, buddy_alloc-Allocated}
use learn_os.Buddy.Alloc.Give.{buddy_free-Frees}
use learn_os.Pages.{Memory, memset, junk, is_page, kfree, kalloc, krefcnt}

-- A page is held while its count is not 0; no held page is free.
pub record IsKept (l : Linker) (m : Memory) (L : Lists) : Type 0 where
  pub sound : IsSound l m.buddy L
  pub kept : (x : ℕ) → x < pnum_max l → krefcnt l m (page l x) ≢ 0 → free_count L x ≡ 0

-- 1 at page `x` and 0 elsewhere
abbrev pub only : ℕ → ℕ → ℕ
only x p = if p == x then 1 else 0

holds-only : (x p : ℕ) → holds x 0 p ≡ only x p
unfolding holds
holds-only x p = ground arith

only-le : (x p : ℕ) → only x p ≤ 1
only-le x p = ground arith

only-ne : (x p : ℕ) → p ≢ x → only x p ≡ 0
only-ne x p ne = rw (ne→== p x ne)

all_empty : (k : ℕ) (L : Lists) (p : ℕ) → ((i : ℕ) → i < k → L i ≡ []) → covers k L p ≡ 0
unfolding covers cover
all_empty zero L p e = refl
all_empty (suc k) L p e =
    omega (
      arith,
      all_empty k L p (λ i h. e i (omega arith)),
      ap (λ xs. cover xs k p) (e k (omega arith)),
    )

module _ (l : Linker) (linked : IsLinked l) where
  pub page-is_page : {x : ℕ} → x < pnum_max l → is_page l (page l x) ≡ true
  page-is_page {x} h = ground arith

  page-injective : {x y : ℕ} → page l x / pgsize ≡ page l y / pgsize → x ≡ y
  page-injective e = omega arith

  one_page : {x : ℕ} → x < pnum_max l → IsBlock l x 0
  one_page h = (ground arith, omega arith)

  -- Writing into a page that is not free keeps the allocator sound.
  memset-IsSound :
      {b : Buddy} {L : Lists} (x word : ℕ)
      → IsSound l b L
      → free_count L x ≡ 0
      → IsSound l (memset b (page l x) word) L
  memset-IsSound {b} {L} x word s zero_count = record {
    disjoint = s.disjoint;
    represents = record {
      chains = λ o ho.
          Chain-agree (head l o) (pages l (L o)) (ground arith)
            (λ y h. rw (ne→== y (page l x) (has-ne (page l x) y (pages l (L o)) (out o ho) h)))
            (λ y h. rw (ne→== y (page l x) (has-ne (page l x) y (pages l (L o)) (out o ho) h)))
            (s.represents.chains o ho);
      bytes = s.represents.bytes;
      bits = s.represents.bits;
    };
  }
    where
      out : (o : ℕ) → o < 12 → has (page l x) (pages l (L o)) ≡ false
      out o ho = elim (Bool-cases (has x (L o))) [
        | inl t ↦
            absurd (omega (arith, zero_count, cover-le-covers 12 o L x ho, cover-has (L o) o x t))
        | inr n ↦ has-pages l x (L o) ∙ n
      ]

  -- `kfree` on a page whose count is 1 makes exactly this page free, and its count 0.
  pub kfree-last :
      {m : Memory} {L : Lists} (x : ℕ)
      → IsKept l m L
      → x < pnum_max l
      → krefcnt l m (page l x) ≡ 1
      → (m' : Memory) × (L' : Lists) × (kfree l m (page l x) ≡ some m')
        × IsKept l m' L'
        × (krefcnt l m' (page l x) ≡ 0)
        × ((p : ℕ) → free_count L' p ≡ free_count L p + only x p)
  unfolding kfree krefcnt
  kfree-last {m} {L} x v h e =
      let unfree : free_count L x ≡ 0 = v.kept x h (λ z. absurd (omega (arith, e, z))) in
      let (b, L', e1, s, count) =
        buddy_free-Frees l linked x 0 (memset-IsSound x junk v.sound unfree) (omega arith)
          (one_page h) (λ p. once p unfree) in
      (
        record { buddy = b; cnt = update m.cnt (page l x / pgsize) 0 },
        L',
        rw (page-is_page h, down, e1),
        record { sound = s; kept = λ y hy k. still y hy k (count y) },
        ground arith,
        λ p. omega (arith, count p, holds-only x p),
      )
    where
      down : (m.cnt (page l x / pgsize) + (2 ^ 32 - 1)) % 2 ^ 32 ≡ 0
      down = omega (arith, e)

      once : (p : ℕ) → free_count L x ≡ 0 → free_count L p + holds x 0 p ≤ 1
      once p z = elim (ℕ_discrete p x) [
        | yes q ↦ omega (arith, holds-only x p, ap (free_count L) q, only-le x p)
        | no ne ↦ omega (arith, holds-only x p, only-ne x p ne, v.sound.disjoint.once p)
      ]

      still :
          (y : ℕ) {f : ℕ}
          → y < pnum_max l
          → update m.cnt (page l x / pgsize) 0 (page l y / pgsize) ≢ 0
          → f ≡ free_count L y + holds x 0 y
          → f ≡ 0
      still y hy k q = elim (ℕ_discrete (page l y / pgsize) (page l x / pgsize)) [
        | yes same ↦ absurd (k (rw (eq→== _ (page l x / pgsize) same)))
        | no ne ↦ omega (
          arith,
          q,
          holds-only x y,
          only-ne x y (λ z. ne (ap (λ n. page l n / pgsize) z)),
          v.kept y hy (rw (ne→== _ (page l x / pgsize) ne) at k),
        )
      ]

  -- What `kalloc` may do: with no page free it panics; otherwise it returns the address of a page that
  -- was free, sets its count to 1, and exactly this page stops being free.
  pub data KAlloc (m : Memory) (L : Lists) : Type 0 where
    panics : kalloc l m ≡ none → ((p : ℕ) → free_count L p ≡ 0) → KAlloc m L
    returns :
        (x : ℕ) (m' : Memory) (L' : Lists)
        → kalloc l m ≡ some (page l x, m')
        → x < pnum_max l
        → IsKept l m' L'
        → krefcnt l m' (page l x) ≡ 1
        → ((p : ℕ) → free_count L p ≡ free_count L' p + only x p)
        → KAlloc m L

  -- In a memory that keeps its invariant `kalloc` does one of two things: it returns the address of a page
  -- that was free, with reference count 1, of all pages the only one that is no longer free, and the
  -- invariant kept; or it panics, only if no page is free.
  pub kalloc-KAlloc : {m : Memory} {L : Lists} → IsKept l m L → KAlloc m L
  unfolding kalloc krefcnt
  kalloc-KAlloc {m} {L} v = elim (buddy_alloc-Allocated l linked 0 v.sound (omega arith)) [
    | exhausted e empty ↦ panics (rw e) (λ p. all_empty 12 L p (λ k h. empty k (omega arith) h))
    | taken x b L' e s bl count ↦
        let unfree : free_count L' x ≡ 0 =
          omega (arith, count x, v.sound.disjoint.once x, holds_self x 0) in
        returns x
          (record { buddy = memset b (page l x) 0; cnt = update m.cnt (page l x / pgsize) 1 }) L'
          (rw (e, ne→== (page l x) 0 (λ z. omega arith))) (omega (arith, bl.1))
          (record {
            sound = memset-IsSound x 0 s unfree;
            kept = λ y hy k. held L' x y unfree hy k (count y);
          })
          (ground arith) (λ p. omega (arith, count p, holds-only x p))
  ]
    where
      held :
          (L' : Lists) (x y : ℕ)
          → free_count L' x ≡ 0
          → y < pnum_max l
          → update m.cnt (page l x / pgsize) 1 (page l y / pgsize) ≢ 0
          → free_count L y ≡ free_count L' y + holds x 0 y
          → free_count L' y ≡ 0
      held L' x y unfree hy k q = elim (ℕ_discrete (page l y / pgsize) (page l x / pgsize)) [
        | yes same ↦
            let e : y ≡ x = page-injective same in omega (arith, ap (free_count L') e, unfree)
        | no ne ↦ omega (arith, q, v.kept y hy (rw (ne→== _ (page l x / pgsize) ne) at k))
      ]
