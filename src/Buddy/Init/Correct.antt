-- ===== src/Buddy/Init/Correct.antt =====
-- After `buddy_init` the allocator is sound, and exactly the pages below `pnum_max` are free.
use native.Mathlib.Nat.{pow-suc, div-add-mod, mul-mod_left, div-div-eq-div-mul}
use native.Mathlib.Numerals.{add-one}
use learn_os.Base.{
  ℕ, zero, suc, ◌+◌, ◌*◌, ◌/◌, ◌%◌, ◌<◌, ◌≤◌, ◌^◌, ◌≡◌, inl, inr, refl, ◌∙◌, sym, ap, ap₂, leb→le,
  true, false, not, check_below, check_below-at, Option, some, [], arith, ltb, leb, ◌&&◌, ◌==◌,
  update, if◌then◌else◌, eq→==, ==→eq, Bool-cases,
}
use learn_os.Buddy.Layout.{Linker, IsLinked, head, pnum_max, pnum_to_pa-eq}
use learn_os.Buddy.Bitmap.{aligned, init_bitmap}
use learn_os.Buddy.Bitmap.Bytes.{off}
use learn_os.Buddy.FreeList.{Buddy}
use learn_os.Buddy.FreeList.Represents.{Lists, holds, cover, covers, free_count, pow-pos}
use learn_os.Buddy.Alloc.Sound.{IsSound, free_count-insert, insertfirst-IsSound}
use learn_os.Buddy.Alloc.Blocks.{mod-of_multiple}
use learn_os.Buddy.Init.{init_heads, init_small, init_large, init_freelist, buddy_init}

abbrev pub no_blocks : Lists
no_blocks o = []

pub no_blocks-free : (k p : ℕ) → covers k no_blocks p ≡ 0
unfolding covers cover
no_blocks-free zero p = refl
no_blocks-free (suc k) p = omega (arith, no_blocks-free k p)

module _ (l : Linker) where
  init_heads-next :
      (n i : ℕ) (b : Buddy) (k : ℕ)
      → (k < i → b.next (head l k) ≡ 0)
      → k < i + n
      → (init_heads l n i b).next (head l k) ≡ 0
  unfolding init_heads
  init_heads-next zero i b k done h = done (omega arith)
  init_heads-next (suc n) i b k done h =
      init_heads-next n (i + 1)
        (record b { next = update b.next (head l i) 0; prev = update b.prev (head l i) 0 }) k
        (λ le. ground arith) (omega arith)

  bitmap-init_heads : (n i : ℕ) (b : Buddy) → (init_heads l n i b).bitmap ≡ b.bitmap
  unfolding init_heads
  bitmap-init_heads zero i b = refl
  bitmap-init_heads (suc n) i b = bitmap-init_heads n (i + 1) _

  ones_table : check_below 8 (λ j. not (off 255 j)) ≡ true
  unfolding check_below
  ones_table = refl

  ones : (j : ℕ) → j < 8 → off 255 j ≡ false
  ones j h = ground (arith, check_below-at 8 (λ j. not (off 255 j)) j ones_table h)

  pub no_blocks-IsSound :
      (b : Buddy) → b.bitmap ≡ init_bitmap → IsSound l (init_heads l 12 0 b) no_blocks
  no_blocks-IsSound b e = record {
    disjoint = record {
      block = λ o x ho h. absurd (ground arith);
      once = λ p. omega (arith, no_blocks-free 12 p);
    };
    represents = record {
      chains = λ o ho. init_heads-next 12 0 b o (λ h. absurd (omega arith)) (omega arith);
      bytes = λ i. rw (bitmap-init_heads 12 0 b, e) (omega arith);
      bits = λ o x ho hx a. rw (bitmap-init_heads 12 0 b, e) (ones _ (omega arith));
    };
  }

-- 1 from `a` up to `c`, and 0 elsewhere
abbrev between : ℕ → ℕ → ℕ → ℕ
between a c p = if leb a p && ltb p c then 1 else 0

-- The pages below `N` from the last multiple of `2 ^ i` on.
abbrev floor : ℕ → ℕ → ℕ
floor N i = N / 2 ^ i * 2 ^ i

floor-le : (N i : ℕ) → floor N i ≤ N
floor-le N i = omega (arith, div-add-mod N (2 ^ i))

module _ (N i : ℕ) where
  half : N / 2 ^ suc i ≡ N / 2 ^ i / 2
  half = ap (λ d. N / d) power ∙ sym (div-div-eq-div-mul N (2 ^ i) 2)
    where
      power : 2 ^ suc i ≡ 2 ^ i * 2
      power = omega (arith, pow-suc 2 i)

  floor-suc : floor N (suc i) + N / 2 ^ i % 2 * 2 ^ i ≡ floor N i
  floor-suc = omega (arith, ap₂ ◌*◌ half double, ap (λ t. t * 2 ^ i) digits)
    where
      double : 2 ^ suc i ≡ 2 * 2 ^ i
      double = omega (arith, pow-suc 2 i)

      digits : N / 2 ^ i ≡ 2 * (N / 2 ^ i / 2) + N / 2 ^ i % 2
      digits = omega arith

  floor-aligned : aligned (floor N (suc i)) i ≡ true
  floor-aligned = eq→== _ 0 (
      mod-of_multiple _ (N / 2 ^ suc i * 2) (2 ^ i)
        (omega (arith, pow-suc 2 i, ap (λ t. N / 2 ^ suc i * t) double)))
    where
      double : 2 ^ suc i ≡ 2 * 2 ^ i
      double = omega (arith, pow-suc 2 i)

-- A block just before a range of pages extends it, and so does one just behind it.
between-before :
    (x d a c p : ℕ) → x + d ≡ a → a ≤ c → between a c p + between x (x + d) p ≡ between x c p
between-before x d a c p e h = ground arith

between-behind : (c d p : ℕ) → between 0 c p + between c (c + d) p ≡ between 0 (c + d) p
between-behind c d p = ground arith

between-join : (a c p : ℕ) → a ≤ c → between 0 a p + between a c p ≡ between 0 c p
between-join a c p h = ground arith

between-none : (a c p : ℕ) → a ≡ c → between a c p ≡ 0
between-none a c p e = ground arith

between-zero : (c p : ℕ) → between 0 c p ≡ (if ltb p c then 1 else 0)
between-zero c p = ground arith

between-le : (a c p : ℕ) → between a c p ≤ 1
between-le a c p = ground arith

between-apart : (a b c p : ℕ) → a ≤ b → between 0 a p + between b c p ≤ 1
between-apart a b c p h = ground arith

holds-between : (x o p : ℕ) → holds x o p ≡ between x (x + 2 ^ o) p
unfolding holds
holds-between x o p = refl

module _ (l : Linker) (linked : IsLinked l) where
  -- A sound allocator in which the pages from `a` up to `c` are free.
  abbrev FreeBetween : Option Buddy → ℕ → ℕ → Type 0
  FreeBetween r a c =
      (b : Buddy) × (L : Lists) × (r ≡ some b)
      × IsSound l b L
      × ((p : ℕ) → free_count L p ≡ between a c p)

  init_small_sound :
      (n i : ℕ) {b : Buddy} {L : Lists}
      → i + n ≡ 11
      → IsSound l b L
      → ((p : ℕ) → free_count L p ≡ between (floor (pnum_max l) i) (pnum_max l) p)
      → FreeBetween (init_small l n i b) (floor (pnum_max l) 11) (pnum_max l)
  unfolding init_small
  init_small_sound zero i {b} {L} e s free =
      let e' : i ≡ 11 = omega arith in (b, L, refl, s, rw e' at free)
  init_small_sound (suc n) i {b} {L} e s free = elim (Bool-cases (pnum_max l / 2 ^ i % 2 == 0)) [
    | inl even ↦
        let same : floor (pnum_max l) (suc i) ≡ floor (pnum_max l) i =
          omega (arith, floor-suc (pnum_max l) i, ap (λ t. t * 2 ^ i) (==→eq _ 0 even)) in
        rw (even, add-one) (init_small_sound n (suc i) (omega arith) s (rw (← same) at free))
    | inr odd ↦
        let edge : x + 2 ^ i ≡ floor (pnum_max l) i =
          omega (arith, floor-suc (pnum_max l) i, ap (λ t. t * 2 ^ i) (one odd)) in
        let fits : x + 2 ^ i ≤ pnum_max l = omega (arith, edge, floor-le (pnum_max l) i) in
        let small : x < pnum_max l = omega (arith, fits, pow-pos i) in
        let joined = λ (p : ℕ).
          between-before x (2 ^ i) (floor (pnum_max l) i) (pnum_max l) p edge
            (floor-le (pnum_max l) i) in
        let (b1, e1, s1) =
          insertfirst-IsSound l linked s i (omega arith) x (floor-aligned (pnum_max l) i, fits)
            (λ p.
              omega (arith, free p, holds-between x i p, joined p, between-le x (pnum_max l) p)) in
        rw (odd, add-one, pnum_to_pa-eq l small, e1)
          (init_small_sound n (suc i) (omega arith) s1 (λ p. omega (
            arith,
            free p,
            holds-between x i p,
            joined p,
            free_count-insert l s.disjoint i (omega arith) x p,
          )))
  ]
    where
      x : ℕ
      x = floor (pnum_max l) (suc i)

      one : (pnum_max l / 2 ^ i % 2 == 0) ≡ false → pnum_max l / 2 ^ i % 2 ≡ 1
      one odd = ground arith

  full_memory :
      (L : Lists) (m : ℕ)
      → pnum_max l < m * 2 ^ 11 + 2 ^ 11
      → m * 2 ^ 11 ≤ pnum_max l
      → ((p : ℕ)
          → free_count L p
            ≡ between 0 (m * 2 ^ 11) p + between (floor (pnum_max l) 11) (pnum_max l) p)
      → (p : ℕ) → free_count L p ≡ between 0 (pnum_max l) p
  full_memory L m lt le free p =
      let same : m * 2 ^ 11 ≡ floor (pnum_max l) 11 = omega arith in
      omega (
        arith,
        free p,
        ap (λ c. between 0 c p) same,
        between-join (floor (pnum_max l) 11) (pnum_max l) p (floor-le (pnum_max l) 11),
      )

  init_large_sound :
      (n m : ℕ) {b : Buddy} {L : Lists}
      → pnum_max l ≤ m * 2 ^ 11 + n
      → m * 2 ^ 11 ≤ pnum_max l
      → IsSound l b L
      → ((p : ℕ)
          → free_count L p
            ≡ between 0 (m * 2 ^ 11) p + between (floor (pnum_max l) 11) (pnum_max l) p)
      → FreeBetween (init_large l n (m * 2 ^ 11) b) 0 (pnum_max l)
  unfolding init_large
  init_large_sound zero m {b} {L} e h s free = (b, L, refl, s, full_memory L m (omega arith) h free)
  init_large_sound (suc n) m {b} {L} e h s free =
      elim (Bool-cases (leb (m * 2 ^ 11 + 2 ^ 11) (pnum_max l))) [
        | inl more ↦
            let fits : m * 2 ^ 11 + 2 ^ 11 ≤ pnum_max l = leb→le _ _ more in
            let below : m * 2 ^ 11 + 2 ^ 11 ≤ floor (pnum_max l) 11 = omega (arith, fits) in
            let (b1, e1, s1) =
              insertfirst-IsSound l linked s 11 (omega arith) (m * 2 ^ 11)
                (eq→== _ 0 (mul-mod_left m (2 ^ 11)), fits)
                (λ p. omega (
                  arith,
                  free p,
                  holds-between (m * 2 ^ 11) 11 p,
                  between-behind (m * 2 ^ 11) (2 ^ 11) p,
                  between-apart (m * 2 ^ 11 + 2 ^ 11) (floor (pnum_max l) 11) (pnum_max l) p below,
                )) in
            rw (more, pnum_to_pa-eq l {n = m * 2 ^ 11} (omega (arith, fits)), e1, next)
              (init_large_sound n (suc m) (omega arith) (omega (arith, fits)) s1 (λ p. omega (
                arith,
                free p,
                holds-between (m * 2 ^ 11) 11 p,
                between-behind (m * 2 ^ 11) (2 ^ 11) p,
                free_count-insert l s.disjoint 11 (omega arith) (m * 2 ^ 11) p,
                ap (λ c. between 0 c p) next,
              )))
        | inr last ↦ (b, L, rw last, s, full_memory L m (ground arith) h free)
      ]
    where
      next : m * 2 ^ 11 + 2 ^ 11 ≡ suc m * 2 ^ 11
      next = omega arith

  -- `buddy_init` returns whatever memory holds, its result is sound, and a page is free, in exactly one
  -- block, if it lies between the kernel and the end of memory, and not otherwise.
  pub buddy_init-IsSound :
      (b : Buddy)
      → (b' : Buddy) × (L : Lists) × (buddy_init l b ≡ some b')
        × IsSound l b' L
        × ((p : ℕ) → free_count L p ≡ (if ltb p (pnum_max l) then 1 else 0))
  unfolding buddy_init init_freelist
  buddy_init-IsSound b =
      let (b1, L1, e1, s1, free1) =
        init_small_sound 11 0 refl (no_blocks-IsSound l (record b { bitmap = init_bitmap }) refl)
          (λ p.
            no_blocks-free 12 p
            ∙ sym (between-none (floor (pnum_max l) 0) (pnum_max l) p (omega arith))) in
      let (b2, L2, e2, s2, free2) =
        init_large_sound (pnum_max l) 0 (omega arith) (omega arith) s1
          (λ p. omega (arith, free1 p, between-none 0 (0 * 2 ^ 11) p refl)) in
      (b2, L2, rw e1 e2, s2, λ p. free2 p ∙ between-zero (pnum_max l) p)
