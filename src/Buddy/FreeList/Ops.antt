-- ===== src/Buddy/FreeList/Ops.antt =====
-- The list operations of kernel/kalloc.c return, and what each does to the lists that the pointers
-- and the bitmap stand for.
use native.Mathlib.Decide.{ℕ_discrete}
use learn_os.Base.{
  ℕ, ◌+◌, ◌<◌, ◌≤◌, ◌^◌, ◌≡◌, ◌≢◌, ◌⊎◌, inl, inr, refl, sym, ap, ◌∙◌, Bool, true, false, not, some,
  List, [], ◌∷◌, arith, has, erase, update, eq→==, ne→==,
}
use learn_os.Buddy.Layout.{Linker, IsLinked, page, head, pnum_max, pnum_max-le, pa_to_pnum-page}
use learn_os.Buddy.Bitmap.{aligned, byte_of, bit_of}
use learn_os.Buddy.Bitmap.Bytes.{off}
use learn_os.Buddy.Bitmap.Laws.{write, write-lt, off-write, setbitmap-eq}
use learn_os.Buddy.FreeList.{Buddy, insertfirst, erasefirst, erase_run}
use learn_os.Buddy.FreeList.Chain.{
  Chain, Chain-agree, Distinct, insert_next, insert_prev, Chain-insert, first_next, first_prev,
  Chain-erase_first, erase_next, erase_prev, Chain-erase, prev-in, next-in, has-ne,
}
use learn_os.Buddy.FreeList.Represents.{Lists, IsDisjoint, Represents, pages, pow-pos}
use learn_os.Buddy.FreeList.Separate.{
  has-pages, pages-erase, lists-Distinct, other_list, head-fresh, page-of-has,
}

Chain-first :
    (next prev : ℕ → ℕ) (q : ℕ) (xs : List ℕ)
    → Chain next prev q xs
    → (next q ≡ 0) ⊎ (has (next q) xs ≡ true)
Chain-first next prev q [] c = inl c
Chain-first next prev q (x ∷ xs) c = ground arith

nonzero :
    (l : Linker) (linked : IsLinked l) (a : ℕ) (xs : List ℕ) → has a (pages l xs) ≡ true → a ≢ 0
nonzero l linked a xs h e = let (x, q, m) = page-of-has l a xs h in omega arith

has-erase_ne : (a b : ℕ) (xs : List ℕ) → a ≢ b → has b (erase a xs) ≡ has b xs
has-erase_ne a b [] ne = refl
has-erase_ne a b (x ∷ xs) ne = ground (arith, has-erase_ne a b xs ne)

has-erase_self :
    (l : Linker) (a : ℕ) (xs : List ℕ) → Distinct (pages l xs) → has a (erase a xs) ≡ false
has-erase_self l a [] d = refl
has-erase_self l a (x ∷ xs) d = ground (arith, has-pages l x xs, has-erase_self l a xs d.1)

module _ (l : Linker) {L : Lists} {b : Buddy} (linked : IsLinked l) (d : IsDisjoint l L)
    (r : Represents l b L) (o : ℕ) (ho : o < 12) where
  -- Pointers that differ at most in the block at `a`, the sentinel of order `o` and that order's blocks.
  record Touches (a : ℕ) (next prev : ℕ → ℕ) : Type 0 where
    same_next : (y : ℕ) → y ≢ a → y ≢ head l o → has y (pages l (L o)) ≡ false → next y ≡ b.next y
    same_prev :
        (y : ℕ) → y ≢ a → y ≢ head l o → y ≢ 0 → has y (pages l (L o)) ≡ false → prev y ≡ b.prev y

  -- Such a change leaves the chains of the other orders alone, if no list holds `a`.
  Touches-Chain :
      {next prev : ℕ → ℕ} (a : ℕ) (xs : List ℕ)
      → Touches a next prev
      → ((k : ℕ) → k < 12 → k ≢ o → has a (pages l (L k)) ≡ false)
      → ((k : ℕ) → k < 12 → a ≢ head l k)
      → Chain next prev (head l o) (pages l xs)
      → (k : ℕ) → k < 12
      → Chain next prev (head l k) (pages l (update L o xs k))
  Touches-Chain a xs t fresh nohead c k hk = elim (ℕ_discrete k o) [
    | yes e ↦ rw (eq→== k o e, e) c
    | no ne ↦ rw (ne→== k o ne) (
        Chain-agree (head l k) (pages l (L k))
          (t.same_next (head l k) (λ e. nohead k hk (sym e)) (omega arith)
            (head-fresh l linked d o k hk))
          (λ y h.
            t.same_next y (has-ne a y (pages l (L k)) (fresh k hk ne) h)
              (has-ne (head l o) y (pages l (L k)) (head-fresh l linked d k o ho) h)
              (other_list l linked d k o y hk ho ne h))
          (λ y h.
            t.same_prev y (has-ne a y (pages l (L k)) (fresh k hk ne) h)
              (has-ne (head l o) y (pages l (L k)) (head-fresh l linked d k o ho) h)
              (nonzero l linked y (L k) h) (other_list l linked d k o y hk ho ne h))
          (r.chains k hk))
  ]

  -- The bits after the bit of the block at `x` is written, where `xs` is the new list of order `o`.
  write-bits :
      (x : ℕ) (f : Bool) (xs : List ℕ)
      → x < 2 ^ 15
      → aligned x o ≡ true
      → has x xs ≡ not f
      → ((y : ℕ) → x ≢ y → has y xs ≡ has y (L o))
      → (k y : ℕ) → k < 12
      → y < 2 ^ 15
      → aligned y k ≡ true
      → off (write b.bitmap x o f (byte_of y k)) (bit_of y k) ≡ has y (update L o xs k)
  write-bits x f xs hx ax self others k y hk hy ay = elim (ℕ_discrete o k) [
    | no ne ↦ rw (
      off-write b.bitmap r.bytes x y o k f ho hk hx hy ax ay,
      ne→== o k ne,
      ne→== k o (λ e. ne (sym e)),
      r.bits k y hk hy ay,
    )
    | yes e ↦ elim (ℕ_discrete x y) [
      | yes q ↦ rw (
        off-write b.bitmap r.bytes x y o k f ho hk hx hy ax ay,
        eq→== o k e,
        eq→== k o (sym e),
        eq→== x y q,
        ← q,
        self,
      )
      | no nq ↦
          rw
            (
              off-write b.bitmap r.bytes x y o k f ho hk hx hy ax ay,
              eq→== o k e,
              eq→== k o (sym e),
              ne→== x y nq,
              others y nq,
            )
            (r.bits k y hk hy ay ∙ ap (λ j. has y (L j)) (sym e))
    ]
  ]

  below_limit : (x : ℕ) → x + 2 ^ o ≤ pnum_max l → (x < pnum_max l) × (x < 2 ^ 15)
  below_limit x h = omega (arith, pow-pos o, pnum_max-le l linked)

  -- What `buddy_insertfirst` leaves.
  abbrev inserted : ℕ → Buddy
  inserted x = record {
    next = insert_next b.next b.prev (head l o) (page l x);
    prev = insert_prev b.next b.prev (head l o) (page l x);
    bitmap = write b.bitmap x o false;
  }

  insert-Touches : (x : ℕ) → Touches (page l x) (inserted x).next (inserted x).prev
  insert-Touches x = record {
    same_next = λ y ne nh out. ground arith;
    same_prev =
        λ y ne nh nz out. ground (arith, first, has-ne y (b.next (head l o)) (pages l (L o)) out);
  }
    where
      first : (b.next (head l o) ≡ 0) ⊎ (has (b.next (head l o)) (pages l (L o)) ≡ true)
      first = Chain-first b.next b.prev (head l o) (pages l (L o)) (r.chains o ho)

  -- Inserting a block that no list holds returns, and puts the block at the head of its list.
  pub insertfirst_lem :
      (x : ℕ)
      → x + 2 ^ o ≤ pnum_max l
      → aligned x o ≡ true
      → ((k : ℕ) → k < 12 → has x (L k) ≡ false)
      → (b' : Buddy) × (insertfirst l b (page l x) o ≡ some b')
        × Represents l b' (update L o (x ∷ L o))
  unfolding insertfirst
  insertfirst_lem x fits ax out = (
    inserted x,
    rw (pa_to_pnum-page l (below_limit x fits).0, setbitmap-eq b.bitmap x o false ax),
    record {
      chains =
          Touches-Chain (page l x) (x ∷ L o) (insert-Touches x)
            (λ k hk ne. has-pages l x (L k) ∙ out k hk) (λ k hk e. omega arith)
            (Chain-insert b.next b.prev (head l o) (page l x) (pages l (L o)) (λ e. omega arith)
              (λ e. omega arith) (head-fresh l linked d o o ho) (has-pages l x (L o) ∙ out o ho)
              (lists-Distinct l linked d o ho) (r.chains o ho));
      bytes = write-lt b.bitmap r.bytes x o false;
      bits =
          write-bits x false (x ∷ L o) (below_limit x fits).1 ax (ground arith)
            (λ y ne. ground arith);
    },
  )

  -- What `buddy_erasefirst` and `buddy_erase` leave.
  abbrev first_erased : ℕ → Buddy
  first_erased x = record {
    next = first_next b.next b.prev (head l o) (page l x);
    prev = first_prev b.next b.prev (head l o) (page l x);
    bitmap = write b.bitmap x o true;
  }

  abbrev erased : ℕ → Buddy
  erased x = record {
    next = erase_next b.next b.prev (page l x);
    prev = erase_prev b.next b.prev (page l x);
    bitmap = write b.bitmap x o true;
  }

  module _ (x : ℕ) (held : has x (L o) ≡ true) where
    in_pages : has (page l x) (pages l (L o)) ≡ true
    in_pages = has-pages l x (L o) ∙ held

    fresh_elsewhere : (k : ℕ) → k < 12 → k ≢ o → has (page l x) (pages l (L k)) ≡ false
    fresh_elsewhere k hk ne = other_list l linked d o k (page l x) ho hk (λ e. ne (sym e)) in_pages

    ends :
        ((b.prev (page l x) ≡ head l o) ⊎ (has (b.prev (page l x)) (pages l (L o)) ≡ true))
        × ((b.next (page l x) ≡ 0) ⊎ (has (b.next (page l x)) (pages l (L o)) ≡ true))
    ends = (
      prev-in b.next b.prev (page l x) (head l o) (pages l (L o)) in_pages (r.chains o ho),
      next-in b.next b.prev (page l x) (head l o) (pages l (L o)) in_pages (r.chains o ho),
    )

    erase-Touches : Touches (page l x) (erased x).next (erased x).prev
    erase-Touches = record {
      same_next =
          λ y ne nh out. ground (arith, ends, has-ne y (b.prev (page l x)) (pages l (L o)) out);
      same_prev =
          λ y ne nh nz out. ground (arith, ends, has-ne y (b.next (page l x)) (pages l (L o)) out);
    }

    first_erase-Touches : Touches (page l x) (first_erased x).next (first_erased x).prev
    first_erase-Touches = record {
      same_next = λ y ne nh out. ground arith;
      same_prev =
          λ y ne nh nz out. ground (arith, ends, has-ne y (b.next (page l x)) (pages l (L o)) out);
    }

    prev-ne_zero : b.prev (page l x) ≢ 0
    prev-ne_zero e = elim ends.0 [
      | inl q ↦ omega arith
      | inr m ↦ nonzero l linked (b.prev (page l x)) (L o) m e
    ]

    block_fits : (aligned x o ≡ true) × (x + 2 ^ o ≤ pnum_max l)
    block_fits = d.block o x ho held

    -- Erasing a block of a list returns, and takes the block out of its list.
    pub erase_run_lem :
        (b' : Buddy) × (erase_run l b (page l x) o ≡ some b')
        × Represents l b' (update L o (erase x (L o)))
    unfolding erase_run
    erase_run_lem = (
      erased x,
      rw (
        ne→== (b.prev (page l x)) 0 prev-ne_zero,
        pa_to_pnum-page l (below_limit x block_fits.1).0,
        setbitmap-eq b.bitmap x o true block_fits.0,
      ),
      record {
        chains =
            Touches-Chain (page l x) (erase x (L o)) erase-Touches fresh_elsewhere
              (λ k hk e. omega arith)
              (rw (pages-erase l x (L o)) (
                Chain-erase b.next b.prev (head l o) (page l x) (pages l (L o)) in_pages
                  (head-fresh l linked d o o ho) (lists-Distinct l linked d o ho) (r.chains o ho)));
        bytes = write-lt b.bitmap r.bytes x o true;
        bits =
            write-bits x true (erase x (L o)) (below_limit x block_fits.1).1 block_fits.0
              (has-erase_self l x (L o) (lists-Distinct l linked d o ho))
              (λ y ne. has-erase_ne x y (L o) ne);
      },
    )

  module _ (x : ℕ) (xs : List ℕ) (first : L o ≡ x ∷ xs) where
    held : has x (L o) ≡ true
    held = rw first (ground arith)

    chain : Chain b.next b.prev (head l o) (page l x ∷ pages l xs)
    chain = rw first at (r.chains o ho)

    distinct : Distinct (page l x ∷ pages l xs)
    distinct = rw first at (lists-Distinct l linked d o ho)

    rest : erase x (L o) ≡ xs
    rest = rw first (ground arith)

    hidden : has (head l o) (pages l xs) ≡ false
    hidden =
        let h : has (head l o) (page l x ∷ pages l xs) ≡ false =
          rw first at (head-fresh l linked d o o ho) in
        ground arith

    -- Erasing the first block of a list returns that block, and takes it out of the list.
    pub erasefirst_lem :
        (b' : Buddy) × (erasefirst l b o ≡ some (page l x, b')) × Represents l b' (update L o xs)
    unfolding erasefirst
    erasefirst_lem = (
      first_erased x,
      rw (
        chain.0,
        ne→== (page l x) 0 chain.2,
        pa_to_pnum-page l (below_limit x (block_fits x held).1).0,
        setbitmap-eq b.bitmap x o true (block_fits x held).0,
      ),
      record {
        chains =
            Touches-Chain (page l x) xs (first_erase-Touches x held) (fresh_elsewhere x held)
              (λ k hk e. omega arith)
              (Chain-erase_first b.next b.prev (head l o) (page l x) (pages l xs) (λ e. omega arith)
                hidden distinct chain);
        bytes = write-lt b.bitmap r.bytes x o true;
        bits =
            write-bits x true xs (below_limit x (block_fits x held).1).1 (block_fits x held).0
              (rw rest at (has-erase_self l x (L o) (lists-Distinct l linked d o ho)))
              (λ y ne. rw rest at (has-erase_ne x y (L o) ne));
      },
    )
