-- ===== src/Buddy/FreeList/Separate.antt =====
-- In disjoint free lists no address occurs twice, and none is `NULL` or a list's sentinel.
use native.Mathlib.Decide.{ℕ_discrete, dec_lt}
use learn_os.Base.{
  ℕ, ◌<◌, ◌≤◌, ◌≡◌, ◌≢◌, inl, inr, refl, true, false, List, [], ◌∷◌, arith, has, erase, eq→==,
  ne→==, Bool-cases,
}
use learn_os.Buddy.Layout.{Linker, IsLinked, page, head}
use learn_os.Buddy.FreeList.Chain.{Distinct}
use learn_os.Buddy.FreeList.Represents.{
  Lists, cover, cover-has, holds_self, cover-le-covers, two_covers, IsDisjoint, pages,
}

module _ (l : Linker) where
  pub has-pages : (x : ℕ) (xs : List ℕ) → has (page l x) (pages l xs) ≡ has x xs
  has-pages x [] = refl
  has-pages x (y ∷ xs) = elim (ℕ_discrete y x) [
    | yes e ↦ rw (eq→== (page l y) (page l x) (omega arith), eq→== y x e)
    | no ne ↦ rw (ne→== (page l y) (page l x) (omega arith), ne→== y x ne, has-pages x xs)
  ]

  -- An address in a list is the address of a page in it.
  pub page-of-has :
      (a : ℕ) (xs : List ℕ)
      → has a (pages l xs) ≡ true
      → (x : ℕ) × (a ≡ page l x) × (has x xs ≡ true)
  page-of-has a [] h = absurd (ground arith)
  page-of-has a (y ∷ xs) h = elim (ℕ_discrete (page l y) a) [
    | yes e ↦ (y, omega arith, ground arith)
    | no ne ↦
        let (x, e, k) = page-of-has a xs (rw (ne→== (page l y) a ne) at h) in (x, e, ground arith)
  ]

  pub pages-erase : (x : ℕ) (xs : List ℕ) → pages l (erase x xs) ≡ erase (page l x) (pages l xs)
  pages-erase x [] = refl
  pages-erase x (y ∷ xs) = elim (ℕ_discrete y x) [
    | yes e ↦ rw (eq→== (page l y) (page l x) (omega arith), eq→== y x e)
    | no ne ↦ rw (ne→== (page l y) (page l x) (omega arith), ne→== y x ne, pages-erase x xs)
  ]

  Distinct-of-cover : (o : ℕ) (xs : List ℕ) → ((p : ℕ) → cover xs o p ≤ 1) → Distinct (pages l xs)
  unfolding cover
  Distinct-of-cover o [] h = tt
  Distinct-of-cover o (x ∷ xs) h = (fresh, Distinct-of-cover o xs (λ p. omega (arith, h p)))
    where
      fresh : has (page l x) (pages l xs) ≡ false
      fresh = elim (Bool-cases (has x xs)) [
        | inl t ↦ absurd (omega (arith, h x, cover-has xs o x t, holds_self x o))
        | inr n ↦ rw (has-pages x xs) n
      ]

  module _ {L : Lists} (linked : IsLinked l) (d : IsDisjoint l L) where
    pub lists-Distinct : (o : ℕ) → o < 12 → Distinct (pages l (L o))
    lists-Distinct o ho =
        Distinct-of-cover o (L o) (λ p. omega (arith, d.once p, cover-le-covers 12 o L p ho))

    -- A block is in the list of one order at most.
    pub one_order : (o k x : ℕ) → o < 12 → k < 12 → has x (L o) ≡ true → has x (L k) ≡ true → o ≡ k
    one_order o k x ho hk a b = elim (dec_lt o k) [
      | yes lt ↦ absurd (
          omega (
            arith,
            two_covers 12 o k L x lt hk,
            d.once x,
            cover-has (L o) o x a,
            cover-has (L k) k x b,
          ))
      | no ge ↦ elim (dec_lt k o) [
        | yes gt ↦ absurd (
            omega (
              arith,
              two_covers 12 k o L x gt ho,
              d.once x,
              cover-has (L o) o x a,
              cover-has (L k) k x b,
            ))
        | no le ↦ omega arith
      ]
    ]

    pub other_list :
        (o k a : ℕ)
        → o < 12
        → k < 12
        → o ≢ k
        → has a (pages l (L o)) ≡ true
        → has a (pages l (L k)) ≡ false
    other_list o k a ho hk ne h = elim (Bool-cases (has a (pages l (L k)))) [
      | inl t ↦
          let (x, e, m) = page-of-has a (L o) h in
          absurd (ne (one_order o k x ho hk m (rw (e, has-pages x (L k)) at t)))
      | inr n ↦ n
    ]

    pub head-fresh : (o k : ℕ) → k < 12 → has (head l k) (pages l (L o)) ≡ false
    head-fresh o k hk = elim (Bool-cases (has (head l k) (pages l (L o)))) [
      | inl t ↦ let (x, e, m) = page-of-has (head l k) (L o) t in absurd (omega arith)
      | inr n ↦ n
    ]
