-- ===== src/Buddy/FreeList/Chain.antt =====
-- A list of addresses linked in both directions from its sentinel, and what the writes of
-- `buddy_insertfirst`, `buddy_erasefirst` and `buddy_erase` do to it.
use native.Mathlib.Decide.{ℕ_discrete}
use learn_os.Base.{
  ℕ, ◌≡◌, ◌≢◌, ◌⊎◌, true, false, List, [], ◌∷◌, arith, has, erase, ◌==◌, update, if◌then◌else◌, ap,
  ◌∙◌, eq→==, ne→==,
}

-- From `q` on, `next` goes through `xs` to `NULL`, and `prev` leads back.
abbrev pub Chain : (ℕ → ℕ) → (ℕ → ℕ) → ℕ → List ℕ → Type 0
Chain next prev q [] = next q ≡ 0
Chain next prev q (x ∷ xs) = (next q ≡ x) × (prev x ≡ q) × (x ≢ 0) × Chain next prev x xs

abbrev pub Distinct : List ℕ → Type 0
Distinct [] = Unit {0}
Distinct (x ∷ xs) = (has x xs ≡ false) × Distinct xs

-- A chain depends on `next` at its sentinel and its elements, and on `prev` at its elements.
pub Chain-agree :
    {next prev next' prev' : ℕ → ℕ} (q : ℕ) (xs : List ℕ)
    → next' q ≡ next q
    → ((y : ℕ) → has y xs ≡ true → next' y ≡ next y)
    → ((y : ℕ) → has y xs ≡ true → prev' y ≡ prev y)
    → Chain next prev q xs
    → Chain next' prev' q xs
Chain-agree q [] e n p c = e ∙ c
Chain-agree q (x ∷ xs) e n p c = (
  e ∙ c.0,
  p x (ground arith) ∙ c.1,
  c.2,
  Chain-agree x xs (n x (ground arith)) (λ y h. n y (ground arith)) (λ y h. p y (ground arith)) c.3,
)

pub has-ne : (a b : ℕ) (xs : List ℕ) → has a xs ≡ false → has b xs ≡ true → b ≢ a
has-ne a b xs h k e = ground (arith, ap (λ z. has z xs) e)

-- Both ends of an element: its `prev` is the sentinel or an element, its `next` an element or `NULL`.
pub prev-in :
    (next prev : ℕ → ℕ) (a q : ℕ) (xs : List ℕ)
    → has a xs ≡ true
    → Chain next prev q xs
    → (prev a ≡ q) ⊎ (has (prev a) xs ≡ true)
prev-in next prev a q [] h c = absurd (ground arith)
prev-in next prev a q (x ∷ xs) h c = ground (arith, prev-in next prev a x xs)

pub next-in :
    (next prev : ℕ → ℕ) (a q : ℕ) (xs : List ℕ)
    → has a xs ≡ true
    → Chain next prev q xs
    → (next a ≡ 0) ⊎ (has (next a) xs ≡ true)
next-in next prev a q [] h c = absurd (ground arith)
next-in next prev a q (x ∷ []) h c = ground arith
next-in next prev a q (x ∷ y ∷ xs) h c = ground (arith, next-in next prev a x (y ∷ xs))

module _ (next prev : ℕ → ℕ) (h a : ℕ) where
  -- the pointers after `buddy_insertfirst(a)` at the sentinel `h`
  abbrev pub insert_next : ℕ → ℕ
  insert_next = update (update next a (next h)) h a

  abbrev pub insert_prev : ℕ → ℕ
  insert_prev =
      if update next a (next h) h == 0
      then update prev a h
      else update (update prev a h) (update next a (next h) h) a

  -- the pointers after `buddy_erasefirst` at the sentinel `h`, whose first block is `a`
  abbrev pub first_next : ℕ → ℕ
  first_next = update next h (next a)

  abbrev pub first_prev : ℕ → ℕ
  first_prev = if first_next a == 0 then prev else update prev (first_next h) h

-- the pointers after `buddy_erase(a)`
module _ (next prev : ℕ → ℕ) (a : ℕ) where
  abbrev pub erase_next : ℕ → ℕ
  erase_next = update next (prev a) (next a)

  abbrev pub erase_prev : ℕ → ℕ
  erase_prev = if erase_next a == 0 then prev else update prev (erase_next a) (prev a)

module _ (next prev : ℕ → ℕ) where
  pub Chain-insert :
      (h a : ℕ) (xs : List ℕ)
      → a ≢ h
      → a ≢ 0
      → has h xs ≡ false
      → has a xs ≡ false
      → Distinct xs
      → Chain next prev h xs
      → Chain (insert_next next prev h a) (insert_prev next prev h a) h (a ∷ xs)
  Chain-insert h a [] ne nz hh ha d c = ground arith
  Chain-insert h a (x ∷ xs) ne nz hh ha d c = (
    ground arith,
    ground arith,
    nz,
    (
      ground arith,
      ground arith,
      c.2,
      Chain-agree x xs (ground arith)
          (λ y k. ground (arith, has-ne a y (x ∷ xs), has-ne h y (x ∷ xs)))
          (λ y k. ground (arith, has-ne a y (x ∷ xs), has-ne x y xs)) c.3,
    ),
  )

  pub Chain-erase_first :
      (h x : ℕ) (xs : List ℕ)
      → x ≢ h
      → has h xs ≡ false
      → Distinct (x ∷ xs)
      → Chain next prev h (x ∷ xs)
      → Chain (first_next next prev h x) (first_prev next prev h x) h xs
  Chain-erase_first h x [] ne hh d c = ground arith
  Chain-erase_first h x (y ∷ xs) ne hh d c = (
    ground arith,
    ground arith,
    ground arith,
    Chain-agree y xs (ground arith) (λ z k. ground (arith, has-ne h z (y ∷ xs)))
        (λ z k. ground (arith, has-ne y z xs)) c.3.3,
  )

  pub Chain-erase :
      (q a : ℕ) (xs : List ℕ)
      → has a xs ≡ true
      → has q xs ≡ false
      → Distinct xs
      → Chain next prev q xs
      → Chain (erase_next next prev a) (erase_prev next prev a) q (erase a xs)
  Chain-erase q a [] ha hq d c = absurd (ground arith)
  Chain-erase q a (x ∷ []) ha hq d c = ground arith
  Chain-erase q a (x ∷ y ∷ xs) ha hq d c = elim (ℕ_discrete x a) [
    | yes e ↦ rw (eq→== x a e) (
      ground arith,
      ground arith,
      ground arith,
      Chain-agree y xs (ground arith) (λ z k. ground (arith, has-ne q z (y ∷ xs)))
          (λ z k. ground (arith, has-ne y z xs)) c.3.3,
    )
    | no ne ↦ rw (ne→== x a ne) (
      ground (arith, prev-in next prev a x (y ∷ xs), has-ne q (prev a) (y ∷ xs)),
      ground (arith, next-in next prev a x (y ∷ xs), has-ne x (next a) (y ∷ xs)),
      c.2,
      Chain-erase x a (y ∷ xs) (ground arith) d.0 d.1 c.3,
    )
  ]
