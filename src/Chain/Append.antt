-- ===== src/Chain/Append.antt =====
-- A node behind the last one, and changes of nodes outside a list.
use native.Mathlib.Decide.{ℕ_discrete}
use mathlib.Core.Bool.{true≢false}
use learn_os.Base.{
  ℕ, ◌≡◌, ◌≢◌, ◌⊎◌, refl, sym, ap, ◌∙◌, true, false, List, [], ◌∷◌, ◌++◌, ◌==◌, has, Bool-cases,
  inl, inr, ne→==, eq→==, ==→eq, update,
}
use learn_os.Chain.{IsLast, Apart, IsChain, contents}

pub not_has : (x a : ℕ) (ns : List ℕ) → has x (a ∷ ns) ≡ false → (a ≢ x) × (has x ns ≡ false)
not_has x a ns h = elim (Bool-cases (a == x)) [
  | inl y ↦ absurd (true≢false (sym (let t : has x (a ∷ ns) ≡ true = rw y refl in t) ∙ h))
  | inr n ↦
      let same : has x (a ∷ ns) ≡ has x ns = rw n refl in
      ((λ e. true≢false (sym (eq→== a x e) ∙ n)), sym same ∙ h)
]

pub IsLast-has : (t a : ℕ) (ns : List ℕ) → IsLast t (a ∷ ns) → has t (a ∷ ns) ≡ true
IsLast-has t a [] e = rw (eq→== a t (sym e)) refl
IsLast-has t a (b ∷ ns) (ne, l) = rw (ne→== a t (λ e. ne (sym e))) (IsLast-has t b ns l)

pub IsLast-appended : (x : ℕ) (ns : List ℕ) → has x ns ≡ false → IsLast x (ns ++ x ∷ [])
IsLast-appended x [] f = refl
IsLast-appended x (a ∷ []) f = let (ne, _) = not_has x a [] f in (λ e. ne (sym e), refl)
IsLast-appended x (a ∷ b ∷ ns) f =
    let (ne, g) = not_has x a (b ∷ ns) f in (λ e. ne (sym e), IsLast-appended x (b ∷ ns) g)

pub has-append_last :
    (k x : ℕ) (ns : List ℕ) → has k (ns ++ x ∷ []) ≡ true → (has k ns ≡ true) ⊎ (x ≡ k)
has-append_last k x [] h = elim (Bool-cases (x == k)) [
  | inl y ↦ inr (==→eq x k y)
  | inr n ↦ absurd (true≢false (sym h ∙ rw n refl))
]
has-append_last k x (a ∷ ns) h = elim (Bool-cases (a == k)) [
  | inl y ↦ inl (rw y refl)
  | inr n ↦ rw n (has-append_last k x ns (sym (rw n refl) ∙ h))
]

pub Apart-append : (x : ℕ) (ns : List ℕ) → has x ns ≡ false → Apart ns → Apart (ns ++ x ∷ [])
Apart-append x [] f p = (refl, tt)
Apart-append x (a ∷ ns) f (g, p) =
    let (ne, out) = not_has x a ns f in
    (
      (elim (Bool-cases (has a (ns ++ x ∷ []))) [
        | inr n ↦ n
        | inl y ↦ elim (has-append_last a x ns y) [
          | inl old ↦ absurd (true≢false (sym old ∙ g))
          | inr new ↦ absurd (ne (sym new))
        ]
      ]),
      Apart-append x ns out p,
    )

pub contents-update {ℓ} :
    {N : Type 0} {V : Type ℓ} (value : N → V) (nodes : ℕ → N) (x : ℕ) (n : N) (ns : List ℕ)
    → has x ns ≡ false
    → contents value (update nodes x n) ns ≡ contents value nodes ns
contents-update value nodes x n [] f = refl
contents-update value nodes x n (a ∷ ns) f =
    let (ne, g) = not_has x a ns f in
    let same : update nodes x n a ≡ nodes a = rw (ne→== a x ne) refl in
    rw (same, contents-update value nodes x n ns g) refl

-- A change of the link alone keeps what the nodes hold.
pub contents-link {ℓ} :
    {N : Type 0} {V : Type ℓ} (value : N → V) (nodes : ℕ → N) (t : ℕ) (n : N) (ns : List ℕ)
    → value n ≡ value (nodes t)
    → contents value (update nodes t n) ns ≡ contents value nodes ns
contents-link value nodes t n [] e = refl
contents-link value nodes t n (a ∷ ns) e = elim (ℕ_discrete a t) [
  | yes here ↦ rw (here, eq→== t t refl, e, contents-link value nodes t n ns e) refl
  | no there ↦ rw (ne→== a t there, contents-link value nodes t n ns e) refl
]

pub contents-append {ℓ} :
    {N : Type 0} {V : Type ℓ} (value : N → V) (nodes : ℕ → N) (x : ℕ) (ns : List ℕ)
    → contents value nodes (ns ++ x ∷ []) ≡ contents value nodes ns ++ value (nodes x) ∷ []
contents-append value nodes x [] = refl
contents-append value nodes x (a ∷ ns) = rw (contents-append value nodes x ns) refl

module _ {N : Type 0} (next : N → ℕ) where
  -- A node that is not in the list may change.
  pub update-IsChain :
      (nodes : ℕ → N) (h x : ℕ) (n : N) (ns : List ℕ)
      → has x ns ≡ false
      → IsChain next nodes h ns
      → IsChain next (update nodes x n) h ns
  update-IsChain nodes h x n [] f c = c
  update-IsChain nodes h x n (a ∷ ns) f c =
      let (ne, g) = not_has x a ns f in
      let (e, z, k) = c in
      let same : update nodes x n a ≡ nodes a = rw (ne→== a x ne) refl in
      (e, z, rw same (update-IsChain nodes (next (nodes a)) x n ns g k))

module _ {N : Type 0} (next : N → ℕ) (link : N → ℕ → N)
    (next-link : (n : N) (x : ℕ) → next (link n x) ≡ x) where
  -- The last node gets a successor that ends the list.
  pub linked-IsChain :
      (nodes : ℕ → N) (h t x : ℕ) (a : ℕ) (ns : List ℕ)
      → has x (a ∷ ns) ≡ false
      → x ≢ 0
      → next (nodes x) ≡ 0
      → IsLast t (a ∷ ns)
      → IsChain next nodes h (a ∷ ns)
      → IsChain next (update nodes t (link (nodes t) x)) h (a ∷ ns ++ x ∷ [])
  linked-IsChain nodes h t x a [] f z ends l (e, y, k) =
      let (ne, g) = not_has x a [] f in
      let last : update nodes t (link (nodes t) x) a ≡ link (nodes t) x =
        rw (eq→== a t (sym l)) refl in
      let other : update nodes t (link (nodes t) x) x ≡ nodes x =
        rw (ne→== x t (λ s. ne (sym l ∙ sym s))) refl in
      (e, y, (ap next last ∙ next-link (nodes t) x, z, ap next other ∙ ends))
  linked-IsChain nodes h t x a (b ∷ ns) f z ends (d, l) (e, y, k) =
      let (ne, g) = not_has x a (b ∷ ns) f in
      let same : update nodes t (link (nodes t) x) a ≡ nodes a =
        rw (ne→== a t (λ s. d (sym s))) refl in
      (e, y, rw same (linked-IsChain nodes (next (nodes a)) t x b ns g z ends l k))
