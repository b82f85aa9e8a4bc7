-- ===== src/Chain/Unlink.antt =====
-- Taking the first node that passes a test out of a list.
use mathlib.Core.Bool.{true≢false}
use mathlib.Core.Path.{subst}
use learn_os.Base.{
  ℕ, ◌≡◌, ◌≢◌, refl, sym, ap, ◌∙◌, Bool, true, false, none, some, some-inj, List, [], ◌∷◌, ◌==◌,
  has, Bool-cases, inl, inr, ne→==, eq→==, update, if◌then◌else◌,
}
use learn_os.Chain.{IsLast, Apart, IsChain, contents, remove_first, before}
use learn_os.Chain.Append.{not_has, update-IsChain}

-- The address before another one is in the list.
pub before-has :
    (test : ℕ → Bool) (a p : ℕ) (ns : List ℕ) → before test a ns ≡ some p → has p (a ∷ ns) ≡ true
before-has test a p [] e = cc
before-has test a p (b ∷ ns) e = elim (Bool-cases (test b)) [
  | inl y ↦ let same : a ≡ p = some-inj (sym (rw y refl) ∙ e) in rw (eq→== a p same) refl
  | inr n ↦
      let later : before test b ns ≡ some p = sym (rw n refl) ∙ e in
      elim (Bool-cases (a == p)) [ inl z ↦ rw z refl | inr z ↦ rw z (before-has test b p ns later) ]
]

pub has-remove_first :
    (test : ℕ → Bool) (x : ℕ) (ns : List ℕ) → has x (remove_first test ns) ≡ true → has x ns ≡ true
has-remove_first test x [] h = h
has-remove_first test x (b ∷ ns) h = elim (Bool-cases (test b)) [
  | inl y ↦
      let inside : has x ns ≡ true = rw y at h in
      elim (Bool-cases (b == x)) [ inl z ↦ rw z refl | inr z ↦ rw z inside ]
  | inr n ↦
      let inside : has x (b ∷ remove_first test ns) ≡ true = rw n at h in
      elim (Bool-cases (b == x)) [
        | inl z ↦ rw z refl
        | inr z ↦
            let there : has x (remove_first test ns) ≡ true = rw z at inside in
            rw z (has-remove_first test x ns there)
      ]
]

pub not_has-remove_first :
    (test : ℕ → Bool) (x : ℕ) (ns : List ℕ)
    → has x ns ≡ false
    → has x (remove_first test ns) ≡ false
not_has-remove_first test x ns f = elim (Bool-cases (has x (remove_first test ns))) [
  | inr n ↦ n
  | inl y ↦ absurd (true≢false (sym (has-remove_first test x ns y) ∙ f))
]

pub Apart-remove_first : (test : ℕ → Bool) (ns : List ℕ) → Apart ns → Apart (remove_first test ns)
Apart-remove_first test [] p = tt
Apart-remove_first test (b ∷ ns) (f, p) = elim (Bool-cases (test b)) [
  | inl y ↦ rw y p
  | inr n ↦ rw n (not_has-remove_first test b ns f, Apart-remove_first test ns p)
]

-- What the nodes hold: the test looks at that.
pub contents-remove_first {ℓ} :
    {N : Type 0} {V : Type ℓ} (value : N → V) (nodes : ℕ → N) (test : V → Bool) (ns : List ℕ)
    → contents value nodes (remove_first (λ a. test (value (nodes a))) ns)
      ≡ remove_first test (contents value nodes ns)
contents-remove_first value nodes test [] = refl
contents-remove_first value nodes test (b ∷ ns) = elim (Bool-cases (test (value (nodes b)))) [
  | inl y ↦ rw y refl
  | inr n ↦ rw (n, contents-remove_first value nodes test ns) refl
]

pub none_before :
    (test : ℕ → Bool) (a : ℕ) (ns : List ℕ) → before test a ns ≡ none → remove_first test ns ≡ ns
none_before test a [] e = refl
none_before test a (b ∷ ns) e = elim (Bool-cases (test b)) [
  | inl y ↦ let z : some a ≡ none = sym (rw y refl) ∙ e in absurd cc
  | inr n ↦
      let later : before test b ns ≡ none = sym (rw n refl) ∙ e in
      rw (n, none_before test b ns later) refl
]

not_before :
    (test : ℕ → Bool) (a b p : ℕ) (ns : List ℕ)
    → has a (b ∷ ns) ≡ false
    → before test b ns ≡ some p
    → a ≢ p
not_before test a b p ns f later is =
    true≢false (sym (before-has test b p ns later) ∙ ap (λ x. has x (b ∷ ns)) (sym is) ∙ f)

IsLast-here :
    (t a b p : ℕ) (ns : List ℕ)
    → p ≡ a
    → t ≢ a
    → IsLast t (b ∷ ns)
    → IsLast (if t == b then p else t) (a ∷ ns)
IsLast-here t a b p [] is u l = rw (eq→== t b l) is
IsLast-here t a b p (c ∷ ns) is u (ne, l) =
    let same : (if t == b then p else t) ≡ t = rw (ne→== t b ne) refl in
    subst (λ x. IsLast x (a ∷ c ∷ ns)) (sym same) (u, l)

module _ {N : Type 0} (next : N → ℕ) (link : N → ℕ → N)
    (next-link : (n : N) (x : ℕ) → next (link n x) ≡ x) where
  -- The node `p` is linked to the node behind its next one.
  abbrev pub unlinked : (ℕ → N) → ℕ → ℕ → N
  unlinked nodes p = update nodes p (link (nodes p) (next (nodes (next (nodes p)))))

  pub unlinked-IsChain :
      (nodes : ℕ → N) (test : ℕ → Bool) (h a p : ℕ) (ns : List ℕ)
      → Apart (a ∷ ns)
      → IsChain next nodes h (a ∷ ns)
      → before test a ns ≡ some p
      → IsChain next (unlinked nodes p) h (a ∷ remove_first test ns)
  unlinked-IsChain nodes test h a p [] d c e = cc
  unlinked-IsChain nodes test h a p (b ∷ ns) (f, (g, d)) (s, z, (t, y, k)) e =
      elim (Bool-cases (test b)) [
        | inl here ↦
            let p_is : a ≡ p = some-inj (sym (rw here refl) ∙ e) in
            let (ne, out) = not_has a b ns f in
            let head : unlinked nodes p a ≡ link (nodes p) (next (nodes (next (nodes p)))) =
              rw (eq→== a p p_is) refl in
            let goes : next (unlinked nodes p a) ≡ next (nodes b) =
              ap next head
              ∙ next-link (nodes p) _
              ∙ ap (λ x. next (nodes (next (nodes x)))) (sym p_is)
              ∙ ap (λ x. next (nodes x)) t in
            rw here
              (s, z, rw goes (update-IsChain next nodes (next (nodes b)) p _ ns (rw⁻¹ p_is out) k))
        | inr there ↦
            let later : before test b ns ≡ some p = sym (rw there refl) ∙ e in
            let differ = not_before test a b p ns f later in
            let same : unlinked nodes p a ≡ nodes a = rw (ne→== a p differ) refl in
            let rest = unlinked-IsChain nodes test (next (nodes a)) b p ns (g, d) (t, y, k) later in
            rw there (s, z, rw same rest)
      ]

  -- The last node is the one before, if the node that left was the last.
  pub unlinked-IsLast :
      (nodes : ℕ → N) (test : ℕ → Bool) (h t a p : ℕ) (ns : List ℕ)
      → Apart (a ∷ ns)
      → IsChain next nodes h (a ∷ ns)
      → IsLast t (a ∷ ns)
      → before test a ns ≡ some p
      → IsLast (if t == next (nodes p) then p else t) (a ∷ remove_first test ns)
  unlinked-IsLast nodes test h t a p [] d c l e = cc
  unlinked-IsLast nodes test h t a p (b ∷ ns) (f, (g, d)) (s, z, (at, y, k)) (u, l) e =
      elim (Bool-cases (test b)) [
        | inl here ↦
            let p_is : a ≡ p = some-inj (sym (rw here refl) ∙ e) in
            let goes : next (nodes p) ≡ b = ap (λ x. next (nodes x)) (sym p_is) ∙ at in
            rw (here, goes) (IsLast-here t a b p ns (sym p_is) u l)
        | inr there ↦
            let later : before test b ns ≡ some p = sym (rw there refl) ∙ e in
            let differ = not_before test a b p ns f later in
            rw there (
              (elim (Bool-cases (t == next (nodes p))) [
                | inl is ↦ rw is (λ same. differ (sym same))
                | inr other ↦ rw other u
              ]),
              unlinked-IsLast nodes test (next (nodes a)) t b p ns (g, d) (at, y, k) l later,
            )
      ]
