-- ===== src/Chain/Find.antt =====
-- The first node that passes a test, by what the nodes hold.
use learn_os.Base.{
  ℕ, suc, ◌≡◌, ◌≢◌, refl, sym, ap, ◌∙◌, Bool, true, false, Option, none, some, some-inj, List, [],
  ◌∷◌, has, length, Bool-cases, inl, inr, ne→==, eq→==, if◌then◌else◌,
}
use learn_os.Chain.{Apart, IsChain, contents, remove_first, before}

-- The first element that passes the test.
abbrev pub find {ℓ} : {A : Type ℓ} → (A → Bool) → List A → Option A
find test [] = none
find test (x ∷ xs) = if test x then some x else find test xs

pub find-none-before {ℓ} :
    {N : Type 0} {V : Type ℓ} (value : N → V) (nodes : ℕ → N) (test : V → Bool) (a : ℕ)
    (ns : List ℕ)
    → before (λ x. test (value (nodes x))) a ns ≡ none
    → find test (contents value nodes ns) ≡ none
find-none-before value nodes test a [] e = refl
find-none-before value nodes test a (b ∷ ns) e = elim (Bool-cases (test (value (nodes b)))) [
  | inl y ↦ let z : some a ≡ none = sym (rw y refl) ∙ e in absurd cc
  | inr n ↦
      let later : before (λ x. test (value (nodes x))) b ns ≡ none = sym (rw n refl) ∙ e in
      rw n (find-none-before value nodes test b ns later)
]

module _ {ℓ} {N : Type 0} {V : Type ℓ} (next : N → ℕ) (value : N → V) (nodes : ℕ → N)
    (test : V → Bool) where
  abbrev pub passes : ℕ → Bool
  passes x = test (value (nodes x))

  -- The node at `b` is the first one that passes, and it leaves the list.
  pub record IsTaken (ns : List ℕ) (b : ℕ) : Type ℓ where
    pub inside : has b ns ≡ true
    pub gone : has b (remove_first passes ns) ≡ false
    pub finds : find test (contents value nodes ns) ≡ some (value (nodes b))
    pub shorter : length ns ≡ suc (length (remove_first passes ns))

  pub first-IsTaken :
      (a : ℕ) (ns : List ℕ) → Apart (a ∷ ns) → test (value (nodes a)) ≡ true → IsTaken (a ∷ ns) a
  first-IsTaken a ns (f, d) y = record {
    inside = rw (eq→== a a refl) refl;
    gone = rw y f;
    finds = rw y refl;
    shorter = rw y refl;
  }

  pub later-IsTaken :
      (b x : ℕ) (ns : List ℕ)
      → Apart (b ∷ ns)
      → test (value (nodes b)) ≡ false
      → IsTaken ns x
      → IsTaken (b ∷ ns) x
  later-IsTaken b x ns (f, d) n w =
      let differ : b ≢ x =
        (λ e. let z : true ≡ false = sym w.inside ∙ ap (λ c. has c ns) (sym e) ∙ f in absurd cc) in
      record {
        inside = rw (ne→== b x differ) w.inside;
        gone = rw (n, ne→== b x differ) w.gone;
        finds = rw n w.finds;
        shorter = rw n (ap suc w.shorter);
      }

  pub before-IsTaken :
      (a p : ℕ) (ns : List ℕ)
      → Apart ns
      → IsChain next nodes (next (nodes a)) ns
      → before passes a ns ≡ some p
      → IsTaken ns (next (nodes p))
  before-IsTaken a p [] d c e = cc
  before-IsTaken a p (b ∷ ns) d (s, z, k) e = elim (Bool-cases (test (value (nodes b)))) [
    | inl y ↦
        let p_is : a ≡ p = some-inj (sym (rw y refl) ∙ e) in
        let goes : next (nodes p) ≡ b = ap (λ x. next (nodes x)) (sym p_is) ∙ s in
        rw goes (first-IsTaken b ns d y)
    | inr n ↦
        let later : before passes b ns ≡ some p = sym (rw n refl) ∙ e in
        later-IsTaken b (next (nodes p)) ns d n (before-IsTaken b p ns d.1 k later)
  ]
