-- ===== src/Chain/Family.antt =====
-- Several lists that share no node.
use native.Mathlib.Decide.{ℕ_discrete}
use mathlib.Core.Bool.{true≢false}
use learn_os.Base.{
  ℕ, ◌<◌, ◌≡◌, ◌≢◌, ◌⊎◌, sym, ◌∙◌, true, false, List, ◌++◌, [], ◌∷◌, has, Bool-cases, inl, inr,
  ne→==, eq→==, update,
}
use mathlib.Core.Path.{subst}
use learn_os.Chain.Append.{has-append_last}

abbrev pub Disjoint : (n : ℕ) → (ℕ → List ℕ) → Type 0
Disjoint n q = (i j a : ℕ) → i < n → j < n → has a (q i) ≡ true → has a (q j) ≡ true → i ≡ j

-- Every element is from list `i`, or in no list.
abbrev pub IsFrom : (n : ℕ) → (ℕ → List ℕ) → (i : ℕ) → List ℕ → Type 0
IsFrom n q i ns =
    (a : ℕ) → has a ns ≡ true → (has a (q i) ≡ true) ⊎ ((j : ℕ) → j < n → has a (q j) ≡ false)

module _ (n : ℕ) (q : ℕ → List ℕ) (d : Disjoint n q) (i : ℕ) (low : i < n) where
  pub outside_one : (j a : ℕ) → j < n → j ≢ i → has a (q i) ≡ true → has a (q j) ≡ false
  outside_one j a h ne inside = elim (Bool-cases (has a (q j))) [
    | inl y ↦ absurd (ne (d j i a h low y inside))
    | inr n ↦ n
  ]

  pub update-Disjoint : (ns : List ℕ) → IsFrom n q i ns → Disjoint n (update q i ns)
  update-Disjoint ns origin j k a hj hk x y = elim (ℕ_discrete j i) [
    | yes e ↦ elim (ℕ_discrete k i) [
      | yes e' ↦ e ∙ sym e'
      | no ne ↦ absurd (
          apart_from k hk ne (let t : has a ns ≡ true = rw (eq→== j i e) at x in t)
            (let t : has a (q k) ≡ true = rw (ne→== k i ne) at y in t))
    ]
    | no ne ↦ elim (ℕ_discrete k i) [
      | yes e' ↦ absurd (
          apart_from j hj ne (let t : has a ns ≡ true = rw (eq→== k i e') at y in t)
            (let t : has a (q j) ≡ true = rw (ne→== j i ne) at x in t))
      | no ne' ↦
          d j k a hj hk (let t : has a (q j) ≡ true = rw (ne→== j i ne) at x in t)
            (let t : has a (q k) ≡ true = rw (ne→== k i ne') at y in t)
    ]
  ]
    where
      apart_from : (k : ℕ) → k < n → k ≢ i → has a ns ≡ true → has a (q k) ≡ true → ⊥
      apart_from k hk ne here there = elim (origin a here) [
        | inl old ↦ ne (d k i a hk low there old)
        | inr new ↦ true≢false (sym there ∙ new k hk)
      ]

  pub appended-IsFrom :
      (x : ℕ) → ((j : ℕ) → j < n → has x (q j) ≡ false) → IsFrom n q i (q i ++ x ∷ [])
  appended-IsFrom x fresh a h = elim (has-append_last a x (q i) h) [
    | inl old ↦ inl old
    | inr new ↦ inr (λ j low. subst (λ y. has y (q j) ≡ false) new (fresh j low))
  ]
