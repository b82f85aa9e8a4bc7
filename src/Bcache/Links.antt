-- ===== src/Bcache/Links.antt =====
-- Taking a buffer out of the ring, and putting one in front.
use mathlib.Core.Bool.{true≢false}
use mathlib.Core.Path.{subst}
use learn_os.Base.{
  ℕ, ◌≡◌, ◌≢◌, ◌⊎◌, refl, sym, ap, ◌∙◌, true, false, List, [], ◌∷◌, ◌==◌, has, Bool-cases, inl, inr,
  ne→==, eq→==, ==→eq, update,
}
use learn_os.Chain.{Apart, remove_first}
use learn_os.Chain.Append.{not_has}
use learn_os.Bcache.{head, Bcache, push_front}
use learn_os.Bcache.Ring.{Links, IsRing, update-next, update-prev}

-- The list without buffer `b`.
abbrev pub without : ℕ → List ℕ → List ℕ
without b ns = remove_first (λ x. x == b) ns

-- What stands before and behind a node of the list.
pub prev-has :
    (next prev : ℕ → ℕ) (b p e : ℕ) (ns : List ℕ)
    → has b ns ≡ true
    → Links next prev p ns e
    → has (prev b) (p ∷ ns) ≡ true
prev-has next prev b p e [] h l = absurd (true≢false (sym h))
prev-has next prev b p e (a ∷ ns) h (s, t, l) = elim (Bool-cases (a == b)) [
  | inl y ↦ let is : p ≡ prev b = sym t ∙ ap prev (==→eq a b y) in rw (eq→== p (prev b) is) refl
  | inr n ↦
      let later : has b ns ≡ true = rw n at h in
      elim (Bool-cases (p == prev b)) [
        | inl z ↦ rw z refl
        | inr z ↦ rw z (prev-has next prev b a e ns later l)
      ]
]

pub next-has :
    (next prev : ℕ → ℕ) (b p e : ℕ) (ns : List ℕ)
    → has b ns ≡ true
    → Links next prev p ns e
    → (has (next b) ns ≡ true) ⊎ (next b ≡ e)
next-has next prev b p e [] h l = absurd (true≢false (sym h))
next-has next prev b p e (a ∷ ns) h (s, t, l) = elim (Bool-cases (a == b)) [
  | inl y ↦ first_behind ns (==→eq a b y) l
  | inr n ↦
      elim (next-has next prev b a e ns (let later : has b ns ≡ true = rw n at h in later) l) [
        | inl z ↦ inl (behind_has z)
        | inr z ↦ inr z
      ]
]
  where
    behind_has : has (next b) ns ≡ true → has (next b) (a ∷ ns) ≡ true
    behind_has z = elim (Bool-cases (a == next b)) [ inl y ↦ rw y refl | inr n ↦ rw (n, z) refl ]

    first_behind :
        (ms : List ℕ)
        → a ≡ b
        → Links next prev a ms e
        → (has (next b) (a ∷ ms) ≡ true) ⊎ (next b ≡ e)
    first_behind [] is (x, y) = inr (ap next (sym is) ∙ x)
    first_behind (c ∷ ms) is (x, y, k) =
        let goes : c ≡ next b = sym x ∙ ap next is in
        inl (elim (Bool-cases (a == next b)) [
          | inl z ↦ rw z refl
          | inr z ↦ rw (z, eq→== c (next b) goes) refl
        ])

-- A node that is linked past, where `r` is behind it.
past :
    (next prev : ℕ → ℕ) (p b e : ℕ) (ns : List ℕ)
    → Apart (b ∷ ns)
    → has e (b ∷ ns) ≡ false
    → has p ns ≡ false
    → Links next prev p (b ∷ ns) e
    → Links (update next (prev b) (next b)) (update prev (next b) (prev b)) p ns e
past next prev p b e [] d f g (s, t, (x, y)) = (rw (t, eq→== p p refl) x, rw (x, eq→== e e refl) t)
past next prev p b e (a ∷ ns) (d, (d', d'')) f g (s, t, (x, y, l)) =
    let (ne, f') = not_has e b (a ∷ ns) f in
    let (nea, f'') = not_has e a ns f' in
    let ne' : e ≢ a = (λ c. nea (sym c)) in
    let (pa, g') = not_has p a ns g in
    (
      rw (t, eq→== p p refl) x,
      rw (x, eq→== a a refl) t,
      subst (λ c. Links (update next (prev b) c) (update prev c (prev b)) a ns e) (sym x)
          (subst (λ c. Links (update next c a) (update prev a c) a ns e) (sym t)
            (update-next next (update prev a p) p a a e ns g
              (update-prev next prev a p a e ns d' ne' l))),
    )

-- Where `b` is taken out of a list from `p` to `e`.
pub unlinked-Links :
    (next prev : ℕ → ℕ) (b p e : ℕ) (ns : List ℕ)
    → Apart ns
    → has e ns ≡ false
    → has p ns ≡ false
    → has b ns ≡ true
    → Links next prev p ns e
    → Links (update next (prev b) (next b)) (update prev (next b) (prev b)) p (without b ns) e
unlinked-Links next prev b p e [] d f g h l = absurd (true≢false (sym h))
unlinked-Links next prev b p e (a ∷ ns) (d, d') f g h (s, t, l) = elim (Bool-cases (a == b)) [
  | inl y ↦
      let is : a ≡ b = ==→eq a b y in
      let (_, g') = not_has p a ns g in
      let done = past next prev p a e ns (d, d') f g' (s, t, l) in
      rw y (
        subst (λ c. Links (update next (prev c) (next c)) (update prev (next c) (prev c)) p ns e) is
          done)
  | inr n ↦
      let later : has b ns ≡ true = rw n at h in
      let (ne, f') = not_has e a ns f in
      let rest = unlinked-Links next prev b a e ns d' f' d later l in
      let before = prev-has next prev b a e ns later l in
      let keeps_next : p ≢ prev b =
        (λ c. true≢false (sym before ∙ subst (λ x. has x (a ∷ ns) ≡ false) c g)) in
      let keeps_prev : a ≢ next b = (λ c. elim (next-has next prev b a e ns later l) [
        | inl z ↦ true≢false (sym z ∙ subst (λ x. has x ns ≡ false) c d)
        | inr z ↦ ne (c ∙ z)
      ]) in
      rw n (rw (ne→== p (prev b) keeps_next) s, rw (ne→== a (next b) keeps_prev) t, rest)
]

-- A buffer that is not in the list becomes its first one.
pushed-Links :
    (next prev : ℕ → ℕ) (b : ℕ) (ns : List ℕ)
    → has b ns ≡ false
    → has head ns ≡ false
    → Apart ns
    → b ≢ head
    → IsRing next prev ns
    → IsRing
        (update (update next b (next head)) head b)
        (update (update prev b head) (next head) b)
        (b ∷ ns)
pushed-Links next prev b [] f g d ne (s, t) = (
  refl,
  rw (s, ne→== b head ne, eq→== b b refl) refl,
  (rw (ne→== b head ne, eq→== b b refl) s, rw s refl),
)
pushed-Links next prev b (a ∷ ns) f g (d, d') ne (s, t, l) =
    let (ab, f') = not_has b a ns f in
    let (ah, g') = not_has head a ns g in
    let outside : has b (a ∷ ns) ≡ false = f in
    (
      refl,
      rw (s, ne→== b a (λ c. ab (sym c)), eq→== b b refl) refl,
      (
        rw (ne→== b head ne, eq→== b b refl) s,
        rw (s, eq→== a a refl) refl,
        subst
            (λ c.
              Links (update (update next b c) head b) (update (update prev b head) c b) a ns head)
            (sym s)
            (update-next (update next b a) (update (update prev b head) a b) head b a head ns g (
              update-next next (update (update prev b head) a b) b a a head ns f (
                update-prev next (update prev b head) a b a head ns d (λ c. ah (sym c))
                  (update-prev next prev b head a head ns f' (λ c. ne (sym c)) l)))),
      ),
    )

pub push_front-IsRing :
    (b : ℕ) (c : Bcache) (ns : List ℕ)
    → has b ns ≡ false
    → has head ns ≡ false
    → Apart ns
    → b ≢ head
    → IsRing c.next c.prev ns
    → IsRing (push_front b c).next (push_front b c).prev (b ∷ ns)
unfolding push_front
push_front-IsRing b c ns f g d ne l =
    let same : update c.next b (c.next head) head ≡ c.next head =
      rw (ne→== head b (λ e. ne (sym e))) refl in
    subst
      (λ x.
        IsRing (update (update c.next b (c.next head)) head b) (update (update c.prev b head) x b)
          (b ∷ ns))
      (sym same) (pushed-Links c.next c.prev b ns f g d ne l)
