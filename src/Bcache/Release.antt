-- ===== src/Bcache/Release.antt =====
-- Releasing a buffer.
use mathlib.Core.Bool.{true≢false}
use mathlib.Core.Path.{subst}
use learn_os.Base.{
  ℕ, ◌≡◌, ◌≢◌, refl, sym, ◌∙◌, Bool, true, false, none, some, List, [], ◌∷◌, ◌==◌, has, Bool-cases,
  inl, inr, ne→==, eq→==, ==→eq, update,
}
use learn_os.Chain.{Apart}
use learn_os.Chain.Append.{not_has}
use learn_os.Chain.Unlink.{has-remove_first, not_has-remove_first, Apart-remove_first}
use learn_os.Bcache.{head, Bcache, push_front, counted_down, unlink, brelse}
use learn_os.Bcache.Ring.{Links, IsRing, IsCache, counted-IsCache}
use learn_os.Bcache.Links.{without, unlinked-Links, push_front-IsRing}

has-without : (i b : ℕ) (ns : List ℕ) → i ≢ b → has i ns ≡ true → has i (without b ns) ≡ true
has-without i b [] ne h = h
has-without i b (a ∷ ns) ne h = elim (Bool-cases (a == b)) [
  | inl y ↦
      let other : (a == i) ≡ false = ne→== a i (λ e. ne (sym e ∙ ==→eq a b y)) in
      let rest : has i ns ≡ true = rw other at h in rw y rest
  | inr n ↦ elim (Bool-cases (a == i)) [
    | inl z ↦ rw (n, z) refl
    | inr z ↦ let rest : has i ns ≡ true = rw z at h in rw (n, z) (has-without i b ns ne rest)
  ]
]

not_has-without : (b : ℕ) (ns : List ℕ) → Apart ns → has b (without b ns) ≡ false
not_has-without b [] d = refl
not_has-without b (a ∷ ns) (d, d') = elim (Bool-cases (a == b)) [
  | inl y ↦ rw y (subst (λ x. has x ns ≡ false) (==→eq a b y) d)
  | inr n ↦ rw n (rw n (not_has-without b ns d'))
]

-- No buffer follows itself.
next_differs :
    (next prev : ℕ → ℕ) (b p e : ℕ) (ns : List ℕ)
    → Apart ns
    → has e ns ≡ false
    → has b ns ≡ true
    → Links next prev p ns e
    → b ≢ next b
next_differs next prev b p e [] d f h l = absurd (true≢false (sym h))
next_differs next prev b p e (a ∷ ns) (d, d') f h (s, t, l) = elim (Bool-cases (a == b)) [
  | inl y ↦ subst (λ x. x ≢ next x) (==→eq a b y) (here ns d f l)
  | inr n ↦
      let (ne, f') = not_has e a ns f in
      next_differs next prev b a e ns d' f' (let t : has b ns ≡ true = rw n at h in t) l
]
  where
    here :
        (ms : List ℕ)
        → has a ms ≡ false
        → has e (a ∷ ms) ≡ false
        → Links next prev a ms e
        → a ≢ next a
    here [] g k (x, y) c = let (ne, _) = not_has e a [] k in ne (c ∙ x)
    here (b' ∷ ms) g k (x, y, _) c = let (ne, _) = not_has a b' ms g in ne (sym x ∙ sym c)

-- The buffer is the most recently used one.
pub front-IsCache :
    (c : Bcache) (b : ℕ) (ns : List ℕ)
    → IsCache c ns
    → has b ns ≡ true
    → IsCache (push_front b (unlink b c)) (b ∷ without b ns)
unfolding push_front unlink
front-IsCache c b ns v inside =
    let ne : b ≢ head =
      (λ e. true≢false (sym inside ∙ subst (λ x. has x ns ≡ false) (sym e) v.no_head)) in
    let gone = not_has-without b ns v.once in
    let no_head = not_has-remove_first (λ x. x == b) head ns v.no_head in
    let differs = next_differs c.next c.prev b head head ns v.once v.no_head inside v.ring in
    let same : update c.prev (c.next b) (c.prev b) b ≡ c.prev b =
      rw (ne→== b (c.next b) differs) refl in
    record {
      ring =
          push_front-IsRing b (unlink b c) (without b ns) gone no_head
            (Apart-remove_first (λ x. x == b) ns v.once) ne
            (subst
              (λ x.
                IsRing (update c.next x (c.next b)) (update c.prev (c.next b) (c.prev b))
                  (without b ns))
              (sym same)
              (unlinked-Links c.next c.prev b head head ns v.once v.no_head v.no_head inside
                v.ring));
      once = (gone, Apart-remove_first (λ x. x == b) ns v.once);
      no_head = rw (ne→== b head ne) no_head;
      all = λ i h. elim (Bool-cases (b == i)) [
        | inl y ↦ rw y refl
        | inr n ↦
            rw n (has-without i b ns (λ e. true≢false (sym (eq→== b i (sym e)) ∙ n)) (v.all i h))
      ];
      unique = λ i j hi hj. v.unique i j (from i hi) (from j hj);
    }
  where
    from : (i : ℕ) → has i (b ∷ without b ns) ≡ true → has i ns ≡ true
    from i h = elim (Bool-cases (b == i)) [
      | inl y ↦ subst (λ x. has x ns ≡ true) (==→eq b i y) inside
      | inr n ↦
          has-remove_first (λ x. x == b) i ns (let t : has i (without b ns) ≡ true = rw n at h in t)
    ]

-- How `brelse` ends.
pub data Released (holding : Bool) (b : ℕ) (c : Bcache) (ns : List ℕ) : Type 0 where
  not_held : holding ≡ false → brelse holding b c ≡ none → Released holding b c ns
  in_use :
      holding ≡ true
      → ((counted_down b c).buf b).refcnt ≢ 0
      → brelse holding b c ≡ some (counted_down b c)
      → IsCache (counted_down b c) ns
      → Released holding b c ns
  unused :
      (c' : Bcache)
      → holding ≡ true
      → ((counted_down b c).buf b).refcnt ≡ 0
      → brelse holding b c ≡ some c'
      → c'.buf ≡ (counted_down b c).buf
      → IsCache c' (b ∷ without b ns)
      → Released holding b c ns

-- `brelse` takes one reference from the buffer, and makes it the most recently used one if that was the last;
-- the order of the others stays. It panics if the process does not hold the buffer's lock. The buffer is in
-- the list.
pub brelse-Released :
    (holding : Bool) (b : ℕ) (c : Bcache) (ns : List ℕ)
    → IsCache c ns
    → has b ns ≡ true
    → Released holding b c ns
unfolding brelse push_front unlink
brelse-Released holding b c ns v inside =
    let lower = counted-IsCache c ns b _ v in
    elim (Bool-cases holding) [
      | inr n ↦ not_held n (rw n refl)
      | inl y ↦ elim (Bool-cases (((counted_down b c).buf b).refcnt == 0)) [
        | inr more ↦
            in_use y (λ e. true≢false (sym (eq→== ((counted_down b c).buf b).refcnt 0 e) ∙ more))
              (rw (y, more) refl) lower
        | inl last ↦
            unused (push_front b (unlink b (counted_down b c))) y
              (==→eq ((counted_down b c).buf b).refcnt 0 last) (rw (y, last) refl) refl
              (front-IsCache (counted_down b c) b ns lower inside)
      ]
    ]
