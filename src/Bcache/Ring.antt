-- ===== src/Bcache/Ring.antt =====
-- The list of buffers: a ring through the head, in both directions.
use mathlib.Core.Bool.{true≢false}
use learn_os.Base.{
  ℕ, zero, suc, ◌<◌, ◌≡◌, refl, sym, ap, ◌∙◌, Bool, true, false, none, some, List, [], ◌∷◌, ◌++◌,
  length, length-append, some-inj, ==→eq, ◌≢◌, ◌==◌, has, Bool-cases, inl, inr, ne→==, eq→==,
  update, arith,
}
use learn_os.Chain.{Apart}
use learn_os.Chain.Append.{not_has, has-append_last}
use learn_os.Chain.Find.{find}
use learn_os.Bcache.{head, nbuf, Bcache, scan_buffers}

-- From `p` over the list to `e`.
abbrev pub Links : (next prev : ℕ → ℕ) (p : ℕ) → List ℕ → (e : ℕ) → Type 0
Links next prev p [] e = (next p ≡ e) × (prev e ≡ p)
Links next prev p (a ∷ ns) e = (next p ≡ a) × (prev a ≡ p) × Links next prev a ns e

abbrev pub IsRing : (next prev : ℕ → ℕ) → List ℕ → Type 0
IsRing next prev ns = Links next prev head ns head

abbrev pub backward : List ℕ → List ℕ
backward [] = []
backward (a ∷ ns) = backward ns ++ a ∷ []

pub update-next :
    (next prev : ℕ → ℕ) (k x p e : ℕ) (ns : List ℕ)
    → has k (p ∷ ns) ≡ false
    → Links next prev p ns e
    → Links (update next k x) prev p ns e
update-next next prev k x p e [] f (s, t) =
    let (ne, _) = not_has k p [] f in (rw (ne→== p k ne) s, t)
update-next next prev k x p e (a ∷ ns) f (s, t, l) =
    let (ne, g) = not_has k p (a ∷ ns) f in
    (rw (ne→== p k ne) s, t, update-next next prev k x a e ns g l)

pub update-prev :
    (next prev : ℕ → ℕ) (k x p e : ℕ) (ns : List ℕ)
    → has k ns ≡ false
    → e ≢ k
    → Links next prev p ns e
    → Links next (update prev k x) p ns e
update-prev next prev k x p e [] f d (s, t) = (s, rw (ne→== e k d) t)
update-prev next prev k x p e (a ∷ ns) f d (s, t, l) =
    let (ne, g) = not_has k a ns f in
    (s, rw (ne→== a k ne) t, update-prev next prev k x a e ns g d l)

Links-last :
    (f g : ℕ → ℕ) (p a e : ℕ) (ns : List ℕ)
    → Links f g p ns a
    → f a ≡ e
    → g e ≡ a
    → Links f g p (ns ++ a ∷ []) e
Links-last f g p a e [] (s, t) x y = (s, t, (x, y))
Links-last f g p a e (b ∷ ns) (s, t, l) x y = (s, t, Links-last f g b a e ns l x y)

-- In the other direction the list is backward.
pub backward-Links :
    (next prev : ℕ → ℕ) (p e : ℕ) (ns : List ℕ)
    → Links next prev p ns e
    → Links prev next e (backward ns) p
backward-Links next prev p e [] (s, t) = (t, s)
backward-Links next prev p e (a ∷ ns) (s, t, l) =
    Links-last prev next e a p (backward ns) (backward-Links next prev a e ns l) t s

-- With a round for each buffer and one more, the loop finds the first one in the list.
pub scan_buffers-find :
    (left : ℕ) (next prev : ℕ → ℕ) (test : ℕ → Bool) (p : ℕ) (ns : List ℕ)
    → Links next prev p ns head
    → has head ns ≡ false
    → length ns < left
    → scan_buffers left next test (next p) ≡ some (find test ns)
unfolding scan_buffers
scan_buffers-find zero next prev test p ns l f enough = absurd (omega arith)
scan_buffers-find (suc left) next prev test p [] (s, t) f enough = rw (eq→== (next p) head s) refl
scan_buffers-find (suc left) next prev test p (a ∷ ns) (s, t, l) f enough =
    let (ne, g) = not_has head a ns f in
    let rest = scan_buffers-find left next prev test a ns l g (omega arith) in
    rw (s, ne→== a head ne) (elim (Bool-cases (test a)) [ inl y ↦ rw y refl | inr n ↦ rw n rest ])

has-backward : (x : ℕ) (ns : List ℕ) → has x (backward ns) ≡ true → has x ns ≡ true
has-backward x [] h = h
has-backward x (a ∷ ns) h = elim (has-append_last x a (backward ns) h) [
  | inr is ↦ rw (eq→== a x is) refl
  | inl z ↦ elim (Bool-cases (a == x)) [ inl y ↦ rw y refl | inr n ↦ rw n (has-backward x ns z) ]
]

length-backward : (ns : List ℕ) → length (backward ns) ≡ length ns
length-backward [] = refl
length-backward (a ∷ ns) = omega (arith, length-append (backward ns) (a ∷ []), length-backward ns)

pub find-some :
    (test : ℕ → Bool) (b : ℕ) (ns : List ℕ)
    → find test ns ≡ some b
    → (has b ns ≡ true) × (test b ≡ true)
find-some test b [] e = cc
find-some test b (a ∷ ns) e = elim (Bool-cases (test a)) [
  | inl y ↦
      let is : a ≡ b = some-inj (sym (rw y refl) ∙ e) in
      (rw (eq→== a b is) refl, ap test (sym is) ∙ y)
  | inr n ↦
      let later : find test ns ≡ some b = sym (rw n refl) ∙ e in
      let (h, t) = find-some test b ns later in
      (elim (Bool-cases (a == b)) [ inl z ↦ rw z refl | inr z ↦ rw z h ], t)
]

pub find-none :
    (test : ℕ → Bool) (b : ℕ) (ns : List ℕ) → find test ns ≡ none → has b ns ≡ true → test b ≡ false
find-none test b [] e h = absurd (true≢false (sym h))
find-none test b (a ∷ ns) e h = elim (Bool-cases (test a)) [
  | inl y ↦ let z : some a ≡ none = sym (rw y refl) ∙ e in absurd cc
  | inr n ↦
      let later : find test ns ≡ none = sym (rw n refl) ∙ e in
      elim (Bool-cases (a == b)) [
        | inl z ↦ ap test (sym (==→eq a b z)) ∙ n
        | inr z ↦ find-none test b ns later (let t : has b ns ≡ true = rw z at h in t)
      ]
]

-- When the pointers form the list of all buffers, the most recently used one first, and no block of a device
-- is in two of them. No block is of device 0.
pub record IsCache (c : Bcache) (ns : List ℕ) : Type 0 where
  pub ring : IsRing c.next c.prev ns
  pub once : Apart ns
  pub no_head : has head ns ≡ false
  pub all : (i : ℕ) → i < nbuf → has i ns ≡ true
  pub unique :
      (i j : ℕ)
      → has i ns ≡ true
      → has j ns ≡ true
      → (c.buf i).dev ≢ 0
      → (c.buf i).dev ≡ (c.buf j).dev
      → (c.buf i).blockno ≡ (c.buf j).blockno
      → i ≡ j

-- A change of a count alone.
pub counted-IsCache :
    (c : Bcache) (ns : List ℕ) (b x : ℕ)
    → IsCache c ns
    → IsCache (record c { buf = update c.buf b (record (c.buf b) { refcnt = x }) }) ns
counted-IsCache c ns b x v = record {
  ring = v.ring;
  once = v.once;
  no_head = v.no_head;
  all = v.all;
  unique = λ i j hi hj real d e.
      v.unique i j hi hj (λ z. real (same_dev i ∙ z)) (sym (same_dev i) ∙ d ∙ same_dev j)
        (sym (same_blockno i) ∙ e ∙ same_blockno j);
}
  where
    same_dev : (i : ℕ) → (update c.buf b (record (c.buf b) { refcnt = x }) i).dev ≡ (c.buf i).dev
    same_dev i = elim (Bool-cases (i == b)) [ inl y ↦ rw (y, ==→eq i b y) refl | inr n ↦ rw n refl ]

    same_blockno :
        (i : ℕ) → (update c.buf b (record (c.buf b) { refcnt = x }) i).blockno ≡ (c.buf i).blockno
    same_blockno i = elim (Bool-cases (i == b)) [
      | inl y ↦ rw (y, ==→eq i b y) refl
      | inr n ↦ rw n refl
    ]

-- Both loops of `bget`.
module _ (c : Bcache) (ns : List ℕ) (v : IsCache c ns) (left : ℕ) (enough : length ns < left) where
  pub forward_scan :
      (test : ℕ → Bool) → scan_buffers left c.next test (c.next head) ≡ some (find test ns)
  forward_scan test = scan_buffers-find left c.next c.prev test head ns v.ring v.no_head enough

  pub backward_scan :
      (test : ℕ → Bool)
      → scan_buffers left c.prev test (c.prev head) ≡ some (find test (backward ns))
  backward_scan test =
      scan_buffers-find left c.prev c.next test head (backward ns)
        (backward-Links c.next c.prev head head ns v.ring) no_head_back
        (let l = length-backward ns in omega arith)
    where
      no_head_back : has head (backward ns) ≡ false
      no_head_back = elim (Bool-cases (has head (backward ns))) [
        | inr n ↦ n
        | inl y ↦ absurd (true≢false (sym (has-backward head ns y) ∙ v.no_head))
      ]

  pub find-backward-has :
      (test : ℕ → Bool) (b : ℕ) → find test (backward ns) ≡ some b → has b ns ≡ true
  find-backward-has test b e = has-backward b ns (find-some test b (backward ns) e).0
