-- ===== src/Spinlock/Invariant.antt =====
-- The invariant of a spinlock, and the changes of one CPU that keep it.
use native.Mathlib.Decide.{ℕ_discrete}
use mathlib.Core.Bool.{true≢false}
use learn_os.Base.{
  ℕ, ◌<◌, ◌≡◌, ◌≢◌, refl, ◌∙◌, sym, ap, arith, Bool, true, false, Option, none, some, update, eq→==,
  ne→==, ==→eq,
}
use learn_os.Spinlock.{Place, outside, spinning, taken, critical, leaving, popping, Machine, is_cpu}
use learn_os.Spinlock.Nesting.{IsOff}

-- Between the swap that takes the lock and the store that releases it.
abbrev pub has_lock : Place → Bool
has_lock outside = false
has_lock spinning = false
has_lock taken = true
has_lock critical = true
has_lock leaving = true
has_lock popping = false

abbrev pub is_critical : Place → Bool
is_critical outside = false
is_critical spinning = false
is_critical taken = false
is_critical critical = true
is_critical leaving = false
is_critical popping = false

-- Within `acquire` and `release` and between them.
abbrev pub is_off : Place → Bool
is_off outside = false
is_off spinning = true
is_off taken = true
is_off critical = true
is_off leaving = true
is_off popping = true

pub record IsExclusive (m : Machine) : Type 0 where
  pub locked : (i : ℕ) → has_lock (m.place i) ≡ true → m.lock.locked ≡ true
  pub unique : (i j : ℕ) → has_lock (m.place i) ≡ true → has_lock (m.place j) ≡ true → i ≡ j
  pub named : (i : ℕ) → is_critical (m.place i) ≡ true → m.lock.cpu ≡ some i
  pub only : (i : ℕ) → m.lock.cpu ≡ some i → is_critical (m.place i) ≡ true
  pub nested : (i : ℕ) → is_off (m.place i) ≡ true → 0 < (m.cpus i).noff
  pub off : (i : ℕ) → IsOff (m.cpus i)

pub there {ℓ} : {A : Type ℓ} (f : ℕ → A) (i : ℕ) (x : A) (j : ℕ) → j ≢ i → update f i x j ≡ f j
there f i x j ne = rw (ne→== j i ne) refl

pub here {ℓ} : {A : Type ℓ} (f : ℕ → A) (i : ℕ) (x : A) → update f i x i ≡ x
here f i x = rw (eq→== i i refl) refl

pub critical-has_lock : (p : Place) → is_critical p ≡ true → has_lock p ≡ true
critical-has_lock critical h = refl
critical-has_lock _ h = ground arith

pub is_cpu_iff : (o : Option ℕ) (i : ℕ) → is_cpu o i ≡ true → o ≡ some i
is_cpu_iff none i h = absurd (true≢false (sym h))
is_cpu_iff (some j) i h = ap some (==→eq _ _ h)

no_other : (b : Bool) → b ≢ true → b ≡ false
no_other true h = absurd (h refl)
no_other false h = refl

-- What CPU `i` changes in a step keeps mutual exclusion.
pub record IsChange (m : Machine) (i : ℕ) (m' : Machine) : Type 0 where
  pub places : (j : ℕ) → j ≢ i → m'.place j ≡ m.place j
  pub cpus : (j : ℕ) → j ≢ i → m'.cpus j ≡ m.cpus j
  pub locked : has_lock (m'.place i) ≡ true → m'.lock.locked ≡ true
  pub still_locked : (j : ℕ) → j ≢ i → has_lock (m.place j) ≡ true → m'.lock.locked ≡ true
  pub alone : has_lock (m'.place i) ≡ true → (j : ℕ) → j ≢ i → has_lock (m.place j) ≢ true
  pub named : is_critical (m'.place i) ≡ true → m'.lock.cpu ≡ some i
  pub still_named : (j : ℕ) → j ≢ i → is_critical (m.place j) ≡ true → m'.lock.cpu ≡ some j
  pub only : m'.lock.cpu ≡ some i → is_critical (m'.place i) ≡ true
  pub no_other : (j : ℕ) → j ≢ i → m'.lock.cpu ≡ some j → m.lock.cpu ≡ some j
  pub nested : is_off (m'.place i) ≡ true → 0 < (m'.cpus i).noff
  pub off : IsOff (m'.cpus i)

by_place {κ} : (P : ℕ → Type κ) (i : ℕ) → P i → ((j : ℕ) → j ≢ i → P j) → (j : ℕ) → P j
by_place P i p q j = elim (ℕ_discrete j i) [ yes e ↦ rw e p | no ne ↦ q j ne ]

pub IsChange-IsExclusive :
    (m : Machine) (i : ℕ) (m' : Machine) → IsExclusive m → IsChange m i m' → IsExclusive m'
IsChange-IsExclusive m i m' v c = record {
  locked =
      by_place (λ j. has_lock (m'.place j) ≡ true → m'.lock.locked ≡ true) i c.locked
        (λ j ne. rw (c.places j ne) (c.still_locked j ne));
  unique = λ j k. elim (ℕ_discrete j i) [
    | yes e ↦ elim (ℕ_discrete k i) [
      | yes f ↦ λ _ _. e ∙ sym f
      | no nf ↦ rw (e, c.places k nf) (λ hj hk. absurd (c.alone hj k nf hk))
    ]
    | no ne ↦ elim (ℕ_discrete k i) [
      | yes f ↦ rw (f, c.places j ne) (λ hj hk. absurd (c.alone hk j ne hj))
      | no nf ↦ rw (c.places j ne, c.places k nf) (v.unique j k)
    ]
  ];
  named =
      by_place (λ j. is_critical (m'.place j) ≡ true → m'.lock.cpu ≡ some j) i c.named
        (λ j ne. rw (c.places j ne) (c.still_named j ne));
  only =
      by_place (λ j. m'.lock.cpu ≡ some j → is_critical (m'.place j) ≡ true) i c.only
        (λ j ne h. rw (c.places j ne) (v.only j (c.no_other j ne h)));
  nested =
      by_place (λ j. is_off (m'.place j) ≡ true → 0 < (m'.cpus j).noff) i c.nested
        (λ j ne. rw (c.places j ne, c.cpus j ne) (v.nested j));
  off = by_place (λ j. IsOff (m'.cpus j)) i c.off (λ j ne. rw (c.cpus j ne) (v.off j));
}
