-- ===== src/Spinlock/Exclusion.antt =====
-- Mutual exclusion, for every schedule of any number of CPUs.
use mathlib.Core.Bool.{true≢false}
use learn_os.Base.{
  ℕ, ◌-◌, ◌<◌, ◌≡◌, ◌≢◌, refl, ◌∙◌, sym, ap, arith, Bool, true, false, Option, none, some, ◌==◌,
  ◌&&◌, update, if◌then◌else◌, inl, inr, Bool-cases, List, [], ◌∷◌, eq→==, lt→ltb,
}
use learn_os.Spinlock.{
  Cpu, Place, initlock, outside, spinning, taken, critical, leaving, popping, Machine, is_cpu,
  holding, push_off, pop_off, test_and_set, step_at, step, run,
}
use learn_os.Spinlock.Nesting.{IsOff, push_off-IsOff}
use learn_os.Spinlock.Invariant.{
  IsExclusive, IsChange-IsExclusive, there, here, critical-has_lock, is_cpu_iff, has_lock,
  is_critical,
}

module _ (m : Machine) (i : ℕ) (v : IsExclusive m) where
  Safe : Place → Type 0
  Safe p = (m' : Machine) × (step_at p m i ≡ some m') × IsExclusive m'

  not_named : is_critical (m.place i) ≡ false → m.lock.cpu ≢ some i
  not_named f h = true≢false (sym (v.only i h) ∙ f)

  not_held : m.place i ≡ outside → holding m.lock i ≡ false
  unfolding holding
  not_held e = elim (Bool-cases (is_cpu m.lock.cpu i)) [
    | inl t ↦ absurd (not_named (rw e refl) (is_cpu_iff _ _ t))
    | inr f ↦ rw f (and_false m.lock.locked)
  ]
    where
      and_false : (b : Bool) → (b && false) ≡ false
      and_false true = refl
      and_false false = refl

  held : m.place i ≡ critical → holding m.lock i ≡ true
  unfolding holding
  held e =
      let cpu : m.lock.cpu ≡ some i = v.named i (rw e refl) in
      rw (v.locked i (rw e refl), cpu) (eq→== i i refl)

  outside-Safe : m.place i ≡ outside → Safe outside
  unfolding Safe step_at push_off
  outside-Safe e = (
    record m { cpus = update m.cpus i (push_off (m.cpus i)); place = update m.place i spinning },
    rw (not_held e) refl,
    IsChange-IsExclusive m i _ v (record {
      places = there m.place i spinning;
      cpus = there m.cpus i (push_off (m.cpus i));
      locked = rw (here m.place i spinning) (λ h. absurd (true≢false (sym h)));
      still_locked = λ j _ h. v.locked j h;
      alone = rw (here m.place i spinning) (λ h. absurd (true≢false (sym h)));
      named = rw (here m.place i spinning) (λ h. absurd (true≢false (sym h)));
      still_named = λ j _ h. v.named j h;
      only = λ h. absurd (not_named (rw e refl) h);
      no_other = λ j _ h. h;
      nested = rw (here m.cpus i (push_off (m.cpus i))) (λ _. omega arith);
      off = rw (here m.cpus i (push_off (m.cpus i))) (push_off-IsOff (m.cpus i));
    }),
  )

  -- No other CPU has the lock.
  alone_with : has_lock (m.place i) ≡ true → (j : ℕ) → j ≢ i → has_lock (m.place j) ≢ true
  alone_with h j ne k = ne (v.unique j i k h)

  alone_critical : has_lock (m.place i) ≡ true → (j : ℕ) → j ≢ i → is_critical (m.place j) ≢ true
  alone_critical h j ne k = alone_with h j ne (critical-has_lock (m.place j) k)

  spinning-Safe : m.place i ≡ spinning → Safe spinning
  unfolding Safe step_at test_and_set
  spinning-Safe e = elim (Bool-cases m.lock.locked) [
    | inl busy ↦ (
      record m { lock = record m.lock { locked = true } },
      rw busy refl,
      record {
        locked = λ j _. refl;
        unique = v.unique;
        named = v.named;
        only = v.only;
        nested = v.nested;
        off = v.off;
      },
    )
    | inr free ↦
        let unheld : (j : ℕ) → has_lock (m.place j) ≢ true =
          λ j h. true≢false (sym (v.locked j h) ∙ free) in
        (
          record m { lock = record m.lock { locked = true }; place = update m.place i taken },
          rw free refl,
          IsChange-IsExclusive m i _ v (record {
            places = there m.place i taken;
            cpus = λ j _. refl;
            locked = λ _. refl;
            still_locked = λ j _ _. refl;
            alone = λ _ j _. unheld j;
            named = rw (here m.place i taken) (λ h. absurd (true≢false (sym h)));
            still_named = λ j _ h. v.named j h;
            only = λ h. absurd (not_named (rw e refl) h);
            no_other = λ j _ h. h;
            nested = λ _. v.nested i (rw e refl);
            off = v.off i;
          }),
        )
  ]

  taken-Safe : m.place i ≡ taken → Safe taken
  unfolding Safe step_at
  taken-Safe e =
      let mine : has_lock (m.place i) ≡ true = rw e refl in
      (
        record m { lock = record m.lock { cpu = some i }; place = update m.place i critical },
        refl,
        IsChange-IsExclusive m i _ v (record {
          places = there m.place i critical;
          cpus = λ j _. refl;
          locked = λ _. v.locked i mine;
          still_locked = λ j _ h. v.locked j h;
          alone = λ _. alone_with mine;
          named = λ _. refl;
          still_named = λ j ne h. absurd (alone_critical mine j ne h);
          only = λ _. rw (here m.place i critical) refl;
          no_other = λ j ne h. absurd (ne (ground arith));
          nested = λ _. v.nested i (rw e refl);
          off = v.off i;
        }),
      )

  critical-Safe : m.place i ≡ critical → Safe critical
  unfolding Safe step_at
  critical-Safe e =
      let mine : has_lock (m.place i) ≡ true = rw e refl in
      (
        record m { lock = record m.lock { cpu = none }; place = update m.place i leaving },
        rw (held e) refl,
        IsChange-IsExclusive m i _ v (record {
          places = there m.place i leaving;
          cpus = λ j _. refl;
          locked = λ _. v.locked i mine;
          still_locked = λ j _ h. v.locked j h;
          alone = λ _. alone_with mine;
          named = rw (here m.place i leaving) (λ h. absurd (true≢false (sym h)));
          still_named = λ j ne h. absurd (alone_critical mine j ne h);
          only = λ h. cc;
          no_other = λ j ne h. cc;
          nested = λ _. v.nested i (rw e refl);
          off = v.off i;
        }),
      )

  leaving-Safe : m.place i ≡ leaving → Safe leaving
  unfolding Safe step_at
  leaving-Safe e =
      let mine : has_lock (m.place i) ≡ true = rw e refl in
      (
        record m { lock = record m.lock { locked = false }; place = update m.place i popping },
        refl,
        IsChange-IsExclusive m i _ v (record {
          places = there m.place i popping;
          cpus = λ j _. refl;
          locked = rw (here m.place i popping) (λ h. absurd (true≢false (sym h)));
          still_locked = λ j ne h. absurd (alone_with mine j ne h);
          alone = rw (here m.place i popping) (λ h. absurd (true≢false (sym h)));
          named = rw (here m.place i popping) (λ h. absurd (true≢false (sym h)));
          still_named = λ j _ h. v.named j h;
          only = λ h. absurd (not_named (rw e refl) h);
          no_other = λ j _ h. h;
          nested = λ _. v.nested i (rw e refl);
          off = v.off i;
        }),
      )

  popping-Safe : m.place i ≡ popping → Safe popping
  unfolding Safe step_at pop_off
  popping-Safe e =
      let c = m.cpus i in
      let inside : 0 < c.noff = v.nested i (rw e refl) in
      let restored : Cpu = record c {
        noff = c.noff - 1;
        intr = if (c.noff - 1 == 0) && c.intena then true else c.intr;
      } in
      (
        record m { cpus = update m.cpus i restored; place = update m.place i outside },
        rw (v.off i inside, lt→ltb 0 c.noff inside) refl,
        IsChange-IsExclusive m i _ v (record {
          places = there m.place i outside;
          cpus = there m.cpus i restored;
          locked = rw (here m.place i outside) (λ h. absurd (true≢false (sym h)));
          still_locked = λ j _ h. v.locked j h;
          alone = rw (here m.place i outside) (λ h. absurd (true≢false (sym h)));
          named = rw (here m.place i outside) (λ h. absurd (true≢false (sym h)));
          still_named = λ j _ h. v.named j h;
          only = λ h. absurd (not_named (rw e refl) h);
          no_other = λ j _ h. h;
          nested = rw (here m.place i outside) (λ h. absurd (true≢false (sym h)));
          off = rw (here m.cpus i restored) (λ h. ground (arith, v.off i inside));
        }),
      )

  Safe-at : (p : Place) → m.place i ≡ p → Safe p
  Safe-at outside e = outside-Safe e
  Safe-at spinning e = spinning-Safe e
  Safe-at taken e = taken-Safe e
  Safe-at critical e = critical-Safe e
  Safe-at leaving e = leaving-Safe e
  Safe-at popping e = popping-Safe e

step_safe :
    (m : Machine) (i : ℕ) → IsExclusive m → (m' : Machine) × (step m i ≡ some m') × IsExclusive m'
unfolding step Safe
step_safe m i v = Safe-at m i v (m.place i) refl

run_safe :
    (is : List ℕ) (m : Machine)
    → IsExclusive m
    → (m' : Machine) × (run is m ≡ some m') × IsExclusive m'
unfolding run
run_safe [] m v = (m, refl, v)
run_safe (i ∷ is) m v =
    let (m1, e, v1) = step_safe m i v in let (m2, f, v2) = run_safe is m1 v1 in (m2, rw e f, v2)

-- No CPU has begun, and the lock is new.
pub record IsStart (m : Machine) : Type 0 where
  pub free : m.lock ≡ initlock
  pub all_outside : (i : ℕ) → m.place i ≡ outside
  pub off : (i : ℕ) → IsOff (m.cpus i)

IsStart-IsExclusive : (m : Machine) → IsStart m → IsExclusive m
unfolding initlock
IsStart-IsExclusive m s = record {
  locked = λ i. rw (s.all_outside i) (λ h. absurd (true≢false (sym h)));
  unique = λ i j. rw (s.all_outside i) (λ h. absurd (true≢false (sym h)));
  named = λ i. rw (s.all_outside i) (λ h. absurd (true≢false (sym h)));
  only = λ i h. absurd (no_cpu (sym (ap (λ l. l.cpu) s.free) ∙ h));
  nested = λ i. rw (s.all_outside i) (λ h. absurd (true≢false (sym h)));
  off = s.off;
}
  where
    no_cpu : {i : ℕ} → ◌≡◌ {A = Option ℕ} none (some i) → ⊥
    no_cpu e = cc

-- From a new lock, for every number of CPUs and every order of their steps: no `acquire`, `release` or
-- `pop_off` panics, two CPUs that have the lock are the same CPU, and a CPU that has it is recorded in
-- the lock and has its interrupts off.
pub run-IsExclusive :
    (is : List ℕ) (m : Machine)
    → IsStart m
    → (m' : Machine) × (run is m ≡ some m')
      × ((i j : ℕ) → m'.place i ≡ critical → m'.place j ≡ critical → i ≡ j)
      × ((i : ℕ) → m'.place i ≡ critical → (holding m'.lock i ≡ true) × ((m'.cpus i).intr ≡ false))
run-IsExclusive is m s =
    let (m', e, v) = run_safe is m (IsStart-IsExclusive m s) in
    (
      m',
      e,
      λ i j p q. v.unique i j (rw p refl) (rw q refl),
      λ i p. (held m' i v p, v.off i (v.nested i (rw p refl))),
    )
