-- ===== src/Sleeplock/Exclusion.antt =====
-- A sleeplock under every order of the steps of the processes that use it.
use native.Mathlib.Decide.{ℕ_discrete}
use mathlib.Core.Bool.{true≢false}
use learn_os.Base.{
  ℕ, ◌<◌, ◌≡◌, ◌≢◌, ◌⊎◌, refl, sym, ap, ◌∙◌, Bool, true, false, ◌==◌, ◌&&◌, if◌then◌else◌,
  Bool-cases, inl, inr, ne→==, eq→==, ==→eq, update,
}
use learn_os.Proc.{nproc, Channel, ProcTable, running, is, address, sleep}
use learn_os.Sleeplock.{Sleeplock, initsleeplock, acquiresleep, releasesleep, holdingsleep}
use learn_os.Sleeplock.Wakeup.{asleep_on, wakeup_awake}

-- The lock, the table, and who has had the lock from `acquiresleep` and not released it.
pub record Users : Type 0 where
  pub lock : Sleeplock
  pub table : ProcTable
  pub holds : ℕ → Bool

still : (f : ℕ → Bool) (cur i : ℕ) → update f cur false i ≡ true → (i ≢ cur) × (f i ≡ true)
still f cur i h = elim (Bool-cases (i == cur)) [
  | inl y ↦ absurd (true≢false (sym h ∙ rw y refl))
  | inr n ↦ (
    (λ e. true≢false (sym (eq→== i cur e) ∙ n)),
    (let same : update f cur false i ≡ f i = rw n refl in sym same ∙ h),
  )
]

newly : (f : ℕ → Bool) (cur i : ℕ) → update f cur true i ≡ true → (i ≡ cur) ⊎ (f i ≡ true)
newly f cur i h = elim (Bool-cases (i == cur)) [
  | inl y ↦ inl (==→eq i cur y)
  | inr n ↦ inr (let same : update f cur true i ≡ f i = rw n refl in sym same ∙ h)
]

new_one : (f : ℕ → Bool) (cur : ℕ) → update f cur true cur ≡ true
new_one f cur = rw (eq→== cur cur refl) refl

pid-sleep : (t : ProcTable) (cur i : ℕ) (c : Channel) → (sleep t cur c i).pid ≡ (t i).pid
unfolding sleep
pid-sleep t cur i c = elim (ℕ_discrete i cur) [
  | yes e ↦ rw (e, eq→== cur cur refl) refl
  | no ne ↦ rw (ne→== i cur ne) refl
]

-- `acquiresleep` by a process.
abbrev pub acquired : (a : ℕ) → Users → (cur : ℕ) → Users
acquired a u cur =
    let r = acquiresleep a u.lock u.table cur in
    record { lock = r.1; table = r.2; holds = if r.0 then update u.holds cur true else u.holds }

abbrev pub released : (a : ℕ) → Users → (cur : ℕ) → Users
released a u cur =
    let r = releasesleep a u.lock u.table cur in
    record { lock = r.0; table = r.1; holds = update u.holds cur false }

module _ (a : ℕ) where
  -- What the rest of the kernel may do to the table: it puts nobody to sleep on this lock, and a process
  -- that holds it keeps its pid.
  pub record Elsewhere (u : Users) (t : ProcTable) : Type 0 where
    pub awake : (i : ℕ) → i < nproc → asleep_on a (t i) ≡ true → asleep_on a (u.table i) ≡ true
    pub pids : (i : ℕ) → u.holds i ≡ true → (t i).pid ≡ (u.table i).pid

  -- A process that runs comes to the loop of `acquiresleep`, first or when it was woken, takes the lock
  -- there or falls asleep, or releases the lock that it holds.
  pub data Step (u : Users) : Users → Type 0 where
    acquires :
        (cur : ℕ) → cur < nproc → is (u.table cur).state running ≡ true → Step u (acquired a u cur)
    releases :
        (cur : ℕ)
        → cur < nproc
        → is (u.table cur).state running ≡ true
        → u.holds cur ≡ true
        → Step u (released a u cur)
    elsewhere : (t : ProcTable) → Elsewhere u t → Step u (record u { table = t })

  pub data Reach (u : Users) : Users → Type 0 where
    start : Reach u u
    next : {v w : Users} → Reach u v → Step v w → Reach u w

  pub record IsGuarded (u : Users) : Type 0 where
    pub exclusive : (i j : ℕ) → u.holds i ≡ true → u.holds j ≡ true → i ≡ j
    pub holding : (i : ℕ) → u.holds i ≡ true → holdingsleep u.lock u.table i ≡ true
    pub wanted : (i : ℕ) → i < nproc → asleep_on a (u.table i) ≡ true → (j : ℕ) × (u.holds j ≡ true)
    pub held : u.lock.locked ≡ true → (j : ℕ) × (u.holds j ≡ true)

  pub record IsStart (u : Users) : Type 0 where
    pub free : u.lock ≡ initsleeplock
    pub nobody : (i : ℕ) → u.holds i ≡ false
    pub awake : (i : ℕ) → i < nproc → asleep_on a (u.table i) ≡ false

  start-IsGuarded : (u : Users) → IsStart u → IsGuarded u
  unfolding initsleeplock
  start-IsGuarded u s = record {
    exclusive = λ i j h k. absurd (true≢false (sym h ∙ s.nobody i));
    holding = λ i h. absurd (true≢false (sym h ∙ s.nobody i));
    wanted = λ i h k. absurd (true≢false (sym k ∙ s.awake i h));
    held = λ h. absurd (true≢false (sym h ∙ ap (λ l. l.locked) s.free));
  }

  free : (u : Users) → IsGuarded u → u.lock.locked ≡ false → (i : ℕ) → ¬ (u.holds i ≡ true)
  unfolding holdingsleep
  free u g n i h = true≢false (sym (g.holding i h) ∙ rw n refl)

  known :
      (u : Users)
      → IsGuarded u
      → u.lock.locked ≡ true
      → (i : ℕ) → u.holds i ≡ true
      → (u.lock.pid == (u.table i).pid) ≡ true
  unfolding holdingsleep
  known u g y i h =
      let k : (u.lock.locked && (u.lock.pid == (u.table i).pid)) ≡ true = g.holding i h in
      sym (ap (λ b. b && (u.lock.pid == (u.table i).pid)) y) ∙ k

  Step-IsGuarded : {u v : Users} → IsGuarded u → Step u v → IsGuarded v
  unfolding acquiresleep releasesleep holdingsleep sleep
  Step-IsGuarded {u} g (acquires cur b r) = elim (Bool-cases u.lock.locked) [
    | inl y ↦ rw y (record {
      exclusive = g.exclusive;
      holding = λ i h. rw (pid-sleep u.table cur i (address a)) (known u g y i h);
      wanted = λ i h k. g.held y;
      held = λ k. g.held y;
    })
    | inr n ↦ rw n (record {
      exclusive = λ i j h k. elim (newly u.holds cur i h) [
        | inr z ↦ absurd (free u g n i z)
        | inl x ↦ elim (newly u.holds cur j k) [
          | inr z ↦ absurd (free u g n j z)
          | inl y ↦ x ∙ sym y
        ]
      ];
      holding = λ i h. elim (newly u.holds cur i h) [
        | inr z ↦ absurd (free u g n i z)
        | inl x ↦ eq→== _ _ (ap (λ k. (u.table k).pid) (sym x))
      ];
      wanted = λ i h k. (cur, new_one u.holds cur);
      held = λ k. (cur, new_one u.holds cur);
    })
  ]
  Step-IsGuarded {u} g (releases cur b r h) = record {
    exclusive = λ i j k. absurd (alone i k);
    holding = λ i k. absurd (alone i k);
    wanted = λ i k s. absurd (true≢false (sym s ∙ wakeup_awake u.table a cur i k r));
    held = λ k. absurd (true≢false (sym k));
  }
    where
      alone : (i : ℕ) → ¬ (update u.holds cur false i ≡ true)
      alone i k = let (ne, z) = still u.holds cur i k in ne (g.exclusive i cur z h)
  Step-IsGuarded {u} g (elsewhere t o) = record {
    exclusive = g.exclusive;
    holding = λ i h. rw (o.pids i h) (g.holding i h);
    wanted = λ i h s. g.wanted i h (o.awake i h s);
    held = g.held;
  }

  -- From a free lock on which nobody sleeps, after any steps of any processes: at most one process holds
  -- the lock, `holdingsleep` says so to the one that does, and while a process sleeps on the lock some
  -- process holds it, and so will wake it: no wakeup is lost. The rest of the kernel puts nobody to sleep
  -- on the lock and keeps the pid of its holder.
  pub Reach-IsGuarded : {u v : Users} → IsStart u → Reach u v → IsGuarded v
  Reach-IsGuarded {u} s start = start-IsGuarded u s
  Reach-IsGuarded s (next r st) = Step-IsGuarded (Reach-IsGuarded s r) st
