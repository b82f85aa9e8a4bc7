-- ===== src/Proc/Steps.antt =====
-- What `allocproc`, `fork`'s child and `freeproc` do to the invariant of the process table.
use mathlib.Core.Path.{subst}
use mathlib.Core.Bool.{true≢false}
use learn_os.Base.{
  ℕ, ◌+◌, ◌%◌, ◌^◌, ◌<◌, ◌≡◌, ◌≢◌, refl, ◌∙◌, sym, ap, inl, inr, arith, Bool, true, false, Option,
  none, some, ◌==◌, ◌>>=◌, update, if◌then◌else◌, Bool-cases, >>=-eq-some, some-inj,
}
use learn_os.Proc.{
  nproc, Proc, ProcTable, unused, sleeping, runnable, running, is, first, ticked, kill, kill_at,
  allocated, freed,
}
use learn_os.Proc.Table.{First, absent, found, first-First}
use learn_os.Proc.Life.{
  Queues, Sys, set_runtime, freeproc, dequeue, enqueue, without, with_child, child_of,
  with_allocated, allocproc, allocproc_at, fork_child,
}
use learn_os.Proc.Tree.{live, gone, IsTree, Like, Like-self, update-Like, asleep_live, there, here}
use learn_os.Proc.Change.{change-IsTree, freed-IsTree, unused_childless, allocated-IsTree}

pub ticked-Like : (i : ℕ) (p : Proc) → Like p (ticked i p)
unfolding ticked
ticked-Like i p = elim (Bool-cases (is p.state running)) [
  | inl a ↦ rw a (record { pid = refl; parent = refl; live_same = refl; gone_same = refl })
  | inr f ↦ elim (Bool-cases (is p.state sleeping)) [
    | inl b ↦ rw (f, b) (record { pid = refl; parent = refl; live_same = refl; gone_same = refl })
    | inr g ↦ elim (Bool-cases (is p.state runnable)) [
      | inl c ↦
          rw (f, g, c) (record { pid = refl; parent = refl; live_same = refl; gone_same = refl })
      | inr h ↦ rw (f, g, h) (Like-self p)
    ]
  ]
]

pub kill-Like : (t : ProcTable) (pid j : ℕ) → Like (t j) ((kill t pid).1 j)
unfolding kill kill_at
kill-Like t pid j = at (first nproc 0 (λ i. (t i).pid == pid))
  where
    hit :
        (i : ℕ)
        → Like (t i) (record (t i) {
          killed = true;
          state = if is (t i).state sleeping then runnable else (t i).state;
        })
    hit i = elim (Bool-cases (is (t i).state sleeping)) [
      | inl s ↦
          let (u, g) = asleep_live (t i) s in
          rw s (record { pid = refl; parent = refl; live_same = sym u; gone_same = sym g })
      | inr f ↦ rw f (record { pid = refl; parent = refl; live_same = refl; gone_same = refl })
    ]

    at : (o : Option ℕ) → Like (t j) ((kill_at t o).1 j)
    at none = Like-self (t j)
    at (some i) = update-Like t i _ (hit i) j

live-allocated : (p : Proc) (pid ticks : ℕ) → live (allocated p pid ticks) ≡ true
unfolding allocated
live-allocated p pid ticks = refl

module _ {Q : Type 0} (q : Queues Q) where
  abbrev pub IsFamily : Sys Q → Type 0
  IsFamily s = IsTree s.table s.nextpid s.init

  -- A process that runs.
  abbrev pub IsRunning : Sys Q → ℕ → Type 0
  IsRunning s cur = (cur < nproc) × (live (s.table cur) ≡ true) × (gone (s.table cur) ≡ false)

  pub record SameBut (s s' : Sys Q) (t : ProcTable) : Type 0 where
    pub table : s'.table ≡ t
    pub nextpid : s'.nextpid ≡ s.nextpid
    pub init : s'.init ≡ s.init

  pub SameBut-IsFamily :
      (s s' : Sys Q) (t : ProcTable) → SameBut s s' t → IsTree t s.nextpid s.init → IsFamily s'
  SameBut-IsFamily s s' t e v = rw (e.table, e.nextpid, e.init) v

  pub freeproc-SameBut :
      (s s' : Sys Q) (i : ℕ)
      → freeproc q s i ≡ some s'
      → SameBut s s' (update s.table i (freed (s.table i)))
  unfolding freeproc
  freeproc-SameBut s s' i e =
      let (queues, _, f) = >>=-eq-some (dequeue q s i) (λ qs. some (without q s i qs)) e in
      let same : without q s i queues ≡ s' = some-inj f in
      record {
        table = ap (λ s. s.table) (sym same);
        nextpid = ap (λ s. s.nextpid) (sym same);
        init = ap (λ s. s.init) (sym same);
      }

  fork_child-SameBut :
      (s s' : Sys Q) (cur i : ℕ)
      → fork_child q s cur i ≡ some s'
      → (r : Option ℕ) × SameBut s s' (update s.table i (set_runtime (child_of q s cur i) r))
  unfolding fork_child
  fork_child-SameBut s s' cur i e =
      let (queued, _, f) =
        >>=-eq-some (enqueue q s i (s.table cur).priority) (λ n. some (with_child q s cur i n)) e in
      let same : with_child q s cur i queued ≡ s' = some-inj f in
      (
        queued.0,
        record {
          table = ap (λ s. s.table) (sym same);
          nextpid = ap (λ s. s.nextpid) (sym same);
          init = ap (λ s. s.init) (sym same);
        },
      )

  -- What `allocproc` leaves, and for a new process what `fork` needs.
  pub record IsNew (s s1 : Sys Q) (r : Option ℕ) : Type 0 where
    pub family : IsFamily s1
    pub init : s1.init ≡ s.init
    pub fresh :
        (i : ℕ)
        → r ≡ some i
        → (i < nproc)
          × (live (s.table i) ≡ false)
          × (live (s1.table i) ≡ true)
          × ((j : ℕ) → j ≢ i → s1.table j ≡ s.table j)

  not_unused : (t : ProcTable) (i : ℕ) → is (t i).state unused ≡ true → live (t i) ≡ false
  not_unused t i h = rw h refl

  allocproc_at-IsNew :
      (s s1 : Sys Q) (memory : Bool) (o r : Option ℕ)
      → IsFamily s
      → s.nextpid + 1 < 2 ^ 32
      → ((i : ℕ) → o ≡ some i → (i < nproc) × (live (s.table i) ≡ false))
      → allocproc_at q s memory o ≡ some (r, s1)
      → IsNew s s1 r
  unfolding allocproc_at
  allocproc_at-IsNew s s1 memory none r v small free e =
      let pair : (none, s) ≡ (r, s1) = some-inj e in
      record {
        family = subst IsFamily (ap (λ p. p.1) pair) v;
        init = ap (λ p. p.1.init) (sym pair);
        fresh = λ i h. absurd (no_slot (ap (λ p. p.0) pair ∙ h));
      }
    where
      no_slot : {k : ℕ} → ◌≡◌ {A = Option ℕ} none (some k) → ⊥
      no_slot e = cc
  allocproc_at-IsNew s s1 memory (some i) r v small free e = elim (Bool-cases memory) [
    | inl enough ↦
        let pair : (some i, with_allocated q s i) ≡ (r, s1) = some-inj (sym (rw enough refl) ∙ e) in
        let at_i : (i < nproc) × (live (s.table i) ≡ false) = free i refl in
        subst2 r s1 pair (record {
          family = family i at_i.0 at_i.1;
          init = refl;
          fresh = λ k h.
              let same : i ≡ k = some-inj h in
              subst
                (λ k.
                  (k < nproc)
                  × (live (s.table k) ≡ false)
                  × (live ((with_allocated q s i).table k) ≡ true)
                  × ((j : ℕ) → j ≢ k → (with_allocated q s i).table j ≡ s.table j))
                same (at_i.0, at_i.1, new_live i, there s.table i _);
        })
    | inr failed ↦
        let bound : (freeproc q (with_allocated q s i) i >>= λ s''. some (none, s''))
            ≡ some (r, s1) =
          sym (rw failed refl) ∙ e in
        let at_i : (i < nproc) × (live (s.table i) ≡ false) = free i refl in
        let (s'', f, g) =
          >>=-eq-some (freeproc q (with_allocated q s i) i) (λ s''. some (none, s'')) bound in
        let pair : (none, s'') ≡ (r, s1) = some-inj g in
        let same = freeproc-SameBut (with_allocated q s i) s'' i f in
        subst2 r s1 pair (record {
          family = SameBut-IsFamily (with_allocated q s i) s'' _ same (
              freed-IsTree (with_allocated q s i).table ((s.nextpid + 1) % 2 ^ 32) s.init i
                (family i at_i.0 at_i.1)
                (λ j hj ne.
                  rw (there s.table i (allocated (s.table i) s.nextpid s.ticks) j ne)
                    (unused_childless s.table s.nextpid s.init i v at_i.1 j hj))
                (λ z. true≢false (sym v.init_live.1 ∙ ap (λ k. live (s.table k)) z ∙ at_i.1)));
          init = same.init;
          fresh = λ k h. absurd (no_slot h);
        })
  ]
    where
      no_slot : {k : ℕ} → ◌≡◌ {A = Option ℕ} none (some k) → ⊥
      no_slot e = cc

      subst2 :
          (r : Option ℕ) (s1 : Sys Q) {p : Option ℕ × Sys Q}
          → p ≡ (r, s1)
          → IsNew s p.1 p.0
          → IsNew s s1 r
      subst2 r s1 e n = subst (λ p. IsNew s p.1 p.0) e n

      new_live : (i : ℕ) → live ((with_allocated q s i).table i) ≡ true
      new_live i =
          ap live (here s.table i (allocated (s.table i) s.nextpid s.ticks) i refl)
          ∙ live-allocated (s.table i) s.nextpid s.ticks

      family : (i : ℕ) → i < nproc → live (s.table i) ≡ false → IsFamily (with_allocated q s i)
      family i h f =
          subst (λ n. IsTree (with_allocated q s i).table n s.init) (omega arith)
            (allocated-IsTree s.table s.nextpid s.init i s.ticks v h f)

  pub allocproc-IsNew :
      (s s1 : Sys Q) (memory : Bool) (r : Option ℕ)
      → IsFamily s
      → s.nextpid + 1 < 2 ^ 32
      → allocproc q s memory ≡ some (r, s1)
      → IsNew s s1 r
  unfolding allocproc
  allocproc-IsNew s s1 memory r v small e =
      allocproc_at-IsNew s s1 memory (first nproc 0 (λ i. is (s.table i).state unused)) r v small
        (at (first-First nproc 0 (λ i. is (s.table i).state unused))) e
    where
      at :
          {o : Option ℕ}
          → First nproc 0 (λ i. is (s.table i).state unused) o
          → (i : ℕ) → o ≡ some i
          → (i < nproc) × (live (s.table i) ≡ false)
      at (absent n all) i h = absurd (no_slot (sym n ∙ h))
        where
          no_slot : {k : ℕ} → ◌≡◌ {A = Option ℕ} none (some k) → ⊥
          no_slot e = cc
      at (found k n a b t before) i h =
          let same : k ≡ i = some-inj (sym n ∙ h) in
          subst (λ k. (k < nproc) × (live (s.table k) ≡ false)) same (b, rw t refl)

  -- The child becomes one of the family.
  pub fork_child-IsFamily :
      (s s1 s2 : Sys Q) (cur i : ℕ)
      → IsFamily s
      → IsNew s s1 (some i)
      → IsRunning s cur
      → fork_child q s1 cur i ≡ some s2
      → IsFamily s2
  fork_child-IsFamily s s1 s2 cur i v n c e =
      let (h, f, u, others) = n.fresh i refl in
      let (r, same) = fork_child-SameBut s1 s2 cur i e in
      let distinct_slots : cur ≢ i = λ z. true≢false (sym c.1 ∙ ap (λ k. live (s.table k)) z ∙ f) in
      let w : IsFamily s1 = n.family in
      SameBut-IsFamily s1 s2 _ same (
        change-IsTree s1.table s1.nextpid s1.nextpid s1.init i _ w (omega arith)
          (λ z. absurd (true≢false (sym (child_live s1 cur i r) ∙ z)))
          (λ _. rw (child_pid s1 cur i r) (w.live_pid i h u))
          (λ _ j hj ne uj q'. ne (w.distinct j i hj h uj u (q' ∙ child_pid s1 cur i r)))
          (λ k _ p.
            let is_cur : cur ≡ k = some-inj (sym (child_parent s1 cur i r) ∙ p) in
            subst
              (λ k.
                (k ≢ i) × (k < nproc) × (live (s1.table k) ≡ true) × (gone (s1.table k) ≡ false))
              is_cur
              (
                distinct_slots,
                c.0,
                ap live (others cur distinct_slots) ∙ c.1,
                ap gone (others cur distinct_slots) ∙ c.2,
              ))
          (λ j hj ne. rw (others j ne) (unused_childless s.table s.nextpid s.init i v f j hj))
          (λ z. true≢false (sym v.init_live.1 ∙ ap (λ k. live (s.table k)) (sym n.init ∙ z) ∙ f)))
    where
      child_live :
          (s : Sys Q) (cur i : ℕ) (r : Option ℕ) → live (set_runtime (child_of q s cur i) r) ≡ true
      child_live s cur i none = refl
      child_live s cur i (some r) = refl

      child_pid :
          (s : Sys Q) (cur i : ℕ) (r : Option ℕ)
          → (set_runtime (child_of q s cur i) r).pid ≡ (s.table i).pid
      child_pid s cur i none = refl
      child_pid s cur i (some r) = refl

      child_parent :
          (s : Sys Q) (cur i : ℕ) (r : Option ℕ)
          → (set_runtime (child_of q s cur i) r).parent ≡ some cur
      child_parent s cur i none = refl
      child_parent s cur i (some r) = refl
