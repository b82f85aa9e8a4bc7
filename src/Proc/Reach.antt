-- ===== src/Proc/Reach.antt =====
-- The process table under every order of the kernel's steps.
use mathlib.Core.Bool.{true≢false}
use mathlib.Core.Path.{subst}
use learn_os.Base.{
  ℕ, ◌+◌, ◌^◌, ◌<◌, ◌≡◌, ◌≢◌, refl, ◌∙◌, sym, ap, inl, inr, arith, Bool, true, false, not, Option,
  none, some, ◌==◌, ◌>>=◌, guard, update, Bool-cases, eq→==, >>=-eq-some, some-inj,
}
use learn_os.Proc.{
  nproc, Proc, ProcTable, Channel, of_proc, sleeping, runnable, running, is, ticked, update_proc,
  wakeup, kill, sleep, slept, setkilled,
}
use learn_os.Proc.Life.{
  Queues, Sys, is_mlfq, is_rr, set_runtime, parent_channel, Waited, reparent, freeproc, allocproc,
  fork_child, fork_at, fork, exit_table, with_exited, exit, wait, with_yielded, yield, dispatch,
}
use learn_os.Proc.Tree.{live, gone, IsTree, Like, Like-IsTree, update-Like, each-Like, wakeup-Like}
use learn_os.Proc.Change.{
  change-IsTree, reparent-Adopted, Adopted-IsTree, Adopted-childless, freed-IsTree,
  zombie_childless, unused_childless,
}
use learn_os.Proc.Kids.{reaps, not_copied, childless, killed, sleeps, wait-Waits}
use learn_os.Proc.Steps.{
  IsFamily, IsRunning, SameBut-IsFamily, freeproc-SameBut, IsNew, allocproc-IsNew,
  fork_child-IsFamily, ticked-Like, kill-Like,
}

guard_passed : (b : Bool) {u : Unit {0}} → guard b ≡ some u → b ≡ true
guard_passed true e = refl
guard_passed false e = cc

module _ {Q : Type 0} (q : Queues Q) where
  fork_at-IsFamily :
      (s s1 s' : Sys Q) (cur : ℕ) (copied : Bool) (o r : Option ℕ)
      → IsFamily q s
      → IsRunning q s cur
      → IsNew q s s1 o
      → fork_at q s1 cur copied o ≡ some (r, s')
      → IsFamily q s'
  unfolding fork_at
  fork_at-IsFamily s s1 s' cur copied none r v c n e =
      let same : s1 ≡ s' = ap (λ p. p.1) (some-inj e) in subst (IsFamily q) same n.family
  fork_at-IsFamily s s1 s' cur copied (some i) r v c n e = elim (Bool-cases copied) [
    | inl y ↦
        let (s2, f, g) =
          >>=-eq-some (fork_child q s1 cur i) (λ t. some (some (s1.table i).pid, t))
            (sym (rw y refl) ∙ e) in
        let same : s2 ≡ s' = ap (λ p. p.1) (some-inj g) in
        subst (IsFamily q) same (fork_child-IsFamily q s s1 s2 cur i v n c f)
    | inr z ↦
        let (s2, f, g) =
          >>=-eq-some (freeproc q s1 i) (λ t. some (none, t)) (sym (rw z refl) ∙ e) in
        let same : s2 ≡ s' = ap (λ p. p.1) (some-inj g) in
        let (h, free, u, others) = n.fresh i refl in
        subst (IsFamily q) same (
          SameBut-IsFamily q s1 s2 _ (freeproc-SameBut q s1 s2 i f) (
            freed-IsTree s1.table s1.nextpid s1.init i n.family
              (λ j hj ne.
                rw (others j ne) (unused_childless s.table s.nextpid s.init i v free j hj))
              (λ k.
                true≢false
                  (sym v.init_live.1 ∙ ap (λ k. live (s.table k)) (sym n.init ∙ k) ∙ free))))
  ]

  fork-IsFamily :
      (s s' : Sys Q) (cur : ℕ) (memory copied : Bool) (r : Option ℕ)
      → IsFamily q s
      → IsRunning q s cur
      → s.nextpid + 1 < 2 ^ 32
      → fork q s cur memory copied ≡ some (r, s')
      → IsFamily q s'
  unfolding fork
  fork-IsFamily s s' cur memory copied r v c small e =
      let ((o, s1), f, g) =
        >>=-eq-some (allocproc q s memory) (λ a. fork_at q a.1 cur copied a.0) e in
      fork_at-IsFamily s s1 s' cur copied o r v c (allocproc-IsNew q s s1 memory o v small f) g

  exit-IsFamily :
      (s s' : Sys Q) (cur status : ℕ)
      → IsFamily q s
      → IsRunning q s cur
      → exit q s cur status ≡ some s'
      → IsFamily q s'
  unfolding exit
  exit-IsFamily s s' cur status v c e =
      let (u, passed, f) =
        >>=-eq-some (guard (not (cur == s.init))) (λ _. some (with_exited q s cur status)) e in
      let same : with_exited q s cur status ≡ s' = some-inj f in
      let other : s.init ≢ cur = λ z.
        absurd (true≢false (sym (guard_passed _ passed) ∙ ap not (eq→== cur s.init (sym z)))) in
      let a = reparent-Adopted s.table cur s.init in
      let t1 = reparent s.table cur s.init in
      let l = wakeup-Like t1 (some cur) (parent_channel (t1 cur).parent) in
      let w : IsTree (exit_table q s cur) s.nextpid s.init =
        Like-IsTree t1 (exit_table q s cur) s.nextpid s.init (λ j _. l j)
          (Adopted-IsTree s.table t1 s.nextpid cur s.init a v) in
      let no_child : (j : ℕ) → j < nproc → (exit_table q s cur j).parent ≢ some cur =
        λ j h p. Adopted-childless s.table t1 cur s.init a other j h (sym (l j).parent ∙ p) in
      let alive : live (exit_table q s cur cur) ≡ true =
        (l cur).live_same ∙ a.live_same cur ∙ c.1 in
      subst (IsFamily q) same (
        change-IsTree (exit_table q s cur) s.nextpid s.nextpid s.init cur _ w (omega arith)
          (λ z. absurd (true≢false z)) (λ _. w.live_pid cur c.0 alive)
          (λ _ j hj ne uj p. ne (w.distinct j cur hj c.0 uj alive p))
          (λ k _ p.
            let (b, lk, gk) = w.parents cur k c.0 alive p in
            (λ z. no_child cur c.0 (p ∙ ap some z), b, lk, gk))
          (λ j hj _ _. no_child j hj) other)

  wait-IsFamily :
      (s s' : Sys Q) (cur : ℕ) (copied : Bool) (r : Waited)
      → IsFamily q s
      → IsRunning q s cur
      → wait q s cur copied ≡ some (r, s')
      → IsFamily q s'
  wait-IsFamily s s' cur copied r v c e = elim (wait-Waits q s cur copied) [
    | reaps i h k z y f ↦
        let (s1, f1, g) =
          >>=-eq-some (freeproc q s i) (λ t. some (Waited.reaped (s.table i).pid, t)) (sym f ∙ e) in
        let same : s1 ≡ s' = ap (λ p. p.1) (some-inj g) in
        subst (IsFamily q) same (
          SameBut-IsFamily q s s1 _ (freeproc-SameBut q s s1 i f1) (
            freed-IsTree s.table s.nextpid s.init i v
              (λ j hj _. zombie_childless s.table s.nextpid s.init i v z j hj)
              (λ n. true≢false (sym z ∙ sym (ap (λ k. gone (s.table k)) n) ∙ v.init_live.2))))
    | not_copied i h k z y f ↦ unchanged s' (sym f ∙ e)
    | childless n f ↦ unchanged s' (sym f ∙ e)
    | killed k n f ↦ unchanged s' (sym f ∙ e)
    | sleeps k n i h m f ↦
        let same : asleep ≡ s' = ap (λ p. p.1) (some-inj (sym f ∙ e)) in
        subst (IsFamily q) same (
          Like-IsTree s.table asleep.table s.nextpid s.init
            (λ j _.
              update-Like s.table cur _
                (record { pid = refl; parent = refl; live_same = sym c.1; gone_same = sym c.2 }) j)
            v)
  ]
    where
      asleep : Sys Q
      asleep = record s {
        table = update s.table cur (record (s.table cur) { chan = of_proc cur; state = sleeping });
      }

      unchanged :
          (s' : Sys Q)
          → ◌≡◌ {A = Option (Waited × Sys Q)} (some (Waited.failed, s)) (some (r, s'))
          → IsFamily q s'
      unchanged s' e = subst (IsFamily q) (ap (λ p. p.1) (some-inj e)) v

  runs-Like :
      (s : Sys Q) (cur : ℕ) (p : Proc)
      → IsFamily q s
      → Like (s.table cur) p
      → IsTree (update s.table cur p) s.nextpid s.init
  runs-Like s cur p v l =
      Like-IsTree s.table (update s.table cur p) s.nextpid s.init
        (λ j _. update-Like s.table cur p l j) v

  yield-IsFamily :
      (s s' : Sys Q) (cur : ℕ)
      → IsFamily q s
      → IsRunning q s cur
      → yield q s cur ≡ some s'
      → IsFamily q s'
  unfolding yield
  yield-IsFamily s s' cur v c e = elim (Bool-cases (is_rr s.method)) [
    | inl a ↦
        let same : ran ≡ s' = some-inj (sym (rw a refl) ∙ e) in
        subst (IsFamily q) same (runs-Like s cur _ v (plain 1))
    | inr b ↦ elim (Bool-cases (is_mlfq s.method)) [
      | inl m ↦
          let (removed, _, f) =
            >>=-eq-some (q.remove cur s.queues)
              (λ removed. q.insert_next cur removed >>= λ n. some (with_yielded q s cur n))
              (sym (rw (b, m) refl) ∙ e) in
          let (queued, _, g) =
            >>=-eq-some (q.insert_next cur removed) (λ n. some (with_yielded q s cur n)) f in
          let same : with_yielded q s cur queued ≡ s' = some-inj g in
          subst (IsFamily q) same (runs-Like s cur _ v (queued_like queued.0))
      | inr n ↦
          let same : unqueued ≡ s' = some-inj (sym (rw (b, n) refl) ∙ e) in
          subst (IsFamily q) same (runs-Like s cur _ v (queued_like none))
    ]
  ]
    where
      ran : Sys Q
      ran = record s {
        table = update s.table cur (record (s.table cur) { state = runnable; runtime = 1 });
      }

      unqueued : Sys Q
      unqueued = record s { table = update s.table cur (record (s.table cur) { state = runnable }) }

      plain : (r : ℕ) → Like (s.table cur) (record (s.table cur) { state = runnable; runtime = r })
      plain r = record { pid = refl; parent = refl; live_same = sym c.1; gone_same = sym c.2 }

      queued_like :
          (r : Option ℕ)
          → Like (s.table cur) (set_runtime (record (s.table cur) { state = runnable }) r)
      queued_like none = record {
        pid = refl;
        parent = refl;
        live_same = sym c.1;
        gone_same = sym c.2;
      }
      queued_like (some r) = plain r

  -- One step of the kernel: a system call of a process that runs, or what the kernel does to any.
  pub data Step (s s' : Sys Q) : Type 0 where
    forks :
        (cur : ℕ) (memory copied : Bool) (r : Option ℕ)
        → IsRunning q s cur
        → s.nextpid + 1 < 2 ^ 32
        → fork q s cur memory copied ≡ some (r, s')
        → Step s s'
    exits : (cur status : ℕ) → IsRunning q s cur → exit q s cur status ≡ some s' → Step s s'
    awaits :
        (cur : ℕ) (copied : Bool) (r : Waited)
        → IsRunning q s cur
        → wait q s cur copied ≡ some (r, s')
        → Step s s'
    yields : (cur : ℕ) → IsRunning q s cur → yield q s cur ≡ some s' → Step s s'
    falls_asleep :
        (cur : ℕ) (chan : Channel)
        → IsRunning q s cur
        → s' ≡ record s { table = sleep s.table cur chan }
        → Step s s'
    goes_on : (cur : ℕ) → s' ≡ record s { table = slept s.table cur } → Step s s'
    wakes :
        (cur : Option ℕ) (chan : Channel)
        → s' ≡ record s { table = wakeup s.table cur chan }
        → Step s s'
    kills : (pid : ℕ) → s' ≡ record s { table = (kill s.table pid).1 } → Step s s'
    marks : (i : ℕ) → s' ≡ record s { table = setkilled s.table i } → Step s s'
    ticks : s' ≡ record s { table = update_proc s.table } → Step s s'
    dispatches : (i : ℕ) → s' ≡ (dispatch q s i).1 → Step s s'

  pub data Reach (s : Sys Q) : Sys Q → Type 0 where
    start : Reach s s
    next : {t u : Sys Q} → Reach s t → Step t u → Reach s u

  likewise :
      (s s' : Sys Q) (t : ProcTable)
      → IsFamily q s
      → s' ≡ record s { table = t }
      → ((j : ℕ) → Like (s.table j) (t j))
      → IsFamily q s'
  likewise s s' t v e l =
      subst (IsFamily q) (sym e) (Like-IsTree s.table t s.nextpid s.init (λ j _. l j) v)

  Step-IsFamily : {s s' : Sys Q} → IsFamily q s → Step s s' → IsFamily q s'
  unfolding sleep slept setkilled update_proc dispatch
  Step-IsFamily {s} {s'} v (forks cur memory copied r c small e) =
      fork-IsFamily s s' cur memory copied r v c small e
  Step-IsFamily {s} {s'} v (exits cur status c e) = exit-IsFamily s s' cur status v c e
  Step-IsFamily {s} {s'} v (awaits cur copied r c e) = wait-IsFamily s s' cur copied r v c e
  Step-IsFamily {s} {s'} v (yields cur c e) = yield-IsFamily s s' cur v c e
  Step-IsFamily {s} {s'} v (falls_asleep cur chan c e) =
      likewise s s' (sleep s.table cur chan) v e (
        update-Like s.table cur _
          (record { pid = refl; parent = refl; live_same = sym c.1; gone_same = sym c.2 }))
  Step-IsFamily {s} {s'} v (goes_on cur e) = likewise s s' (slept s.table cur) v e (
      update-Like s.table cur _
        (record { pid = refl; parent = refl; live_same = refl; gone_same = refl }))
  Step-IsFamily {s} {s'} v (wakes cur chan e) =
      likewise s s' (wakeup s.table cur chan) v e (wakeup-Like s.table cur chan)
  Step-IsFamily {s} {s'} v (kills pid e) =
      likewise s s' (kill s.table pid).1 v e (kill-Like s.table pid)
  Step-IsFamily {s} {s'} v (marks i e) = likewise s s' (setkilled s.table i) v e (
      update-Like s.table i _
        (record { pid = refl; parent = refl; live_same = refl; gone_same = refl }))
  Step-IsFamily {s} {s'} v (ticks e) =
      likewise s s' (update_proc s.table) v e (each-Like ticked ticked-Like s.table)
  Step-IsFamily {s} {s'} v (dispatches i e) = elim (Bool-cases (is (s.table i).state runnable)) [
    | inr f ↦ let same : s' ≡ s = e ∙ rw f refl in subst (IsFamily q) (sym same) v
    | inl u ↦
        let same : s'
            ≡ record s { table = update s.table i (record (s.table i) { state = running }) } =
          e ∙ rw u refl in
        subst (IsFamily q) (sym same) (
          runs-Like s i (record (s.table i) { state = running }) v
            (record {
              pid = refl;
              parent = refl;
              live_same = ground (arith, u);
              gone_same = ground (arith, u);
            }))
  ]

  -- From a table with these properties, in every order of `fork`, `exit`, `wait`, `yield`, `sleep`, `wakeup`,
  -- `kill`, `setkilled`, ticks and scheduling, with pids below 2^32: two processes in use have different
  -- pids, which are positive and below `nextpid`; the parent of a process in use is in use and no zombie;
  -- an unused process has no parent; and `initproc` stays in use and never is a zombie.
  pub Reach-IsFamily : {s s' : Sys Q} → IsFamily q s → Reach s s' → IsFamily q s'
  Reach-IsFamily v start = v
  Reach-IsFamily v (next r st) = Step-IsFamily (Reach-IsFamily v r) st
