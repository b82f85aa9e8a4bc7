-- ===== src/Proc/Change.antt =====
-- A process that comes, gets a parent, becomes a zombie or goes.
use native.Mathlib.Decide.{ℕ_discrete}
use mathlib.Core.Bool.{true≢false}
use learn_os.Base.{
  ℕ, zero, suc, ◌+◌, ◌<◌, ◌≤◌, ◌≡◌, ◌≢◌, refl, ◌∙◌, sym, ap, inl, inr, arith, true, false, Option,
  none, some, update, if◌then◌else◌, Bool-cases, eq→==, ==→eq,
}
use learn_os.Proc.{nproc, Proc, ProcTable, of_proc, is_proc, wakeup, allocated, freed}
use learn_os.Proc.Life.{reparent_loop, reparent}
use learn_os.Proc.Tree.{live, gone, IsTree, Like, there, here, wakeup-Like}

is_proc_iff : (o : Option ℕ) (i : ℕ) → is_proc o i ≡ true → o ≡ some i
is_proc_iff none i h = absurd (true≢false (sym h))
is_proc_iff (some j) i h = ap some (==→eq _ _ h)

pub proc_is : (o : Option ℕ) (i : ℕ) → o ≡ some i → is_proc o i ≡ true
proc_is o i e = rw e (eq→== i i refl)

-- A change of one process, by what the invariant asks of the new one.
pub change-IsTree :
    (t : ProcTable) (nextpid next' init i : ℕ) (p : Proc)
    → IsTree t nextpid init
    → nextpid ≤ next'
    → (live p ≡ false → p.parent ≡ none)
    → (live p ≡ true → (0 < p.pid) × (p.pid < next'))
    → (live p ≡ true → (j : ℕ) → j < nproc → j ≢ i → live (t j) ≡ true → (t j).pid ≢ p.pid)
    → ((k : ℕ)
        → live p ≡ true
        → p.parent ≡ some k
        → (k ≢ i) × (k < nproc) × (live (t k) ≡ true) × (gone (t k) ≡ false))
    → ((j : ℕ) → j < nproc → j ≢ i → live (t j) ≡ true → (t j).parent ≢ some i)
    → init ≢ i
    → IsTree (update t i p) next' init
change-IsTree t nextpid next' init i p v mono free pids own parent childless no_init = record {
  some_pid = omega (arith, mono, v.some_pid);
  free_parent = λ j h. elim (ℕ_discrete j i) [
    | yes e ↦ rw (here t i p j e) free
    | no ne ↦ rw (there t i p j ne) (v.free_parent j h)
  ];
  live_pid = λ j h. elim (ℕ_discrete j i) [
    | yes e ↦ rw (here t i p j e) pids
    | no ne ↦ rw (there t i p j ne) (λ u. let q = v.live_pid j h u in omega (arith, q, mono))
  ];
  distinct = λ j k hj hk. elim (ℕ_discrete j i) [
    | yes e ↦ elim (ℕ_discrete k i) [
      | yes f ↦ λ _ _ _. e ∙ sym f
      | no nf ↦ rw (here t i p j e, there t i p k nf) (λ u w q. absurd (own u k hk nf w (sym q)))
    ]
    | no ne ↦ elim (ℕ_discrete k i) [
      | yes f ↦ rw (here t i p k f, there t i p j ne) (λ u w q. absurd (own w j hj ne u q))
      | no nf ↦ rw (there t i p j ne, there t i p k nf) (v.distinct j k hj hk)
    ]
  ];
  parents = λ j k hj. elim (ℕ_discrete j i) [
    | yes e ↦
        rw (here t i p j e)
          (λ u q. let (ne, b, w, g) = parent k u q in rw (there t i p k ne) (b, w, g))
    | no ne ↦ rw (there t i p j ne) (λ u q.
        let (b, w, g) = v.parents j k hj u q in
        rw (there t i p k (λ e. childless j hj ne u (q ∙ ap some e))) (b, w, g))
  ];
  init_live = rw (there t i p init no_init) v.init_live;
}

-- What `reparent` has done to the processes from `lo` to `hi`.
pub record Adopted (cur init lo hi : ℕ) (t t' : ProcTable) : Type 0 where
  pub pid : (j : ℕ) → (t' j).pid ≡ (t j).pid
  pub live_same : (j : ℕ) → live (t' j) ≡ live (t j)
  pub gone_same : (j : ℕ) → gone (t' j) ≡ gone (t j)
  pub adopted :
      (j : ℕ) → lo ≤ j → j < hi → is_proc (t j).parent cur ≡ true → (t' j).parent ≡ some init
  pub kept : (j : ℕ) → is_proc (t j).parent cur ≡ false → (t' j).parent ≡ (t j).parent
  pub before : (j : ℕ) → j < lo → (t' j).parent ≡ (t j).parent

abbrev adopt : ProcTable → (i cur init : ℕ) → ProcTable
adopt t i cur init =
    if is_proc (t i).parent cur
    then wakeup (update t i (record (t i) { parent = some init })) (some cur) (of_proc init)
    else t

record OneAdopted (cur init i : ℕ) (t t' : ProcTable) : Type 0 where
  pid : (j : ℕ) → (t' j).pid ≡ (t j).pid
  live_same : (j : ℕ) → live (t' j) ≡ live (t j)
  gone_same : (j : ℕ) → gone (t' j) ≡ gone (t j)
  adopted : is_proc (t i).parent cur ≡ true → (t' i).parent ≡ some init
  kept : is_proc (t i).parent cur ≡ false → (t' i).parent ≡ (t i).parent
  others : (j : ℕ) → j ≢ i → (t' j).parent ≡ (t j).parent

adopt-OneAdopted : (t : ProcTable) (i cur init : ℕ) → OneAdopted cur init i t (adopt t i cur init)
adopt-OneAdopted t i cur init = elim (Bool-cases (is_proc (t i).parent cur)) [
  | inr f ↦ rw f (record {
    pid = λ j. refl;
    live_same = λ j. refl;
    gone_same = λ j. refl;
    adopted = λ h. absurd (true≢false (sym h ∙ f));
    kept = λ _. refl;
    others = λ j ne. refl;
  })
  | inl u ↦ rw u (record {
    pid = λ j. (l j).pid ∙ same (λ p. p.pid) refl j;
    live_same = λ j. (l j).live_same ∙ same live refl j;
    gone_same = λ j. (l j).gone_same ∙ same gone refl j;
    adopted = λ _. (l i).parent ∙ ap (λ p. p.parent) (here t i q i refl);
    kept = λ h. absurd (true≢false (sym u ∙ h));
    others = λ j ne. (l j).parent ∙ ap (λ p. p.parent) (there t i q j ne);
  })
]
  where
    q : Proc
    q = record (t i) { parent = some init }

    l : (j : ℕ) → Like (update t i q j) (wakeup (update t i q) (some cur) (of_proc init) j)
    l = wakeup-Like (update t i q) (some cur) (of_proc init)

    same : {B : Type 0} (f : Proc → B) → f q ≡ f (t i) → (j : ℕ) → f (update t i q j) ≡ f (t j)
    same f e j = elim (ℕ_discrete j i) [
      | yes h ↦ ap f (here t i q j h) ∙ e ∙ ap (λ k. f (t k)) (sym h)
      | no ne ↦ ap f (there t i q j ne)
    ]

reparent_loop-Adopted :
    (left i : ℕ) (t : ProcTable) (cur init : ℕ)
    → Adopted cur init i (i + left) t (reparent_loop left i t cur init)
unfolding reparent_loop
reparent_loop-Adopted zero i t cur init = record {
  pid = λ j. refl;
  live_same = λ j. refl;
  gone_same = λ j. refl;
  adopted = λ j a b. absurd (omega arith);
  kept = λ j h. refl;
  before = λ j h. refl;
}
reparent_loop-Adopted (suc left) i t cur init =
    let o = adopt-OneAdopted t i cur init in
    let r = reparent_loop-Adopted left (i + 1) (adopt t i cur init) cur init in
    record {
      pid = λ j. r.pid j ∙ o.pid j;
      live_same = λ j. r.live_same j ∙ o.live_same j;
      gone_same = λ j. r.gone_same j ∙ o.gone_same j;
      adopted = λ j a b h. elim (ℕ_discrete j i) [
        | yes e ↦
            r.before j (omega (arith, e))
            ∙ ap (λ k. (adopt t i cur init k).parent) e
            ∙ o.adopted (ap (λ k. is_proc (t k).parent cur) (sym e) ∙ h)
        | no ne ↦
            r.adopted j (omega arith) (omega arith) (ap (λ q. is_proc q cur) (o.others j ne) ∙ h)
      ];
      kept = λ j h. r.kept j (ap (λ q. is_proc q cur) (first_kept o j h) ∙ h) ∙ first_kept o j h;
      before = λ j h. r.before j (omega arith) ∙ o.others j (λ e. absurd (omega (arith, e)));
    }
  where
    first_kept :
        OneAdopted cur init i t (adopt t i cur init)
        → (j : ℕ) → is_proc (t j).parent cur ≡ false
        → (adopt t i cur init j).parent ≡ (t j).parent
    first_kept o j h = elim (ℕ_discrete j i) [
      | yes e ↦
          ap (λ k. (adopt t i cur init k).parent) e
          ∙ o.kept (ap (λ k. is_proc (t k).parent cur) (sym e) ∙ h)
          ∙ ap (λ k. (t k).parent) (sym e)
      | no ne ↦ o.others j ne
    ]

pub reparent-Adopted :
    (t : ProcTable) (cur init : ℕ) → Adopted cur init 0 nproc t (reparent t cur init)
unfolding reparent
reparent-Adopted t cur init = reparent_loop-Adopted nproc 0 t cur init

-- After `reparent` the process has no children.
pub Adopted-childless :
    (t t' : ProcTable) (cur init : ℕ)
    → Adopted cur init 0 nproc t t'
    → init ≢ cur
    → (j : ℕ) → j < nproc
    → (t' j).parent ≢ some cur
Adopted-childless t t' cur init a ne j h e = elim (Bool-cases (is_proc (t j).parent cur)) [
  | inl u ↦ ne (ground (arith, a.adopted j (omega arith) h u, e))
  | inr f ↦ true≢false (sym (proc_is _ _ (sym (a.kept j f) ∙ e)) ∙ f)
]

pub Adopted-IsTree :
    (t t' : ProcTable) (nextpid cur init : ℕ)
    → Adopted cur init 0 nproc t t'
    → IsTree t nextpid init
    → IsTree t' nextpid init
Adopted-IsTree t t' nextpid cur init a v = record {
  some_pid = v.some_pid;
  free_parent = λ i h u.
      let none_before = v.free_parent i h (sym (a.live_same i) ∙ u) in
      a.kept i (ap (λ q. is_proc q cur) none_before) ∙ none_before;
  live_pid = λ i h u. rw (a.pid i) (v.live_pid i h (sym (a.live_same i) ∙ u));
  distinct = λ i j h k u w e.
      v.distinct i j h k (sym (a.live_same i) ∙ u) (sym (a.live_same j) ∙ w)
        (sym (a.pid i) ∙ e ∙ a.pid j);
  parents = λ j i h u e. elim (Bool-cases (is_proc (t j).parent cur)) [
    | inl mine ↦
        let to_init : init ≡ i = ground (arith, a.adopted j (omega arith) h mine, e) in
        let (b, w, g) = v.init_live in
        rw (sym to_init) (b, a.live_same init ∙ w, a.gone_same init ∙ g)
    | inr other ↦
        let (b, w, g) = v.parents j i h (sym (a.live_same j) ∙ u) (sym (a.kept j other) ∙ e) in
        (b, a.live_same i ∙ w, a.gone_same i ∙ g)
  ];
  init_live = let (b, w, g) = v.init_live in (b, a.live_same init ∙ w, a.gone_same init ∙ g);
}

-- A slot that becomes unused: a zombie, or one that nobody has as parent.
pub freed-IsTree :
    (t : ProcTable) (nextpid init i : ℕ)
    → IsTree t nextpid init
    → ((j : ℕ) → j < nproc → j ≢ i → live (t j) ≡ true → (t j).parent ≢ some i)
    → init ≢ i
    → IsTree (update t i (freed (t i))) nextpid init
unfolding freed
freed-IsTree t nextpid init i v childless no_init =
    change-IsTree t nextpid nextpid init i _ v (omega arith) (λ _. refl)
      (λ u. absurd (true≢false (sym u))) (λ u. absurd (true≢false (sym u)))
      (λ k u. absurd (true≢false (sym u))) childless no_init

pub zombie_childless :
    (t : ProcTable) (nextpid init i : ℕ)
    → IsTree t nextpid init
    → gone (t i) ≡ true
    → (j : ℕ) → j < nproc
    → live (t j) ≡ true
    → (t j).parent ≢ some i
zombie_childless t nextpid init i v z j h u e =
    let (b, w, g) = v.parents j i h u e in true≢false (sym z ∙ g)

pub unused_childless :
    (t : ProcTable) (nextpid init i : ℕ)
    → IsTree t nextpid init
    → live (t i) ≡ false
    → (j : ℕ) → j < nproc
    → live (t j) ≡ true
    → (t j).parent ≢ some i
unused_childless t nextpid init i v f j h u e =
    let (b, w, g) = v.parents j i h u e in true≢false (sym w ∙ f)

pub allocated-IsTree :
    (t : ProcTable) (nextpid init i ticks : ℕ)
    → IsTree t nextpid init
    → i < nproc
    → live (t i) ≡ false
    → IsTree (update t i (allocated (t i) nextpid ticks)) (nextpid + 1) init
unfolding allocated
allocated-IsTree t nextpid init i ticks v h f =
    change-IsTree t nextpid (nextpid + 1) init i _ v (omega arith) (λ u. absurd (true≢false u))
      (λ _. (v.some_pid, omega arith))
      (λ _ j hj ne u e. absurd (omega (arith, v.live_pid j hj u, e)))
      (λ k _ e. absurd (no_parent (sym (v.free_parent i h f) ∙ e)))
      (λ j hj _ u. unused_childless t nextpid init i v f j hj u)
      (λ e. true≢false (sym (v.init_live.1) ∙ ap (λ k. live (t k)) e ∙ f))
  where
    no_parent : {k : ℕ} → ◌≡◌ {A = Option ℕ} none (some k) → ⊥
    no_parent e = cc
