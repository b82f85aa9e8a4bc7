-- ===== src/Proc/Tree.antt =====
-- The invariant of the process table, and the changes of a process that keep it.
use native.Mathlib.Decide.{ℕ_discrete}
use learn_os.Base.{
  ℕ, ◌+◌, ◌<◌, ◌≡◌, ◌≢◌, refl, ◌∙◌, sym, inl, inr, arith, Bool, true, false, not, Option, none,
  some, ltb, leb, ◌&&◌, update, Bool-cases, eq→==, ne→==,
}
use learn_os.Proc.{
  nproc, Proc, ProcTable, ProcState, Channel, unused, sleeping, runnable, zombie, is, is_proc,
  same_channel, each, woken, wakeup,
}
use learn_os.Proc.Table.{each_lem}

abbrev pub live : Proc → Bool
live p = not (is p.state unused)

abbrev pub gone : Proc → Bool
gone p = is p.state zombie

pub record IsTree (t : ProcTable) (nextpid init : ℕ) : Type 0 where
  pub some_pid : 0 < nextpid
  pub free_parent : (i : ℕ) → i < nproc → live (t i) ≡ false → (t i).parent ≡ none
  pub live_pid : (i : ℕ) → i < nproc → live (t i) ≡ true → (0 < (t i).pid) × ((t i).pid < nextpid)
  pub distinct :
      (i j : ℕ)
      → i < nproc
      → j < nproc
      → live (t i) ≡ true
      → live (t j) ≡ true
      → (t i).pid ≡ (t j).pid
      → i ≡ j
  pub parents :
      (j i : ℕ)
      → j < nproc
      → live (t j) ≡ true
      → (t j).parent ≡ some i
      → (i < nproc) × (live (t i) ≡ true) × (gone (t i) ≡ false)
  pub init_live : (init < nproc) × (live (t init) ≡ true) × (gone (t init) ≡ false)

-- The same to the invariant.
pub record Like (p p' : Proc) : Type 0 where
  pub pid : p'.pid ≡ p.pid
  pub parent : p'.parent ≡ p.parent
  pub live_same : live p' ≡ live p
  pub gone_same : gone p' ≡ gone p

pub Like-self : (p : Proc) → Like p p
Like-self p = record { pid = refl; parent = refl; live_same = refl; gone_same = refl }

pub Like-IsTree :
    (t t' : ProcTable) (nextpid init : ℕ)
    → ((i : ℕ) → i < nproc → Like (t i) (t' i))
    → IsTree t nextpid init
    → IsTree t' nextpid init
Like-IsTree t t' nextpid init l v = record {
  some_pid = v.some_pid;
  free_parent = λ i h u. (l i h).parent ∙ v.free_parent i h (sym (l i h).live_same ∙ u);
  live_pid = λ i h u. rw ((l i h).pid) (v.live_pid i h (sym (l i h).live_same ∙ u));
  distinct = λ i j h k u w e.
      v.distinct i j h k (sym (l i h).live_same ∙ u) (sym (l j k).live_same ∙ w)
        (sym (l i h).pid ∙ e ∙ (l j k).pid);
  parents = λ j i h u e.
      let (b, w, g) = v.parents j i h (sym (l j h).live_same ∙ u) (sym (l j h).parent ∙ e) in
      (b, (l i b).live_same ∙ w, (l i b).gone_same ∙ g);
  init_live =
      let (b, w, g) = v.init_live in (b, (l init b).live_same ∙ w, (l init b).gone_same ∙ g);
}

pub there : (t : ProcTable) (i : ℕ) (p : Proc) (j : ℕ) → j ≢ i → update t i p j ≡ t j
there t i p j ne = rw (ne→== j i ne) refl

pub here : (t : ProcTable) (i : ℕ) (p : Proc) (j : ℕ) → j ≡ i → update t i p j ≡ p
here t i p j e = rw (eq→== j i e) refl

pub update-Like :
    (t : ProcTable) (i : ℕ) (p : Proc) → Like (t i) p → (j : ℕ) → Like (t j) (update t i p j)
update-Like t i p l j = elim (ℕ_discrete j i) [
  | yes e ↦ rw (here t i p j e) (rw e l)
  | no ne ↦ rw (there t i p j ne) (Like-self (t j))
]

-- A process that is live and not a zombie, and stays so.
pub state-Like :
    (p : Proc) (s : ProcState)
    → live p ≡ true
    → gone p ≡ false
    → is s unused ≡ false
    → is s zombie ≡ false
    → Like p (record p { state = s })
state-Like p s u g w z = record {
  pid = refl;
  parent = refl;
  live_same = rw w (sym u);
  gone_same = z ∙ sym g;
}

pub asleep_live : (p : Proc) → is p.state sleeping ≡ true → (live p ≡ true) × (gone p ≡ false)
asleep_live p h = (ground arith, ground arith)

woken-Like : (cur : Option ℕ) (chan : Channel) (i : ℕ) (p : Proc) → Like p (woken cur chan i p)
unfolding woken
woken-Like cur chan i p =
    elim (Bool-cases (not (is_proc cur i) && (is p.state sleeping && same_channel p.chan chan))) [
      | inl t ↦
          let (u, g) = asleep_live p (ground (arith, t)) in
          rw t (state-Like p runnable u g refl refl)
      | inr f ↦ rw f (Like-self p)
    ]

pub each-Like :
    (body : ℕ → Proc → Proc)
    → ((i : ℕ) (p : Proc) → Like p (body i p))
    → (t : ProcTable) (j : ℕ) → Like (t j) (each nproc 0 body t j)
each-Like body l t j =
    rw (each_lem nproc 0 body t j) (elim (Bool-cases (leb 0 j && ltb j (0 + nproc))) [
      | inl u ↦ rw u (l j (t j))
      | inr f ↦ rw f (Like-self (t j))
    ])

pub wakeup-Like :
    (t : ProcTable) (cur : Option ℕ) (chan : Channel) (j : ℕ) → Like (t j) (wakeup t cur chan j)
unfolding wakeup
wakeup-Like t cur chan j = each-Like (woken cur chan) (woken-Like cur chan) t j
