-- ===== src/Semaphore/Signal.antt =====
-- The loop of a signal: which processes are woken, in which order, and what is left.
use mathlib.Core.List.{append_assoc}
use mathlib.Core.Path.{subst}
use learn_os.Base.{
  ℕ, suc, zero, ◌+◌, ◌-◌, ◌<◌, ◌≤◌, ◌≡◌, ◌≢◌, refl, sym, ap, ◌∙◌, false, some, List, [], ◌∷◌, ◌++◌,
  ◌==◌, length, ltb, has, Bool-cases, inl, inr, ne→==, eq→==, update, if◌then◌else◌, arith,
}
use learn_os.Chain.{IsChain, IsLast, Apart, contents}
use learn_os.Chain.Append.{not_has}
use learn_os.Semaphore.{
  WaitNode, Sems, LoopResult, get_first, erase_first, serve, served, go_on, signal_loop,
}

abbrev pub next_of : WaitNode → ℕ
next_of n = n.next

abbrev pub link : WaitNode → ℕ → WaitNode
link n x = record n { next = x }

abbrev pub proc_of : WaitNode → ℕ
proc_of n = n.p

abbrev pub procs : (ℕ → WaitNode) → List ℕ → List ℕ
procs nodes ns = contents proc_of nodes ns

-- The processes that sleep on semaphore `i`, in the nodes of its queue: no process sleeps twice.
pub record IsWaiting (s : Sems) (i : ℕ) (ns : List ℕ) : Type 0 where
  pub chain : IsChain next_of s.nodes (s.sem i).first ns
  pub last : IsLast (s.sem i).last ns
  pub distinct : Apart (procs s.nodes ns)

-- The first process that sleeps wants more than there is.
abbrev pub IsQuiet : Sems → (i : ℕ) → List ℕ → Type 0
IsQuiet s i [] = Unit {0}
IsQuiet s i (a ∷ ns) = (s.sem i).value < s.sem_want (s.nodes a).p

-- What some processes want together.
abbrev pub total : (ℕ → ℕ) → List ℕ → ℕ
total sem_want [] = 0
total sem_want (p ∷ ps) = sem_want p + total sem_want ps

total-update :
    (w : ℕ → ℕ) (p x : ℕ) (ps : List ℕ) → has p ps ≡ false → total (update w p x) ps ≡ total w ps
total-update w p x [] f = refl
total-update w p x (r ∷ ps) f =
    let (ne, out) = not_has p r ps f in rw (ne→== r p ne, total-update w p x ps out) refl

procs-append :
    (nodes : ℕ → WaitNode) (xs ys : List ℕ)
    → procs nodes (xs ++ ys) ≡ procs nodes xs ++ procs nodes ys
procs-append nodes [] ys = refl
procs-append nodes (x ∷ xs) ys = rw (procs-append nodes xs ys) refl

has-prefix : (x : ℕ) (xs ys : List ℕ) → has x (xs ++ ys) ≡ false → has x xs ≡ false
has-prefix x [] ys f = refl
has-prefix x (a ∷ xs) ys f =
    let (ne, out) = not_has x a (xs ++ ys) f in rw (ne→== a x ne) (has-prefix x xs ys out)

-- The processes of `out` are woken in order and get what they want; those of `rest` sleep on.
pub record IsServed (s s' : Sems) (i : ℕ) (out rest : List ℕ) : Type 0 where
  pub woken : s'.woken ≡ s.woken ++ procs s.nodes out
  pub value : (s.sem i).value ≡ (s'.sem i).value + total s.sem_want (procs s.nodes out)
  pub waiting : IsWaiting s' i rest
  pub quiet : IsQuiet s' i rest
  pub nodes : s'.nodes ≡ s.nodes
  pub sz : s'.sz ≡ s.sz
  pub wants : (p : ℕ) → has p (procs s.nodes out) ≡ false → s'.sem_want p ≡ s.sem_want p
  pub others : (j : ℕ) → j ≢ i → s'.sem j ≡ s.sem j

pub data Signalled (i : ℕ) (s : Sems) (ns : List ℕ) (r : LoopResult) : Type 0 where
  signalled :
      (s' : Sems) (out rest : List ℕ)
      → r ≡ LoopResult.done s'
      → ns ≡ out ++ rest
      → IsServed s s' i out rest
      → Signalled i s ns r

module _ (i : ℕ) where
  -- Nobody is served.
  stays : (s : Sems) (ns : List ℕ) → IsWaiting s i ns → IsQuiet s i ns → IsServed s s i [] ns
  stays s ns v quiet = record {
    woken = sym (append-nil s.woken);
    value = omega arith;
    waiting = v;
    quiet = quiet;
    nodes = refl;
    sz = refl;
    wants = λ p f. refl;
    others = λ j ne. refl;
  }
    where
      append-nil : (l : List ℕ) → l ++ [] ≡ l
      append-nil [] = refl
      append-nil (x ∷ l) = rw (append-nil l) refl

  -- The semaphores after the first process has got what it wants.
  abbrev pub after_serve : Sems → (a : ℕ) → Sems
  after_serve s a =
      let p = (s.nodes a).p in
      record s {
        woken = s.woken ++ p ∷ [];
        sem_want = update s.sem_want p 0;
        sem =
            update (update s.sem i (record (s.sem i) { value = (s.sem i).value - s.sem_want p })) i
              (record {
                value = (s.sem i).value - s.sem_want p;
                first = (s.nodes a).next;
                last = if (s.nodes a).next == 0 then 0 else (s.sem i).last;
              });
      }

  serve-erase :
      (s : Sems) (a : ℕ)
      → (s.sem i).first ≡ a
      → a ≢ 0
      → served i (some (s.nodes a).p) s ≡ some (after_serve s a)
  unfolding serve erase_first
  serve-erase s a e z = rw (eq→== i i refl, e, ne→== a 0 z) refl

  after-IsWaiting :
      (s : Sems) (a : ℕ) (ns : List ℕ) → IsWaiting s i (a ∷ ns) → IsWaiting (after_serve s a) i ns
  after-IsWaiting s a [] v = record {
    chain = rw (eq→== i i refl) v.chain.2;
    last = tt;
    distinct = tt;
  }
  after-IsWaiting s a (b ∷ ns) v =
      let (e, z, (t, y, k)) = v.chain in
      let same : ((after_serve s a).sem i).last ≡ (s.sem i).last =
        rw (eq→== i i refl, t, ne→== b 0 y) refl in
      record {
        chain = rw (eq→== i i refl) (t, y, k);
        last = subst (λ t. IsLast t (b ∷ ns)) (sym same) v.last.1;
        distinct = v.distinct.1;
      }

  then-IsServed :
      (s s' : Sems) (a : ℕ) (out rest : List ℕ)
      → has (s.nodes a).p (procs s.nodes out) ≡ false
      → s.sem_want (s.nodes a).p ≤ (s.sem i).value
      → IsServed (after_serve s a) s' i out rest
      → IsServed s s' i (a ∷ out) rest
  then-IsServed s s' a out rest f enough w =
      let p = (s.nodes a).p in
      let left : ((after_serve s a).sem i).value ≡ (s.sem i).value - s.sem_want p =
        rw (eq→== i i refl) refl in
      let wanted = total-update s.sem_want p 0 (procs s.nodes out) f in
      record {
        woken = w.woken ∙ append_assoc s.woken (p ∷ []) (procs s.nodes out);
        value = omega (arith, left, wanted, w.value, enough);
        waiting = w.waiting;
        quiet = w.quiet;
        nodes = w.nodes;
        sz = w.sz;
        wants = λ r g.
            let (ne, g') = not_has r p (procs s.nodes out) g in
            w.wants r g' ∙ rw (ne→== r p (λ e. ne (sym e))) refl;
        others = λ j ne. w.others j ne ∙ rw (ne→== j i ne) refl;
      }

  -- With more rounds than processes that sleep on the semaphore the loop of a signal ends: the processes at
  -- the front of the queue are woken in order, as long as there is what each of them wants, which is taken
  -- from the value, and the next one wants more than is left. No other semaphore and no other process's
  -- wish changes.
  pub signal_loop-Signalled :
      (left : ℕ) (s : Sems) (ns : List ℕ)
      → IsWaiting s i ns
      → length ns < left
      → Signalled i s ns (signal_loop left i s)
  unfolding signal_loop get_first
  signal_loop-Signalled zero s ns v enough = absurd (omega arith)
  signal_loop-Signalled (suc left) s [] v enough =
      signalled s [] [] (rw (eq→== (s.sem i).first 0 v.chain) refl) refl (stays s [] v tt)
  signal_loop-Signalled (suc left) s (a ∷ ns) v enough =
      let (e, z, c) = v.chain in
      elim (Bool-cases (ltb (s.sem i).value (s.sem_want (s.nodes a).p))) [
        | inl more ↦
            signalled s [] (a ∷ ns) (rw (e, ne→== a 0 z, more) refl) refl
              (stays s (a ∷ ns) v (ground arith))
        | inr few ↦
            let rounds : length ns < left = omega arith in
            let rest =
              signal_loop-Signalled left (after_serve s a) ns (after-IsWaiting s a ns v) rounds in
            elim rest [
              | signalled s' out rest r parts w ↦
                  let out_of : has (s.nodes a).p (procs s.nodes out) ≡ false =
                    has-prefix (s.nodes a).p (procs s.nodes out) (procs s.nodes rest) (
                      subst (λ l. has (s.nodes a).p l ≡ false)
                        (ap (procs s.nodes) parts ∙ procs-append s.nodes out rest) v.distinct.0) in
                  signalled s' (a ∷ out) rest
                    (rw (e, ne→== a 0 z, few)
                      (ap (go_on (signal_loop left i)) (serve-erase s a e z) ∙ r))
                    (ap (λ l. a ∷ l) parts) (then-IsServed s s' a out rest out_of (ground arith) w)
            ]
      ]
