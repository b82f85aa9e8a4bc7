-- ===== src/Semaphore/Operation.antt =====
-- One operation of `semop`.
use mathlib.Core.Bool.{true≢false}
use mathlib.Core.Path.{subst}
use learn_os.Base.{
  ℕ, ◌+◌, ◌-◌, ◌<◌, ◌≤◌, ◌≡◌, ◌≢◌, refl, sym, ap, ap₂, ◌∙◌, true, false, List, [], ◌∷◌, ◌++◌,
  length, ltb, leb, leb→le, has, Bool-cases, inl, inr, ne→==, eq→==, update, arith,
}
use learn_os.Chain.{IsChain, IsLast}
use learn_os.Chain.Append.{
  not_has, update-IsChain, linked-IsChain, IsLast-appended, IsLast-has, Apart-append,
  contents-update, contents-link, contents-append,
}
use learn_os.Semaphore.{
  WaitNode, Sem, SemBuf, Sems, OpResult, insert_last, is_negative, minus_op, add_value, after_loop,
  wait_op, one_op,
}
use learn_os.Semaphore.Signal.{
  next_of, link, proc_of, procs, IsWaiting, IsQuiet, IsServed, signalled, signal_loop-Signalled,
}

-- Process `p` sleeps behind the others.
pub record IsAsleep (s s' : Sems) (i newnode p want : ℕ) (ns : List ℕ) : Type 0 where
  pub waiting : IsWaiting s' i (ns ++ newnode ∷ [])
  pub quiet : IsQuiet s' i (ns ++ newnode ∷ [])
  pub behind : procs s'.nodes (ns ++ newnode ∷ []) ≡ procs s.nodes ns ++ p ∷ []
  pub wants : s'.sem_want p ≡ want
  pub value : (s'.sem i).value ≡ (s.sem i).value
  pub woken : s'.woken ≡ s.woken
  pub sz : s'.sz ≡ s.sz
  pub wants_others : (j : ℕ) → j ≢ p → s'.sem_want j ≡ s.sem_want j
  pub others : (j : ℕ) → j ≢ i → s'.sem j ≡ s.sem j

module _ (s : Sems) (i : ℕ) (ns : List ℕ) (v : IsWaiting s i ns) (quiet : IsQuiet s i ns)
    (newnode p want : ℕ) (real : newnode ≢ 0) (fresh : has newnode ns ≡ false)
    (awake : has p (procs s.nodes ns) ≡ false) (much : (s.sem i).value < want) where
  abbrev made : ℕ → WaitNode
  made = update s.nodes newnode (record { p = p; next = 0 })

  made_node : made newnode ≡ record { p = p; next = 0 }
  made_node = rw (eq→== newnode newnode refl) refl

  abbrev sleeps : Sems
  sleeps = record (insert_last i newnode p s) { sem_want = update s.sem_want p want }

  -- What the two branches of `insert_last` have in common.
  inserted :
      (nodes : ℕ → WaitNode) (q : Sem)
      → IsChain next_of nodes q.first (ns ++ newnode ∷ [])
      → procs nodes ns ≡ procs s.nodes ns
      → (nodes newnode).p ≡ p
      → q.last ≡ newnode
      → q.value ≡ (s.sem i).value
      → IsAsleep s
          (record s { nodes = nodes; sem_want = update s.sem_want p want; sem = update s.sem i q })
          i
          newnode
          p
          want
          ns
  inserted nodes q chain kept node last value =
      let behind : procs nodes (ns ++ newnode ∷ []) ≡ procs s.nodes ns ++ p ∷ [] =
        contents-append proc_of nodes newnode ns ∙ ap₂ (λ l x. l ++ x ∷ []) kept node in
      let same : update s.sem i q i ≡ q = rw (eq→== i i refl) refl in
      record {
        waiting = record {
          chain = rw same chain;
          last = rw (same, last) (IsLast-appended newnode ns fresh);
          distinct = rw behind (Apart-append p (procs s.nodes ns) awake v.distinct);
        };
        quiet = by ns awake kept quiet;
        behind = behind;
        wants = rw (eq→== p p refl) refl;
        value = ap (λ q. q.value) same ∙ value;
        woken = refl;
        sz = refl;
        wants_others = λ j ne. rw (ne→== j p ne) refl;
        others = λ j ne. rw (ne→== j i ne) refl;
      }
    where
      by :
          (l : List ℕ)
          → has p (procs s.nodes l) ≡ false
          → procs nodes l ≡ procs s.nodes l
          → IsQuiet s i l
          → IsQuiet
              (record s {
                nodes = nodes;
                sem_want = update s.sem_want p want;
                sem = update s.sem i q;
              })
              i
              (l ++ newnode ∷ [])
      by [] f k h = rw (eq→== i i refl, value, node, eq→== p p refl) much
      by (a ∷ l) f k h =
          let (ne, out) = not_has p (s.nodes a).p (procs s.nodes l) f in
          let same : (nodes a).p ≡ (s.nodes a).p = cc in
          rw (eq→== i i refl, value, same, ne→== (s.nodes a).p p ne) h

  insert_last-IsAsleep : IsAsleep s sleeps i newnode p want ns
  unfolding insert_last
  insert_last-IsAsleep = by ns refl
    where
      kept : procs made ns ≡ procs s.nodes ns
      kept = contents-update proc_of s.nodes newnode _ ns fresh

      chain : IsChain next_of made (s.sem i).first ns
      chain = update-IsChain next_of s.nodes (s.sem i).first newnode _ ns fresh v.chain

      by : (l : List ℕ) → ns ≡ l → IsAsleep s sleeps i newnode p want ns
      by [] e =
          let empty : (s.sem i).first ≡ 0 =
            subst (λ l. IsChain next_of s.nodes (s.sem i).first l) e v.chain in
          rw (eq→== (s.sem i).first 0 empty) (
            inserted made _
              (subst (λ l. IsChain next_of made newnode (l ++ newnode ∷ [])) (sym e)
                (refl, real, ap next_of made_node))
              kept (ap proc_of made_node) refl refl)
      by (a ∷ l) e =
          let t = (s.sem i).last in
          let c : IsChain next_of made (s.sem i).first (a ∷ l) =
            subst (λ l. IsChain next_of made (s.sem i).first l) e chain in
          let end : IsLast t (a ∷ l) = subst (λ l. IsLast t l) e v.last in
          let f : has newnode (a ∷ l) ≡ false = subst (λ l. has newnode l ≡ false) e fresh in
          let differ : newnode ≢ t = (λ d.
            true≢false (sym (IsLast-has t a l end) ∙ subst (λ y. has y (a ∷ l) ≡ false) d f)) in
          let other : update made t (link (made t) newnode) newnode ≡ made newnode =
            rw (ne→== newnode t differ) refl in
          rw (ne→== (s.sem i).first 0 (λ z. c.1 (sym c.0 ∙ z))) (
            inserted (update made t (link (made t) newnode)) _
              (subst
                (λ l.
                  IsChain next_of (update made t (link (made t) newnode)) (s.sem i).first
                    (l ++ newnode ∷ []))
                (sym e)
                (linked-IsChain next_of link (λ n x. refl) made (s.sem i).first t newnode a l f real
                  (ap next_of made_node) end c))
              (contents-link proc_of made t _ ns refl ∙ kept) (ap proc_of (other ∙ made_node)) refl
              refl)

-- Every way in which one operation on semaphore `i` ends.
pub data OpEnds (newnode p : ℕ) (b : SemBuf) (s : Sems) (ns : List ℕ) (r : OpResult) : Type 0 where
  no_semaphore : s.sz ≤ b.sem_index → r ≡ OpResult.failed 3 false → OpEnds newnode p b s ns r
  would_block :
      b.sem_index < s.sz
      → is_negative b.sem_op ≡ true
      → (s.sem b.sem_index).value < minus_op b.sem_op
      → b.nowait ≡ true
      → r ≡ OpResult.failed 4 true
      → OpEnds newnode p b s ns r
  waits :
      (s' : Sems)
      → b.sem_index < s.sz
      → is_negative b.sem_op ≡ true
      → (s.sem b.sem_index).value < minus_op b.sem_op
      → b.nowait ≡ false
      → r ≡ OpResult.asleep s'
      → IsAsleep s s' b.sem_index newnode p (minus_op b.sem_op) ns
      → OpEnds newnode p b s ns r
  takes :
      (s' : Sems)
      → b.sem_index < s.sz
      → is_negative b.sem_op ≡ true
      → r ≡ OpResult.stepped s'
      → (s.sem b.sem_index).value ≡ (s'.sem b.sem_index).value + minus_op b.sem_op
      → IsWaiting s' b.sem_index ns
      → IsQuiet s' b.sem_index ns
      → s'.nodes ≡ s.nodes
      → s'.sem_want ≡ s.sem_want
      → s'.woken ≡ s.woken
      → s'.sz ≡ s.sz
      → ((j : ℕ) → j ≢ b.sem_index → s'.sem j ≡ s.sem j)
      → OpEnds newnode p b s ns r
  signals :
      (s' : Sems) (out rest : List ℕ)
      → b.sem_index < s.sz
      → is_negative b.sem_op ≡ false
      → 0 < b.sem_op
      → r ≡ OpResult.stepped s'
      → ns ≡ out ++ rest
      → IsServed
          (add_value b.sem_index ((s.sem b.sem_index).value + b.sem_op) s)
          s'
          b.sem_index
          out
          rest
      → OpEnds newnode p b s ns r
  nothing : b.sem_index < s.sz → b.sem_op ≡ 0 → r ≡ OpResult.stepped s → OpEnds newnode p b s ns r

value-IsWaiting :
    (s : Sems) (i x : ℕ) (ns : List ℕ) → IsWaiting s i ns → IsWaiting (add_value i x s) i ns
value-IsWaiting s i x ns v =
    let same : (add_value i x s).sem i ≡ record (s.sem i) { value = x } =
      rw (eq→== i i refl) refl in
    record { chain = rw same v.chain; last = rw same v.last; distinct = v.distinct }

lower-IsQuiet :
    (s : Sems) (i x : ℕ) (ns : List ℕ)
    → x ≤ (s.sem i).value
    → IsQuiet s i ns
    → IsQuiet (add_value i x s) i ns
lower-IsQuiet s i x [] le h = tt
lower-IsQuiet s i x (a ∷ ns) le h = rw (eq→== i i refl) (omega (arith, le, h))

module _ (newnode p : ℕ) (b : SemBuf) (s : Sems) (ns : List ℕ) (v : IsWaiting s b.sem_index ns)
    (quiet : IsQuiet s b.sem_index ns) (real : newnode ≢ 0) (fresh : has newnode ns ≡ false)
    (awake : has p (procs s.nodes ns) ≡ false) (left : ℕ) (enough : length ns < left) where
  wait_op-OpEnds :
      b.sem_index < s.sz
      → is_negative b.sem_op ≡ true
      → OpEnds newnode p b s ns (wait_op newnode p b s)
  unfolding wait_op
  wait_op-OpEnds low neg =
      let i = b.sem_index in
      elim (Bool-cases (ltb (s.sem i).value (minus_op b.sem_op))) [
        | inl less ↦ elim (Bool-cases b.nowait) [
          | inl y ↦ would_block low neg (ground arith) y (rw (less, y) refl)
          | inr n ↦
              let much : (s.sem i).value < minus_op b.sem_op = ground arith in
              waits _ low neg much n (rw (less, n) refl) (
                insert_last-IsAsleep s i ns v quiet newnode p (minus_op b.sem_op) real fresh awake
                  much)
        ]
        | inr more ↦
            let le : minus_op b.sem_op ≤ (s.sem i).value = ground arith in
            let same : ((add_value i ((s.sem i).value - minus_op b.sem_op) s).sem i).value
                ≡ (s.sem i).value - minus_op b.sem_op =
              rw (eq→== i i refl) refl in
            takes (add_value i ((s.sem i).value - minus_op b.sem_op) s) low neg (rw more refl)
              (omega (arith, le, same)) (value-IsWaiting s i _ ns v)
              (lower-IsQuiet s i _ ns (omega arith) quiet) refl refl refl refl
              (λ j ne. rw (ne→== j i ne) refl)
      ]

  -- An operation on a semaphore whose first sleeping process wants more than there is leaves it so: it takes
  -- the units if they are there, or the process sleeps behind the others, or the call fails with
  -- `IPC_NOWAIT`, where the lock stays held; and a signal wakes processes in order until the next one wants
  -- more than is left. The calling process does not sleep, its node is not NULL and not in the queue, and the
  -- loop has more rounds than processes sleep.
  pub one_op-OpEnds : OpEnds newnode p b s ns (one_op left newnode p b s)
  unfolding one_op
  one_op-OpEnds =
      let i = b.sem_index in
      elim (Bool-cases (leb s.sz i)) [
        | inl y ↦ no_semaphore (leb→le s.sz i y) (rw y refl)
        | inr n ↦ elim (Bool-cases (is_negative b.sem_op)) [
          | inl neg ↦
              subst (λ r. OpEnds newnode p b s ns r)
                (let same : wait_op newnode p b s ≡ one_op left newnode p b s = rw (n, neg) refl in
                  same)
                (wait_op-OpEnds (ground arith) neg)
          | inr not_neg ↦ elim (Bool-cases (ltb 0 b.sem_op)) [
            | inr zero_op ↦ nothing (ground arith) (ground arith) (rw (n, not_neg, zero_op) refl)
            | inl pos ↦
                let more = add_value i ((s.sem i).value + b.sem_op) s in
                elim (signal_loop-Signalled i left more ns (value-IsWaiting s i _ ns v) enough) [
                  | signalled s' out rest r parts w ↦
                      signals s' out rest (ground arith) not_neg (ground arith)
                        (rw (n, not_neg, pos) (ap after_loop r)) parts w
                ]
          ]
        ]
      ]
