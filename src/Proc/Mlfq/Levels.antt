-- ===== src/Proc/Mlfq/Levels.antt =====
-- Into which queue a process is inserted, and what the queues are then.
use mathlib.Core.Path.{subst}
use learn_os.Base.{
  ℕ, ◌+◌, ◌-◌, ◌<◌, ◌≡◌, ◌≢◌, refl, sym, ap, ◌∙◌, true, false, Option, none, some, List, [], ◌∷◌,
  ◌++◌, ◌==◌, ltb, if◌then◌else◌, has, Bool-cases, inl, inr, eq→==, arith, update,
}
use learn_os.Proc.Table.{absent, found, first-First}
use learn_os.Proc.Mlfq.{
  nmlfq, Mlfq, new_node, fits, append_node, insert_at, insert_mlfq, insert_next_mlfq_tail,
}
use learn_os.Chain.Append.{update-IsChain, contents-update}
use learn_os.Proc.Mlfq.Nodes.{next_of, proc_of, procs, IsQueues}
use learn_os.Proc.Mlfq.Insert.{append_node-IsAppended, appended-IsQueues}

-- The queues after process `p` is put behind queue `i`, in a node of its own.
pub record IsQueued (m : Mlfq) (r : Option ℕ × Mlfq) (q : ℕ → List ℕ) (node p i : ℕ) : Type 0 where
  pub runtime : r.0 ≡ some (i + 1)
  pub level : r.1.level p ≡ i
  pub queues : IsQueues r.1 (update q i (q i ++ node ∷ []))
  pub behind : procs r.1.nodes (q i ++ node ∷ []) ≡ procs m.nodes (q i) ++ p ∷ []
  pub others : (j : ℕ) → j < nmlfq → j ≢ i → procs r.1.nodes (q j) ≡ procs m.nodes (q j)

pub data Inserted (m : Mlfq) (q : ℕ → List ℕ) (node p priority : ℕ) : Type 0 where
  queued :
      (i : ℕ)
      → i < nmlfq
      → fits priority i ≡ true
      → ((j : ℕ) → j < i → fits priority j ≡ false)
      → IsQueued m (insert_mlfq node p priority m) q node p i
      → Inserted m q node p priority
  too_high :
      ((j : ℕ) → j < nmlfq → fits priority j ≡ false)
      → (insert_mlfq node p priority m).0 ≡ none
      → IsQueues (insert_mlfq node p priority m).1 q
      → ((j : ℕ)
          → j < nmlfq
          → procs (insert_mlfq node p priority m).1.nodes (q j) ≡ procs m.nodes (q j))
      → Inserted m q node p priority

level-append_node : (i node p : ℕ) (m : Mlfq) → (append_node i node p m).level ≡ m.level
unfolding append_node
level-append_node i node p m = elim (Bool-cases (m.head i == 0)) [
  | inl y ↦ rw y refl
  | inr n ↦ rw n refl
]

module _ (m : Mlfq) (q : ℕ → List ℕ) (v : IsQueues m q) (node p : ℕ) (real : node ≢ 0)
    (fresh : (j : ℕ) → j < nmlfq → has node (q j) ≡ false) where
  pub insert_at-IsQueued : (i : ℕ) → i < nmlfq → IsQueued m (insert_at node p (some i) m) q node p i
  unfolding insert_at
  insert_at-IsQueued i low =
      let w = append_node-IsAppended m q v i node p low real fresh in
      let a = appended-IsQueues m q v i node p low real fresh in
      record {
        runtime = refl;
        level = rw (eq→== p p refl) refl;
        queues = record { chain = a.chain; last = a.last; once = a.once; apart = a.apart };
        behind = w.behind;
        others = λ j h ne. (w.changed.others j h ne).1;
      }

  -- `insertMlfq` puts the process behind the first queue whose priority is at least that of the process,
  -- sets its level and its runtime to those of the queue, and leaves the other queues; a process with a
  -- priority above that of all queues is in none of them. The node is not NULL and in no queue.
  pub insert_mlfq-Inserted : (priority : ℕ) → Inserted m q node p priority
  unfolding insert_mlfq insert_at
  insert_mlfq-Inserted priority = elim (first-First nmlfq 0 (fits priority)) [
    | absent e none_at ↦
        let same : insert_mlfq node p priority m ≡ insert_at node p none m =
          ap (λ o. insert_at node p o m) e in
        too_high (λ j h. none_at j (omega arith) h) (ap (λ r. r.0) same)
          (rw same (record {
            chain = λ j h.
                update-IsChain next_of m.nodes (m.head j) node (new_node p) (q j) (fresh j h)
                  (v.chain j h);
            last = v.last;
            once = v.once;
            apart = v.apart;
          }))
          (λ j h. rw same (contents-update proc_of m.nodes node (new_node p) (q j) (fresh j h)))
    | found i e a low t before ↦
        let same : insert_mlfq node p priority m ≡ insert_at node p (some i) m =
          ap (λ o. insert_at node p o m) e in
        queued i low t (λ j h. before j (omega arith) h)
          (subst (λ r. IsQueued m r q node p i) (sym same) (insert_at-IsQueued i low))
  ]

  abbrev moved : ℕ → Mlfq
  moved l = record m { level = update m.level p l }

  moved-IsQueues : (l : ℕ) → IsQueues (moved l) q
  moved-IsQueues l = record { chain = v.chain; last = v.last; once = v.once; apart = v.apart }

  -- `insertNextMlfqTail` puts the process behind the queue below its own, or behind its own if that is the
  -- last one, sets its level and its runtime to those of the queue, and leaves the other queues. The node
  -- is not NULL and in no queue, and the level of the process is that of a queue.
  pub insert_next_mlfq_tail-IsQueued :
      m.level p < nmlfq
      → IsQueued m
          (insert_next_mlfq_tail node p m)
          q
          node
          p
          (if ltb (m.level p) (nmlfq - 1) then m.level p + 1 else m.level p)
  unfolding insert_next_mlfq_tail
  insert_next_mlfq_tail-IsQueued h =
      let low : (if ltb (m.level p) (nmlfq - 1) then m.level p + 1 else m.level p) < nmlfq =
        ground arith in
      next_level _ low
    where
      next_level :
          (l : ℕ) → l < nmlfq → IsQueued m (some (l + 1), append_node l node p (moved l)) q node p l
      next_level l low =
          let w = append_node-IsAppended (moved l) q (moved-IsQueues l) l node p low real fresh in
          record {
            runtime = refl;
            level = ap (λ f. f p) (level-append_node l node p (moved l)) ∙ rw (eq→== p p refl) refl;
            queues = appended-IsQueues (moved l) q (moved-IsQueues l) l node p low real fresh;
            behind = w.behind;
            others = λ j h ne. (w.changed.others j h ne).1;
          }
