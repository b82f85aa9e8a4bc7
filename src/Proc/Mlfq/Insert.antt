-- ===== src/Proc/Mlfq/Insert.antt =====
-- Inserting into the multi-level queues is appending to a list.
use mathlib.Core.Bool.{true≢false}
use mathlib.Core.Path.{subst}
use learn_os.Base.{
  ℕ, ◌<◌, ◌≡◌, ◌≢◌, refl, sym, ap, ap₂, ◌∙◌, true, false, List, [], ◌∷◌, ◌++◌, has, ne→==, eq→==,
  update,
}
use learn_os.Proc.Mlfq.{nmlfq, Node, Mlfq, new_node, append_node}
use learn_os.Chain.{IsChain, IsLast}
use learn_os.Chain.Append.{
  update-IsChain, linked-IsChain, IsLast-has, IsLast-appended, Apart-append, contents-update,
  contents-link, contents-append,
}
use learn_os.Chain.Family.{outside_one, appended-IsFrom}
use learn_os.Proc.Mlfq.Nodes.{next_of, link, proc_of, procs, IsQueues, IsChanged, changed-IsQueues}

-- One queue after a node with process `p` is put behind it.
pub record IsAppended (m m' : Mlfq) (q : ℕ → List ℕ) (i node p : ℕ) : Type 0 where
  pub changed : IsChanged m m' q i (q i ++ node ∷ [])
  pub behind : procs m'.nodes (q i ++ node ∷ []) ≡ procs m.nodes (q i) ++ p ∷ []

module _ (m : Mlfq) (q : ℕ → List ℕ) (v : IsQueues m q) (i node p : ℕ) (low : i < nmlfq)
    (real : node ≢ 0) (fresh : (j : ℕ) → j < nmlfq → has node (q j) ≡ false) where
  abbrev made : ℕ → Node
  made = update m.nodes node (new_node p)

  -- The node itself does not disturb a queue.
  made_others :
      (j : ℕ)
      → j < nmlfq
      → IsChain next_of made (m.head j) (q j) × (procs made (q j) ≡ procs m.nodes (q j))
  made_others j h = (
    update-IsChain next_of m.nodes (m.head j) node (new_node p) (q j) (fresh j h) (v.chain j h),
    contents-update proc_of m.nodes node (new_node p) (q j) (fresh j h),
  )

  made_node : made node ≡ new_node p
  made_node = rw (eq→== node node refl) refl

  append_empty : q i ≡ [] → IsAppended m (append_node i node p m) q i node p
  unfolding append_node
  append_empty e =
      let empty : m.head i ≡ 0 =
        subst (λ l. IsChain next_of m.nodes (m.head i) l) e (v.chain i low) in
      rw (eq→== (m.head i) 0 empty) (record {
        changed = record {
          head = rw e (rw (eq→== i i refl) refl, real, ap next_of made_node);
          tail = rw (e, eq→== i i refl) refl;
          heads = λ j ne. rw (ne→== j i ne) refl;
          tails = λ j ne. rw (ne→== j i ne) refl;
          others = λ j h ne. made_others j h;
        };
        behind = rw e (ap (λ n. n.proc ∷ []) made_node);
      })

  append_full :
      (a : ℕ) (ns : List ℕ) → q i ≡ a ∷ ns → IsAppended m (append_node i node p m) q i node p
  unfolding append_node
  append_full a ns e =
      let t = m.tail i in
      let c : IsChain next_of made (m.head i) (a ∷ ns) =
        subst (λ l. IsChain next_of made (m.head i) l) e (made_others i low).0 in
      let l : IsLast t (a ∷ ns) = subst (λ l. IsLast t l) e (v.last i low) in
      let f : has node (a ∷ ns) ≡ false = subst (λ l. has node l ≡ false) e (fresh i low) in
      let inside : has t (q i) ≡ true = subst (λ l. has t l ≡ true) (sym e) (IsLast-has t a ns l) in
      let differ : node ≢ t =
        (λ d. true≢false (sym inside ∙ subst (λ y. has y (q i) ≡ false) d (fresh i low))) in
      let linked = update made t (link (made t) node) in
      let same : linked node ≡ new_node p = rw (ne→== node t differ, eq→== node node refl) refl in
      rw (ne→== (m.head i) 0 (λ z. c.1 (sym c.0 ∙ z))) (record {
        changed = record {
          head = rw e (
              linked-IsChain next_of link (λ n x. refl) made (m.head i) t node a ns f real
                (ap next_of made_node) l c);
          tail = rw (eq→== i i refl) (IsLast-appended node (q i) (fresh i low));
          heads = λ j ne. refl;
          tails = λ j ne. rw (ne→== j i ne) refl;
          others = λ j h ne.
              let out = outside_one nmlfq q v.apart i low j t h ne inside in
              (
                update-IsChain next_of made (m.head j) t _ (q j) out (made_others j h).0,
                contents-update proc_of made t _ (q j) out ∙ (made_others j h).1,
              );
        };
        behind =
            contents-append proc_of linked node (q i)
            ∙ ap₂ (λ l x. l ++ x ∷ [])
                (contents-link proc_of made t _ (q i) refl ∙ (made_others i low).1)
                (ap proc_of same);
      })

  pub append_node-IsAppended : IsAppended m (append_node i node p m) q i node p
  append_node-IsAppended = by (q i) refl
    where
      by : (l : List ℕ) → q i ≡ l → IsAppended m (append_node i node p m) q i node p
      by [] e = append_empty e
      by (a ∷ ns) e = append_full a ns e

  -- All queues again.
  pub appended-IsQueues : IsQueues (append_node i node p m) (update q i (q i ++ node ∷ []))
  appended-IsQueues =
      changed-IsQueues m (append_node i node p m) q i (q i ++ node ∷ []) v low
        (appended-IsFrom nmlfq q v.apart i low node fresh)
        (Apart-append node (q i) (fresh i low) (v.once i low)) append_node-IsAppended.changed
