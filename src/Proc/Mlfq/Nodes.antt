-- ===== src/Proc/Mlfq/Nodes.antt =====
-- The queues of the scheduler as lists that share no node.
use native.Mathlib.Decide.{ℕ_discrete}
use learn_os.Base.{ℕ, ◌<◌, ◌≡◌, ◌≢◌, List, ne→==, eq→==, update}
use learn_os.Chain.{IsChain, IsLast, Apart, contents}
use learn_os.Chain.Family.{Disjoint, IsFrom, update-Disjoint}
use learn_os.Proc.Mlfq.{nmlfq, Node, Mlfq}

abbrev pub next_of : Node → ℕ
next_of n = n.next

abbrev pub link : Node → ℕ → Node
link n x = record n { next = x }

abbrev pub proc_of : Node → ℕ
proc_of n = n.proc

abbrev pub procs : (ℕ → Node) → List ℕ → List ℕ
procs nodes ns = contents proc_of nodes ns

-- The nodes of each queue.
pub record IsQueues (m : Mlfq) (q : ℕ → List ℕ) : Type 0 where
  pub chain : (i : ℕ) → i < nmlfq → IsChain next_of m.nodes (m.head i) (q i)
  pub last : (i : ℕ) → i < nmlfq → IsLast (m.tail i) (q i)
  pub once : (i : ℕ) → i < nmlfq → Apart (q i)
  pub apart : Disjoint nmlfq q

-- Only queue `i` has changed, to the nodes `ns`.
pub record IsChanged (m m' : Mlfq) (q : ℕ → List ℕ) (i : ℕ) (ns : List ℕ) : Type 0 where
  pub head : IsChain next_of m'.nodes (m'.head i) ns
  pub tail : IsLast (m'.tail i) ns
  pub heads : (j : ℕ) → j ≢ i → m'.head j ≡ m.head j
  pub tails : (j : ℕ) → j ≢ i → m'.tail j ≡ m.tail j
  pub others :
      (j : ℕ)
      → j < nmlfq
      → j ≢ i
      → IsChain next_of m'.nodes (m.head j) (q j) × (procs m'.nodes (q j) ≡ procs m.nodes (q j))

pub changed-IsQueues :
    (m m' : Mlfq) (q : ℕ → List ℕ) (i : ℕ) (ns : List ℕ)
    → IsQueues m q
    → i < nmlfq
    → IsFrom nmlfq q i ns
    → Apart ns
    → IsChanged m m' q i ns
    → IsQueues m' (update q i ns)
changed-IsQueues m m' q i ns v low origin once w = record {
  chain = λ j h. elim (ℕ_discrete j i) [
    | yes e ↦ rw (eq→== j i e, e) w.head
    | no ne ↦ rw (ne→== j i ne, w.heads j ne) (w.others j h ne).0
  ];
  last = λ j h. elim (ℕ_discrete j i) [
    | yes e ↦ rw (eq→== j i e, e) w.tail
    | no ne ↦ rw (ne→== j i ne, w.tails j ne) (v.last j h)
  ];
  once = λ j h. elim (ℕ_discrete j i) [
    | yes e ↦ rw (eq→== j i e) once
    | no ne ↦ rw (ne→== j i ne) (v.once j h)
  ];
  apart = update-Disjoint nmlfq q v.apart i low ns origin;
}
