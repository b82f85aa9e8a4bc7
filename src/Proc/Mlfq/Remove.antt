-- ===== src/Proc/Mlfq/Remove.antt =====
-- Taking a process out of its queue.
use learn_os.Base.{
  ℕ, ◌<◌, ◌≡◌, ◌≢◌, refl, Bool, Option, none, some, List, [], ◌==◌, update, if◌then◌else◌,
}
use learn_os.Chain.{remove_first}
use learn_os.Chain.Unlink.{unlinked}
use learn_os.Proc.Mlfq.{nmlfq, Mlfq}
use learn_os.Proc.Mlfq.Nodes.{next_of, link, procs, IsQueues}

-- The node holds process `p`.
abbrev pub holds_proc : (m : Mlfq) (p : ℕ) → ℕ → Bool
holds_proc m p a = (m.nodes a).proc == p

-- How `removeMlfq` ends: with the process's queue without its first node for the process, where the others
-- are the same; or with no change for a process that is not in its queue; or in a fault if that is empty.
pub data Removed (p : ℕ) (m : Mlfq) (q : ℕ → List ℕ) (r : Option Mlfq) : Type 0 where
  faults : q (m.level p) ≡ [] → r ≡ none → Removed p m q r
  absent :
      q (m.level p) ≢ []
      → remove_first (λ x. x == p) (procs m.nodes (q (m.level p))) ≡ procs m.nodes (q (m.level p))
      → r ≡ some m
      → Removed p m q r
  removed :
      (m' : Mlfq) (ns : List ℕ)
      → r ≡ some m'
      → IsQueues m' (update q (m.level p) ns)
      → procs m'.nodes ns ≡ remove_first (λ x. x == p) (procs m.nodes (q (m.level p)))
      → ((j : ℕ) → j < nmlfq → j ≢ m.level p → procs m'.nodes (q j) ≡ procs m.nodes (q j))
      → m'.level ≡ m.level
      → Removed p m q r

-- The queues after the node behind `prev` is taken out.
abbrev taken_behind : (i prev : ℕ) → Mlfq → Mlfq
taken_behind i prev m =
    let after = (m.nodes prev).next in
    record m {
      nodes = unlinked next_of link (λ n x. refl) m.nodes prev;
      tail = if m.tail i == after then update m.tail i prev else m.tail;
    }

abbrev end_of : (i : ℕ) → Option ℕ → Mlfq → Mlfq
end_of i none m = m
end_of i (some prev) m = taken_behind i prev m

module _ (m : Mlfq) (q : ℕ → List ℕ) (v : IsQueues m q) (p : ℕ) (low : m.level p < nmlfq) where
  abbrev test : ℕ → Bool
  test = holds_proc m p
