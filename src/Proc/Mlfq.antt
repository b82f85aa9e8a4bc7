-- ===== src/Proc/Mlfq.antt =====
-- kernel/proc.c: the queues of the multi-level scheduler, `initMlfq`, `insertMlfq`, `insertNextMlfqTail` and
-- `removeMlfq`, as linked nodes. The address that `kmalloc` returns for a node is an argument.
pub mod Insert
pub mod Levels
pub mod Nodes
pub mod Remove
mod Tests
use learn_os.Base.{
  ℕ, zero, suc, ◌+◌, ◌-◌, ◌*◌, ◌^◌, Bool, true, false, Option, none, some, ltb, leb, ◌==◌, ◌&&◌,
  ◌||◌, ◌>>=◌, ◌>>◌, guard, not, update, if◌then◌else◌,
}
use learn_os.Proc.{first}

abbrev pub nmlfq : ℕ
nmlfq = 4

-- `struct procQueueNode`; a process is its index.
pub record Node : Type 0 where
  pub proc : ℕ
  pub next : ℕ
  pub want : ℕ

-- The nodes in memory, `head` and `tail` of each queue, and `mlqlevel` of each process. The priority of
-- queue `i` is `2 * i + 1`, and its runtime `i + 1`.
pub record Mlfq : Type 0 where
  pub nodes : ℕ → Node
  pub head : ℕ → ℕ
  pub tail : ℕ → ℕ
  pub level : ℕ → ℕ

unfoldable pub init_mlfq : Mlfq → Mlfq
init_mlfq m = record m {
  head = λ i. if ltb i nmlfq then 0 else m.head i;
  tail = λ i. if ltb i nmlfq then 0 else m.tail i;
}

abbrev pub new_node : ℕ → Node
new_node p = record { proc = p; next = 0; want = 0 }

-- A node with a process is put behind the last one of queue `i`.
unfoldable pub append_node : (i node p : ℕ) → Mlfq → Mlfq
append_node i node p m =
    let nodes = update m.nodes node (new_node p) in
    if m.head i == 0
    then record m { nodes = nodes; head = update m.head i node; tail = update m.tail i node }
    else record m {
      nodes = update nodes (m.tail i) (record (nodes (m.tail i)) { next = node });
      tail = update m.tail i node;
    }

-- `p->priority <= q->priority` for queue `i`, where the priorities are signed 32-bit integers.
abbrev pub fits : (priority i : ℕ) → Bool
fits priority i = leb (2 ^ 31) priority || leb priority (2 * i + 1)

-- The results of both are the new `runtime` of the process, if it is set, and the queues.
unfoldable pub insert_at : (node p : ℕ) → Option ℕ → Mlfq → Option ℕ × Mlfq
insert_at node p none m = (none, record m { nodes = update m.nodes node (new_node p) })
insert_at node p (some i) m =
    let m' = append_node i node p m in (some (i + 1), record m' { level = update m'.level p i })

unfoldable pub insert_mlfq : (node p priority : ℕ) → Mlfq → Option ℕ × Mlfq
unfolding insert_at
insert_mlfq node p priority m = insert_at node p (first nmlfq 0 (fits priority)) m

unfoldable pub insert_next_mlfq_tail : (node p : ℕ) → Mlfq → Option ℕ × Mlfq
insert_next_mlfq_tail node p m =
    let l = if ltb (m.level p) (nmlfq - 1) then m.level p + 1 else m.level p in
    let m' = record m { level = update m.level p l } in (some (l + 1), append_node l node p m')

-- The loop of `removeMlfq`; `none` is out of rounds.
unfoldable pub remove_loop : (left node i p : ℕ) → Mlfq → Option Mlfq
remove_loop zero node i p m = none
remove_loop (suc left) node i p m =
    let after = (m.nodes node).next in
    let rest = remove_loop left after i p m in
    if after == 0
    then some m
    else if (m.nodes after).proc == p
    then some (record m {
      nodes = update m.nodes node (record (m.nodes node) { next = (m.nodes after).next });
      tail = if m.tail i == after then update m.tail i node else m.tail;
    })
    else rest

-- An empty queue is a fault.
unfoldable pub remove_mlfq : (left p : ℕ) → Mlfq → Option Mlfq
remove_mlfq left p m =
    let i = m.level p in
    let node = m.head i in
    let rest = remove_loop left node i p m in
    if node == 0
    then none
    else if (m.nodes node).proc == p && (m.nodes node).next == 0
    then some (record m { head = update m.head i 0; tail = update m.tail i 0 })
    else if (m.nodes node).proc == p
    then some (record m { head = update m.head i (m.nodes node).next })
    else rest
