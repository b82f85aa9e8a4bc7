-- ===== src/Proc/Mlfq/Tests.antt =====
-- Three processes in the queues.
use mathlib.Core.Bool.{true≢false}
use learn_os.Base.{update, ℕ, ◌≡◌, refl, sym, arith, Option, none, some, List, [], ◌∷◌}
use learn_os.Proc.{first}
use learn_os.Proc.Mlfq.{
  Mlfq, init_mlfq, append_node, insert_at, insert_mlfq, insert_next_mlfq_tail, remove_loop,
  remove_mlfq,
}
use learn_os.Proc.Mlfq.Nodes.{procs, IsQueues}
use learn_os.Proc.Mlfq.Levels.{
  Inserted, IsQueued, insert_mlfq-Inserted, insert_next_mlfq_tail-IsQueued,
}

abbrev nothing : Mlfq
nothing = record {
  nodes = λ a. record { proc = 0; next = 0; want = 0 };
  head = λ i. 0;
  tail = λ i. 0;
  level = λ p. 0;
}

abbrev no_nodes : ℕ → List ℕ
no_nodes i = []

nothing-IsQueues : IsQueues nothing no_nodes
nothing-IsQueues = record {
  chain = λ i h. refl;
  last = λ i h. tt;
  once = λ i h. tt;
  apart = λ i j a h k x. absurd (true≢false (sym x));
}

-- Processes 5, 6 and 7 with priority 3 in the nodes at 100, 200 and 300.
abbrev three : Mlfq
three = (insert_mlfq 300 7 3 (insert_mlfq 200 6 3 (insert_mlfq 100 5 3 (init_mlfq nothing)).1).1).1

in_order : procs three.nodes (100 ∷ 200 ∷ 300 ∷ []) ≡ 5 ∷ 6 ∷ 7 ∷ []
unfolding insert_mlfq insert_at append_node init_mlfq first
in_order = refl

abbrev head_and_next : Option Mlfq → ℕ × ℕ
head_and_next none = (0, 0)
head_and_next (some m) = (m.head 1, (m.nodes 100).next)

middle_leaves : head_and_next (remove_mlfq 3 6 three) ≡ (100, 300)
unfolding insert_mlfq insert_at append_node init_mlfq first remove_mlfq remove_loop
middle_leaves = refl

first_leaves : head_and_next (remove_mlfq 3 5 three) ≡ (200, 200)
unfolding insert_mlfq insert_at append_node init_mlfq first remove_mlfq remove_loop
first_leaves = refl

insert_mlfq-Inserted_example : Inserted nothing no_nodes 100 5 3
insert_mlfq-Inserted_example =
    insert_mlfq-Inserted nothing no_nodes nothing-IsQueues 100 5 (λ e. absurd (omega arith))
      (λ j h. refl) 3

insert_next_mlfq_tail-IsQueued_example :
    IsQueued nothing (insert_next_mlfq_tail 100 5 nothing) no_nodes 100 5 1
insert_next_mlfq_tail-IsQueued_example =
    insert_next_mlfq_tail-IsQueued nothing no_nodes nothing-IsQueues 100 5
      (λ e. absurd (omega arith)) (λ j h. refl) (omega arith)

-- Process 5 alone in queue 1.
abbrev one : Mlfq
one = (insert_mlfq 100 5 3 nothing).1

abbrev one_list : ℕ → List ℕ
one_list = update no_nodes 1 (100 ∷ [])
