-- ===== src/Proc/Tests.antt =====
-- A table with `initproc` and, after a fork, its child.
use mathlib.Core.Bool.{true≢false}
use learn_os.Base.{
  ℕ, ◌≡◌, refl, sym, ◌∙◌, arith, true, false, Option, none, some, update, ◌==◌, [], ◌∷◌, List,
  ==→eq, Bool-cases, inl, inr,
}
use learn_os.Proc.{Proc, ProcTable, unused, running, Channel, allocated, first}
use learn_os.Proc.Life.{Queues, Sys, mlfq, fork, fork_at, fork_child, allocproc, allocproc_at, exit}
use learn_os.Proc.Tree.{live}
use learn_os.Proc.Steps.{IsFamily, IsRunning}
use learn_os.Proc.Kids.{Waits, wait-Waits}
use learn_os.Proc.Reach.{Reach, start, next, forks, exits, Reach-IsFamily}

-- Queues that do not say in which order processes run.
abbrev unordered : Queues (List ℕ)
unordered = record {
  insert = λ p priority l. some (some 1, p ∷ l);
  insert_next = λ p l. some (some 2, p ∷ l);
  remove = λ p l. some l;
}

abbrev empty : Proc
empty = record {
  state = unused;
  chan = Channel.nothing;
  killed = false;
  xstate = 0;
  pid = 0;
  parent = none;
  trace_mask = 0;
  priority = 0;
  preempable = false;
  createtime = 0;
  runtime = 0;
  readytime = 0;
  sleeptime = 0;
  nice = 0;
  sem_want = 0;
  vforked = false;
}

abbrev initial : ProcTable
initial = update (λ i. empty) 0 (record empty { pid = 1; state = running; priority = 1 })

abbrev booted : Sys (List ℕ)
booted = record { table = initial; nextpid = 2; ticks = 5; method = mlfq; init = 0; queues = [] }

initial_parent : (i : ℕ) → (initial i).parent ≡ none
initial_parent i = elim (Bool-cases (i == 0)) [ inl a ↦ rw a refl | inr b ↦ rw b refl ]

initial-live : (i : ℕ) → live (initial i) ≡ true → i ≡ 0
initial-live i h = elim (Bool-cases (i == 0)) [
  | inl a ↦ ==→eq i 0 a
  | inr b ↦ let free : live (initial i) ≡ false = rw b refl in absurd (true≢false (sym h ∙ free))
]

booted-IsFamily : IsFamily unordered booted
booted-IsFamily = record {
  some_pid = omega arith;
  free_parent = λ i h u. initial_parent i;
  live_pid = λ i h u. rw (initial-live i u) (omega arith, omega arith);
  distinct = λ i j h k u w e. initial-live i u ∙ sym (initial-live j w);
  parents = λ j i h u e. let free = initial_parent j in absurd cc;
  init_live = (omega arith, refl, refl);
}

abbrev left : Option (Option ℕ × Sys (List ℕ)) → Sys (List ℕ)
left none = booted
left (some (r, s)) = s

abbrev left_by_exit : Option (Sys (List ℕ)) → Sys (List ℕ)
left_by_exit none = booted
left_by_exit (some s) = s

abbrev forked : Sys (List ℕ)
forked = left (fork unordered booted 0 true true)

abbrev child_exited : Sys (List ℕ)
child_exited = left_by_exit (exit unordered forked 1 7)

forking : fork unordered booted 0 true true ≡ some (some 2, forked)
unfolding fork fork_at fork_child allocproc allocproc_at first allocated
forking = refl

child : (forked.table 1).pid ≡ 2
unfolding fork fork_at fork_child allocproc allocproc_at first allocated
child = refl

exiting : exit unordered forked 1 7 ≡ some child_exited
unfolding exit fork fork_at fork_child allocproc allocproc_at first allocated
exiting = refl

child-IsRunning : IsRunning unordered forked 1
unfolding fork fork_at fork_child allocproc allocproc_at first allocated
child-IsRunning = (omega arith, refl, refl)

history : Reach unordered booted child_exited
history =
    next (next start (forks 0 true true (some 2) (omega arith, refl, refl) (omega arith) forking))
      (exits 1 7 child-IsRunning exiting)

Reach-IsFamily_example : IsFamily unordered child_exited
Reach-IsFamily_example = Reach-IsFamily unordered booted-IsFamily history

wait-Waits_example : Waits unordered child_exited 0 true
wait-Waits_example = wait-Waits unordered child_exited 0 true
