-- ===== src/Proc.antt =====
-- kernel/proc.c: the process table, from `fork` to `exit` and `wait`.
-- A process is its index in `proc`. Each function is one step, as its locks make it; a call that sleeps
-- ends there. What hangs from a process (memory, files, IPC blocks) is not in the table.
pub mod Table
pub mod Life
pub mod Tree
pub mod Change
pub mod Kids
pub mod Steps
pub mod Reach
pub mod Mlfq
mod Tests
use learn_os.Base.{
  ℕ, zero, suc, ◌+◌, ◌-◌, ◌%◌, ◌^◌, Bool, true, false, not, Option, none, some, ltb, ◌==◌, ◌&&◌,
  ◌||◌, ◌>>=◌, ◌>>◌, guard, update, if◌then◌else◌, List, [], ◌∷◌,
}

abbrev pub nproc : ℕ
nproc = 64

-- `enum procstate`, with its values.
pub data ProcState : Type 0 where
  unused used sleeping runnable running zombie blocked : ProcState

abbrev pub value_of : ProcState → ℕ
value_of unused = 0
value_of used = 1
value_of sleeping = 2
value_of runnable = 3
value_of running = 4
value_of zombie = 5
value_of blocked = 6

abbrev pub is : ProcState → ProcState → Bool
is s t = value_of s == value_of t

-- What a process sleeps on: 0, a process, or another address.
pub data Channel : Type 0 where
  nothing : Channel
  of_proc address : ℕ → Channel

abbrev pub same_channel : Channel → Channel → Bool
same_channel nothing nothing = true
same_channel (of_proc i) (of_proc j) = i == j
same_channel (address a) (address b) = a == b
same_channel _ _ = false

-- The fields of `struct proc` for its state, its family and its scheduling. A signed integer is its
-- 32-bit pattern, and `parent` is an index.
pub record Proc : Type 0 where
  pub state : ProcState
  pub chan : Channel
  pub killed : Bool
  pub xstate : ℕ
  pub pid : ℕ
  pub parent : Option ℕ
  pub trace_mask : ℕ
  pub priority : ℕ
  pub preempable : Bool
  pub createtime : ℕ
  pub runtime : ℕ
  pub readytime : ℕ
  pub sleeptime : ℕ
  pub nice : ℕ
  pub sem_want : ℕ
  pub vforked : Bool

abbrev pub ProcTable : Type 0
ProcTable = ℕ → Proc

-- `for (p = proc; p < &proc[NPROC]; p++)` with a body that only changes `p`.
unfoldable pub each : (left i : ℕ) → (ℕ → Proc → Proc) → ProcTable → ProcTable
each zero i body t = t
each (suc left) i body t = each left (i + 1) body (update t i (body i (t i)))

-- The same with a body that only looks for the first process that passes a test.
unfoldable pub first : (left i : ℕ) → (ℕ → Bool) → Option ℕ
first zero i test = none
first (suc left) i test = let rest = first left (i + 1) test in if test i then some i else rest

abbrev pub is_proc : Option ℕ → ℕ → Bool
is_proc none i = false
is_proc (some j) i = j == i

-- The body of the loop of `wakeup`, where `cur` is `myproc()`.
unfoldable pub woken : Option ℕ → Channel → ℕ → Proc → Proc
woken cur chan i p =
    if not (is_proc cur i) && (is p.state sleeping && same_channel p.chan chan)
    then record p { state = runnable }
    else p

unfoldable pub wakeup : ProcTable → Option ℕ → Channel → ProcTable
wakeup t cur chan = each nproc 0 (woken cur chan) t

-- `kill` behind its search. The Boolean is true for 0, and false for -1.
unfoldable pub kill_at : ProcTable → Option ℕ → Bool × ProcTable
kill_at t none = (false, t)
kill_at t (some i) = (
  true,
  update t i (record (t i) {
    killed = true;
    state = if is (t i).state sleeping then runnable else (t i).state;
  }),
)

unfoldable pub kill : ProcTable → ℕ → Bool × ProcTable
unfolding kill_at
kill t pid = kill_at t (first nproc 0 (λ i. (t i).pid == pid))

unfoldable pub setkilled : ProcTable → ℕ → ProcTable
setkilled t i = update t i (record (t i) { killed = true })

unfoldable pub sleep : ProcTable → ℕ → Channel → ProcTable
sleep t cur chan = update t cur (record (t cur) { chan = chan; state = sleeping })

-- What `sleep` does when it goes on.
unfoldable pub slept : ProcTable → ℕ → ProcTable
slept t cur = update t cur (record (t cur) { chan = nothing })

-- The body of the loop of `update_proc`; `nice` is an `int`.
unfoldable pub ticked : ℕ → Proc → Proc
ticked i p =
    if is p.state running
    then niced (record p { runtime = (p.runtime + 1) % 2 ^ 32 })
    else if is p.state sleeping
    then niced (record p { sleeptime = (p.sleeptime + 1) % 2 ^ 64 })
    else if is p.state runnable
    then niced (record p { readytime = (p.readytime + 1) % 2 ^ 64 })
    else p
  where
    niced : Proc → Proc
    niced p = record p {
      nice = (p.priority + 2 ^ 65 - p.runtime - p.sleeptime + p.readytime) % 2 ^ 32;
    }

unfoldable pub update_proc : ProcTable → ProcTable
update_proc t = each nproc 0 ticked t

-- The fields that `allocproc` sets in an unused process.
unfoldable pub allocated : Proc → (pid ticks : ℕ) → Proc
allocated p pid ticks = record p {
  pid = pid;
  state = used;
  priority = 1;
  preempable = true;
  createtime = ticks;
  runtime = 1;
  readytime = 0;
  sleeptime = 0;
  nice = 0;
}

-- The fields that `freeproc` clears.
unfoldable pub freed : Proc → Proc
freed p = record p {
  pid = 0;
  parent = none;
  chan = nothing;
  killed = false;
  xstate = 0;
  state = unused;
  trace_mask = 0;
  priority = 0;
  createtime = 0;
  runtime = 0;
  readytime = 0;
  sleeptime = 0;
  nice = 0;
  sem_want = 0;
  vforked = false;
}
