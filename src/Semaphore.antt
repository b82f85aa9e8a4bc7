-- ===== src/Semaphore.antt =====
-- kernel/semaphore.c: one semaphore set, with `semop` on it and the queues of the processes that sleep. A
-- process is its index, and the address that `kmalloc` returns for a node of a queue is an argument.
pub mod Signal
pub mod Operation
mod Tests
use learn_os.Base.{
  ℕ, zero, suc, ◌+◌, ◌-◌, ◌^◌, Bool, true, false, Option, none, some, List, [], ◌∷◌, ◌++◌, ltb, leb,
  ◌==◌, update, if◌then◌else◌,
}

-- `struct wait_queue_node`
pub record WaitNode : Type 0 where
  pub p : ℕ
  pub next : ℕ

-- `struct sem`, with its queue.
pub record Sem : Type 0 where
  pub value : ℕ
  pub first : ℕ
  pub last : ℕ

-- `struct sembuf`: `sem_op` is a 16-bit pattern, and `nowait` whether `sem_flg` has `IPC_NOWAIT`.
pub record SemBuf : Type 0 where
  pub sem_index : ℕ
  pub sem_op : ℕ
  pub nowait : Bool

-- The nodes in memory, `sem_want` of each process, the processes that were woken, the latest one last, and the
-- semaphores of the set.
pub record Sems : Type 0 where
  pub nodes : ℕ → WaitNode
  pub sem_want : ℕ → ℕ
  pub woken : List ℕ
  pub sz : ℕ
  pub sem : ℕ → Sem

unfoldable pub insert_last : (i newnode p : ℕ) → Sems → Sems
insert_last i newnode p s =
    let q = s.sem i in
    let nodes = update s.nodes newnode (record { p = p; next = 0 }) in
    if q.first == 0
    then record s {
      nodes = nodes;
      sem = update s.sem i (record q { first = newnode; last = newnode });
    }
    else record s {
      nodes = update nodes q.last (record (nodes q.last) { next = newnode });
      sem = update s.sem i (record q { last = newnode });
    }

unfoldable pub get_first : (i : ℕ) → Sems → Option ℕ
get_first i s = if (s.sem i).first == 0 then none else some (s.nodes (s.sem i).first).p

-- An empty queue is a panic.
unfoldable pub erase_first : (i : ℕ) → Sems → Option Sems
erase_first i s =
    let q = s.sem i in
    let after = (s.nodes q.first).next in
    if q.first == 0
    then none
    else some (record s {
      sem = update s.sem i (record q { first = after; last = if after == 0 then 0 else q.last });
    })

-- What is done for a process that gets what it wants, up to `erase_first`.
unfoldable pub serve : (i firstsleep : ℕ) → Sems → Sems
serve i firstsleep s = record s {
  woken = s.woken ++ firstsleep ∷ [];
  sem = update s.sem i (record (s.sem i) { value = (s.sem i).value - s.sem_want firstsleep });
  sem_want = update s.sem_want firstsleep 0;
}

-- How the loop over the waiting processes ends: at the end of its rounds, in a panic, or with the semaphores.
pub data LoopResult : Type 0 where
  out_of_rounds : LoopResult
  panics : LoopResult
  done : Sems → LoopResult

abbrev pub go_on : (Sems → LoopResult) → Option Sems → LoopResult
go_on k none = LoopResult.panics
go_on k (some s) = k s

abbrev pub must_wait : Option ℕ → (value : ℕ) → (ℕ → ℕ) → Bool
must_wait none value sem_want = true
must_wait (some firstsleep) value sem_want = ltb value (sem_want firstsleep)

abbrev pub served : (i : ℕ) → Option ℕ → Sems → Option Sems
served i none s = some s
served i (some firstsleep) s = erase_first i (serve i firstsleep s)

unfoldable pub signal_loop : (left i : ℕ) → Sems → LoopResult
signal_loop zero i s = LoopResult.out_of_rounds
signal_loop (suc left) i s =
    let firstsleep = get_first i s in
    let rest = go_on (signal_loop left i) (served i firstsleep s) in
    if must_wait firstsleep (s.sem i).value s.sem_want then LoopResult.done s else rest

-- How one operation ends: the call returns a negative code, with the lock held or not; or the process sleeps;
-- or the next operation follows.
pub data OpResult : Type 0 where
  failed : (minus : ℕ) (locked : Bool) → OpResult
  asleep : Sems → OpResult
  stopped : OpResult
  stepped : Sems → OpResult

abbrev pub is_negative : ℕ → Bool
is_negative op = leb (2 ^ 15) op

-- `-sem_op`
abbrev pub minus_op : ℕ → ℕ
minus_op op = 2 ^ 16 - op

abbrev pub add_value : (i : ℕ) (value : ℕ) → Sems → Sems
add_value i value s = record s { sem = update s.sem i (record (s.sem i) { value = value }) }

abbrev pub after_loop : LoopResult → OpResult
after_loop LoopResult.out_of_rounds = OpResult.stopped
after_loop LoopResult.panics = OpResult.stopped
after_loop (LoopResult.done s) = OpResult.stepped s

-- The branch that waits.
unfoldable pub wait_op : (newnode p : ℕ) → SemBuf → Sems → OpResult
wait_op newnode p b s =
    let i = b.sem_index in
    if ltb (s.sem i).value (minus_op b.sem_op)
    then if b.nowait
      then OpResult.failed 4 true
      else OpResult.asleep (record (insert_last i newnode p s) {
        sem_want = update s.sem_want p (minus_op b.sem_op);
      })
    else OpResult.stepped (add_value i ((s.sem i).value - minus_op b.sem_op) s)

-- One round of the loop of `semop`.
unfoldable pub one_op : (left newnode p : ℕ) → SemBuf → Sems → OpResult
one_op left newnode p b s =
    let i = b.sem_index in
    if leb s.sz i
    then OpResult.failed 3 false
    else if is_negative b.sem_op
    then wait_op newnode p b s
    else if ltb 0 b.sem_op
    then after_loop (signal_loop left i (add_value i ((s.sem i).value + b.sem_op) s))
    else OpResult.stepped s

-- How `semop` ends; a process that sleeps goes on with the operations that are left.
pub data SemopResult : Type 0 where
  failed : (minus : ℕ) (locked : Bool) → SemopResult
  asleep : List SemBuf → Sems → SemopResult
  stopped : SemopResult
  returned : Sems → SemopResult

abbrev pub next_op : (Sems → SemopResult) → List SemBuf → OpResult → SemopResult
next_op k bs (OpResult.failed c locked) = SemopResult.failed c locked
next_op k bs (OpResult.asleep s) = SemopResult.asleep bs s
next_op k bs OpResult.stopped = SemopResult.stopped
next_op k bs (OpResult.stepped s) = k s

-- The loop of `semop`; a process inserts itself into at most one queue before it sleeps.
unfoldable pub semop_loop : (left newnode p : ℕ) → List SemBuf → Sems → SemopResult
semop_loop left newnode p [] s = SemopResult.returned s
semop_loop left newnode p (b ∷ bs) s =
    next_op (semop_loop left newnode p bs) bs (one_op left newnode p b s)
