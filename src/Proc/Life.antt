-- ===== src/Proc/Life.antt =====
-- kernel/proc.c: `allocproc`, `freeproc`, `fork`, `exit`, `wait`, `yield` and the scheduler's choice of a
-- process, over an interface for the queues of the scheduler.
use learn_os.Base.{
  ℕ, zero, suc, ◌+◌, ◌%◌, ◌^◌, Bool, true, false, not, Option, none, some, ◌==◌, ◌&&◌, ◌>>=◌, ◌>>◌,
  guard, update, if◌then◌else◌,
}
use learn_os.Proc.{
  nproc, unused, sleeping, runnable, running, zombie, is, Channel, of_proc, Proc, ProcTable, first,
  is_proc, wakeup, allocated, freed,
}

-- `enum schemethod`
pub data SchedMethod : Type 0 where
  fcfs rr mlfq : SchedMethod

abbrev pub is_mlfq : SchedMethod → Bool
is_mlfq fcfs = false
is_mlfq rr = false
is_mlfq mlfq = true

abbrev pub is_rr : SchedMethod → Bool
is_rr fcfs = false
is_rr rr = true
is_rr mlfq = false

-- `insertMlfq`, `insertNextMlfqTail` and `removeMlfq`: each takes the process, the first its priority too;
-- the first two return its new `runtime`, if they set it. `none` is a fault.
pub record Queues (Q : Type 0) : Type 0 where
  pub insert : (p priority : ℕ) → Q → Option (Option ℕ × Q)
  pub insert_next : (p : ℕ) → Q → Option (Option ℕ × Q)
  pub remove : (p : ℕ) → Q → Option Q

-- The table, `nextpid`, `ticks`, `SCHE_METHOD`, `initproc` and the queues.
pub record Sys (Q : Type 0) : Type 0 where
  pub table : ProcTable
  pub nextpid : ℕ
  pub ticks : ℕ
  pub method : SchedMethod
  pub init : ℕ
  pub queues : Q

abbrev pub set_runtime : Proc → Option ℕ → Proc
set_runtime p none = p
set_runtime p (some r) = record p { runtime = r }

-- `p->parent` as what a process sleeps on.
abbrev pub parent_channel : Option ℕ → Channel
parent_channel none = Channel.nothing
parent_channel (some i) = of_proc i

-- How `wait` goes on after the scan of the table.
pub data Found : Type 0 where
  exited : ℕ → Found
  kids no_kids : Found

-- What `wait` returns: a pid, -1, or it sleeps.
pub data Waited : Type 0 where
  reaped : ℕ → Waited
  failed waits : Waited

-- The scan of the table by `wait`; a child counts as soon as it is seen.
unfoldable pub scan_kids : (left i : ℕ) → ProcTable → (cur : ℕ) → Bool → Found
scan_kids zero i t cur havekids = if havekids then Found.kids else Found.no_kids
scan_kids (suc left) i t cur havekids =
    let mine = is_proc (t i).parent cur in
    let rest = scan_kids left (i + 1) t cur (if mine then true else havekids) in
    if mine && is (t i).state zombie then Found.exited i else rest

-- The loop of `reparent`.
unfoldable pub reparent_loop : (left i : ℕ) → ProcTable → (cur init : ℕ) → ProcTable
reparent_loop zero i t cur init = t
reparent_loop (suc left) i t cur init =
    reparent_loop left (i + 1)
      (if is_proc (t i).parent cur
        then wakeup (update t i (record (t i) { parent = some init })) (some cur) (of_proc init)
        else t)
      cur init

unfoldable pub reparent : ProcTable → (cur init : ℕ) → ProcTable
reparent t cur init = reparent_loop nproc 0 t cur init

module _ {Q : Type 0} (q : Queues Q) where
  -- The calls of `removeMlfq` by `freeproc` and of `insertMlfq` by `fork`.
  abbrev pub dequeue : Sys Q → ℕ → Option Q
  dequeue s i = if is_mlfq s.method then q.remove i s.queues else some s.queues

  abbrev pub enqueue : Sys Q → (i priority : ℕ) → Option (Option ℕ × Q)
  enqueue s i priority =
      if is_mlfq s.method then q.insert i priority s.queues else some (none, s.queues)

  abbrev pub without : Sys Q → ℕ → Q → Sys Q
  without s i queues = record s { table = update s.table i (freed (s.table i)); queues = queues }

  unfoldable pub freeproc : Sys Q → ℕ → Option (Sys Q)
  freeproc s i = do queues ← dequeue s i; some (without s i queues)

  abbrev pub with_allocated : Sys Q → ℕ → Sys Q
  with_allocated s i = record s {
    table = update s.table i (allocated (s.table i) s.nextpid s.ticks);
    nextpid = (s.nextpid + 1) % 2 ^ 32;
  }

  -- `allocproc` behind its search for an unused process. `memory` says whether the trapframe and the page
  -- table could be allocated; the result is an index, or `none` for 0.
  unfoldable pub allocproc_at : Sys Q → (memory : Bool) → Option ℕ → Option (Option ℕ × Sys Q)
  allocproc_at s memory none = some (none, s)
  allocproc_at s memory (some i) =
      let s' = with_allocated s i in
      if memory then some (some i, s') else (do s'' ← freeproc s' i; some (none, s''))

  unfoldable pub allocproc : Sys Q → (memory : Bool) → Option (Option ℕ × Sys Q)
  unfolding allocproc_at
  allocproc s memory = allocproc_at s memory (first nproc 0 (λ i. is (s.table i).state unused))

  -- The fields of the child that `fork` sets.
  abbrev pub child_of : Sys Q → (cur i : ℕ) → Proc
  child_of s cur i = record (s.table i) {
    trace_mask = (s.table cur).trace_mask;
    parent = some cur;
    state = runnable;
    priority = (s.table cur).priority;
  }

  abbrev pub with_child : Sys Q → (cur i : ℕ) → Option ℕ × Q → Sys Q
  with_child s cur i queued = record s {
    table = update s.table i (set_runtime (child_of s cur i) queued.0);
    queues = queued.1;
  }

  unfoldable pub fork_child : Sys Q → (cur i : ℕ) → Option (Sys Q)
  fork_child s cur i = do
    queued ← enqueue s i (s.table cur).priority
    some (with_child s cur i queued)

  -- `fork` behind `allocproc`. `copied` is whether `uvmcopy` succeeded; the result is the child's pid, or
  -- `none` for -1.
  unfoldable pub fork_at :
      Sys Q → (cur : ℕ) → (copied : Bool) → Option ℕ → Option (Option ℕ × Sys Q)
  fork_at s cur copied none = some (none, s)
  fork_at s cur copied (some i) =
      if copied
      then (do s' ← fork_child s cur i; some (some (s.table i).pid, s'))
      else (do s' ← freeproc s i; some (none, s'))

  unfoldable pub fork : Sys Q → (cur : ℕ) → (memory copied : Bool) → Option (Option ℕ × Sys Q)
  fork s cur memory copied = do
    allocated_one ← allocproc s memory
    fork_at allocated_one.1 cur copied allocated_one.0

  -- The table once the children have a new parent and the parent is awake.
  abbrev pub exit_table : Sys Q → (cur : ℕ) → ProcTable
  exit_table s cur =
      let t = reparent s.table cur s.init in wakeup t (some cur) (parent_channel (t cur).parent)

  abbrev pub with_exited : Sys Q → (cur status : ℕ) → Sys Q
  with_exited s cur status = record s {
    table =
        update (exit_table s cur) cur
          (record (exit_table s cur cur) { xstate = status; state = zombie });
  }

  -- Up to the call of `sched`, from which an exited process does not return. `initproc` panics.
  unfoldable pub exit : Sys Q → (cur status : ℕ) → Option (Sys Q)
  exit s cur status = do guard (not (cur == s.init)); some (with_exited s cur status)

  -- `wait` behind its scan; `copied` is whether the status could be copied out.
  unfoldable pub wait_at : Sys Q → (cur : ℕ) → (copied : Bool) → Found → Option (Waited × Sys Q)
  wait_at s cur copied (Found.exited i) =
      if copied
      then (do s' ← freeproc s i; some (Waited.reaped (s.table i).pid, s'))
      else some (Waited.failed, s)
  wait_at s cur copied Found.no_kids = some (Waited.failed, s)
  wait_at s cur copied Found.kids =
      if (s.table cur).killed
      then some (Waited.failed, s)
      else some (
        Waited.waits,
        record s {
          table =
              update s.table cur (record (s.table cur) { chan = of_proc cur; state = sleeping });
        },
      )

  -- One round of `wait`.
  unfoldable pub wait : Sys Q → (cur : ℕ) → (copied : Bool) → Option (Waited × Sys Q)
  wait s cur copied = wait_at s cur copied (scan_kids nproc 0 s.table cur false)

  -- The end of `yield` for SCHED_MLFQ.
  abbrev pub with_yielded : Sys Q → (cur : ℕ) → Option ℕ × Q → Sys Q
  with_yielded s cur queued = record s {
    table = update s.table cur (set_runtime (record (s.table cur) { state = runnable }) queued.0);
    queues = queued.1;
  }

  -- Up to the call of `sched`.
  unfoldable pub yield : Sys Q → (cur : ℕ) → Option (Sys Q)
  yield s cur =
      if is_rr s.method
      then some (record s {
        table = update s.table cur (record (s.table cur) { state = runnable; runtime = 1 });
      })
      else if is_mlfq s.method
      then (do
        removed ← q.remove cur s.queues
        queued ← q.insert_next cur removed
        some (with_yielded s cur queued))
      else some
          (record s { table = update s.table cur (record (s.table cur) { state = runnable }) })

  -- The scheduler at a process: it runs it if it can.
  unfoldable pub dispatch : Sys Q → ℕ → Bool × Sys Q
  dispatch s i =
      if is (s.table i).state runnable
      then (true, record s { table = update s.table i (record (s.table i) { state = running }) })
      else (false, s)
