-- ===== src/Sleeplock.antt =====
-- kernel/sleeplock.c: locks that a process may hold while it sleeps.
-- Each function holds the spinlock in the lock from its start to its end or to its call of `sleep`, and
-- is one step. `a` is the address of the lock.
mod Wakeup
mod Exclusion
mod Tests
use learn_os.Base.{ℕ, Bool, true, false, ◌==◌, ◌&&◌, if◌then◌else◌, some}
use learn_os.Proc.{ProcTable, address, sleep, wakeup}

pub record Sleeplock : Type 0 where
  pub locked : Bool
  pub pid : ℕ

unfoldable pub initsleeplock : Sleeplock
initsleeplock = record { locked = false; pid = 0 }

-- A round of the loop of `acquiresleep`, and what is behind it: the Boolean says that the lock is taken,
-- and otherwise the process sleeps.
unfoldable pub acquiresleep :
    (a : ℕ) → Sleeplock → ProcTable → (cur : ℕ) → Bool × Sleeplock × ProcTable
acquiresleep a lk t cur =
    if lk.locked
    then (false, lk, sleep t cur (address a))
    else (true, record { locked = true; pid = (t cur).pid }, t)

unfoldable pub releasesleep : (a : ℕ) → Sleeplock → ProcTable → (cur : ℕ) → Sleeplock × ProcTable
releasesleep a lk t cur = (record { locked = false; pid = 0 }, wakeup t (some cur) (address a))

unfoldable pub holdingsleep : Sleeplock → ProcTable → (cur : ℕ) → Bool
holdingsleep lk t cur = lk.locked && (lk.pid == (t cur).pid)
