-- ===== src/Spinlock.antt =====
-- kernel/spinlock.c: spinlocks, and the nesting of disabled interrupts.
-- `acquire` and `release` are cut at the atomic steps of one CPU between which another may run.
pub mod Nesting
pub mod Invariant
pub mod Exclusion
mod Tests
use learn_os.Base.{
  ℕ, zero, suc, ◌+◌, ◌-◌, Bool, true, false, not, Option, none, some, ltb, ◌==◌, ◌&&◌, ◌>>=◌, ◌>>◌,
  guard, update, if◌then◌else◌, List, [], ◌∷◌,
}

-- What `struct cpu` says of interrupts, and whether the CPU has them on.
pub record Cpu : Type 0 where
  pub noff : ℕ
  pub intena : Bool
  pub intr : Bool

-- The field `cpu` is the number of a CPU, or `none` for 0.
pub record Spinlock : Type 0 where
  pub locked : Bool
  pub cpu : Option ℕ

unfoldable pub initlock : Spinlock
initlock = record { locked = false; cpu = none }

unfoldable pub push_off : Cpu → Cpu
push_off c = record {
  noff = c.noff + 1;
  intena = if c.noff == 0 then c.intr else c.intena;
  intr = false;
}

unfoldable pub pop_off : Cpu → Option Cpu
pop_off c = do
  guard (not c.intr)
  guard (ltb 0 c.noff)
  let noff = c.noff - 1
  some (record c { noff = noff; intr = if noff == 0 && c.intena then true else c.intr })

abbrev pub is_cpu : Option ℕ → ℕ → Bool
is_cpu none i = false
is_cpu (some j) i = j == i

unfoldable pub holding : Spinlock → ℕ → Bool
holding lk i = lk.locked && is_cpu lk.cpu i

-- The atomic swap of `locked` with 1: whether it was set, and the lock after it.
unfoldable pub test_and_set : Spinlock → Bool × Spinlock
test_and_set lk = (lk.locked, record lk { locked = true })

-- Where a CPU is that acquires and releases a lock again and again: before `acquire`, in its loop, behind
-- the loop, with the lock, behind `lk->cpu = 0`, and before `pop_off`.
pub data Place : Type 0 where
  outside spinning taken critical leaving popping : Place

-- The CPUs and one lock that they share.
pub record Machine : Type 0 where
  pub cpus : ℕ → Cpu
  pub place : ℕ → Place
  pub lock : Spinlock

-- The next step of CPU `i`; `none` is a panic.
unfoldable pub step_at : Place → Machine → ℕ → Option Machine
unfolding push_off pop_off holding test_and_set
step_at outside m i = do
  guard (not (holding m.lock i))
  some
      (record m { cpus = update m.cpus i (push_off (m.cpus i)); place = update m.place i spinning })
step_at spinning m i =
    let swapped = test_and_set m.lock in
    if swapped.0
    then some (record m { lock = swapped.1 })
    else some (record m { lock = swapped.1; place = update m.place i taken })
step_at taken m i =
    some (record m { lock = record m.lock { cpu = some i }; place = update m.place i critical })
step_at critical m i = do
  guard (holding m.lock i)
  some (record m { lock = record m.lock { cpu = none }; place = update m.place i leaving })
step_at leaving m i =
    some (record m { lock = record m.lock { locked = false }; place = update m.place i popping })
step_at popping m i = do
  c ← pop_off (m.cpus i)
  some (record m { cpus = update m.cpus i c; place = update m.place i outside })

unfoldable pub step : Machine → ℕ → Option Machine
unfolding step_at
step m i = step_at (m.place i) m i

-- The CPUs take steps in the order of the list.
unfoldable pub run : List ℕ → Machine → Option Machine
run [] m = some m
run (i ∷ is) m = do m' ← step m i; run is m'
