-- ===== src/Spinlock/Tests.antt =====
-- Two CPUs at one lock.
use learn_os.Base.{ℕ, ◌≡◌, refl, true, false, Option, none, some, [], ◌∷◌}
use learn_os.Spinlock.{
  Cpu, Place, critical, spinning, outside, Machine, initlock, holding, run, step,
}
use learn_os.Spinlock.Nesting.{IsRestored, pops, pushes, pops-pushes}
use learn_os.Spinlock.Exclusion.{IsStart, run-IsExclusive}

abbrev running : Cpu
running = record { noff = 0; intena = false; intr = true }

abbrev machine : Machine
machine = record { cpus = λ i. running; place = λ i. outside; lock = initlock }

machine-IsStart : IsStart machine
machine-IsStart = record { free = refl; all_outside = λ i. refl; off = λ i h. absurd (elim h [ ]) }

abbrev first_two : Option Machine → Option (Place × Place)
first_two none = none
first_two (some m) = some (m.place 0, m.place 1)

-- CPU 0 takes the lock, and CPU 1 spins until CPU 0 has released it.
waits : first_two (run (0 ∷ 1 ∷ 0 ∷ 1 ∷ 0 ∷ 1 ∷ []) machine) ≡ some (critical, spinning)
unfolding run step initlock
waits = refl

takes_over :
    first_two (run (0 ∷ 1 ∷ 0 ∷ 1 ∷ 0 ∷ 1 ∷ 0 ∷ 0 ∷ 0 ∷ 1 ∷ 1 ∷ []) machine)
    ≡ some (outside, critical)
unfolding run step initlock
takes_over = refl

run-IsExclusive_example :
    (m' : Machine) × (run (0 ∷ 1 ∷ 0 ∷ 1 ∷ 0 ∷ []) machine ≡ some m')
    × ((i j : ℕ) → m'.place i ≡ critical → m'.place j ≡ critical → i ≡ j)
    × ((i : ℕ) → m'.place i ≡ critical → (holding m'.lock i ≡ true) × ((m'.cpus i).intr ≡ false))
run-IsExclusive_example = run-IsExclusive (0 ∷ 1 ∷ 0 ∷ 1 ∷ 0 ∷ []) machine machine-IsStart

pops-pushes_example : (z : Cpu) × (pops 3 (pushes 3 running) ≡ some z) × IsRestored z running
pops-pushes_example = pops-pushes 3 running (λ h. absurd (elim h [ ]))
