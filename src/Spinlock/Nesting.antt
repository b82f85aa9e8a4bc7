-- ===== src/Spinlock/Nesting.antt =====
-- `push_off` and `pop_off` match.
use learn_os.Base.{
  ℕ, zero, suc, ◌-◌, ◌<◌, ◌≡◌, refl, arith, true, false, Option, some, ◌==◌, ◌&&◌, ◌>>=◌,
  if◌then◌else◌,
}
use learn_os.Spinlock.{Cpu, push_off, pop_off}

-- Within a `push_off` interrupts are off.
abbrev pub IsOff : Cpu → Type 0
IsOff c = 0 < c.noff → c.intr ≡ false

abbrev pub pushes : ℕ → Cpu → Cpu
pushes zero c = c
pushes (suc n) c = push_off (pushes n c)

abbrev pub pops : ℕ → Cpu → Option Cpu
pops zero c = some c
pops (suc n) c = do c' ← pop_off c; pops n c'

pub push_off-IsOff : (c : Cpu) → IsOff (push_off c)
unfolding push_off
push_off-IsOff c h = refl

-- The same interrupts, to the nesting and, within a `push_off`, to what the last `pop_off` restores.
pub record IsRestored (c d : Cpu) : Type 0 where
  pub noff : c.noff ≡ d.noff
  pub intr : c.intr ≡ d.intr
  pub intena : 0 < d.noff → c.intena ≡ d.intena

pop_off-IsRestored :
    (x y : Cpu)
    → IsOff y
    → IsRestored x (push_off y)
    → (z : Cpu) × (pop_off x ≡ some z) × IsRestored z y
unfolding pop_off push_off
pop_off-IsRestored x y off r = (
  z,
  ground (arith, r.intr, r.noff),
  record {
    noff = omega (arith, r.noff);
    intr = ground (arith, r.intr, r.noff, r.intena);
    intena = λ h. ground (arith, r.noff, r.intena);
  },
)
  where
    z : Cpu
    z = record x {
      noff = x.noff - 1;
      intr = if (x.noff - 1 == 0) && x.intena then true else x.intr;
    }

pushes-IsOff : (n : ℕ) (c : Cpu) → IsOff c → IsOff (pushes n c)
pushes-IsOff zero c off = off
pushes-IsOff (suc n) c off = push_off-IsOff (pushes n c)

pops_from :
    (n : ℕ) (c x : Cpu)
    → IsOff c
    → IsRestored x (pushes n c)
    → (z : Cpu) × (pops n x ≡ some z) × IsRestored z c
pops_from zero c x off r = (x, refl, r)
pops_from (suc n) c x off r =
    let (y, e, s) = pop_off-IsRestored x (pushes n c) (pushes-IsOff n c off) r in
    let (z, f, t) = pops_from n c y off s in (z, rw e f, t)

-- However deep `push_off` is nested, as many calls of `pop_off` do not panic and leave the CPU with its
-- interrupts on or off as before and at the depth from before. The condition is that interrupts are off
-- if the CPU was within a `push_off` already.
pub pops-pushes :
    (n : ℕ) (c : Cpu) → IsOff c → (z : Cpu) × (pops n (pushes n c) ≡ some z) × IsRestored z c
pops-pushes n c off =
    pops_from n c (pushes n c) off (record { noff = refl; intr = refl; intena = λ h. refl })
