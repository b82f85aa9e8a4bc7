-- ===== src/Sleeplock/Wakeup.antt =====
-- Who sleeps on a lock, and that `wakeup` leaves nobody asleep.
use learn_os.Base.{
  ℕ, ◌+◌, ◌<◌, ◌≡◌, refl, sym, Bool, true, false, some, leb, ltb, ◌==◌, ◌&&◌, Bool-cases, inl, inr,
  ==→eq, lt→ltb, arith,
}
use learn_os.Proc.{
  nproc, Proc, ProcTable, sleeping, running, is, address, same_channel, value_of, woken, wakeup,
}
use learn_os.Proc.Table.{each_lem}

abbrev pub asleep_on : (a : ℕ) → Proc → Bool
asleep_on a p = is p.state sleeping && same_channel p.chan (address a)

pub running_awake : (a : ℕ) (p : Proc) → is p.state running ≡ true → asleep_on a p ≡ false
running_awake a p r = rw (==→eq (value_of p.state) 4 r) refl

woken_awake :
    (a cur j : ℕ) (p : Proc)
    → (j ≡ cur → is p.state running ≡ true)
    → asleep_on a (woken (some cur) (address a) j p) ≡ false
unfolding woken
woken_awake a cur j p r = elim (Bool-cases (cur == j)) [
  | inl same ↦ rw same (running_awake a p (r (sym (==→eq cur j same))))
  | inr other ↦ elim (Bool-cases (asleep_on a p)) [
    | inl t ↦ rw (other, t) refl
    | inr f ↦ rw (other, f) f
  ]
]

pub wakeup_awake :
    (t : ProcTable) (a cur j : ℕ)
    → j < nproc
    → is (t cur).state running ≡ true
    → asleep_on a (wakeup t (some cur) (address a) j) ≡ false
unfolding wakeup
wakeup_awake t a cur j h r =
    let low : leb 0 j ≡ true = ground arith in
    let high : ltb j (0 + nproc) ≡ true = lt→ltb j nproc h in
    rw (each_lem nproc 0 (woken (some cur) (address a)) t j, low, high)
      (woken_awake a cur j (t j) (λ e. rw e r))
