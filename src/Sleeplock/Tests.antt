-- ===== src/Sleeplock/Tests.antt =====
-- Two processes at one sleeplock: the second sleeps until the first releases it.
use learn_os.Base.{ℕ, ◌≡◌, refl, arith, true, false, none}
use learn_os.Proc.{Proc, running, runnable, sleeping, Channel, sleep, wakeup, each, woken}
use learn_os.Sleeplock.{initsleeplock, acquiresleep, releasesleep}
use learn_os.Sleeplock.Exclusion.{
  Users, Reach, start, next, acquires, releases, IsGuarded, IsStart, acquired, released,
  Reach-IsGuarded,
}

abbrev process : ℕ → Proc
process pid = record {
  state = running;
  chan = Channel.nothing;
  killed = false;
  xstate = 0;
  pid = pid;
  parent = none;
  trace_mask = 0;
  priority = 1;
  preempable = true;
  createtime = 0;
  runtime = 1;
  readytime = 0;
  sleeptime = 0;
  nice = 0;
  sem_want = 0;
  vforked = false;
}

abbrev users : Users
users = record { lock = initsleeplock; table = process; holds = λ i. false }

users-IsStart : IsStart 7 users
users-IsStart = record { free = refl; nobody = λ i. refl; awake = λ i h. refl }

abbrev waiting : Users
waiting = acquired 7 (acquired 7 users 1) 2

abbrev woken_up : Users
woken_up = released 7 waiting 1

second_sleeps : (waiting.table 2).state ≡ sleeping
unfolding acquiresleep initsleeplock sleep
second_sleeps = refl

second_wakes : (woken_up.table 2).state ≡ runnable
unfolding acquiresleep releasesleep initsleeplock sleep wakeup each woken
second_wakes = refl

history : Reach 7 users woken_up
unfolding acquiresleep initsleeplock sleep
history =
    next (next (next start (acquires 1 (omega arith) refl)) (acquires 2 (omega arith) refl))
      (releases 1 (omega arith) refl refl)

Reach-IsGuarded_example : IsGuarded 7 woken_up
Reach-IsGuarded_example = Reach-IsGuarded 7 users-IsStart history
