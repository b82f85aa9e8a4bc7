-- ===== src/Semaphore/Tests.antt =====
-- Two processes sleep on semaphore 1 of a set of two.
use learn_os.Base.{ℕ, ◌-◌, ◌^◌, ◌≡◌, refl, arith, true, false, List, [], ◌∷◌}
use learn_os.Semaphore.{
  SemBuf, Sems, OpResult, SemopResult, insert_last, get_first, erase_first, serve, signal_loop,
  wait_op, one_op, semop_loop,
}
use learn_os.Semaphore.Signal.{IsWaiting, IsQuiet, Signalled, signal_loop-Signalled}
use learn_os.Semaphore.Operation.{OpEnds, one_op-OpEnds}

abbrev no_units : Sems
no_units = record {
  nodes = λ a. record { p = 0; next = 0 };
  sem_want = λ p. 0;
  woken = [];
  sz = 2;
  sem = λ i. record { value = 0; first = 0; last = 0 };
}

-- Wait for 2 units, wait for 3 units, and a signal of some.
abbrev wait : (units : ℕ) → SemBuf
wait units = record { sem_index = 1; sem_op = 2 ^ 16 - units; nowait = false }

abbrev signal : (units : ℕ) → SemBuf
signal units = record { sem_index = 1; sem_op = units; nowait = true }

abbrev state_of : OpResult → Sems
state_of (OpResult.failed c l) = no_units
state_of (OpResult.asleep s) = s
state_of OpResult.stopped = no_units
state_of (OpResult.stepped s) = s

abbrev two_sleep : Sems
two_sleep = state_of (one_op 9 200 6 (wait 3) (state_of (one_op 9 100 5 (wait 2) no_units)))

abbrev woken_and_left : SemopResult → List ℕ × ℕ
woken_and_left (SemopResult.failed c l) = (c ∷ [], 100)
woken_and_left (SemopResult.asleep bs s) = (s.woken, 200)
woken_and_left SemopResult.stopped = ([], 300)
woken_and_left (SemopResult.returned s) = (s.woken, (s.sem 1).value)

first_is_woken : woken_and_left (semop_loop 3 300 7 (signal 4 ∷ []) two_sleep) ≡ (5 ∷ [], 2)
unfolding semop_loop one_op wait_op insert_last signal_loop get_first serve erase_first
first_is_woken = refl

both_are_woken :
    woken_and_left (semop_loop 3 300 7 (signal 4 ∷ signal 1 ∷ []) two_sleep) ≡ (5 ∷ 6 ∷ [], 0)
unfolding semop_loop one_op wait_op insert_last signal_loop get_first serve erase_first
both_are_woken = refl

sleeps_again : woken_and_left (semop_loop 3 300 7 (wait 1 ∷ []) no_units) ≡ ([], 200)
unfolding semop_loop one_op wait_op insert_last signal_loop get_first serve erase_first
sleeps_again = refl

waiting : IsWaiting two_sleep 1 (100 ∷ 200 ∷ [])
unfolding one_op wait_op insert_last
waiting = record {
  chain = (refl, (λ e. absurd (omega arith)), (refl, (λ e. absurd (omega arith)), refl));
  last = ((λ e. absurd (omega arith)), refl);
  distinct = (refl, (refl, tt));
}

quiet : IsQuiet two_sleep 1 (100 ∷ 200 ∷ [])
unfolding one_op wait_op insert_last
quiet = omega arith

signal_loop-Signalled_example : Signalled 1 two_sleep (100 ∷ 200 ∷ []) (signal_loop 3 1 two_sleep)
signal_loop-Signalled_example =
    signal_loop-Signalled 1 3 two_sleep (100 ∷ 200 ∷ []) waiting (omega arith)

one_op-OpEnds_example : OpEnds 100 5 (wait 2) no_units [] (one_op 1 100 5 (wait 2) no_units)
one_op-OpEnds_example =
    one_op-OpEnds 100 5 (wait 2) no_units [] (record { chain = refl; last = tt; distinct = tt }) tt
      (λ e. absurd (omega arith)) refl refl 1 (omega arith)
