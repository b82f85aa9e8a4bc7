-- ===== src/Log/Tests.antt =====
-- A log of four blocks behind block 10, and a transaction of two blocks.
use learn_os.Base.{◌≡◌, refl, arith, Bool, true, false, some, [], ◌∷◌, ◌==◌, if◌then◌else◌}
use learn_os.Log.{
  Log, Blocks, write_all, commit, recover_from_log, read_head, header, write_head, write_log,
  write_log_loop, install_trans, install_loop, begin_op, log_write,
}
use learn_os.Log.Phases.{After, take, recovered}
use learn_os.Log.Recover.{IsLog, Atomic, Boots}
use learn_os.Log.Commit.{commit-Atomic, commit-After}
use learn_os.Log.Reserve.{Session, Step, Reach, IsStart, log_write-safe}

abbrev two_blocks : Log
two_blocks = record {
  start = 10;
  size = 4;
  outstanding = 0;
  committing = true;
  n = 2;
  block = λ i. if i == 0 then 20 else 30;
}

two_blocks-IsLog : IsLog two_blocks
two_blocks-IsLog = record { fits = omega arith; away = λ i h. ground arith }

-- Block 20 has 7s in the cache and block 30 has 8s; the disk has 0s.
abbrev cache : Blocks
cache b i = if b == 20 then 7 else if b == 30 then 8 else 0

abbrev disk : Blocks
disk b i = 0

-- After three writes the header is on disk; a fourth has installed block 20.
recovers_new : recovered two_blocks (write_all (take 4 (commit two_blocks cache).0.0) disk) 30 5 ≡ 8
unfolding recovered commit recover_from_log read_head header write_head write_log write_log_loop
    install_trans install_loop
recovers_new = refl

recovers_old : recovered two_blocks (write_all (take 2 (commit two_blocks cache).0.0) disk) 30 5 ≡ 0
unfolding recovered commit recover_from_log read_head header write_head write_log write_log_loop
    install_trans install_loop
recovers_old = refl

commit-Atomic_example : Atomic two_blocks disk cache (
    write_all
      (take 1
        (recover_from_log two_blocks (write_all (take 4 (commit two_blocks cache).0.0) disk)).0.0)
      (write_all (take 4 (commit two_blocks cache).0.0) disk))
commit-Atomic_example =
    commit-Atomic two_blocks cache disk 4 two_blocks-IsLog refl (Boots.crash 1 Boots.first)

commit-After_example : After two_blocks disk cache (write_all (commit two_blocks cache).0.0 disk)
commit-After_example = commit-After two_blocks cache disk two_blocks-IsLog refl (omega arith)

abbrev idle_log : Log
idle_log = record {
  start = 2;
  size = 40;
  outstanding = 0;
  committing = false;
  n = 0;
  block = λ i. 0;
}

abbrev idle : Session
idle = record { log = idle_log; left = [] }

abbrev one_op : Session
one_op = record { log = record idle_log { outstanding = 1 }; left = 10 ∷ [] }

idle-IsStart : IsStart idle
idle-IsStart = record { idle = refl; none_left = refl; empty = refl; large = omega arith }

begins_one : Step idle one_op
unfolding begin_op
begins_one = Step.begins refl refl

log_write-safe_example : (r : Bool × Log) × (log_write one_op.log 77 ≡ some r)
log_write-safe_example = log_write-safe 0 9 77 idle-IsStart (Reach.next Reach.here begins_one) refl
