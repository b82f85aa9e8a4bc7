-- ===== src/Ipc/Tests.antt =====
-- The search of the IPC tables on a small table.
use learn_os.Base.{◌^◌, ◌+◌, ◌>>=◌, update, ℕ, ◌≡◌, refl, none, some, arith, ◌==◌, if◌then◌else◌}
use learn_os.Ipc.{Slot, IpcState, scan, at}
use learn_os.Ipc.Lookup.{Looked, at-Looked}
use learn_os.Ipc.Shm.{Allocator, ShmBlock, Shm, GetResult, Command, shmget}
use learn_os.Ipc.Shm.Get.{IsTable, update-IsTable, Got, shmget-Got}
use learn_os.Ipc.Shm.Control.{Controlled, shmctl-Controlled}

-- Slots 0 and 1 hold keys 4 and 8, whose hash is 0; slots 2 and 3 are unused.
abbrev four_slots : ℕ → Slot
four_slots i =
    if i == 0
    then record { key = 4; state = IpcState.used }
    else if i == 1
    then record { key = 8; state = IpcState.zombie }
    else record { key = 0; state = IpcState.unused }

finds_behind_collision : at 4 four_slots 8 ≡ some (some 1)
unfolding at scan
finds_behind_collision = refl

finds_first_unused : at 4 four_slots 12 ≡ some (some 2)
unfolding at scan
finds_first_unused = refl

full_table : at 2 four_slots 12 ≡ some none
unfolding at scan
full_table = refl

at-Looked_example : Looked 4 four_slots 12
at-Looked_example = at-Looked 4 four_slots 12 (omega arith)

-- An allocator that never takes memory back: its state is the next free address.
abbrev bump : Allocator ℕ
bump = record {
  kmalloc = λ size next. some (next, next + size);
  kmfree = λ pa size next. some next;
}

abbrev no_segment : ShmBlock
no_segment = record { sz = 0; ref_count = 0; flag = 0; key = 0; ptr = 0; state = IpcState.unused }

abbrev segment : ShmBlock
segment = record {
  sz = 100;
  ref_count = 0;
  flag = 6;
  key = 4101;
  ptr = 9000;
  state = IpcState.used;
}

abbrev one_segment : ℕ → ShmBlock
one_segment = update (λ i. no_segment) 5 segment

no_segment-IsTable : IsTable (λ i. no_segment)
no_segment-IsTable = record {
  free_key = λ i h u. refl;
  distinct = λ i j hi hj ui uj e. absurd (ground arith);
}

one_segment-IsTable : IsTable one_segment
one_segment-IsTable =
    update-IsTable (λ i. no_segment) 5 segment no_segment-IsTable (λ u. absurd (ground arith))
      (λ u j hj ne uj e. absurd (ground arith))

abbrev shm : Shm ℕ
shm = record { pool = one_segment; heap = 10000 }

shmget_finds : (do r ← shmget bump shm 4101 64 (2 ^ 15); some r.0) ≡ some (GetResult.ident 5)
unfolding shmget at scan
shmget_finds = refl

shmget-Got_example : Got bump shm 4101 100 (2 ^ 15)
shmget-Got_example =
    shmget-Got bump shm 4101 100 (2 ^ 15) one_segment-IsTable (λ e. absurd (omega arith))

shmctl-Controlled_example : Controlled bump shm 5 Command.ipc_rmid
shmctl-Controlled_example = shmctl-Controlled bump shm 5 Command.ipc_rmid one_segment-IsTable
